-- ===== src/Plugins/Commands.antt =====
-- cli/command-registry-match.ts: the commands that files register, and the one that a command line names.
pub mod Longest
use maw_js.Prelude.{
  ℕ, zero, suc, Bool, true, false, not, ◌&&◌, Option, none, some, List, [], ◌∷◌, Text, is_empty,
  is_space, lower_case, trim, length, drop, ltb, ◌===◌, if◌then◌else◌,
}
use maw_js.Prelude.Dict.{Dict, insert}
use maw_js.Names.{includes_text}

pub record CommandDescriptor : Type 0 where
  pub names : List Text
  pub path : Text
  pub is_builtin : Bool

abbrev pub Commands : Type 0
Commands = Dict CommandDescriptor

-- `registerCommand`, over the names of the descriptor.
abbrev pub register_names : CommandDescriptor → List Text → Commands → Commands
register_names desc [] commands = commands
register_names desc (n ∷ names) commands =
    register_names desc names (insert (trim (lower_case n)) desc commands)

unfoldable pub register_command : CommandDescriptor → Commands → Commands
unfolding insert trim
register_command desc commands = register_names desc desc.names commands

-- `s.split(/\s+/)`
abbrev pub with_first : ℕ → List Text → List Text
with_first c [] = (c ∷ []) ∷ []
with_first c (word ∷ words) = (c ∷ word) ∷ words

unfoldable pub split_from : (after_space : Bool) → Text → List Text
unfolding is_space
split_from after_space [] = [] ∷ []
split_from after_space (c ∷ s) =
    let more = split_from true s in
    let word = split_from false s in
    if is_space c then (if after_space then more else [] ∷ more) else with_first c word

abbrev pub split_spaces : Text → List Text
split_spaces = split_from false

-- The loop over the parts of a key: an argument that is missing or empty ends it.
abbrev pub starts_with_parts : List Text → List Text → Bool
starts_with_parts args [] = true
starts_with_parts [] (part ∷ parts) = false
starts_with_parts (arg ∷ args) (part ∷ parts) =
    not (is_empty arg) && (lower_case arg === part) && starts_with_parts args parts

pub record CommandMatch : Type 0 where
  pub desc : CommandDescriptor
  pub remaining : List Text
  pub key : Text
  pub len : ℕ

abbrev pub len_of : Option CommandMatch → ℕ
len_of none = 0
len_of (some best) = best.len

-- One round of the loop over the commands.
abbrev pub better :
    List Text
    → (key : Text) → CommandDescriptor
    → List Text
    → Option CommandMatch
    → Option CommandMatch
better args key desc parts best =
    if starts_with_parts args parts && ltb (len_of best) (length parts)
    then some (record {
      desc = desc;
      remaining = drop (length parts) args;
      key = key;
      len = length parts;
    })
    else best

abbrev pub match_from : List Text → Commands → Option CommandMatch → Option CommandMatch
match_from args [] best = best
match_from args ((key, desc) ∷ rest) best =
    match_from args rest (better args key desc (split_spaces key) best)

unfoldable pub match_command : List Text → Commands → Option CommandMatch
unfolding split_from
match_command args commands = match_from args commands none

-- `listCommands`: of the commands of one file, the first.
abbrev pub list_from : (seen : List Text) → Commands → List CommandDescriptor
list_from seen [] = []
list_from seen ((_, desc) ∷ rest) = elim (includes_text desc.path seen) [
  | true ↦ list_from seen rest
  | false ↦ desc ∷ list_from (desc.path ∷ seen) rest
]

abbrev pub list_commands : Commands → List CommandDescriptor
list_commands = list_from []
