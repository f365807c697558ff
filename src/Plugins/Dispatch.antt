-- ===== src/Plugins/Dispatch.antt =====
-- cli/dispatch.ts: what a command line that no core route takes comes to. What follows the choice, as the running of the
-- plugin, is not modelled. The installed plugins, the registered commands, the names of the running sessions and the
-- order of `localeCompare` are one record. There is always a first argument, and `cmd` is its lower case.
pub mod Runs
pub mod Ladder
pub mod Completion
use maw_js.Prelude.{
  ℕ, Bool, true, false, not, ◌&&◌, ◌||◌, Option, none, some, List, [], ◌∷◌, ◌++◌, map, Text, text,
  is_empty, starts_with, lower_case, length, drop, filter, find, any, all, leb, ◌==◌, ◌===◌,
  if◌then◌else◌,
}
use maw_js.Names.{includes_text, unique_from, unique_strings, strip_number, non_empty}
use maw_js.Fuzzy.{fuzzy_match}
use maw_js.Plugins.{LoadedPlugin}
use maw_js.Plugins.Dependencies.{PluginDependencyStatus, dependency_status, enable_plan_for}
use maw_js.Plugins.Commands.{
  CommandDescriptor, Commands, split_from, split_spaces, CommandMatch, match_command, list_commands,
}
use maw_js.Plugins.Matching.{
  CliNames, plugin_cli_names, DispatchMatch, matched, ambiguous, unmatched, resolve_plugin_match,
  FlagValidation, valid, unknown_flag, validate_plugin_cli_flags,
}

pub record Installed : Type 0 where
  pub plugins : List LoadedPlugin
  pub commands : Commands
  pub sessions : List Text
  pub locale_before : Text → Text → Bool

pub data DispatchOutcome : Type 0 where
  ambiguous_command : DispatchOutcome
  missing_dependency disabled_dependency : List Text → DispatchOutcome
  bad_flag : (flag : Text) → DispatchOutcome
  invoked : (plugin : LoadedPlugin) (remaining : List Text) (matched_name : Text) → DispatchOutcome
  disabled_command : (plan : List Text) → DispatchOutcome
  ambiguous_disabled : DispatchOutcome
  headless : (name : Text) → DispatchOutcome
  executed : CommandMatch → DispatchOutcome
  printed_version : DispatchOutcome
  ran_update : (args : List Text) → DispatchOutcome
  unknown_command : (close : List Text) → DispatchOutcome
  sent : (target message : Text) (force : Bool) → DispatchOutcome
  peeked : (target : Text) → DispatchOutcome

abbrev pub core_routes : List Text
core_routes =
    text "hey"
    ∷ text "send"
    ∷ text "plugins"
    ∷ text "plugin"
    ∷ text "artifacts"
    ∷ text "artifact"
    ∷ text "agents"
    ∷ text "agent"
    ∷ text "audit"
    ∷ text "serve"
    ∷ text "update"
    ∷ text "upgrade"
    ∷ text "version"
    ∷ []

-- `args.join(" ")`
abbrev pub join_spaces : List Text → Text
join_spaces [] = []
join_spaces (arg ∷ []) = arg
join_spaces (arg ∷ other ∷ args) = arg ++ (b' ' ∷ join_spaces (other ∷ args))

unfoldable pub matched_words : Text → ℕ
unfolding split_from
matched_words name = length (non_empty (split_spaces name))

abbrev pub after_flags : LoadedPlugin → Text → List Text → FlagValidation → DispatchOutcome
after_flags p name remaining (unknown_flag flag) = bad_flag flag
after_flags p name remaining valid = invoked p remaining name

-- From the words that the name takes on: the flags, and the plugin.
abbrev pub invoke_matched : LoadedPlugin → Text → List Text → DispatchOutcome
invoke_matched p name args =
    let remaining = drop (matched_words name) args in
    after_flags p name remaining (validate_plugin_cli_flags p remaining)

abbrev pub after_dependencies :
    LoadedPlugin → Text → List Text → (missing disabled : List Text) → DispatchOutcome
after_dependencies p name args (x ∷ missing) disabled = missing_dependency (x ∷ missing)
after_dependencies p name args [] (x ∷ disabled) = disabled_dependency (x ∷ disabled)
after_dependencies p name args [] [] = invoke_matched p name args

-- A match with an enabled plugin.
unfoldable pub dispatch_matched :
    List LoadedPlugin → LoadedPlugin → Text → List Text → DispatchOutcome
unfolding dependency_status matched_words validate_plugin_cli_flags
dispatch_matched plugins p name args =
    let deps = dependency_status p plugins in
    after_dependencies p name args deps.missing deps.disabled

-- The names that `listCommands` gives, and before them those of the routes and the plugins.
abbrev pub names_of_cli : Option CliNames → List Text
names_of_cli none = []
names_of_cli (some names) = names.command ∷ names.aliases

abbrev pub plugin_names : List LoadedPlugin → List Text
plugin_names [] = []
plugin_names (p ∷ plugins) = names_of_cli (plugin_cli_names p) ++ plugin_names plugins

abbrev pub descriptor_names : List CommandDescriptor → List Text
descriptor_names [] = []
descriptor_names (desc ∷ descs) = desc.names ++ descriptor_names descs

unfoldable pub known_commands : Installed → List Text
unfolding plugin_cli_names
known_commands m =
    core_routes ++ (plugin_names m.plugins ++ descriptor_names (list_commands m.commands))

abbrev pub is_prefix_of : Text → Text → Bool
is_prefix_of cmd name = starts_with (lower_case name) cmd && not (lower_case name === cmd)

abbrev pub prefix_matches : Text → Installed → List Text
prefix_matches cmd m = filter (is_prefix_of cmd) (known_commands m)

-- The routes that are taken before the plugins.
abbrev pub retry_route : Text → List Text → Option DispatchOutcome
retry_route resolved rest =
    if resolved === text "version"
    then some printed_version
    else (if resolved === text "update" || resolved === text "upgrade"
        then some (ran_update rest)
        else none)

abbrev pub retry_plugin : Text → List Text → DispatchMatch → Option DispatchOutcome
retry_plugin resolved rest (matched p name) = some (invoke_matched p name (resolved ∷ rest))
retry_plugin resolved rest _ = retry_route resolved rest

abbrev pub retry_with :
    List LoadedPlugin → Text → List Text → Option CommandMatch → Option DispatchOutcome
retry_with plugins resolved rest (some found) = some (executed found)
retry_with plugins resolved rest none =
    retry_plugin resolved rest
      (resolve_plugin_match plugins (lower_case (join_spaces (resolved ∷ rest))) false)

-- The command line again, with the one command that the typed word begins in its place.
unfoldable pub retry : Installed → (resolved : Text) → List Text → Option DispatchOutcome
unfolding match_command resolve_plugin_match matched_words validate_plugin_cli_flags ◌===◌
retry m resolved rest =
    retry_with m.plugins resolved rest (match_command (resolved ∷ rest) m.commands)

abbrev pub is_name_char : ℕ → Bool
is_name_char c =
    (leb b'a' c && leb c b'z') || (leb b'A' c && leb c b'Z') || (leb b'0' c && leb c b'9')

-- `/^[a-z0-9][a-z0-9:_-]*$/i`
abbrev pub has_oracle_shape : Text → Bool
has_oracle_shape [] = false
has_oracle_shape (c ∷ s) =
    is_name_char c && all (λ d. is_name_char d || d == b':' || d == b'_' || d == b'-') s

abbrev pub is_session_of : (target : Text) → Text → Bool
is_session_of target session =
    let name = lower_case session in name === target || strip_number name === target

unfoldable pub is_oracle : Installed → Text → Bool
unfolding strip_number ◌===◌
is_oracle m arg = has_oracle_shape arg && any (is_session_of (lower_case arg)) m.sessions

-- `maw <agent> <msg>` or `maw <agent>`
abbrev pub shorthand : Text → List Text → DispatchOutcome
shorthand arg [] = peeked arg
shorthand arg (x ∷ rest) =
    sent arg (join_spaces (filter (λ a. not (a === text "--force")) (x ∷ rest)))
      (includes_text (text "--force") (arg ∷ x ∷ rest))

-- An unknown command, or the name of an agent, which is looked for only if no command is near.
abbrev pub unknown_or_agent : Installed → Text → List Text → (close : List Text) → DispatchOutcome
unknown_or_agent m arg rest (name ∷ close) = unknown_command (name ∷ close)
unknown_or_agent m arg rest [] = if is_oracle m arg then shorthand arg rest else unknown_command []

unfoldable pub near_commands : Installed → Text → List Text
unfolding fuzzy_match known_commands
near_commands m arg = fuzzy_match m.locale_before arg (known_commands m) 3 2

abbrev pub after_retry : Installed → Text → List Text → Option DispatchOutcome → DispatchOutcome
after_retry m resolved rest (some outcome) = outcome
after_retry m resolved rest none = unknown_or_agent m resolved rest (near_commands m resolved)

-- The names that the typed word begins, as they are written and in lower case.
abbrev pub by_prefix : Installed → Text → List Text → (found unique : List Text) → DispatchOutcome
by_prefix m arg rest (resolved ∷ found) (name ∷ []) =
    after_retry m resolved rest (retry m resolved rest)
by_prefix m arg rest found (name ∷ other ∷ unique) =
    unknown_or_agent m arg rest (name ∷ other ∷ unique)
by_prefix m arg rest found unique = unknown_or_agent m arg rest (near_commands m arg)

-- A command of that name is known, and runs elsewhere; or the names that the word begins decide.
abbrev pub by_known :
    Installed → Text → List Text → (known : Bool) → (found : List Text) → DispatchOutcome
by_known m arg rest true found = shorthand arg rest
by_known m arg rest false found = by_prefix m arg rest found (unique_strings (map lower_case found))

unfoldable pub guess : Installed → (cmd : Text) → Text → List Text → DispatchOutcome
unfolding known_commands retry is_oracle near_commands starts_with unique_from
guess m cmd arg rest =
    by_known m arg rest (any (λ n. lower_case n === cmd) (known_commands m)) (prefix_matches cmd m)

abbrev pub takes_no_command : Option CliNames → Bool
takes_no_command none = true
takes_no_command (some _) = false

-- An enabled plugin of that name that takes no command.
abbrev pub is_headless : Text → LoadedPlugin → Bool
is_headless arg p =
    not p.disabled
    && (lower_case p.manifest.name === lower_case arg)
    && takes_no_command (plugin_cli_names p)

abbrev pub or_guess :
    Installed → (cmd : Text) → Text → List Text → Option LoadedPlugin → DispatchOutcome
or_guess m cmd arg rest (some p) = headless arg
or_guess m cmd arg rest none = guess m cmd arg rest

abbrev pub plan_or_name : LoadedPlugin → List Text → List Text
plan_or_name p [] = p.manifest.name ∷ []
plan_or_name p (x ∷ plan) = x ∷ plan

-- No enabled plugin matches: what the disabled ones say.
abbrev pub by_disabled :
    Installed → (cmd : Text) → Text → List Text → DispatchMatch → DispatchOutcome
by_disabled m cmd arg rest (matched p _) =
    disabled_command (plan_or_name p (enable_plan_for p m.plugins true))
by_disabled m cmd arg rest (ambiguous _) = ambiguous_disabled
by_disabled m cmd arg rest unmatched = or_guess m cmd arg rest (find (is_headless arg) m.plugins)

abbrev pub by_enabled :
    Installed → (cmd : Text) → Text → List Text → DispatchMatch → DispatchOutcome
by_enabled m cmd arg rest (ambiguous _) = ambiguous_command
by_enabled m cmd arg rest (matched p name) = dispatch_matched m.plugins p name (arg ∷ rest)
by_enabled m cmd arg rest unmatched = by_disabled m cmd arg rest (
    resolve_plugin_match (filter (λ p. p.disabled) m.plugins)
      (lower_case (join_spaces (arg ∷ rest))) true)

unfoldable pub dispatch_plugin_registry :
    Installed → (cmd : Text) → Text → List Text → DispatchOutcome
unfolding resolve_plugin_match dispatch_matched enable_plan_for plugin_cli_names guess ◌===◌
dispatch_plugin_registry m cmd arg rest =
    by_enabled m cmd arg rest
      (resolve_plugin_match m.plugins (lower_case (join_spaces (arg ∷ rest))) false)
