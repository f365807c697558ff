-- ===== src/Plugins/Commands/Longest.antt =====
-- cli/command-registry-match.ts: the longest command that a command line begins with wins.
use maw_js.Prelude.{
  ℕ, ◌≤◌, ◌≡◌, inl, inr, refl, sym, ap, subst, Bool, true, false, Option, none, some, List, [], ◌∷◌,
  Text, length, drop, ltb, Bool-cases, arith, Memᴰ, head, tail, mem_of_cons,
}
use maw_js.Plugins.Commands.{
  split_from, with_first, CommandDescriptor, Commands, split_spaces, starts_with_parts,
  CommandMatch, len_of, better, match_from, match_command,
}

-- The command of that key is registered and the command line begins with its words.
pub record Names (args : List Text) (commands : Commands) (m : CommandMatch) : Type 0 where
  pub registered : Memᴰ (m.key, m.desc) commands
  pub begins : starts_with_parts args (split_spaces m.key) ≡ true
  pub words : m.len ≡ length (split_spaces m.key)
  pub rest : m.remaining ≡ drop m.len args

abbrev NamesAll : List Text → Commands → Option CommandMatch → Type 0
NamesAll args commands none = Unit
NamesAll args commands (some m) = Names args commands m

len_of-better :
    (args : List Text) (key : Text) (desc : CommandDescriptor) (parts : List Text)
    (best : Option CommandMatch)
    → len_of best ≤ len_of (better args key desc parts best)
len_of-better args key desc parts best = ground arith

better-covers :
    (args : List Text) (key : Text) (desc : CommandDescriptor) (parts : List Text)
    (best : Option CommandMatch)
    → starts_with_parts args parts ≡ true
    → length parts ≤ len_of (better args key desc parts best)
better-covers args key desc parts best begins = ground arith

len_of-match_from :
    (args : List Text) (commands : Commands) (best : Option CommandMatch)
    → len_of best ≤ len_of (match_from args commands best)
len_of-match_from args [] best = omega arith
len_of-match_from args ((key, desc) ∷ rest) best =
    let next = better args key desc (split_spaces key) best in
    omega
      (arith, len_of-better args key desc (split_spaces key) best, len_of-match_from args rest next)

match_from-covers :
    (args : List Text) (commands : Commands) (best : Option CommandMatch) (key : Text)
    (desc : CommandDescriptor)
    → Memᴰ (key, desc) commands
    → starts_with_parts args (split_spaces key) ≡ true
    → length (split_spaces key) ≤ len_of (match_from args commands best)
match_from-covers args [] best key desc m begins = elim m [ ]
match_from-covers args ((k, d) ∷ rest) best key desc m begins =
    let next = better args k d (split_spaces k) best in
    elim (mem_of_cons (key, desc) (k, d) rest m) [
      | inl eq ↦
          subst
            (λ w.
              starts_with_parts args (split_spaces w) ≡ true
              → length (split_spaces w) ≤ len_of (match_from args rest next))
            (sym (ap (λ e. e.0) eq))
            (λ b. omega (
              arith,
              better-covers args k d (split_spaces k) best b,
              len_of-match_from args rest next,
            ))
            begins
      | inr old ↦ match_from-covers args rest next key desc old begins
    ]

better-Names :
    (args : List Text) (all : Commands) (key : Text) (desc : CommandDescriptor)
    (best : Option CommandMatch)
    → Memᴰ (key, desc) all
    → NamesAll args all best
    → NamesAll args all (better args key desc (split_spaces key) best)
better-Names args all key desc best here names =
    elim (Bool-cases (starts_with_parts args (split_spaces key))) [
      | inl begins ↦ elim (Bool-cases (ltb (len_of best) (length (split_spaces key)))) [
        | inl longer ↦
            simp (begins, longer)
              (record { registered = here; begins = begins; words = refl; rest = refl })
        | inr not_longer ↦ simp (begins, not_longer) names
      ]
      | inr other ↦ simp (other) names
    ]

match_from-Names :
    (args : List Text) (all commands : Commands) (best : Option CommandMatch)
    → ((key : Text) (desc : CommandDescriptor) → Memᴰ (key, desc) commands → Memᴰ (key, desc) all)
    → NamesAll args all best
    → NamesAll args all (match_from args commands best)
match_from-Names args all [] best into names = names
match_from-Names args all ((key, desc) ∷ rest) best into names =
    match_from-Names args all rest (better args key desc (split_spaces key) best)
      (λ k d m. into k d (tail m)) (better-Names args all key desc best (into key desc head) names)

with_first_nonempty : (c : ℕ) (words : List Text) → 1 ≤ length (with_first c words)
with_first_nonempty c [] = omega arith
with_first_nonempty c (word ∷ words) = omega arith

split_from_nonempty : (after_space : Bool) (s : Text) → 1 ≤ length (split_from after_space s)
unfolding split_from
split_from_nonempty after_space [] = omega arith
split_from_nonempty after_space (c ∷ s) =
    ground (arith, split_from_nonempty true s, with_first_nonempty c (split_from false s))

-- What the outcome tells of all registered commands.
abbrev pub Explains : List Text → Commands → Option CommandMatch → Type 0
Explains args commands none =
    (key : Text) (desc : CommandDescriptor)
    → Memᴰ (key, desc) commands
    → starts_with_parts args (split_spaces key) ≡ false
Explains args commands (some m) =
    Names args commands m
    × ((key : Text) (desc : CommandDescriptor)
        → Memᴰ (key, desc) commands
        → starts_with_parts args (split_spaces key) ≡ true
        → length (split_spaces key) ≤ m.len)

of_covers :
    (args : List Text) (commands : Commands) (r : Option CommandMatch)
    → NamesAll args commands r
    → ((key : Text) (desc : CommandDescriptor)
        → Memᴰ (key, desc) commands
        → starts_with_parts args (split_spaces key) ≡ true
        → length (split_spaces key) ≤ len_of r)
    → Explains args commands r
of_covers args commands none names covers = λ key desc m.
    elim (Bool-cases (starts_with_parts args (split_spaces key))) [
      | inl begins ↦ ground (arith, covers key desc m begins, split_from_nonempty false key)
      | inr other ↦ other
    ]
of_covers args commands (some m) names covers = (names, covers)

match_command-Explains :
    (args : List Text) (commands : Commands) → Explains args commands (match_command args commands)
unfolding match_command
match_command-Explains args commands =
    of_covers args commands (match_from args commands none)
      (match_from-Names args commands commands none (λ k d m. m) _)
      (λ key desc m begins. match_from-covers args commands none key desc m begins)

longest_of :
    (args : List Text) (commands : Commands) (r : Option CommandMatch) (key : Text)
    (desc : CommandDescriptor)
    → Explains args commands r
    → Memᴰ (key, desc) commands
    → starts_with_parts args (split_spaces key) ≡ true
    → (m : CommandMatch) × (r ≡ some m)
      × Names args commands m
      × (length (split_spaces key) ≤ m.len)
longest_of args commands none key desc explains here begins = ground (arith, explains key desc here)
longest_of args commands (some m) key desc explains here begins =
    (m, refl, explains.0, explains.1 key desc here begins)

-- If the words of a registered command begin the arguments, a command is found: it is registered, its words begin the
-- arguments, what remains is what follows them, and it has at least as many words.
pub match_command_longest :
    (args : List Text) (commands : Commands) (key : Text) (desc : CommandDescriptor)
    → Memᴰ (key, desc) commands
    → starts_with_parts args (split_spaces key) ≡ true
    → (m : CommandMatch) × (match_command args commands ≡ some m)
      × Names args commands m
      × (length (split_spaces key) ≤ m.len)
match_command_longest args commands key desc here begins =
    longest_of args commands _ key desc (match_command-Explains args commands) here begins
