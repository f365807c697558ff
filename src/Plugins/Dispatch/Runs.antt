-- ===== src/Plugins/Dispatch/Runs.antt =====
-- cli/dispatch.ts: with what a matched plugin is run.
use maw_js.Prelude.{
  ◌≡◌, ◌⊎◌, inl, inr, refl, subst, Bool, true, false, none, some, List, [], ◌∷◌, ◌++◌, Text, text,
  ◌===◌, lower_case, drop, any, Bool-cases, Option-cases, Memᴰ, arith, member_of_any, ap, ===_iff,
}
use maw_js.Prelude.Dict.{Dict, lookup}
use maw_js.Names.{includes_text}
use maw_js.Plugins.{LoadedPlugin}
use maw_js.Plugins.Dependencies.{plugin_dependency_names, by_name, dependency_status}
use maw_js.Plugins.Dependencies.Sound.{Needsᴰ}
use maw_js.Plugins.Dependencies.Closure.{dependency_status_lem}
use maw_js.Plugins.Matching.{
  matched, resolve_plugin_match, FlagValidation, valid, unknown_flag, validate_plugin_cli_flags,
  universal_plugin_flags, flag_name, takes_next, allowed, check_flags, declared_flags,
}
use maw_js.Plugins.Matching.Collected.{IsHit}
use maw_js.Plugins.Matching.Boundary.{resolve_plugin_match_lem}
use maw_js.Plugins.Dispatch.{
  invoked, join_spaces, matched_words, after_flags, invoke_matched, after_dependencies,
  dispatch_matched,
}

-- A flag is the plugin's own, or one that each plugin takes.
abbrev pub IsDeclared : Dict Text → Text → Type 0
IsDeclared declared name =
    ((type : Text) × (f : Text × Text) × Memᴰ f declared × (f ≡ (name, type)))
    ⊎ Memᴰ name universal_plugin_flags

-- What stands before an argument that is read as a flag: no `--`, and right before it no flag that takes it as its value.
abbrev pub IsBeforeFlag : Dict Text → List Text → Type 0
IsBeforeFlag declared [] = Unit
IsBeforeFlag declared (arg ∷ []) =
    ((arg === text "--") ≡ false)
    × ((name : Text) → flag_name arg ≡ some name → takes_next (lookup name declared) arg ≡ false)
IsBeforeFlag declared (arg ∷ next ∷ argv) =
    ((arg === text "--") ≡ false) × IsBeforeFlag declared (next ∷ argv)

-- An enabled plugin by one of its names at a word's end. Where it declares flags, each argument that is read as a flag
-- is one of them or a universal one.
pub record Runs (plugins : List LoadedPlugin) (args : List Text) (p : LoadedPlugin)
    (remaining : List Text) (name : Text) : Type 0 where
  pub hit :
      IsHit plugins
        (lower_case (join_spaces args))
        false
        (record { plugin = p; matched_name = name })
  pub flags :
      (declared : Dict Text) (before after : List Text) (arg flag : Text)
      → declared_flags p.manifest.cli ≡ some declared
      → remaining ≡ before ++ (arg ∷ after)
      → IsBeforeFlag declared before
      → flag_name arg ≡ some flag
      → IsDeclared declared flag

-- Every plugin that the plugin needs is installed and enabled.
abbrev pub IsMet : List LoadedPlugin → LoadedPlugin → Type 0
IsMet plugins p =
    (x : Text)
    → Needsᴰ (by_name plugins) (plugin_dependency_names p) x
    → (dep : LoadedPlugin) × (lookup x (by_name plugins) ≡ some dep) × (dep.disabled ≡ false)

allowed-IsDeclared :
    (declared : Dict Text) (name : Text) → allowed declared name ≡ true → IsDeclared declared name
allowed-IsDeclared declared name e = elim (Bool-cases (any (λ f. f.0 === name) declared)) [
  | inl own ↦
      let (f, m, same) = member_of_any (λ f. f.0 === name) declared own in
      inl (f.1, f, m, ap (λ n. (n, f.1)) ((===_iff f.0 name).0 same))
  | inr other ↦
      let listed : includes_text name universal_plugin_flags ≡ true = simp (other) at e in
      let (x, m, same) = member_of_any (λ x. x === name) universal_plugin_flags listed in
      inr (subst (λ n. Memᴰ n universal_plugin_flags) ((===_iff x name).0 same) m)
]

-- A flag is no `--`.
flag_is_no_end : (arg name : Text) → flag_name arg ≡ some name → (arg === text "--") ≡ false
unfolding flag_name
flag_is_no_end arg name is = elim (Bool-cases (arg === text "--")) [
  | inl end ↦ cc (simp (end) at is)
  | inr more ↦ more
]

-- What the loop does at a flag that it does not refuse, and at another argument.
check_flags-flag :
    (declared : Dict Text) (arg name : Text) (argv : List Text)
    → flag_name arg ≡ some name
    → check_flags declared false (arg ∷ argv) ≡ valid
    → IsDeclared declared name
      × (check_flags declared (takes_next (lookup name declared) arg) argv ≡ valid)
unfolding check_flags
check_flags-flag declared arg name argv is e = elim (Bool-cases (allowed declared name)) [
  | inl ok ↦
      (allowed-IsDeclared declared name ok, ground (arith, flag_is_no_end arg name is, is, ok, e))
  | inr refused ↦ ground (arith, flag_is_no_end arg name is, is, refused, e)
]

check_flags-plain :
    (declared : Dict Text) (arg : Text) (argv : List Text)
    → (arg === text "--") ≡ false
    → flag_name arg ≡ none
    → check_flags declared false (arg ∷ argv) ≡ valid
    → check_flags declared false argv ≡ valid
unfolding check_flags
check_flags-plain declared arg argv more plain e = ground (arith, more, plain, e)

-- An argument that the loop comes to as a flag is declared, where the loop finds no unknown one.
check_flags-IsDeclared :
    (declared : Dict Text) (skip : Bool) (before after : List Text) (arg flag : Text)
    → (before ≡ [] → skip ≡ false)
    → check_flags declared skip (before ++ (arg ∷ after)) ≡ valid
    → IsBeforeFlag declared before
    → flag_name arg ≡ some flag
    → IsDeclared declared flag
unfolding check_flags
check_flags-IsDeclared declared skip [] after arg flag free e h is =
    (check_flags-flag declared arg flag after is
      (subst (λ b. check_flags declared b (arg ∷ after) ≡ valid) (free refl) e)).0
check_flags-IsDeclared declared true (b ∷ []) after arg flag free e h is =
    check_flags-IsDeclared declared false [] after arg flag (λ _. refl) e tt is
check_flags-IsDeclared declared true (b ∷ c ∷ before) after arg flag free e h is =
    check_flags-IsDeclared declared false (c ∷ before) after arg flag (λ _. refl) e h.1 is
check_flags-IsDeclared declared false (b ∷ []) after arg flag free e h is =
    elim (Option-cases (flag_name b)) [
      | inl plain ↦
          check_flags-IsDeclared declared false [] after arg flag (λ _. refl)
            (check_flags-plain declared b (arg ∷ after) h.0 plain e) tt is
      | inr (name, flagged) ↦
          check_flags-IsDeclared declared (takes_next (lookup name declared) b) [] after arg flag
            (λ _. h.1 name flagged) (check_flags-flag declared b name (arg ∷ after) flagged e).1 tt
            is
    ]
check_flags-IsDeclared declared false (b ∷ c ∷ before) after arg flag free e h is =
    elim (Option-cases (flag_name b)) [
      | inl plain ↦
          check_flags-IsDeclared declared false (c ∷ before) after arg flag (λ _. refl)
            (check_flags-plain declared b (c ∷ before ++ (arg ∷ after)) h.0 plain e) h.1 is
      | inr (name, flagged) ↦
          check_flags-IsDeclared declared (takes_next (lookup name declared) b) (c ∷ before) after
            arg flag (λ empty. cc)
            (check_flags-flag declared b name (c ∷ before ++ (arg ∷ after)) flagged e).1 h.1 is
    ]

validate-IsDeclared :
    (p : LoadedPlugin) (declared : Dict Text) (before after : List Text) (arg flag : Text)
    (remaining : List Text)
    → validate_plugin_cli_flags p remaining ≡ valid
    → declared_flags p.manifest.cli ≡ some declared
    → remaining ≡ before ++ (arg ∷ after)
    → IsBeforeFlag declared before
    → flag_name arg ≡ some flag
    → IsDeclared declared flag
unfolding validate_plugin_cli_flags
validate-IsDeclared p declared before after arg flag remaining e own split h is =
    check_flags-IsDeclared declared false before after arg flag (λ _. refl)
      (subst (λ argv. check_flags declared false argv ≡ valid) split (simp (own) at e)) h is

after_flags_lem :
    (p q : LoadedPlugin) (name n : Text) (args remaining : List Text) (v : FlagValidation)
    → after_flags p name args v ≡ invoked q remaining n
    → (p ≡ q) × (name ≡ n) × (args ≡ remaining) × (v ≡ valid)
after_flags_lem p q name n args remaining valid e = (cc, cc, cc, refl)
after_flags_lem p q name n args remaining (unknown_flag flag) e = cc

pub invoke_matched-Runs :
    (plugins : List LoadedPlugin) (args : List Text) (p q : LoadedPlugin) (name n : Text)
    (remaining : List Text)
    → resolve_plugin_match plugins (lower_case (join_spaces args)) false ≡ matched p name
    → invoke_matched p name args ≡ invoked q remaining n
    → Runs plugins args q remaining n
invoke_matched-Runs plugins args p q name n remaining found e =
    let (same, same_name, same_rest, ok) =
      after_flags_lem p q name n (drop (matched_words name) args) remaining _ e in
    let found' : resolve_plugin_match plugins (lower_case (join_spaces args)) false ≡ matched q n =
      cc in
    record {
      hit = (resolve_plugin_match_lem plugins (lower_case (join_spaces args)) false q n found').0;
      flags = λ declared before after arg flag.
          validate-IsDeclared q declared before after arg flag remaining cc;
    }

after_dependencies_lem :
    (p q : LoadedPlugin) (name n : Text) (args remaining missing disabled : List Text)
    → after_dependencies p name args missing disabled ≡ invoked q remaining n
    → (missing ≡ []) × (disabled ≡ []) × (invoke_matched p name args ≡ invoked q remaining n)
after_dependencies_lem p q name n args remaining (x ∷ missing) disabled e = cc
after_dependencies_lem p q name n args remaining [] (x ∷ disabled) e = cc
after_dependencies_lem p q name n args remaining [] [] e = (refl, refl, e)

IsMet-dependency_status :
    (plugins : List LoadedPlugin) (p : LoadedPlugin)
    → (dependency_status p plugins).missing ≡ []
    → (dependency_status p plugins).disabled ≡ []
    → IsMet plugins p
IsMet-dependency_status plugins p no_missing no_disabled x needed =
    let (disabled, missing) = dependency_status_lem p plugins x in
    elim (Option-cases (lookup x (by_name plugins))) [
      | inl e ↦ elim (subst (Memᴰ x) no_missing (missing.1 (needed, e))) [ ]
      | inr (dep, e) ↦ elim (Bool-cases dep.disabled) [
        | inl is ↦ elim (subst (Memᴰ x) no_disabled (disabled.1 (needed, (dep, e, is)))) [ ]
        | inr on ↦ (dep, e, on)
      ]
    ]

pub dispatch_matched-Runs :
    (plugins : List LoadedPlugin) (args : List Text) (p q : LoadedPlugin) (name n : Text)
    (remaining : List Text)
    → resolve_plugin_match plugins (lower_case (join_spaces args)) false ≡ matched p name
    → dispatch_matched plugins p name args ≡ invoked q remaining n
    → Runs plugins args q remaining n × IsMet plugins q
unfolding dispatch_matched
dispatch_matched-Runs plugins args p q name n remaining found e =
    let (no_missing, no_disabled, run) =
      after_dependencies_lem p q name n args remaining (dependency_status p plugins).missing
        (dependency_status p plugins).disabled e in
    let same = (after_flags_lem p q name n (drop (matched_words name) args) remaining _ run).0 in
    (
      invoke_matched-Runs plugins args p q name n remaining found run,
      subst (IsMet plugins) same (IsMet-dependency_status plugins p no_missing no_disabled),
    )
