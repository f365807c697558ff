-- ===== src/Plugins/Dispatch/Completion.antt =====
-- cli/dispatch.ts: a typed word that is completed runs a plugin whatever it needs.
use maw_js.Prelude.{
  ℕ, suc, ◌≤◌, ◌≡◌, ◌∙◌, inl, inr, refl, sym, ap, subst, Bool, true, false, not, ◌&&◌, none, some,
  List, [], ◌∷◌, ◌++◌, Text, text, starts_with, lower_case, length, filter, find, any, ◌===◌,
  ===_iff, ===-refl, Bool-cases, arith, Memᴰ, filter-append,
}
use maw_js.Prelude.Dict.{lookup}
use maw_js.Plugins.{LoadedPlugin}
use maw_js.Plugins.Dependencies.{plugin_dependency_names, by_name, dependency_status}
use maw_js.Plugins.Dependencies.Sound.{Needsᴰ}
use maw_js.Plugins.Dependencies.Closure.{dependency_status_lem}
use maw_js.Plugins.Commands.{match_command}
use maw_js.Plugins.Matching.{
  plugin_cli_names, matched, unmatched, goes_on_after, resolve_plugin_match,
  validate_plugin_cli_flags, valid,
}
use maw_js.Plugins.Dispatch.{
  Installed, invoked, missing_dependency, core_routes, matched_words, after_dependencies,
  dispatch_matched, known_commands, is_prefix_of, prefix_matches, retry, after_retry, by_known,
  guess, is_headless, or_guess, by_disabled, by_enabled, dispatch_plugin_registry,
}

length_of_start : (s p : Text) → starts_with s p ≡ true → length p ≤ length s
unfolding starts_with
length_of_start s [] h = omega arith
length_of_start [] (d ∷ p) h = cc
length_of_start (c ∷ s) (d ∷ p) h = ground (arith, length_of_start s p)

starts_with_self : (s : Text) → starts_with s s ≡ true
unfolding starts_with
starts_with_self [] = refl
starts_with_self (c ∷ s) = ground (arith, starts_with_self s)

any-append {ℓ} :
    {A : Type ℓ} (p : A → Bool) (xs ys : List A)
    → any p xs ≡ false
    → any p ys ≡ false
    → any p (xs ++ ys) ≡ false
any-append p [] ys hx hy = hy
any-append p (x ∷ xs) ys hx hy = ground (arith, any-append p xs ys)

filter_none {ℓ} :
    {A : Type ℓ} (p q : A → Bool) (xs : List A)
    → ((x : A) → q x ≡ true → p x ≡ true)
    → any p xs ≡ false
    → filter q xs ≡ []
filter_none p q [] into h = refl
filter_none p q (x ∷ xs) into h = ground (arith, into x, filter_none p q xs into)

any_none {ℓ} :
    {A : Type ℓ} (p q : A → Bool) (xs : List A)
    → ((x : A) → q x ≡ true → p x ≡ true)
    → any p xs ≡ false
    → any q xs ≡ false
any_none p q [] into h = refl
any_none p q (x ∷ xs) into h = ground (arith, into x, any_none p q xs into)

length-snoc : (c : Text) (x : ℕ) → length (c ++ (x ∷ [])) ≡ suc (length c)
length-snoc [] x = refl
length-snoc (y ∷ c) x = ap suc (length-snoc c x)

-- A word that begins the name does not go on after it.
no_goes_on_after : (cmd c : Text) → starts_with c cmd ≡ true → goes_on_after cmd c ≡ false
no_goes_on_after cmd c begins = elim (Bool-cases (goes_on_after cmd c)) [
  | inl on ↦ ground (
    arith,
    length_of_start c cmd begins,
    length_of_start cmd (c ++ text " ") on,
    length-snoc c b' ',
  )
  | inr off ↦ off
]

first_of : (b d : Bool) → (b && d) ≡ true → b ≡ true
first_of b d h = ground arith

-- One installed plugin, whose command is one word in lower case, and which declares no flags; and a word in lower case
-- that begins its command and no core route.
module _ (p : LoadedPlugin) (c cmd : Text) (sessions : List Text)
    (locale_before : Text → Text → Bool)
    (cli : p.manifest.cli ≡ some (record { command = c; aliases = none; flags = none }))
    (on : p.disabled ≡ false) (lower : lower_case c ≡ c) (one_word : matched_words c ≡ 1)
    (lower_cmd : lower_case cmd ≡ cmd) (begins : is_prefix_of cmd c ≡ true)
    (free : any (λ n. starts_with (lower_case n) cmd) core_routes ≡ false) where
  abbrev installed : Installed
  installed = record {
    plugins = p ∷ [];
    commands = [];
    sessions = sessions;
    locale_before = locale_before;
  }

  names_lem : plugin_cli_names p ≡ some (record { command = c; aliases = [] })
  unfolding plugin_cli_names
  names_lem = simp (cli) refl

  starts : starts_with c cmd ≡ true
  starts = ground (arith, begins, lower)

  differs : (cmd === c) ≡ false
  differs = ground (arith, begins, lower, ===_iff c cmd, ===_iff cmd c)

  whole_matches : resolve_plugin_match (p ∷ []) c false ≡ matched p c
  unfolding resolve_plugin_match
  whole_matches = simp (on, names_lem, lower, ===-refl c) refl

  part_matches_none : resolve_plugin_match (p ∷ []) cmd false ≡ unmatched
  unfolding resolve_plugin_match
  part_matches_none = simp (on, names_lem, lower, differs, no_goes_on_after cmd c starts) refl

  known_lem : known_commands installed ≡ core_routes ++ (c ∷ [])
  unfolding known_commands
  known_lem = simp (names_lem) refl

  no_core_route : filter (is_prefix_of cmd) core_routes ≡ []
  no_core_route =
      filter_none (λ n. starts_with (lower_case n) cmd) (is_prefix_of cmd) core_routes
        (λ n h. first_of (starts_with (lower_case n) cmd) (not (lower_case n === cmd)) h) free

  only_last :
      (routes : List Text)
      → filter (is_prefix_of cmd) routes ≡ []
      → filter (is_prefix_of cmd) (routes ++ (c ∷ [])) ≡ c ∷ []
  only_last routes none_there =
      rw (filter-append (is_prefix_of cmd) routes (c ∷ []), none_there) (simp (begins) refl)

  prefix_matches_lem : prefix_matches cmd installed ≡ c ∷ []
  prefix_matches_lem =
      ap (filter (is_prefix_of cmd)) known_lem ∙ only_last core_routes no_core_route

  not_known : any (λ n. lower_case n === cmd) (known_commands installed) ≡ false
  not_known =
      let core =
        any_none (λ n. starts_with (lower_case n) cmd) (λ n. lower_case n === cmd) core_routes
          (λ n h.
            subst (λ w. starts_with w cmd ≡ true) (sym ((===_iff (lower_case n) cmd).0 h))
              (starts_with_self cmd))
          free in
      rw known_lem
        (any-append (λ n. lower_case n === cmd) core_routes (c ∷ []) core (ground (arith, begins)))

  flags_lem : validate_plugin_cli_flags p [] ≡ valid
  unfolding validate_plugin_cli_flags
  flags_lem = simp (cli) refl

  retry_lem : retry installed c [] ≡ some (invoked p [] c)
  unfolding retry match_command
  retry_lem = simp (lower, whole_matches, one_word, flags_lem) refl

  guess_runs : guess installed cmd cmd [] ≡ invoked p [] c
  unfolding guess
  guess_runs =
      ap (λ known. by_known installed cmd [] known (prefix_matches cmd installed)) not_known
      ∙ ap (by_known installed cmd [] false) prefix_matches_lem
      ∙ ap (after_retry installed c []) retry_lem

  no_disabled : filter (λ q. q.disabled) (p ∷ []) ≡ []
  no_disabled = simp (on) refl

  not_headless : find (is_headless cmd) (p ∷ []) ≡ none
  not_headless = simp (names_lem) (ground arith)

  by_disabled_runs : by_enabled installed cmd cmd [] unmatched ≡ invoked p [] c
  unfolding resolve_plugin_match
  by_disabled_runs =
      ap (λ ps. by_disabled installed cmd cmd [] (resolve_plugin_match ps (lower_case cmd) true))
        no_disabled
      ∙ ap (or_guess installed cmd cmd []) not_headless
      ∙ guess_runs

  refused_with :
      (x : Text) (args missing disabled : List Text)
      → Memᴰ x missing
      → (xs : List Text) × (after_dependencies p c args missing disabled ≡ missing_dependency xs)
        × Memᴰ x xs
  refused_with x args [] disabled m = elim m [ ]
  refused_with x args (y ∷ missing) disabled m = (y ∷ missing, refl, m)

  whole_refused :
      (x : Text)
      → Needsᴰ (by_name (p ∷ [])) (plugin_dependency_names p) x
      → lookup x (by_name (p ∷ [])) ≡ none
      → (xs : List Text) × (dispatch_matched (p ∷ []) p c (c ∷ []) ≡ missing_dependency xs)
        × Memᴰ x xs
  unfolding dispatch_matched
  whole_refused x needed absent =
      let deps = dependency_status p (p ∷ []) in
      refused_with x (c ∷ []) deps.missing deps.disabled
        ((dependency_status_lem p (p ∷ []) x).1.1 (needed, absent))

  -- Where exactly one plugin is installed, enabled, with a command of one lower-case word and without aliases and flags, no
  -- command is registered, and a shorter lower-case word, typed without arguments, begins the command and no core route:
  -- if the plugin needs a name that no plugin has, the typed command is refused with a list of missing plugins that has
  -- the name, but the word that begins it runs the plugin.
  pub completion_skips_dependencies :
      (x : Text)
      → Needsᴰ (by_name (p ∷ [])) (plugin_dependency_names p) x
      → lookup x (by_name (p ∷ [])) ≡ none
      → ((missing : List Text) × (dispatch_plugin_registry installed c c []
            ≡ missing_dependency missing)
          × Memᴰ x missing)
        × (dispatch_plugin_registry installed cmd cmd [] ≡ invoked p [] c)
  unfolding dispatch_plugin_registry
  completion_skips_dependencies x needed absent =
      let (xs, refused, m) = whole_refused x needed absent in
      (
        (
          xs,
          ap (by_enabled installed c c [])
                (ap (λ w. resolve_plugin_match (p ∷ []) w false) lower ∙ whole_matches)
              ∙ refused,
          m,
        ),
        ap (by_enabled installed cmd cmd [])
              (ap (λ w. resolve_plugin_match (p ∷ []) w false) lower_cmd ∙ part_matches_none)
            ∙ by_disabled_runs,
      )
