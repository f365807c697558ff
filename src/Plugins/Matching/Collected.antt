-- ===== src/Plugins/Matching/Collected.antt =====
-- cli/dispatch-match.ts: what every hit that the loop collects has.
use maw_js.Prelude.{
  ◌≡◌, ◌⊎◌, inl, inr, refl, sym, Bool, true, false, not, ◌&&◌, Option, none, some, List, [], ◌∷◌,
  map, Text, is_empty, lower_case, ◌===◌, ===_iff, if◌then◌else◌, Bool-cases, arith, Memᴰ, head,
  tail, All, All-append,
}
use maw_js.Plugins.{LoadedPlugin}
use maw_js.Peers.Store.{truthy}
use maw_js.Plugins.Matching.{
  CliNames, plugin_cli_names, Hit, Hits, goes_on_after, alias_hits, hit_of, push_alias, push_names,
  push_hits, collect_hits, or_hits, winners_of,
}

-- The name is the plugin's command or one of its aliases, in lower case.
pub record HasName (p : LoadedPlugin) (name : Text) : Type 0 where
  pub names : CliNames
  pub known : plugin_cli_names p ≡ some names
  pub listed : (name ≡ lower_case names.command) ⊎ Memᴰ name (map lower_case names.aliases)

-- A plugin of the list that takes part, and one of its names, which is the command line or is followed by a space in it.
pub record IsHit (plugins : List LoadedPlugin) (cmd_name : Text) (include_disabled : Bool)
    (hit : Hit) : Type 0 where
  pub member : Memᴰ hit.plugin plugins
  pub takes_part : (hit.plugin.disabled && not include_disabled) ≡ false
  pub named : HasName hit.plugin hit.matched_name
  pub fits : (hit.matched_name ≡ cmd_name) ⊎ (goes_on_after cmd_name hit.matched_name ≡ true)

abbrev IfSome {ℓ κ} : {A : Type ℓ} → (A → Type κ) → Option A → Type κ
IfSome P none = Unit
IfSome P (some a) = P a

IfSome-if {ℓ κ} :
    {A : Type ℓ} (P : A → Type κ) (b : Bool) (a : A) (o : Option A)
    → (b ≡ true → P a)
    → IfSome P o
    → IfSome P (if b then some a else o)
IfSome-if P true a o here there = here refl
IfSome-if P false a o here there = there

second_of : (b c : Bool) → (b && c) ≡ true → c ≡ true
second_of b c h = ground arith

module _ (plugins : List LoadedPlugin) (cmd_name : Text) (include_disabled : Bool) where
  abbrev pub Any : Hit → Type 0
  Any = IsHit plugins cmd_name include_disabled

  abbrev pub Exact : Hit → Type 0
  Exact hit = Any hit × (hit.matched_name ≡ cmd_name)

  pub record IsSound (hits : Hits) : Type 0 where
    pub exact_commands : All Exact hits.exact_command
    pub exact_aliases : All Exact hits.exact_alias
    pub prefix_commands : All Any hits.prefix_command
    pub prefix_aliases : All Any hits.prefix_alias

  -- What the loop over the aliases gives.
  abbrev IsAlias : List Text → Text → Type 0
  IsAlias aliases name = Memᴰ name (map lower_case aliases) × (name ≡ cmd_name)

  abbrev IsAliasPrefix : List Text → Text → Type 0
  IsAliasPrefix aliases name =
      Memᴰ name (map lower_case aliases) × (goes_on_after cmd_name name ≡ true)

  alias_hits_lem :
      (all aliases : List Text)
      → ((name : Text) → Memᴰ name (map lower_case aliases) → Memᴰ name (map lower_case all))
      → (prefix_hit : Option Text) → IfSome (IsAliasPrefix all) prefix_hit
      → IfSome (IsAlias all) (alias_hits cmd_name aliases prefix_hit).0
        × IfSome (IsAliasPrefix all) (alias_hits cmd_name aliases prefix_hit).1
  alias_hits_lem all [] into prefix_hit known = (_, known)
  alias_hits_lem all (alias ∷ aliases) into prefix_hit known =
      let lower = lower_case alias in
      let here = into lower head in
      let next =
        if not (truthy prefix_hit) && goes_on_after cmd_name lower
        then some lower
        else prefix_hit in
      elim (Bool-cases (cmd_name === lower)) [
        | inl same ↦ simp (same) ((here, sym ((===_iff cmd_name lower).0 same)), known)
        | inr differ ↦ simp (differ) (
            alias_hits_lem all aliases (λ n m. into n (tail m)) next
              (IfSome-if (IsAliasPrefix all)
                (not (truthy prefix_hit) && goes_on_after cmd_name lower) lower prefix_hit
                (λ b. (here, second_of (not (truthy prefix_hit)) (goes_on_after cmd_name lower) b))
                known))
      ]

  hit_of_lem :
      (P : Hit → Type 0) (p : LoadedPlugin) (found : Option Text)
      → IfSome (λ name. P (record { plugin = p; matched_name = name })) found
      → All P (hit_of p found)
  hit_of_lem P p none h = _
  hit_of_lem P p (some name) h = elim (Bool-cases (is_empty name)) [
    | inl empty ↦ simp (empty) _
    | inr some_text ↦ simp (some_text) (h, _)
  ]

  IfSome-map :
      (P Q : Text → Type 0) (o : Option Text)
      → ((name : Text) → P name → Q name)
      → IfSome P o
      → IfSome Q o
  IfSome-map P Q none f h = _
  IfSome-map P Q (some name) f h = f name h

  module _ (p : LoadedPlugin) (names : CliNames) (known : plugin_cli_names p ≡ some names)
      (here : Memᴰ p plugins) (active : (p.disabled && not include_disabled) ≡ false) where
    abbrev hit : Text → Hit
    hit name = record { plugin = p; matched_name = name }

    whole_command_hit : cmd_name ≡ lower_case names.command → Exact (hit (lower_case names.command))
    whole_command_hit e = (
      record {
        member = here;
        takes_part = active;
        named = record { names = names; known = known; listed = inl refl };
        fits = inl (sym e);
      },
      sym e,
    )

    prefix_command_hit :
        goes_on_after cmd_name (lower_case names.command) ≡ true
        → Any (hit (lower_case names.command))
    prefix_command_hit e = record {
      member = here;
      takes_part = active;
      named = record { names = names; known = known; listed = inl refl };
      fits = inr e;
    }

    alias_hit : (name : Text) → IsAlias names.aliases name → Exact (hit name)
    alias_hit name (m, e) = (
      record {
        member = here;
        takes_part = active;
        named = record { names = names; known = known; listed = inr m };
        fits = inl e;
      },
      e,
    )

    alias_prefix_hit : (name : Text) → IsAliasPrefix names.aliases name → Any (hit name)
    alias_prefix_hit name (m, e) = record {
      member = here;
      takes_part = active;
      named = record { names = names; known = known; listed = inr m };
      fits = inr e;
    }

    IsSound-push_alias :
        (found : Option Text × Option Text) (hits : Hits)
        → IfSome (IsAlias names.aliases) found.0
        → IfSome (IsAliasPrefix names.aliases) found.1
        → IsSound hits
        → IsSound (push_alias p found hits)
    IsSound-push_alias (exact, prefix) hits is_exact is_prefix sound =
        elim (Bool-cases (truthy exact)) [
          | inl full ↦ simp (full) (record {
            exact_commands = sound.exact_commands;
            exact_aliases =
                All-append Exact hits.exact_alias (hit_of p exact) sound.exact_aliases
                  (hit_of_lem Exact p exact (IfSome-map _ _ exact alias_hit is_exact));
            prefix_commands = sound.prefix_commands;
            prefix_aliases = sound.prefix_aliases;
          })
          | inr empty ↦ simp (empty) (record {
            exact_commands = sound.exact_commands;
            exact_aliases = sound.exact_aliases;
            prefix_commands = sound.prefix_commands;
            prefix_aliases =
                All-append Any hits.prefix_alias (hit_of p prefix) sound.prefix_aliases
                  (hit_of_lem Any p prefix (IfSome-map _ _ prefix alias_prefix_hit is_prefix));
          })
        ]

    IsSound-push_named :
        (hits : Hits) → IsSound hits → IsSound (push_names cmd_name p (some names) hits)
    IsSound-push_named hits sound =
        let command = lower_case names.command in
        elim (Bool-cases (cmd_name === command)) [
          | inl same ↦ simp (same) (record {
            exact_commands =
                All-append Exact hits.exact_command (hit command ∷ []) sound.exact_commands
                  (whole_command_hit ((===_iff cmd_name command).0 same), _);
            exact_aliases = sound.exact_aliases;
            prefix_commands = sound.prefix_commands;
            prefix_aliases = sound.prefix_aliases;
          })
          | inr differ ↦ elim (Bool-cases (goes_on_after cmd_name command)) [
            | inl on ↦
                simp (differ, on)
                  (record {
                    exact_commands = sound.exact_commands;
                    exact_aliases = sound.exact_aliases;
                    prefix_commands =
                        All-append Any hits.prefix_command (hit command ∷ []) sound.prefix_commands
                          (prefix_command_hit on, _);
                    prefix_aliases = sound.prefix_aliases;
                  })
            | inr off ↦
                let found = alias_hits_lem names.aliases names.aliases (λ n m. m) none _ in
                simp (differ, off)
                  (IsSound-push_alias (alias_hits cmd_name names.aliases none) hits found.0 found.1
                    sound)
          ]
        ]

  IsSound-push_names :
      (p : LoadedPlugin) (names : Option CliNames) (hits : Hits)
      → plugin_cli_names p ≡ names
      → Memᴰ p plugins
      → (p.disabled && not include_disabled) ≡ false
      → IsSound hits
      → IsSound (push_names cmd_name p names hits)
  IsSound-push_names p none hits known here active sound = sound
  IsSound-push_names p (some names) hits known here active sound =
      IsSound-push_named p names known here active hits sound

  IsSound-push_hits :
      (p : LoadedPlugin) (hits : Hits)
      → Memᴰ p plugins
      → IsSound hits
      → IsSound (push_hits cmd_name include_disabled p hits)
  IsSound-push_hits p hits here sound = elim (Bool-cases (p.disabled && not include_disabled)) [
    | inl out ↦ simp (out) sound
    | inr active ↦
        simp (active) (IsSound-push_names p (plugin_cli_names p) hits refl here active sound)
  ]

  pub IsSound-collect_hits :
      (ps : List LoadedPlugin) (hits : Hits)
      → ((p : LoadedPlugin) → Memᴰ p ps → Memᴰ p plugins)
      → IsSound hits
      → IsSound (collect_hits cmd_name include_disabled ps hits)
  IsSound-collect_hits [] hits into sound = sound
  IsSound-collect_hits (p ∷ ps) hits into sound =
      IsSound-collect_hits ps (push_hits cmd_name include_disabled p hits) (λ q m. into q (tail m))
        (IsSound-push_hits p hits (into p head) sound)

  All-or_hits : (P : Hit → Type 0) (xs ys : List Hit) → All P xs → All P ys → All P (or_hits xs ys)
  All-or_hits P [] ys hx hy = hy
  All-or_hits P (x ∷ xs) ys hx hy = hx

  All-weaken : (xs : List Hit) → All Exact xs → All Any xs
  All-weaken [] h = _
  All-weaken (x ∷ xs) h = (h.0.0, All-weaken xs h.1)

  pub winners_of-IsHit : (hits : Hits) → IsSound hits → All Any (winners_of hits)
  winners_of-IsHit hits sound =
      All-or_hits Any hits.exact_command _ (All-weaken hits.exact_command sound.exact_commands) (
        All-or_hits Any hits.exact_alias _ (All-weaken hits.exact_alias sound.exact_aliases)
          (All-or_hits Any hits.prefix_command _ sound.prefix_commands sound.prefix_aliases))
