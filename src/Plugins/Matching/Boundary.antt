-- ===== src/Plugins/Matching/Boundary.antt =====
-- cli/dispatch-match.ts: a plugin is matched only by one of its names, at a word's end, and by its command first.
use maw_js.Prelude.{
  ◌≡◌, inl, inr, refl, sym, subst, Bool, false, not, ◌&&◌, Option, none, some, List, [], ◌∷◌, Text,
  lower_case, ◌===◌, ===_iff, Bool-cases, arith, ◌≤◌, length, length-append, Memᴰ, head, tail, All,
}
use maw_js.Plugins.{LoadedPlugin}
use maw_js.Peers.Store.{truthy}
use maw_js.Plugins.Matching.{
  CliNames, plugin_cli_names, Hit, Hits, no_hits, goes_on_after, alias_hits, push_alias, push_names,
  push_hits, collect_hits, or_hits, winners_of, matched, decide_match, resolve_plugin_match,
}
use maw_js.Plugins.Matching.Collected.{
  IsHit, Any, Exact, IsSound, winners_of-IsHit, IsSound-collect_hits,
}

module _ (plugins : List LoadedPlugin) (cmd_name : Text) (include_disabled : Bool) where
  same_hit :
      (hit : Hit) (p : LoadedPlugin) (name : Text)
      → matched hit.plugin hit.matched_name ≡ matched p name
      → hit ≡ record { plugin = p; matched_name = name }
  same_hit hit p name e = cc

  matched_of_one :
      (winners : List Hit) (p : LoadedPlugin) (name : Text) (P : Hit → Type 0)
      → All P winners
      → decide_match winners ≡ matched p name
      → P (record { plugin = p; matched_name = name })
  matched_of_one [] p name P h e = cc
  matched_of_one (hit ∷ []) p name P h e = subst P (same_hit hit p name e) h.0
  matched_of_one (hit ∷ other ∷ more) p name P h e = cc

  push_alias-grows :
      (p : LoadedPlugin) (found : Option Text × Option Text) (hits : Hits)
      → length (push_alias p found hits).exact_command ≡ length hits.exact_command
  push_alias-grows p (exact, prefix) hits = elim (Bool-cases (truthy exact)) [
    | inl full ↦ simp (full) refl
    | inr empty ↦ simp (empty) refl
  ]

  push_names-grows :
      (p : LoadedPlugin) (names : Option CliNames) (hits : Hits)
      → length hits.exact_command ≤ length (push_names cmd_name p names hits).exact_command
  push_names-grows p none hits = omega arith
  push_names-grows p (some names) hits =
      let command = lower_case names.command in
      elim (Bool-cases (cmd_name === command)) [
        | inl same ↦ simp (same) (
            omega (
              arith,
              length-append hits.exact_command (record { plugin = p; matched_name = command } ∷ []),
            ))
        | inr differ ↦ elim (Bool-cases (goes_on_after cmd_name command)) [
          | inl on ↦ simp (differ, on) (omega arith)
          | inr off ↦
              simp (differ, off)
                (omega (arith, push_alias-grows p (alias_hits cmd_name names.aliases none) hits))
        ]
      ]

  push_hits-grows :
      (p : LoadedPlugin) (hits : Hits)
      → length hits.exact_command
        ≤ length (push_hits cmd_name include_disabled p hits).exact_command
  push_hits-grows p hits = elim (Bool-cases (p.disabled && not include_disabled)) [
    | inl out ↦ simp (out) (omega arith)
    | inr active ↦ simp (active) (push_names-grows p (plugin_cli_names p) hits)
  ]

  -- A plugin that takes part and whose command the command line is.
  pub record IsOwner (q : LoadedPlugin) : Type 0 where
    pub takes_part : (q.disabled && not include_disabled) ≡ false
    pub names : CliNames
    pub known : plugin_cli_names q ≡ some names
    pub owns : lower_case names.command ≡ cmd_name

  push_named-owner :
      (q : LoadedPlugin) (names : CliNames) (hits : Hits)
      → lower_case names.command ≡ cmd_name
      → 1 ≤ length (push_names cmd_name q (some names) hits).exact_command
  push_named-owner q names hits e =
      let command = lower_case names.command in
      simp ((===_iff cmd_name command).1 (sym e)) (
        omega (
          arith,
          length-append hits.exact_command (record { plugin = q; matched_name = command } ∷ []),
        ))

  push_hits-owner :
      (q : LoadedPlugin) (hits : Hits)
      → IsOwner q
      → 1 ≤ length (push_hits cmd_name include_disabled q hits).exact_command
  push_hits-owner q hits owner =
      simp (owner.takes_part, owner.known) (push_named-owner q owner.names hits owner.owns)

  collect_hits-grows :
      (ps : List LoadedPlugin) (hits : Hits)
      → length hits.exact_command
        ≤ length (collect_hits cmd_name include_disabled ps hits).exact_command
  collect_hits-grows [] hits = omega arith
  collect_hits-grows (p ∷ ps) hits = omega (
    arith,
    push_hits-grows p hits,
    collect_hits-grows ps (push_hits cmd_name include_disabled p hits),
  )

  collect_hits-owner :
      (ps : List LoadedPlugin) (hits : Hits) (q : LoadedPlugin)
      → Memᴰ q ps
      → IsOwner q
      → 1 ≤ length (collect_hits cmd_name include_disabled ps hits).exact_command
  collect_hits-owner [] hits q m owner = elim m [ ]
  collect_hits-owner (_ ∷ ps) hits q head owner =
      let next = push_hits cmd_name include_disabled q hits in
      omega (arith, push_hits-owner q hits owner, collect_hits-grows ps next)
  collect_hits-owner (p ∷ ps) hits q (tail m) owner =
      collect_hits-owner ps (push_hits cmd_name include_disabled p hits) q m owner

  or_hits-full :
      (P : Hit → Type 0) (xs ys : List Hit) → 1 ≤ length xs → All P xs → All P (or_hits xs ys)
  or_hits-full P [] ys full h = ground arith
  or_hits-full P (x ∷ xs) ys full h = h

  abbrev collected : Hits
  collected = collect_hits cmd_name include_disabled plugins no_hits

  collected-IsSound : IsSound plugins cmd_name include_disabled collected
  collected-IsSound =
      IsSound-collect_hits plugins cmd_name include_disabled plugins no_hits (λ p m. m)
        (record { exact_commands = _; exact_aliases = _; prefix_commands = _; prefix_aliases = _ })

  -- The plugin that is matched is in the list and takes part, and the name it is matched by is one of its names, which
  -- is the whole command line or is followed by a space in it; it is the whole, if it is the command of a plugin that
  -- takes part.
  pub resolve_plugin_match_lem :
      (p : LoadedPlugin) (name : Text)
      → resolve_plugin_match plugins cmd_name include_disabled ≡ matched p name
      → IsHit plugins cmd_name include_disabled (record { plugin = p; matched_name = name })
        × ((q : LoadedPlugin) → Memᴰ q plugins → IsOwner q → name ≡ cmd_name)
  unfolding resolve_plugin_match
  resolve_plugin_match_lem p name e = (
    matched_of_one (winners_of collected) p name (Any plugins cmd_name include_disabled)
        (winners_of-IsHit plugins cmd_name include_disabled collected collected-IsSound) e,
    λ q m owner.
        (matched_of_one (winners_of collected) p name (Exact plugins cmd_name include_disabled)
          (or_hits-full (Exact plugins cmd_name include_disabled) collected.exact_command _
            (collect_hits-owner plugins no_hits q m owner) collected-IsSound.exact_commands)
          e).1,
  )
