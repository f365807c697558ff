-- ===== src/Plugins/Dependencies/Closure.antt =====
-- plugin/dependencies.ts: the search finds exactly the plugins that are needed.
use maw_js.Prelude.{
  ℕ, zero, suc, ◌≤◌, ◌<◌, ◌≡◌, ◌↔◌, inl, inr, refl, sym, subst, Bool, true, false, Option, none,
  some, List, [], ◌∷◌, Text, length, ap, arith, Memᴰ, head, tail, mem_of_cons,
}
use maw_js.Prelude.Dict.{Dict, lookup}
use maw_js.Names.{includes_text}
use maw_js.Plugins.{LoadedPlugin}
use maw_js.Plugins.Dependencies.{
  plugin_dependency_names, by_name, Search, blank, for_each, leave, mark, visit_with, visit,
  dependency_status,
}
use maw_js.Plugins.Dependencies.Unseen.{
  member_of_seen, unseen, unseen-cons, unseen-cons_known, unseen_le,
}
use maw_js.Plugins.Dependencies.Sound.{
  Needsᴰ, root, child, IsDisabled, IsSound, IsSound-mark_missing, IsSound-mark, IsSound-leave,
}

module _ (index : Dict LoadedPlugin) (roots : List Text) where
  -- What a visit to the names keeps, and that it has seen them.
  record Covers (active names : List Text) (s s' : Search) : Type 0 where
    pub sound : IsSound index roots active s'
    pub grows : (x : Text) → Memᴰ x s.seen → Memᴰ x s'.seen
    pub covers : (x : Text) → Memᴰ x names → Memᴰ x s'.seen
    pub shrinks : unseen index s'.seen ≤ unseen index s.seen

  Covers-for_each :
      (go : Text → Search → Search) (active names : List Text) (k : ℕ)
      → ((n : Text) (s : Search)
          → IsSound index roots active s
          → Needsᴰ index roots n
          → unseen index s.seen < k
          → Covers active (n ∷ []) s (go n s))
      → (s : Search) → IsSound index roots active s
      → ((n : Text) → Memᴰ n names → Needsᴰ index roots n)
      → unseen index s.seen < k
      → Covers active names s (for_each go names s)
  Covers-for_each go active [] k each s sound needed few = record {
    sound = sound;
    grows = λ x m. m;
    covers = λ x m. elim m [ ];
    shrinks = omega arith;
  }
  Covers-for_each go active (n ∷ names) k each s sound needed few =
      let first = each n s sound (needed n head) few in
      let rest =
        Covers-for_each go active names k each (go n s) first.sound (λ x m. needed x (tail m))
          (omega (arith, few, first.shrinks)) in
      record {
        sound = rest.sound;
        grows = λ x m. rest.grows x (first.grows x m);
        covers = λ x m. elim (mem_of_cons x n names m) [
          | inl eq ↦
              subst (λ y. Memᴰ y (for_each go names (go n s)).seen) (sym eq)
                (rest.grows n (first.covers n head))
          | inr old ↦ rest.covers x old
        ];
        shrinks = omega (arith, first.shrinks, rest.shrinks);
      }

  seen-leave : (name : Text) (b : Bool) (s : Search) → (leave name b s).seen ≡ s.seen
  seen-leave name true s = refl
  seen-leave name false s = refl

  covers_one : (n : Text) (xs : List Text) → Memᴰ n xs → (x : Text) → Memᴰ x (n ∷ []) → Memᴰ x xs
  covers_one n xs m x l = elim (mem_of_cons x n [] l) [
    | inl eq ↦ subst (λ y. Memᴰ y xs) (sym eq) m
    | inr nil ↦ elim nil [ ]
  ]

  -- What `visit` is to give with that fuel.
  abbrev CoversFrom : ℕ → (Text → Search → Search) → Type 0
  CoversFrom fuel go =
      (active : List Text) (n : Text) (s : Search)
      → IsSound index roots active s
      → Needsᴰ index roots n
      → unseen index s.seen < fuel
      → Covers active (n ∷ []) s (go n s)

  Covers-visit_with :
      (fuel : ℕ) (go : Text → Search → Search)
      → CoversFrom fuel go
      → (active : List Text) (n : Text) (s : Search) → IsSound index roots active s
      → Needsᴰ index roots n
      → unseen index s.seen < suc fuel
      → (b : Bool) (found : Option LoadedPlugin) → includes_text n s.seen ≡ b
      → lookup n index ≡ found
      → Covers active (n ∷ []) s (visit_with go n b found s)
  Covers-visit_with fuel go each active n s sound needed few true found known e = record {
    sound = sound;
    grows = λ x m. m;
    covers = covers_one n s.seen (member_of_seen n s.seen known);
    shrinks = omega arith;
  }
  Covers-visit_with fuel go each active n s sound needed few false none new e = record {
    sound = IsSound-mark_missing index roots active n s sound needed e;
    grows = λ x m. tail m;
    covers = covers_one n (n ∷ s.seen) head;
    shrinks = unseen-cons index n s.seen;
  }
  Covers-visit_with fuel go each active n s sound needed few false (some dep) new e =
      let names = plugin_dependency_names dep in
      let inner =
        Covers-for_each go (n ∷ active) names fuel (each (n ∷ active)) (mark n s)
          (IsSound-mark index roots active n dep s sound needed e) (λ y m. child needed e m)
          (omega (arith, few, unseen-cons_known index n s.seen dep e new)) in
      let s' = for_each go names (mark n s) in
      let same = seen-leave n dep.disabled s' in
      let here = inner.grows n head in
      record {
        sound =
            IsSound-leave index roots active n dep s' inner.sound e here inner.covers dep.disabled
              refl;
        grows = λ x m. subst (Memᴰ x) (sym same) (inner.grows x (tail m));
        covers = covers_one n (leave n dep.disabled s').seen (subst (Memᴰ n) (sym same) here);
        shrinks = omega (arith, inner.shrinks, unseen-cons index n s.seen, ap (unseen index) same);
      }

  -- A visit keeps the invariant and sees its name: the fuel is above the number of unseen plugins.
  Covers-visit : (fuel : ℕ) → CoversFrom fuel (visit fuel index)
  unfolding visit
  Covers-visit zero active n s sound needed few = ground arith
  Covers-visit (suc fuel) active n s sound needed few =
      Covers-visit_with fuel (visit fuel index) (Covers-visit fuel) active n s sound needed few
        (includes_text n s.seen) (lookup n index) refl refl

IsSound-blank : (index : Dict LoadedPlugin) (roots : List Text) → IsSound index roots [] blank
IsSound-blank index roots = record {
  reached = λ x m. elim m [ ];
  finished = λ x dep m f. elim m [ ];
  absent = λ x m f. elim m [ ];
  of_disabled = λ x m. elim m [ ];
  of_missing = λ x m. elim m [ ];
}

module _ (plugin : LoadedPlugin) (plugins : List LoadedPlugin) where
  abbrev index : Dict LoadedPlugin
  index = by_name plugins

  abbrev roots : List Text
  roots = plugin_dependency_names plugin

  abbrev found : Search
  found = for_each (visit (suc (length index)) index) roots blank

  found-Covers : Covers index roots [] roots blank found
  found-Covers =
      Covers-for_each index roots (visit (suc (length index)) index) [] roots (suc (length index))
        (Covers-visit index roots (suc (length index)) []) blank (IsSound-blank index roots)
        (λ n m. root m) (omega (arith, unseen_le index []))

  seen_of_needed : (x : Text) → Needsᴰ index roots x → Memᴰ x found.seen
  seen_of_needed x (root m) = found-Covers.covers x m
  seen_of_needed x (child {by = by} {dep = dep} needed e m) =
      elim (found-Covers.sound.finished by dep (seen_of_needed by needed) e) [
        | inl o ↦ elim o [ ]
        | inr done ↦ done.1 x m
      ]

  disabled_of_needed :
      (x : Text) → Needsᴰ index roots x → IsDisabled index x → Memᴰ x found.disabled
  disabled_of_needed x needed (dep, e, is) =
      elim (found-Covers.sound.finished x dep (seen_of_needed x needed) e) [
        | inl o ↦ elim o [ ]
        | inr done ↦ done.0 is
      ]

  -- For any plugin and installed plugins, dependencies in a circle included, the status of the plugin tells as disabled
  -- exactly the disabled plugins that it needs through any number of others, and as missing exactly the needed names
  -- that no plugin has.
  pub dependency_status_lem :
      (x : Text)
      → (Memᴰ x (dependency_status plugin plugins).disabled
          ↔ (Needsᴰ index roots x × IsDisabled index x))
        × (Memᴰ x (dependency_status plugin plugins).missing
            ↔ (Needsᴰ index roots x × (lookup x index ≡ none)))
  unfolding dependency_status
  dependency_status_lem x =
      let sound = found-Covers.sound in
      (
        (
          λ m. let (seen, is) = sound.of_disabled x m in (sound.reached x seen, is),
          λ h. disabled_of_needed x h.0 h.1,
        ),
        (
          λ m. let (seen, no_plugin) = sound.of_missing x m in (sound.reached x seen, no_plugin),
          λ h. sound.absent x (seen_of_needed x h.0) h.1,
        ),
      )
