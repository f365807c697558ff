-- ===== src/Plugins/Dependencies/Sound.antt =====
-- plugin/dependencies.ts: what holds of a search between two visits.
use maw_js.Prelude.{
  ◌≡◌, ◌⊎◌, inl, inr, sym, subst, Bool, true, false, none, some, List, [], ◌∷◌, ◌++◌, Text, Memᴰ,
  head, tail, mem_of_cons,
}
use maw_js.Prelude.Dict.{Dict, lookup}
use maw_js.Plugins.{LoadedPlugin}
use maw_js.Plugins.Dependencies.{plugin_dependency_names, Search, leave, mark}
use maw_js.Plugins.Dependencies.Unseen.{mem-snoc_left, mem-snoc_last, mem_of_snoc}

-- A plugin is needed if it is a root, or a dependency of an installed one that is needed, enabled or not.
pub data Needsᴰ (index : Dict LoadedPlugin) (roots : List Text) : Text → Type 0 where
  root : {name : Text} → Memᴰ name roots → Needsᴰ index roots name
  child :
      {by name : Text} {dep : LoadedPlugin}
      → Needsᴰ index roots by
      → lookup by index ≡ some dep
      → Memᴰ name (plugin_dependency_names dep)
      → Needsᴰ index roots name

module _ (index : Dict LoadedPlugin) where
  -- The index has the plugin, and it is disabled.
  abbrev pub IsDisabled : Text → Type 0
  IsDisabled name = (dep : LoadedPlugin) × (lookup name index ≡ some dep) × (dep.disabled ≡ true)

  module _ (roots : List Text) where
    -- What holds of a search between two visits, inside those of `active`.
    pub record IsSound (active : List Text) (s : Search) : Type 0 where
      pub reached : (x : Text) → Memᴰ x s.seen → Needsᴰ index roots x
      pub finished :
          (x : Text) (dep : LoadedPlugin)
          → Memᴰ x s.seen
          → lookup x index ≡ some dep
          → Memᴰ x active
            ⊎ ((dep.disabled ≡ true → Memᴰ x s.disabled)
                × ((y : Text) → Memᴰ y (plugin_dependency_names dep) → Memᴰ y s.seen))
      pub absent : (x : Text) → Memᴰ x s.seen → lookup x index ≡ none → Memᴰ x s.missing
      pub of_disabled : (x : Text) → Memᴰ x s.disabled → Memᴰ x s.seen × IsDisabled x
      pub of_missing : (x : Text) → Memᴰ x s.missing → Memᴰ x s.seen × (lookup x index ≡ none)

    pub IsSound-mark_missing :
        (active : List Text) (name : Text) (s : Search)
        → IsSound active s
        → Needsᴰ index roots name
        → lookup name index ≡ none
        → IsSound active (record s { seen = name ∷ s.seen; missing = s.missing ++ (name ∷ []) })
    IsSound-mark_missing active name s sound needed e = record {
      reached = λ x m. elim (mem_of_cons x name s.seen m) [
        | inl eq ↦ subst (Needsᴰ index roots) (sym eq) needed
        | inr old ↦ sound.reached x old
      ];
      finished = λ x dep m f. elim (mem_of_cons x name s.seen m) [
        | inl eq ↦ cc
        | inr old ↦ elim (sound.finished x dep old f) [
          | inl o ↦ inl o
          | inr done ↦ inr (done.0, λ y n. tail (done.1 y n))
        ]
      ];
      absent = λ x m f. elim (mem_of_cons x name s.seen m) [
        | inl eq ↦
            subst (λ y. Memᴰ y (s.missing ++ (name ∷ []))) (sym eq) (mem-snoc_last name s.missing)
        | inr old ↦ mem-snoc_left x name s.missing (sound.absent x old f)
      ];
      of_disabled = λ x m. let (seen, is) = sound.of_disabled x m in (tail seen, is);
      of_missing = λ x m. elim (mem_of_snoc x name s.missing m) [
        | inl old ↦ let (seen, none_there) = sound.of_missing x old in (tail seen, none_there)
        | inr eq ↦ subst (λ y. Memᴰ y (name ∷ s.seen) × (lookup y index ≡ none)) (sym eq) (head, e)
      ];
    }

    pub IsSound-mark :
        (active : List Text) (name : Text) (dep : LoadedPlugin) (s : Search)
        → IsSound active s
        → Needsᴰ index roots name
        → lookup name index ≡ some dep
        → IsSound (name ∷ active) (mark name s)
    IsSound-mark active name dep s sound needed e = record {
      reached = λ x m. elim (mem_of_cons x name s.seen m) [
        | inl eq ↦ subst (Needsᴰ index roots) (sym eq) needed
        | inr old ↦ sound.reached x old
      ];
      finished = λ x dep' m f. elim (mem_of_cons x name s.seen m) [
        | inl eq ↦ inl (subst (λ y. Memᴰ y (name ∷ active)) (sym eq) head)
        | inr old ↦ elim (sound.finished x dep' old f) [
          | inl o ↦ inl (tail o)
          | inr done ↦ inr (done.0, λ y n. tail (done.1 y n))
        ]
      ];
      absent = λ x m f. elim (mem_of_cons x name s.seen m) [
        | inl eq ↦ cc
        | inr old ↦ sound.absent x old f
      ];
      of_disabled = λ x m. let (seen, is) = sound.of_disabled x m in (tail seen, is);
      of_missing = λ x m. let (seen, none_there) = sound.of_missing x m in (tail seen, none_there);
    }

    same_plugin :
        (x name : Text) (dep' dep : LoadedPlugin)
        → x ≡ name
        → lookup x index ≡ some dep'
        → lookup name index ≡ some dep
        → dep' ≡ dep
    same_plugin x name dep' dep eq f e = cc

    -- The plugin leaves the active ones once its dependencies have been seen.
    pub IsSound-leave :
        (active : List Text) (name : Text) (dep : LoadedPlugin) (s : Search)
        → IsSound (name ∷ active) s
        → lookup name index ≡ some dep
        → Memᴰ name s.seen
        → ((y : Text) → Memᴰ y (plugin_dependency_names dep) → Memᴰ y s.seen)
        → (disabled : Bool) → dep.disabled ≡ disabled
        → IsSound active (leave name disabled s)
    IsSound-leave active name dep s sound e here children true is = record {
      reached = sound.reached;
      finished = λ x dep' m f. elim (sound.finished x dep' m f) [
        | inl o ↦ elim (mem_of_cons x name active o) [
          | inl eq ↦ inr (
            λ _.
                subst (λ y. Memᴰ y (s.disabled ++ (name ∷ []))) (sym eq)
                  (mem-snoc_last name s.disabled),
            λ y n. children y (
                subst (λ d. Memᴰ y (plugin_dependency_names d)) (same_plugin x name dep' dep eq f e)
                  n),
          )
          | inr o' ↦ inl o'
        ]
        | inr done ↦ inr (λ d. mem-snoc_left x name s.disabled (done.0 d), done.1)
      ];
      absent = sound.absent;
      of_disabled = λ x m. elim (mem_of_snoc x name s.disabled m) [
        | inl old ↦ sound.of_disabled x old
        | inr eq ↦ subst (λ y. Memᴰ y s.seen × IsDisabled y) (sym eq) (here, (dep, e, is))
      ];
      of_missing = sound.of_missing;
    }
    IsSound-leave active name dep s sound e here children false is = record {
      reached = sound.reached;
      finished = λ x dep' m f. elim (sound.finished x dep' m f) [
        | inl o ↦ elim (mem_of_cons x name active o) [
          | inl eq ↦ inr (
            λ d. let same = same_plugin x name dep' dep eq f e in cc,
            λ y n. children y (
                subst (λ d. Memᴰ y (plugin_dependency_names d)) (same_plugin x name dep' dep eq f e)
                  n),
          )
          | inr o' ↦ inl o'
        ]
        | inr done ↦ inr done
      ];
      absent = sound.absent;
      of_disabled = sound.of_disabled;
      of_missing = sound.of_missing;
    }
