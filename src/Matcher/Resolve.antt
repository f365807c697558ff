-- ===== src/Matcher/Resolve.antt =====
-- core/matcher/resolve-target.ts. Items are a type with a name.
use maw_js.Prelude.{
  ℕ, length, Bool, true, false, not, ◌&&◌, ◌||◌, Option, none, some, List, [], ◌∷◌, ◌++◌, Text,
  text, ◌===◌, ◌==◌, is_empty, trim, lower_case, starts_with, ends_with, includes, find, filter,
  get_elem?, if◌then◌else◌,
}
use maw_js.Names.{
  is_numbered, strip_number, strip_oracle_any_case, includes_text, unique_strings, non_empty,
}

pub data ResolveResult {ℓ} (A : Type ℓ) : Type ℓ where
  missing : (hints : List A) → ResolveResult A
  exact fuzzy : A → ResolveResult A
  ambiguous : (candidates : List A) → ResolveResult A

-- One match is picked, several are ambiguous, and none hands over to the next tier.
abbrev pub pick {ℓ} : {A : Type ℓ} → List A → ResolveResult A → ResolveResult A
pick [] next = next
pick (a ∷ []) next = fuzzy a
pick (a ∷ b ∷ more) next = ambiguous (a ∷ b ∷ more)

module _ {ℓ} {A : Type ℓ} (name : A → Text) where
  abbrev pub lower_name : A → Text
  lower_name a = lower_case (name a)

  abbrev pub is_exact : (lc : Text) → A → Bool
  is_exact lc a = lower_name a === lc

  unfoldable pub is_suffix : (lc : Text) → A → Bool
  unfolding ends_with
  is_suffix lc a = ends_with (lower_name a) (b'-' ∷ lc)

  unfoldable pub is_prefix_or_middle : (fleet_sessions : Bool) → (lc : Text) → A → Bool
  unfolding starts_with includes
  is_prefix_or_middle fleet_sessions lc a =
      not (fleet_sessions && is_numbered (lower_name a))
      && (starts_with (lower_name a) (lc ++ text "-")
          || includes (lower_name a) ((b'-' ∷ lc) ++ text "-"))

  unfoldable pub is_hint : (lc : Text) → A → Bool
  unfolding includes
  is_hint lc a = includes (lower_name a) lc

  abbrev pub key_of_target : Text → Text
  key_of_target target = lower_case (trim target)

  -- The tiers after the exact one. Absent hints are the empty list.
  unfoldable pub fuzzy_tiers : (fleet_sessions : Bool) → (lc : Text) → List A → ResolveResult A
  unfolding is_suffix is_prefix_or_middle is_hint
  fuzzy_tiers fleet_sessions lc items = pick (filter (is_suffix lc) items) (
      pick (filter (is_prefix_or_middle fleet_sessions lc) items)
        (missing (filter (is_hint lc) items)))

  abbrev pub exact_or : Option A → ResolveResult A → ResolveResult A
  exact_or (some a) next = exact a
  exact_or none next = next

  unfoldable pub resolve_by_name :
      (target : Text) → List A → (fleet_sessions : Bool) → ResolveResult A
  unfolding fuzzy_tiers trim
  resolve_by_name target items fleet_sessions =
      let lc = key_of_target target in
      if is_empty lc
      then missing []
      else exact_or (find (is_exact lc) items) (fuzzy_tiers fleet_sessions lc items)

  unfoldable pub resolve_session_target : (target : Text) → List A → ResolveResult A
  unfolding resolve_by_name
  resolve_session_target target items = resolve_by_name target items true

  unfoldable pub resolve_worktree_target : (target : Text) → List A → ResolveResult A
  unfolding resolve_by_name
  resolve_worktree_target target items = resolve_by_name target items false

  -- The first character of the rest of a stem after the target is there and no dash.
  abbrev pub goes_on : Option ℕ → Bool
  goes_on none = false
  goes_on (some c) = not (c == b'-')

  unfoldable pub is_stem_prefix : (lc : Text) → A → Bool
  unfolding strip_number starts_with
  is_stem_prefix lc a =
      is_numbered (lower_name a)
      && starts_with (strip_number (lower_name a)) lc
      && goes_on (get_elem? (strip_number (lower_name a)) (length lc))

  unfoldable pub resolve_numeric_fleet_stem_prefix : (target : Text) → List A → ResolveResult A
  unfolding is_stem_prefix trim
  resolve_numeric_fleet_stem_prefix target items =
      let lc = key_of_target target in
      if is_empty lc then missing [] else pick (filter (is_stem_prefix lc) items) (missing [])

-- A window of a fleet session's metadata; its fields may be absent.
pub record FleetWindow : Type 0 where
  pub name : Option Text
  pub repo : Option Text

-- `repo.split("/").pop()`
unfoldable pub after_last_slash : Text → Text → Text
after_last_slash last [] = last
after_last_slash last (c ∷ s) = after_last_slash (if c == b'/' then s else last) s

-- `repo.split("/").pop() || repo`, in lower case
unfoldable pub repo_basename_lower : Text → Text
unfolding after_last_slash
repo_basename_lower repo =
    let base = after_last_slash repo repo in lower_case (if is_empty base then repo else base)

abbrev pub with_stripped : Text → List Text
with_stripped base = base ∷ strip_oracle_any_case base ∷ []

abbrev pub window_alias : Option Text → List Text
window_alias none = []
window_alias (some n) = let w = lower_case (trim n) in if is_empty w then [] else with_stripped w

abbrev pub repo_alias : Option Text → List Text
repo_alias none = []
repo_alias (some r) =
    let t = trim r in if is_empty t then [] else with_stripped (repo_basename_lower t)

unfoldable pub window_aliases : List FleetWindow → List Text
unfolding repo_basename_lower strip_oracle_any_case trim
window_aliases [] = []
window_aliases (w ∷ ws) = window_alias w.name ++ (repo_alias w.repo ++ window_aliases ws)

unfoldable pub aliases_for : List FleetWindow → List Text
unfolding window_aliases
aliases_for windows = unique_strings (non_empty (window_aliases windows))

unfoldable pub resolve_fleet_window_session_target {ℓ} :
    {A : Type ℓ} → (windows : A → List FleetWindow) → (target : Text) → List A → ResolveResult A
unfolding aliases_for strip_oracle_any_case trim
resolve_fleet_window_session_target windows target items =
    let lc = lower_case (trim target) in
    if is_empty lc
    then missing []
    else pick
        (filter
          (λ a.
            includes_text lc (aliases_for (windows a))
            || includes_text (strip_oracle_any_case lc) (aliases_for (windows a)))
          items)
        (missing [])
