-- ===== src/Semver/Ranges.antt =====
-- plugin/registry-semver.ts: the ranges as intervals of versions.
use maw_js.Prelude.{
  suc, ◌≡◌, ◌↔◌, ◌⊎◌, ◌<◌, ◌≤◌, inl, inr, refl, true, false, Option, some, none, Text, arith, ltb,
  if◌then◌else◌, ◌===◌, text, trim, subst, sym, Bool-cases,
}
use maw_js.Semver.{
  Core, cmp, Op, caret, tilde, at_least, at_most, above, below, exact, holds, operators, split_op,
  parse_core, meets, is_some_core, satisfies,
}
use mathlib.Core.Option.{some-injective}

-- The order of versions.
abbrev pub IsBefore : (a b : Core) → Type 0
IsBefore a b =
    (a.major < b.major)
    ⊎ ((a.major ≡ b.major) × ((a.minor < b.minor) ⊎ ((a.minor ≡ b.minor) × (a.patch < b.patch))))

abbrev pub IsAtMost : (a b : Core) → Type 0
IsAtMost a b =
    (a.major < b.major)
    ⊎ ((a.major ≡ b.major) × ((a.minor < b.minor) ⊎ ((a.minor ≡ b.minor) × (a.patch ≤ b.patch))))

-- The first version that is incompatible with one: its leftmost part that is not 0 goes up.
abbrev pub next_incompatible : Core → Core
next_incompatible t =
    if ltb 0 t.major
    then record { major = suc t.major; minor = 0; patch = 0 }
    else (if ltb 0 t.minor
        then record { major = 0; minor = suc t.minor; patch = 0 }
        else record { major = 0; minor = 0; patch = suc t.patch })

abbrev pub IsWithin : Op → (v target : Core) → Type 0
IsWithin caret v t = IsAtMost t v × IsBefore v (next_incompatible t)
IsWithin tilde v t =
    IsAtMost t v × IsBefore v (record { major = t.major; minor = suc t.minor; patch = 0 })
IsWithin at_least v t = IsAtMost t v
IsWithin at_most v t = IsAtMost v t
IsWithin above v t = IsBefore t v
IsWithin below v t = IsBefore v t
IsWithin exact v t = v ≡ t

-- A version meets an operator and a target exactly if it lies in the interval: from the target up to the next
-- incompatible version for `^`, up to the next minor version for `~`, and the others by the order of versions.
pub holds_iff : (op : Op) (v target : Core) → (holds op v target ≡ true) ↔ IsWithin op v target
unfolding holds cmp
holds_iff caret v t = ground arith
holds_iff tilde v t = ground arith
holds_iff at_least v t = ground arith
holds_iff at_most v t = ground arith
holds_iff above v t = ground arith
holds_iff below v t = ground arith
holds_iff exact v t = ground arith

-- The range `*`, or the interval of an operator and its target.
abbrev pub Allows : (range : Text) (v : Core) → Type 0
Allows range v =
    ((trim range === text "*") ≡ true)
    ⊎ (((trim range === text "*") ≡ false)
        × (target : Core) × (parse_core (split_op operators (trim range)).1 ≡ some target)
        × IsWithin (split_op operators (trim range)).0 v target)

meets_iff :
    (op : Op) (version target : Option Core)
    → (meets op version target ≡ true)
      ↔ ((v : Core) × (t : Core) × (version ≡ some v) × (target ≡ some t) × IsWithin op v t)
meets_iff op none target = (λ h. cc, λ (v, t, e, _, _). cc)
meets_iff op (some v) none = (λ h. cc, λ (v, t, _, e, _). cc)
meets_iff op (some v) (some t) = (
  λ h. (v, t, refl, refl, (holds_iff op v t).0 h),
  λ (v', t', ev, et, within). (holds_iff op v t).1 (
      subst (λ x. IsWithin op x t) (sym (some-injective v v' ev))
        (subst (λ x. IsWithin op v' x) (sym (some-injective t t' et)) within)),
)

is_some_core_iff : (c : Option Core) → (is_some_core c ≡ true) ↔ ((v : Core) × (c ≡ some v))
is_some_core_iff none = (λ h. cc, λ (v, e). cc)
is_some_core_iff (some v) = (λ _. (v, refl), λ _. refl)

-- A version satisfies a range exactly if it is a version and the range is `*`, or the range is an operator in front
-- of a version and the version lies in the operator's interval: from the target up to the next version that is
-- incompatible with it for `^`, from the target up to the next minor version for `~`, the others by the order of
-- versions.
pub satisfies_iff :
    (version range : Text)
    → (satisfies version range ≡ true)
      ↔ ((v : Core) × (parse_core version ≡ some v) × Allows range v)
unfolding satisfies
satisfies_iff version range = elim (Bool-cases (trim range === text "*")) [
  | inl star ↦
      let (to, from) = is_some_core_iff (parse_core version) in
      (
        λ h. let (v, e) = to (simp (star) at h) in (v, e, inl star),
        λ (v, e, _). simp (star) (from (v, e)),
      )
  | inr other ↦
      let (op, rest) = split_op operators (trim range) in
      let (to, from) = meets_iff op (parse_core version) (parse_core rest) in
      (
        λ h.
            let (v, t, ev, et, within) = to (simp (other) at h) in
            (v, ev, inr (other, t, et, within)),
        λ (v, ev, allows). elim allows [
          | inl star ↦ absurd (ground (arith, other, star))
          | inr (_, t, et, within) ↦ simp (other) (from (v, t, ev, et, within))
        ],
      )
]
