-- ===== src/Names.antt =====
-- The spellings of oracle and session names that core/matcher, core/runtime/find-window.ts and
-- core/routing.ts share: a number in front (`/^\d+-/`) and `-oracle` behind (`/-oracle$/`).
use maw_js.Prelude.{
  ℕ, ◌-◌, Bool, true, false, ◌&&◌, not, Option, none, some, List, [], ◌∷◌, Text, text, ◌===◌, ◌==◌,
  ends_with, lower_case, take, length, any, if◌then◌else◌, is_some, filter, is_empty,
}
use maw_js.Prelude.Decimal.{is_digit}

-- What follows `/\d+-/`, where `seen` digits have been read.
unfoldable pub after_number : (seen : Bool) → Text → Option Text
after_number seen [] = none
after_number seen (c ∷ s) =
    let rest = after_number true s in
    if is_digit c then rest else (if seen && c == b'-' then some s else none)

-- `/^\d+-/.test(name)`
abbrev pub is_numbered : Text → Bool
is_numbered name = is_some (after_number false name)

abbrev pub or_name : Option Text → Text → Text
or_name none name = name
or_name (some rest) name = rest

-- `name.replace(/^\d+-/, "")`
unfoldable pub strip_number : Text → Text
unfolding after_number
strip_number name = or_name (after_number false name) name

abbrev pub oracle_suffix : Text
oracle_suffix = text "-oracle"

abbrev pub drop_last : ℕ → Text → Text
drop_last n s = take (length s - n) s

-- `name.replace(/-oracle$/, "")`
unfoldable pub strip_oracle : Text → Text
unfolding ends_with
strip_oracle name = if ends_with name oracle_suffix then drop_last 7 name else name

-- `/-oracle$/i.test(name)` and `name.replace(/-oracle$/i, "")`
unfoldable pub is_oracle_name : Text → Bool
unfolding ends_with
is_oracle_name name = ends_with (lower_case name) oracle_suffix

unfoldable pub strip_oracle_any_case : Text → Text
unfolding is_oracle_name
strip_oracle_any_case name = if is_oracle_name name then drop_last 7 name else name

abbrev pub includes_text : Text → List Text → Bool
includes_text t ts = any (λ x. x === t) ts

-- `[...new Set(values)]`
unfoldable pub unique_from : (seen : List Text) → List Text → List Text
unique_from seen [] = []
unique_from seen (t ∷ ts) = elim (includes_text t seen) [
  | true ↦ unique_from seen ts
  | false ↦ t ∷ unique_from (t ∷ seen) ts
]

abbrev pub unique_strings : List Text → List Text
unique_strings ts = unique_from [] ts

abbrev pub non_empty : List Text → List Text
non_empty ts = filter (λ t. not (is_empty t)) ts
