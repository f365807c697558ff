-- ===== src/Triggers/Cron.antt =====
-- core/runtime/triggers-cron.ts: one field of a crontab line. The error that is thrown is `none`; the loop over a range
-- runs on fuel.
pub mod Range
use maw_js.Prelude.{
  ℕ, zero, suc, ◌+◌, ◌-◌, ◌*◌, ◌≤◌, ◌≡◌, ◌↔◌, ◌⊎◌, inl, inr, refl, Bool, true, false, not, ◌&&◌,
  ◌||◌, Option, none, some, List, [], ◌∷◌, ◌++◌, Text, text, has_char, leb, ltb, ◌==◌, ◌===◌,
  if◌then◌else◌, Bool-cases, Option-cases, arith, Memᴰ, head, tail, mem_of_cons, sym, subst, ◌∙◌,
}
use maw_js.Prelude.Decimal.{ℤ, pos, parse_int}
use maw_js.Waking.{with_head}

-- `s.split(c)` for one character.
unfoldable pub split_on : ℕ → Text → List Text
split_on c [] = [] ∷ []
split_on c (d ∷ s) = let parts = split_on c s in if d == c then [] ∷ parts else with_head d parts

-- What stands before the first `/`, and after it.
abbrev pub cut_slash : Text → Text × Option Text
cut_slash [] = ([], none)
cut_slash (c ∷ s) =
    let rest = cut_slash s in if c == b'/' then ([], some s) else (c ∷ rest.0, rest.1)

-- A number that is not negative; the others are out of each range.
abbrev pub nat_of : Option ℤ → Option ℕ
nat_of none = none
nat_of (some (pos n)) = some n
nat_of (some _) = none

abbrev pub positive_of : Option ℕ → Option ℕ
positive_of none = none
positive_of (some n) = if n == 0 then none else some n

abbrev pub step_of : Option Text → Option ℕ
step_of none = some 1
step_of (some s) = positive_of (nat_of (parse_int s))

abbrev pub first_two : List Text → Option ℕ × Option ℕ
first_two (a ∷ b ∷ _) = (nat_of (parse_int a), nat_of (parse_int b))
first_two (a ∷ []) = (nat_of (parse_int a), none)
first_two [] = (none, none)

abbrev pub ends_of : (min max : ℕ) → Text → Option ℕ × Option ℕ
ends_of min max body =
    if body === text "*"
    then (some min, some max)
    else (if has_char b'-' body
        then first_two (split_on b'-' body)
        else (nat_of (parse_int body), nat_of (parse_int body)))

-- `for (let i = start; i <= end; i += step)`
abbrev pub range_from : (fuel : ℕ) → (i end step : ℕ) → List ℕ
range_from zero i end step = []
range_from (suc fuel) i end step =
    let rest = range_from fuel (i + step) end step in if leb i end then i ∷ rest else []

abbrev pub range_values : (start end step : ℕ) → List ℕ
range_values start end step = range_from (suc end - start) start end step

abbrev pub part_range : (min max : ℕ) → (step : Option ℕ) → Option ℕ × Option ℕ → Option (List ℕ)
part_range min max (some step) (some start, some end) =
    if ltb start min || ltb max end || ltb end start
    then none
    else some (range_values start end step)
part_range min max _ _ = none

unfoldable pub parse_cron_part : (min max : ℕ) → Text → Option (List ℕ)
unfolding split_on parse_int ◌===◌ has_char
parse_cron_part min max part =
    part_range min max (step_of (cut_slash part).1) (ends_of min max (cut_slash part).0)

-- The parts in turn, the first error ending them.
abbrev pub join_parts : Option (List ℕ) → Option (List ℕ) → Option (List ℕ)
join_parts none later = none
join_parts (some out) none = none
join_parts (some out) (some later) = some (out ++ later)

abbrev pub parse_parts : (min max : ℕ) → List Text → Option (List ℕ)
parse_parts min max [] = some []
parse_parts min max (part ∷ parts) =
    join_parts (parse_cron_part min max part) (parse_parts min max parts)

-- The set as a list of its values, which can stand there twice.
unfoldable pub parse_cron_field : Text → (min max : ℕ) → Option (List ℕ)
unfolding parse_cron_part
parse_cron_field expr min max = parse_parts min max (split_on b',' expr)
