-- ===== src/Triggers/Cron/Range.antt =====
-- core/runtime/triggers-cron.ts: the values of a crontab field are those of its ranges.
use maw_js.Prelude.{
  ◌<◌, ◌==◌, ◌===◌, ===_of_ne, has_char, all, text, ap, false, ℕ, zero, suc, ◌+◌, ◌-◌, ◌*◌, ◌≤◌,
  ◌≡◌, ◌↔◌, ◌⊎◌, inl, inr, refl, true, ◌||◌, Option, none, some, List, [], ◌∷◌, ◌++◌, Text, leb,
  ltb, Bool-cases, Option-cases, arith, Memᴰ, head, tail, mem_of_cons, sym, subst, ◌∙◌,
}
use mathlib.Core.Bool.{false≢true}
use maw_js.Prelude.Decimal.{is_digit, show_nat, all-show_nat, parse_int-show_nat}
use maw_js.Triggers.Cron.{
  split_on, cut_slash, positive_of, step_of, ends_of, range_from, range_values, part_range,
  parse_cron_part, parse_parts, parse_cron_field,
}

range_from-bounds :
    (fuel i end step x : ℕ) → Memᴰ x (range_from fuel i end step) → (i ≤ x) × (x ≤ end)
range_from-bounds zero i end step x m = elim m [ ]
range_from-bounds (suc fuel) i end step x m = elim (Bool-cases (leb i end)) [
  | inl there ↦ elim (mem_of_cons x i (range_from fuel (i + step) end step) (simp (there) at m)) [
    | inl same ↦ ground (arith, same, there)
    | inr later ↦ omega (arith, range_from-bounds fuel (i + step) end step x later)
  ]
  | inr past ↦ elim (simp (past) at m) [ ]
]

next_value : (i k step : ℕ) → (i + step) + k * step ≡ i + suc k * step
next_value i k step = omega arith

le_of_add : (i n : ℕ) → i ≤ i + n
le_of_add i n = omega arith

-- With the fuel it gets, the loop comes to each of its values.
range_from-reaches :
    (fuel i end step k : ℕ)
    → 1 ≤ step
    → suc end ≤ fuel + i
    → i + k * step ≤ end
    → Memᴰ (i + k * step) (range_from fuel i end step)
range_from-reaches zero i end step k positive enough inside = ground (arith, le_of_add i (k * step))
range_from-reaches (suc fuel) i end step zero positive enough inside =
    let e : i ≡ i + 0 * step = omega arith in
    let there : leb i end ≡ true = ground (arith, e, inside) in
    subst (λ x. Memᴰ x (range_from (suc fuel) i end step)) e (simp (there) head)
range_from-reaches (suc fuel) i end step (suc k) positive enough inside =
    let e : (i + step) + k * step ≡ i + suc k * step = next_value i k step in
    let there : leb i end ≡ true = ground (arith, e, inside) in
    subst (λ x. Memᴰ x (range_from (suc fuel) i end step)) e
      (simp (there) (
        tail (
          range_from-reaches fuel (i + step) end step k positive (omega arith) (omega (arith, e)))))

range_from_sound :
    (fuel i end step x : ℕ) → Memᴰ x (range_from fuel i end step) → (k : ℕ) × (x ≡ i + k * step)
range_from_sound zero i end step x m = elim m [ ]
range_from_sound (suc fuel) i end step x m = elim (Bool-cases (leb i end)) [
  | inl there ↦ elim (mem_of_cons x i (range_from fuel (i + step) end step) (simp (there) at m)) [
    | inl same ↦ (0, omega (arith, same))
    | inr later ↦
        let (k, e) = range_from_sound fuel (i + step) end step x later in
        (suc k, e ∙ next_value i k step)
  ]
  | inr past ↦ elim (simp (past) at m) [ ]
]

range_values_lem :
    (start end step x : ℕ)
    → 1 ≤ step
    → start ≤ end
    → Memᴰ x (range_values start end step) ↔ ((k : ℕ) × (x ≡ start + k * step) × (x ≤ end))
range_values_lem start end step x positive ordered = (
  λ m.
      let (k, e) = range_from_sound (suc end - start) start end step x m in
      (k, e, (range_from-bounds (suc end - start) start end step x m).1),
  λ h.
      let (k, e, inside) = h in
      subst (λ y. Memᴰ y (range_values start end step)) (sym e)
        (range_from-reaches (suc end - start) start end step k positive (omega arith)
          (omega (arith, e))),
)

mem_of_append : (x : ℕ) (xs ys : List ℕ) → Memᴰ x (xs ++ ys) → Memᴰ x xs ⊎ Memᴰ x ys
mem_of_append x [] ys m = inr m
mem_of_append x (_ ∷ xs) ys head = inl head
mem_of_append x (_ ∷ xs) ys (tail m) = elim (mem_of_append x xs ys m) [
  | inl n ↦ inl (tail n)
  | inr n ↦ inr n
]

some_out : (xs ys : List ℕ) → some xs ≡ some ys → ys ≡ xs
some_out xs ys e = cc

part_range-bounds :
    (min max : ℕ) (step : Option ℕ) (ends : Option ℕ × Option ℕ) (out : List ℕ) (x : ℕ)
    → part_range min max step ends ≡ some out
    → Memᴰ x out
    → (min ≤ x) × (x ≤ max)
part_range-bounds min max none ends out x e m = cc
part_range-bounds min max (some step) (none, end) out x e m = cc
part_range-bounds min max (some step) (some start, none) out x e m = cc
part_range-bounds min max (some step) (some start, some end) out x e m =
    elim (Bool-cases (ltb start min || ltb max end || ltb end start)) [
      | inl wrong ↦ cc
      | inr right ↦
          let same : some (range_values start end step) ≡ some out = simp (right) at e in
          let here : Memᴰ x (range_values start end step) = subst (Memᴰ x) (some_out _ _ same) m in
          let (low, high) = range_from-bounds (suc end - start) start end step x here in
          ground (arith, right, low, high)
    ]

parse_parts-bounds :
    (min max : ℕ) (parts : List Text) (out : List ℕ) (x : ℕ)
    → parse_parts min max parts ≡ some out
    → Memᴰ x out
    → (min ≤ x) × (x ≤ max)
unfolding parse_cron_part
parse_parts-bounds min max [] out x e m = elim (subst (Memᴰ x) (some_out [] out e) m) [ ]
parse_parts-bounds min max (part ∷ parts) out x e m =
    elim (Option-cases (parse_cron_part min max part)) [
      | inl wrong ↦ ground (arith, wrong)
      | inr (first, e_first) ↦ elim (Option-cases (parse_parts min max parts)) [
        | inl wrong ↦ ground (arith, e_first, wrong)
        | inr (later, e_later) ↦
            let same : some (first ++ later) ≡ some out = simp (e_first, e_later) at e in
            elim (mem_of_append x first later (subst (Memᴰ x) (some_out _ _ same) m)) [
              | inl here ↦
                  part_range-bounds min max (step_of (cut_slash part).1)
                    (ends_of min max (cut_slash part).0) first x e_first here
              | inr there ↦ parse_parts-bounds min max parts later x e_later there
            ]
      ]
    ]

-- Each value of a crontab field that is accepted lies between the least and the greatest value of the field.
pub parse_cron_field_lem :
    (expr : Text) (min max : ℕ) (out : List ℕ) (x : ℕ)
    → parse_cron_field expr min max ≡ some out
    → Memᴰ x out
    → (min ≤ x) × (x ≤ max)
unfolding parse_cron_field
parse_cron_field_lem expr min max out x e m =
    parse_parts-bounds min max (split_on b',' expr) out x e m

-- A part of a crontab field that is a range with a step, as it is written: `a-b/s`.
abbrev pub range_text : (a b s : ℕ) → Text
range_text a b s = (show_nat a ++ (b'-' ∷ show_nat b)) ++ (b'/' ∷ show_nat s)

digits_have_no :
    (c : ℕ) (s : Text) → is_digit c ≡ false → all is_digit s ≡ true → has_char c s ≡ false
unfolding has_char
digits_have_no c [] no_digit digits = refl
digits_have_no c (d ∷ s) no_digit digits = elim (Bool-cases (d == c)) [
  | inl same ↦ ground (arith, same, no_digit, digits)
  | inr other ↦ ground (arith, other, digits, digits_have_no c s no_digit)
]

show_nat_has_no : (c n : ℕ) → is_digit c ≡ false → has_char c (show_nat n) ≡ false
show_nat_has_no c n no_digit = digits_have_no c (show_nat n) no_digit (all-show_nat n)

has_char-append : (c : ℕ) (s t : Text) → has_char c (s ++ t) ≡ (has_char c s || has_char c t)
unfolding has_char
has_char-append c [] t = refl
has_char-append c (d ∷ s) t = ground (arith, has_char-append c s t)

cut_slash-append :
    (s t : Text) → has_char b'/' s ≡ false → cut_slash (s ++ (b'/' ∷ t)) ≡ (s, some t)
unfolding has_char
cut_slash-append [] t free = refl
cut_slash-append (d ∷ s) t free =
    let other : (d == b'/') ≡ false = ground (arith, free) in
    let rest = cut_slash-append s t (ground (arith, free)) in simp (other, rest) refl

split_on-free : (c : ℕ) (s : Text) → has_char c s ≡ false → split_on c s ≡ s ∷ []
unfolding has_char split_on
split_on-free c [] free = refl
split_on-free c (d ∷ s) free =
    let other : (d == c) ≡ false = ground (arith, free) in
    let rest = split_on-free c s (ground (arith, free)) in simp (other, rest) refl

split_on-append :
    (c : ℕ) (s t : Text) → has_char c s ≡ false → split_on c (s ++ (c ∷ t)) ≡ s ∷ split_on c t
unfolding has_char split_on
split_on-append c [] t free = ground arith
split_on-append c (d ∷ s) t free =
    let other : (d == c) ≡ false = ground (arith, free) in
    let rest = split_on-append c s t (ground (arith, free)) in simp (other, rest) refl

cut_slash-range_text :
    (a b s : ℕ)
    → cut_slash (range_text a b s) ≡ (show_nat a ++ (b'-' ∷ show_nat b), some (show_nat s))
unfolding has_char
cut_slash-range_text a b s = cut_slash-append (show_nat a ++ (b'-' ∷ show_nat b)) (show_nat s) (
    has_char-append b'/' (show_nat a) (b'-' ∷ show_nat b)
    ∙ simp (show_nat_has_no b'/' a refl, show_nat_has_no b'/' b refl) refl)

has_dash : (a b : ℕ) → has_char b'-' (show_nat a ++ (b'-' ∷ show_nat b)) ≡ true
unfolding has_char
has_dash a b =
    has_char-append b'-' (show_nat a) (b'-' ∷ show_nat b) ∙ simp (show_nat_has_no b'-' a refl) refl

is_no_star : (a b : ℕ) → (show_nat a ++ (b'-' ∷ show_nat b) === text "*") ≡ false
unfolding has_char
is_no_star a b =
    ===_of_ne _ (text "*") (λ e. false≢true (ap (has_char b'-') (sym e) ∙ has_dash a b))

ends_of-range :
    (min max a b : ℕ) → ends_of min max (show_nat a ++ (b'-' ∷ show_nat b)) ≡ (some a, some b)
ends_of-range min max a b =
    let parts : split_on b'-' (show_nat a ++ (b'-' ∷ show_nat b)) ≡ show_nat a ∷ show_nat b ∷ [] =
      split_on-append b'-' (show_nat a) (show_nat b) (show_nat_has_no b'-' a refl)
      ∙ ap (λ l. show_nat a ∷ l) (split_on-free b'-' (show_nat b) (show_nat_has_no b'-' b refl)) in
    simp (is_no_star a b, has_dash a b, parts, parse_int-show_nat a, parse_int-show_nat b) refl

-- What the text of a range with a step parses as.
parse_cron_part-range_text :
    (min max a b s : ℕ)
    → parse_cron_part min max (range_text a b s)
      ≡ part_range min max (positive_of (some s)) (some a, some b)
unfolding parse_cron_part
parse_cron_part-range_text min max a b s =
    simp (cut_slash-range_text a b s, parse_int-show_nat s)
      (ap (part_range min max (positive_of (some s))) (ends_of-range min max a b))

-- A part of a crontab field that is written `a-b/s` is accepted if the field's least value, `a`, `b` and its greatest
-- value are in this order and `s` is not 0. Its values are then the numbers from `a` to `b` in steps of `s`, and no
-- others. Otherwise the part is refused.
pub parse_cron_part_lem :
    (min max a b s : ℕ)
    → (min ≤ a
        → a ≤ b
        → b ≤ max
        → 1 ≤ s
        → (out : List ℕ) × (parse_cron_part min max (range_text a b s) ≡ some out)
          × ((x : ℕ) → Memᴰ x out ↔ ((k : ℕ) × (x ≡ a + k * s) × (x ≤ b))))
      × (((a < min) ⊎ (b < a) ⊎ (max < b) ⊎ (s ≡ 0))
          → parse_cron_part min max (range_text a b s) ≡ none)
parse_cron_part_lem min max a b s =
    let e = parse_cron_part-range_text min max a b s in
    (
      λ low ordered high positive. (
        range_values a b s,
        e ∙ in_order min max a b s low ordered high positive,
        λ x. range_values_lem a b s x positive ordered,
      ),
      λ wrong. e ∙ out_of_order min max a b s wrong,
    )
  where
    in_order :
        (min max a b s : ℕ)
        → min ≤ a
        → a ≤ b
        → b ≤ max
        → 1 ≤ s
        → part_range min max (positive_of (some s)) (some a, some b) ≡ some (range_values a b s)
    in_order min max a b zero low ordered high positive = ground arith
    in_order min max a b (suc s) low ordered high positive = ground arith

    out_of_order :
        (min max a b s : ℕ)
        → ((a < min) ⊎ (b < a) ⊎ (max < b) ⊎ (s ≡ 0))
        → part_range min max (positive_of (some s)) (some a, some b) ≡ none
    out_of_order min max a b zero wrong = refl
    out_of_order min max a b (suc s) wrong = ground arith
