-- ===== src/Prelude/Decimal.antt =====
-- Numbers as decimal text, and back: `String(n)`, `/^\d+$/` with `Number`, and `parseInt(s, 10)`.
use Prim.Native.Nat.{ℕ, zero, suc, ◌+◌, ◌-◌, ◌*◌, ◌/◌, ◌%◌, ◌<◌}
use mathlib.Core.Path.{◌≡◌, refl, ap, ◌∙◌}
use mathlib.Core.Bool.{Bool, true, false, ◌&&◌}
use mathlib.Core.Option.{Option, none, some}
use mathlib.Core.List.{[], ◌∷◌, ◌++◌}
use native.Mathlib.Omega.{arith}
use native.Mathlib.Decide.{dec_lt}
use maw_js.Prelude.Tests.{ltb, leb, ◌==◌, if◌then◌else◌, lt→ltb}
use maw_js.Prelude.Lists.{all}
use maw_js.Prelude.Strings.{Text, is_empty, is_space, trim_start}

abbrev pub is_digit : ℕ → Bool
is_digit c = leb 48 c && leb c 57

show_fuel : ℕ → ℕ → Text
show_fuel zero n = []
show_fuel (suc f) n =
    let rest = show_fuel f (n / 10) ++ ((48 + n % 10) ∷ []) in
    if ltb n 10 then (48 + n) ∷ [] else rest

-- A number has fewer digits than its successor has units.
unfoldable pub show_nat : ℕ → Text
unfolding show_fuel
show_nat n = show_fuel (suc n) n

unfoldable pub parse_from : ℕ → Text → Option ℕ
parse_from acc [] = some acc
parse_from acc (c ∷ s) =
    let rest = parse_from (acc * 10 + (c - 48)) s in if is_digit c then rest else none

-- A whole text of digits.
unfoldable pub parse_nat : Text → Option ℕ
unfolding parse_from
parse_nat [] = none
parse_nat (c ∷ s) = parse_from 0 (c ∷ s)

abbrev then_digit : ℕ → Option ℕ → Option ℕ
then_digit d none = none
then_digit d (some acc) = some (acc * 10 + d)

parse_from-snoc :
    (acc : ℕ) (s : Text) (d : ℕ)
    → d < 10
    → parse_from acc (s ++ ((48 + d) ∷ [])) ≡ then_digit d (parse_from acc s)
unfolding parse_from
parse_from-snoc acc [] d h = ground arith
parse_from-snoc acc (c ∷ s) d h = ground (arith, parse_from-snoc (acc * 10 + (c - 48)) s d h)

parse_from-digit : (n : ℕ) → n < 10 → parse_from 0 ((48 + n) ∷ []) ≡ some n
unfolding parse_from
parse_from-digit n h = ground arith

show_fuel-small : (f n : ℕ) → n < 10 → show_fuel (suc f) n ≡ (48 + n) ∷ []
unfolding show_fuel
show_fuel-small f n h = rw (lt→ltb n 10 h) refl

show_fuel-large :
    (f n : ℕ) → ¬ (n < 10) → show_fuel (suc f) n ≡ show_fuel f (n / 10) ++ ((48 + n % 10) ∷ [])
unfolding show_fuel
show_fuel-large f n h = ground arith

parse_from-show_fuel : (f n : ℕ) → n < f → parse_from 0 (show_fuel f n) ≡ some n
parse_from-show_fuel zero n h = absurd (omega arith)
parse_from-show_fuel (suc f) n h = elim (dec_lt n 10) [
  | yes small ↦ rw (show_fuel-small f n small) (parse_from-digit n small)
  | no large ↦
      let ih = parse_from-show_fuel f (n / 10) (omega arith) in
      rw
        (
          show_fuel-large f n large,
          parse_from-snoc 0 (show_fuel f (n / 10)) (n % 10) (omega arith),
          ih,
        )
        (ap some (omega arith))
]

parse_nat-eq : (s : Text) → is_empty s ≡ false → parse_nat s ≡ parse_from 0 s
unfolding parse_nat
parse_nat-eq [] h = cc
parse_nat-eq (c ∷ s) h = refl

is_empty-append : (s : Text) (c : ℕ) → is_empty (s ++ (c ∷ [])) ≡ false
is_empty-append [] c = refl
is_empty-append (d ∷ s) c = refl

pub show_nat-not_empty : (n : ℕ) → is_empty (show_nat n) ≡ false
unfolding show_nat
show_nat-not_empty n = elim (dec_lt n 10) [
  | yes small ↦ rw (show_fuel-small n n small) refl
  | no large ↦ rw (show_fuel-large n n large) (is_empty-append (show_fuel n (n / 10)) (48 + n % 10))
]

-- What is printed is read back.
pub parse_nat-show_nat : (n : ℕ) → parse_nat (show_nat n) ≡ some n
unfolding show_nat
parse_nat-show_nat n =
    parse_nat-eq (show_fuel (suc n) n) (show_nat-not_empty n)
    ∙ parse_from-show_fuel (suc n) n (omega arith)

-- Integers, as `parseInt` gives them.
pub data ℤ : Type 0 where
  pos : ℕ → ℤ
  negsuc : ℕ → ℤ

abbrev negate : ℕ → ℤ
negate zero = pos 0
negate (suc n) = negsuc n

unfoldable pub show_int : ℤ → Text
show_int (pos n) = show_nat n
show_int (negsuc n) = b'-' ∷ show_nat (suc n)

abbrev value : Option ℕ → ℕ
value none = 0
value (some n) = n

-- The digits at the start; `none` if there is none.
unfoldable pub parse_prefix : Option ℕ → Text → Option ℕ
parse_prefix acc [] = acc
parse_prefix acc (c ∷ s) =
    let rest = parse_prefix (some (value acc * 10 + (c - 48))) s in if is_digit c then rest else acc

abbrev negated : Option ℕ → Option ℤ
negated none = none
negated (some n) = some (negate n)

abbrev plain : Option ℕ → Option ℤ
plain none = none
plain (some n) = some (pos n)

abbrev parse_signed : Text → Option ℤ
parse_signed [] = none
parse_signed (c ∷ t) =
    if c == b'-'
    then negated (parse_prefix none t)
    else (if c == b'+' then plain (parse_prefix none t) else plain (parse_prefix none (c ∷ t)))

-- `parseInt(s, 10)`; `none` is NaN.
unfoldable pub parse_int : Text → Option ℤ
unfolding parse_prefix is_space
parse_int s = parse_signed (trim_start s)

all-append_digit :
    (s : Text) (d : ℕ) → all is_digit s ≡ true → d < 10 → all is_digit (s ++ ((48 + d) ∷ [])) ≡ true
all-append_digit [] d h lt = ground arith
all-append_digit (c ∷ s) d h lt = ground (arith, all-append_digit s d)

all-show_fuel : (f n : ℕ) → all is_digit (show_fuel f n) ≡ true
unfolding show_fuel
all-show_fuel zero n = refl
all-show_fuel (suc f) n =
    ground (arith, all-append_digit (show_fuel f (n / 10)) (n % 10) (all-show_fuel f (n / 10)))

pub all-show_nat : (n : ℕ) → all is_digit (show_nat n) ≡ true
unfolding show_nat
all-show_nat n = all-show_fuel (suc n) n

parse_prefix-some :
    (acc : ℕ) (s : Text) → all is_digit s ≡ true → parse_prefix (some acc) s ≡ parse_from acc s
unfolding parse_prefix parse_from
parse_prefix-some acc [] h = refl
parse_prefix-some acc (c ∷ s) h = ground (arith, parse_prefix-some (acc * 10 + (c - 48)) s)

parse_signed-digits :
    (s : Text)
    → is_empty s ≡ false
    → all is_digit s ≡ true
    → parse_signed (trim_start s) ≡ plain (parse_from 0 s)
unfolding parse_prefix parse_from is_space
parse_signed-digits [] h d = cc
parse_signed-digits (c ∷ s) h d = ground (arith, parse_prefix-some (0 * 10 + (c - 48)) s)

pub parse_int-show_nat : (n : ℕ) → parse_int (show_nat n) ≡ some (pos n)
unfolding parse_int show_nat
parse_int-show_nat n =
    parse_signed-digits (show_fuel (suc n) n) (show_nat-not_empty n) (all-show_fuel (suc n) n)
    ∙ ap plain (parse_from-show_fuel (suc n) n (omega arith))
