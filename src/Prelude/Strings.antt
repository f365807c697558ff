-- ===== src/Prelude/Strings.antt =====
-- A JavaScript string as the list of its code units, with what the program uses of the language's
-- string library. Case mapping is that of the ASCII letters; `trim` and `\s` are JavaScript's.
use Prim.Native.Char.{code}
use Prim.Native.String.{String}
use Prim.Native.Nat.{ℕ, ◌+◌, ◌-◌}
use mathlib.Core.Path.{◌≡◌, refl}
use mathlib.Core.Logic.{◌↔◌, ◌≢◌}
use mathlib.Core.Bool.{Bool, true, false, ◌&&◌, ◌||◌}
use mathlib.Core.List.{List, [], ◌∷◌, map, reverse}
use native.Mathlib.Omega.{arith}
use maw_js.Prelude.Tests.{leb, ◌==◌, if◌then◌else◌}

abbrev pub Text : Type 0
Text = List ℕ

-- A literal.
abbrev pub text : String → Text
text String.[] = []
text (String.◌∷◌ c s) = code c ∷ text s

-- What a point in a regular expression does not match.
abbrev pub is_line_end : ℕ → Bool
is_line_end c = c == 10 || c == 13 || c == 8232 || c == 8233

infix 50 ◌===◌
unfoldable pub ◌===◌ : Text → Text → Bool
◌===◌ [] [] = true
◌===◌ [] (_ ∷ _) = false
◌===◌ (_ ∷ _) [] = false
◌===◌ (c ∷ s) (d ∷ t) = c == d && ◌===◌ s t

pub ===_iff : (s t : Text) → ((s === t) ≡ true) ↔ (s ≡ t)
unfolding ◌===◌
===_iff [] [] = (λ _. refl, λ _. refl)
===_iff [] (d ∷ t) = (λ h. cc, λ h. cc)
===_iff (c ∷ s) [] = (λ h. cc, λ h. cc)
===_iff (c ∷ s) (d ∷ t) = ground (arith, ===_iff s t)

pub ===-refl : (s : Text) → (s === s) ≡ true
===-refl s = (===_iff s s).1 refl

pub ===-comm : (s t : Text) → (s === t) ≡ (t === s)
===-comm s t = ground (arith, ===_iff s t, ===_iff t s)

pub ===_of_ne : (s t : Text) → s ≢ t → (s === t) ≡ false
===_of_ne s t h = ground (arith, ===_iff s t)

abbrev pub is_empty : Text → Bool
is_empty [] = true
is_empty (_ ∷ _) = false

pub is_empty_eq : (s : Text) → is_empty s ≡ true → s ≡ []
is_empty_eq [] h = refl
is_empty_eq (_ ∷ _) h = cc

-- `\s` of a regular expression, and what `trim` removes.
unfoldable pub is_space : ℕ → Bool
is_space c =
    (leb 9 c && leb c 13)
    || c == 32
    || c == 0xa0
    || c == 0x1680
    || (leb 0x2000 c && leb c 0x200a)
    || c == 0x2028
    || c == 0x2029
    || c == 0x202f
    || c == 0x205f
    || c == 0x3000
    || c == 0xfeff

unfoldable pub to_lower : ℕ → ℕ
to_lower c = if leb 65 c && leb c 90 then c + 32 else c

unfoldable pub to_upper : ℕ → ℕ
to_upper c = if leb 97 c && leb c 122 then c - 32 else c

abbrev pub lower_case : Text → Text
lower_case = map to_lower

abbrev pub upper_case : Text → Text
upper_case = map to_upper

abbrev pub trim_start : Text → Text
trim_start [] = []
trim_start (c ∷ s) = let rest = trim_start s in if is_space c then rest else c ∷ s

unfoldable pub trim : Text → Text
unfolding is_space
trim s = reverse (trim_start (reverse (trim_start s)))

unfoldable pub starts_with : Text → Text → Bool
starts_with s [] = true
starts_with [] (_ ∷ _) = false
starts_with (c ∷ s) (d ∷ p) = c == d && starts_with s p

unfoldable pub ends_with : Text → Text → Bool
ends_with [] p = is_empty p
ends_with (c ∷ s) p = (c ∷ s) === p || ends_with s p

unfoldable pub includes : Text → Text → Bool
includes [] p = is_empty p
includes (c ∷ s) p = starts_with (c ∷ s) p || includes s p

-- `s.includes(c)` for one character.
unfoldable pub has_char : ℕ → Text → Bool
has_char c [] = false
has_char c (d ∷ s) = c == d || has_char c s
