-- ===== src/PairCodes/Examples.antt =====
-- Pair codes at concrete inputs.
use maw_js.Prelude.{ℕ, is_space, to_upper, ◌≡◌, ◌≤◌, refl, List, [], ◌∷◌, Text, text}
use maw_js.Prelude.{◌===◌}
use maw_js.Prelude.Dict.{insert, lookup as dict_lookup}
use maw_js.PairCodes.{
  lookup, check_entry, Store, normalize, pretty, generate_code, register, consume, failed,
  not_found, consumed,
}
use maw_js.PairCodes.SingleUse.{successes, single_use}

abbrev bytes : List ℕ
bytes = 0 ∷ 33 ∷ 255 ∷ 7 ∷ 64 ∷ 31 ∷ []

abbrev code : Text
code = text "ABC234"

pretty_test : pretty (text "abc 234") ≡ text "ABC-234"
unfolding pretty normalize is_space to_upper
pretty_test = refl

generate_test : generate_code bytes ≡ text "AB9HA9"
unfolding generate_code
generate_test = refl

abbrev registered : Store
registered = (register 100 code 300 []).1

single_use_example :
    (successes (normalize code) ((200, code) ∷ (201, text "abc-234") ∷ []) registered ≤ 1)
    × ((now : ℕ)
        → (consume now code registered).0 ≡ failed not_found
        → successes (normalize code) ((200, code) ∷ (201, text "abc-234") ∷ []) registered ≡ 0)
    × ((now : ℕ)
        → (consume now code registered).0 ≡ failed consumed
        → successes (normalize code) ((200, code) ∷ (201, text "abc-234") ∷ []) registered ≡ 0)
single_use_example = single_use code ((200, code) ∷ (201, text "abc-234") ∷ []) registered

used_once : successes (text "ABC234") ((200, code) ∷ (201, text "abc-234") ∷ []) registered ≡ 1
unfolding successes consume lookup check_entry register normalize is_space to_upper insert
    dict_lookup ◌===◌
used_once = refl
