-- ===== src/Semver/Examples.antt =====
-- plugin/registry-semver.ts: versions and ranges.
use maw_js.Prelude.{◌≡◌, ◌↔◌, refl, true, false, some, text, trim, starts_with, ◌===◌}
use maw_js.Semver.{
  Core, parse_core, number_from, is_label, is_suffix_text, cmp, holds, split_op, satisfies,
}
use maw_js.Semver.Ranges.{Allows, satisfies_iff}

ranges :
    (satisfies (text "1.4.2-beta+7") (text "^1.2.0") ≡ true)
    × (satisfies (text "2.0.0") (text "^1.2.0") ≡ false)
    × (satisfies (text "0.0.4") (text "^0.0.3") ≡ false)
    × (satisfies (text "1.2.9") (text " ~1.2.3 ") ≡ true)
    × (satisfies (text "3.0") (text "*") ≡ false)
unfolding satisfies parse_core number_from is_label is_suffix_text cmp holds split_op trim
    starts_with ◌===◌
ranges = (refl, refl, refl, refl, refl)

satisfies_iff_example :
    (satisfies (text "1.4.2") (text "^1.2.0") ≡ true)
    ↔ ((v : Core) × (parse_core (text "1.4.2") ≡ some v) × Allows (text "^1.2.0") v)
satisfies_iff_example = satisfies_iff (text "1.4.2") (text "^1.2.0")
