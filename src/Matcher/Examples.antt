-- ===== src/Matcher/Examples.antt =====
-- core/matcher: the theorems at concrete names.
use maw_js.Prelude.{refl, true, List, [], ◌∷◌, Text, text, trim, is_space, to_lower}
use maw_js.Matcher.Normalize.{Strips, IsClean, normalize_target, normalize_target_lem}
use maw_js.Matcher.Resolve.{resolve_by_name}
use maw_js.Matcher.Tiers.{Explains, resolve_by_name-Explains}

abbrev same_name : Text → Text
same_name t = t

abbrev sessions : List Text
sessions = text "101-mawjs" ∷ text "mawjs-view" ∷ text "114-mawjs-no2" ∷ []

normalize_target_lem_example :
    Strips (trim (text "  foo/.git/ ")) (normalize_target (text "  foo/.git/ "))
    × IsClean (normalize_target (text "  foo/.git/ "))
normalize_target_lem_example = normalize_target_lem (text "  foo/.git/ ")

resolve_by_name-Explains_example :
    Explains same_name true
      (text "mawjs")
      sessions
      (resolve_by_name same_name (text "mawjs") sessions true)
unfolding is_space trim to_lower
resolve_by_name-Explains_example =
    resolve_by_name-Explains same_name (text "mawjs") sessions true refl
