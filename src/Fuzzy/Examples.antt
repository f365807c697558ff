-- ===== src/Fuzzy/Examples.antt =====
-- Tests of the edit distance, and its theorem at two strings.
use maw_js.Prelude.{◌≡◌, ◌≤◌, refl, false, [], ◌∷◌, text, ◌===◌, to_lower}
use maw_js.Fuzzy.{distance, fuzzy_match}
use maw_js.Fuzzy.Edits.{Editsᴰ, done, pair, delete, distance_lem}

distance_test : distance (text "hek") (text "hey") ≡ 1
unfolding distance ◌===◌
distance_test = refl

-- A letter in place of another, and a letter more.
distance_test_2 : distance (text "peak") (text "speek") ≡ 2
unfolding distance ◌===◌
distance_test_2 = refl

-- The candidate is listed once, and one that is farther is left out.
fuzzy_match_test :
    fuzzy_match (λ _ _. false) (text "HEK") (text "hey" ∷ text "wake" ∷ text "hey" ∷ []) 3 2
    ≡ text "hey" ∷ []
unfolding fuzzy_match ◌===◌ to_lower
fuzzy_match_test = refl

distance_lem_example :
    Editsᴰ (text "heks") (text "hey") (distance (text "heks") (text "hey"))
    × (distance (text "heks") (text "hey") ≤ 2)
distance_lem_example = distance_lem (text "heks") (text "hey") 2 (pair (pair (pair (delete done))))
