-- ===== src/Fuzzy.antt =====
-- core/util/fuzzy.ts: the edit distance of two strings by two rows, and the candidates that are near a typed word. The
-- order of `localeCompare` is an argument.
pub mod Edits
mod Examples
use maw_js.Prelude.{
  ℕ, zero, suc, ◌+◌, min, Bool, true, false, not, ◌&&◌, ◌||◌, List, [], ◌∷◌, Text, is_empty,
  lower_case, length, get_or, take, map, ltb, leb, ◌==◌, ◌===◌, if◌then◌else◌,
}
use maw_js.Names.{includes_text}

abbrev pub cost : ℕ → ℕ → ℕ
cost x y = if x == y then 0 else 1

-- `curr[j]` of the inner loop from the cells above, to the left, and above that.
abbrev pub cell : (up left diagonal : ℕ) → (x y : ℕ) → ℕ
cell up left diagonal x y = min (min (up + 1) (left + 1)) (diagonal + cost x y)

-- The inner loop: `left` is the last cell of the new row, and `diagonal` the cell above it.
abbrev pub row_from : (left diagonal : ℕ) → (above : List ℕ) → ℕ → Text → List ℕ
row_from left diagonal (up ∷ above) x (y ∷ b) =
    let new = cell up left diagonal x y in new ∷ row_from new up above x b
row_from left diagonal _ x _ = []

abbrev pub next_row : (i : ℕ) → ℕ → Text → List ℕ → List ℕ
next_row i x b [] = []
next_row i x b (first ∷ above) = i ∷ row_from i first above x b

-- The outer loop, over what is left of `a`; `i` is the number of the row before.
abbrev pub last_row : (i : ℕ) → Text → Text → List ℕ → List ℕ
last_row i [] b prev = prev
last_row i (x ∷ a) b prev = last_row (suc i) a b (next_row (suc i) x b prev)

-- `prev[j] = j`, from `j` on.
abbrev pub first_row : (j : ℕ) → Text → List ℕ
first_row j [] = j ∷ []
first_row j (_ ∷ b) = j ∷ first_row (suc j) b

unfoldable pub distance : Text → Text → ℕ
distance a b =
    if a === b
    then 0
    else (if is_empty a
        then length b
        else (if is_empty b
            then length a
            else get_or (last_row 0 a b (first_row 0 b)) (length b) 0))

pub record Scored : Type 0 where
  pub name : Text
  pub d : ℕ

module _ (locale_before : Text → Text → Bool) where
  abbrev pub stands_before : Scored → Scored → Bool
  stands_before s t = ltb s.d t.d || (s.d == t.d && locale_before s.name t.name)

  -- The sort, which is stable.
  abbrev pub insert_scored : Scored → List Scored → List Scored
  insert_scored s [] = s ∷ []
  insert_scored s (t ∷ ts) =
      let after = insert_scored s ts in if stands_before t s then t ∷ after else s ∷ t ∷ ts

  abbrev pub sort_scored : List Scored → List Scored
  sort_scored [] = []
  sort_scored (s ∷ ss) = insert_scored s (sort_scored ss)

  unfoldable pub score :
      (input : Text) → (max_distance : ℕ) → (seen : List Text) → List Text → List Scored
  unfolding distance
  score input max_distance seen [] = []
  score input max_distance seen (c ∷ candidates) = elim (is_empty c || includes_text c seen) [
    | true ↦ score input max_distance seen candidates
    | false ↦
        let rest = score input max_distance (c ∷ seen) candidates in
        let d = distance input (lower_case c) in
        if leb d max_distance then record { name = c; d = d } ∷ rest else rest
  ]

  unfoldable pub fuzzy_match : Text → List Text → (max_results max_distance : ℕ) → List Text
  unfolding score
  fuzzy_match input candidates max_results max_distance =
      if is_empty input
      then []
      else map (λ s. s.name)
          (take max_results (sort_scored (score (lower_case input) max_distance [] candidates)))
