-- ===== src/Fuzzy/Edits.antt =====
-- core/util/fuzzy.ts: the distance is the least cost of turning one string into the other.
use maw_js.Prelude.{
  ℕ, suc, ◌+◌, ◌≤◌, ◌≡◌, ◌∙◌, refl, sym, ap, subst, inl, inr, List, [], ◌∷◌, ◌⊎◌, Text, is_empty,
  length, get_or, ◌===◌, ===_iff, if◌then◌else◌, Bool-cases, arith,
}
use maw_js.Fuzzy.{cost, cell, row_from, next_row, last_row, first_row, distance}

-- Turning `a` into `b` from the left with that many characters deleted, added or replaced.
pub data Editsᴰ : Text → Text → ℕ → Type 0 where
  done : Editsᴰ [] [] 0
  delete : {x n : ℕ} {a b : Text} → Editsᴰ a b n → Editsᴰ (x ∷ a) b (suc n)
  add : {y n : ℕ} {a b : Text} → Editsᴰ a b n → Editsᴰ a (y ∷ b) (suc n)
  pair : {x y n : ℕ} {a b : Text} → Editsᴰ a b n → Editsᴰ (x ∷ a) (y ∷ b) (n + cost x y)

-- The least cost, by recursion from the left.
unfoldable least : Text → Text → ℕ
least [] b = length b
least (x ∷ a) [] = suc (length a)
least (x ∷ a) (y ∷ b) = cell (least a (y ∷ b)) (least (x ∷ a) b) (least a b) x y

least_nil : (a : Text) → least a [] ≡ length a
unfolding least
least_nil [] = refl
least_nil (x ∷ a) = refl

least_delete : (x : ℕ) (a b : Text) → least (x ∷ a) b ≤ suc (least a b)
unfolding least
least_delete x a [] = omega (arith, least_nil a)
least_delete x a (y ∷ b) = omega arith

least_add : (y : ℕ) (a b : Text) → least a (y ∷ b) ≤ suc (least a b)
unfolding least
least_add y [] b = omega arith
least_add y (x ∷ a) b = omega arith

least_minimal : (a b : Text) (n : ℕ) → Editsᴰ a b n → least a b ≤ n
unfolding least
least_minimal _ _ _ done = omega arith
least_minimal _ _ _ (delete {x = x} {n = n} {a = a} {b = b} e) =
    omega (arith, least_delete x a b, least_minimal a b n e)
least_minimal _ _ _ (add {y = y} {n = n} {a = a} {b = b} e) =
    omega (arith, least_add y a b, least_minimal a b n e)
least_minimal _ _ _ (pair {x = x} {y = y} {n = n} {a = a} {b = b} e) =
    omega (arith, least_minimal a b n e)

add_all : (b : Text) → Editsᴰ [] b (length b)
add_all [] = done
add_all (y ∷ b) = add (add_all b)

delete_all : (a : Text) → Editsᴰ a [] (length a)
delete_all [] = done
delete_all (x ∷ a) = delete (delete_all a)

cell-cases :
    (up left diagonal x y : ℕ)
    → (cell up left diagonal x y ≡ suc up)
      ⊎ ((cell up left diagonal x y ≡ suc left) ⊎ (cell up left diagonal x y ≡ diagonal + cost x y))
cell-cases up left diagonal x y = omega arith

least-Edits : (a b : Text) → Editsᴰ a b (least a b)
unfolding least
least-Edits [] b = add_all b
least-Edits (x ∷ a) [] = delete_all (x ∷ a)
least-Edits (x ∷ a) (y ∷ b) =
    elim (cell-cases (least a (y ∷ b)) (least (x ∷ a) b) (least a b) x y) [
      | inl e ↦ subst (Editsᴰ (x ∷ a) (y ∷ b)) (sym e) (delete (least-Edits a (y ∷ b)))
      | inr (inl e) ↦ subst (Editsᴰ (x ∷ a) (y ∷ b)) (sym e) (add (least-Edits (x ∷ a) b))
      | inr (inr e) ↦ subst (Editsᴰ (x ∷ a) (y ∷ b)) (sym e) (pair (least-Edits a b))
    ]

-- `a` reversed, before `after`.
abbrev rev_onto : Text → Text → Text
rev_onto [] after = after
rev_onto (x ∷ a) after = rev_onto a (x ∷ after)

rev_onto-rev_onto : (a after : Text) → rev_onto (rev_onto a after) [] ≡ rev_onto after a
rev_onto-rev_onto [] after = refl
rev_onto-rev_onto (x ∷ a) after = rev_onto-rev_onto a (x ∷ after)

Edits-rev_onto :
    (a b after_a after_b : Text) (n m : ℕ)
    → Editsᴰ a b n
    → Editsᴰ after_a after_b m
    → Editsᴰ (rev_onto a after_a) (rev_onto b after_b) (n + m)
Edits-rev_onto _ _ after_a after_b _ m done rest = subst (Editsᴰ after_a after_b) (omega arith) rest
Edits-rev_onto _ _ after_a after_b _ m (delete {x = x} {n = n} {a = a} {b = b} e) rest =
    subst (Editsᴰ (rev_onto a (x ∷ after_a)) (rev_onto b after_b)) (omega arith)
      (Edits-rev_onto a b (x ∷ after_a) after_b n (suc m) e (delete rest))
Edits-rev_onto _ _ after_a after_b _ m (add {y = y} {n = n} {a = a} {b = b} e) rest =
    subst (Editsᴰ (rev_onto a after_a) (rev_onto b (y ∷ after_b))) (omega arith)
      (Edits-rev_onto a b after_a (y ∷ after_b) n (suc m) e (add rest))
Edits-rev_onto _ _ after_a after_b _ m (pair {x = x} {y = y} {n = n} {a = a} {b = b} e) rest =
    subst (Editsᴰ (rev_onto a (x ∷ after_a)) (rev_onto b (y ∷ after_b))) (omega arith)
      (Edits-rev_onto a b (x ∷ after_a) (y ∷ after_b) n (m + cost x y) e (pair rest))

-- What the two rows hold: the least costs for the part of `a` before them, and the parts of `b`, reversed.
abbrev cells : (pa pb : Text) → Text → List ℕ
cells pa pb [] = []
cells pa pb (y ∷ b) = least pa (y ∷ pb) ∷ cells pa (y ∷ pb) b

row_from-cells :
    (x : ℕ) (pa pb b : Text)
    → row_from (least (x ∷ pa) pb) (least pa pb) (cells pa pb b) x b ≡ cells (x ∷ pa) pb b
unfolding least
row_from-cells x pa pb [] = refl
row_from-cells x pa pb (y ∷ b) =
    ap (λ r. least (x ∷ pa) (y ∷ pb) ∷ r) (row_from-cells x pa (y ∷ pb) b)

abbrev row : Text → Text → List ℕ
row pa b = length pa ∷ cells pa [] b

next_row-row : (x : ℕ) (pa b : Text) → next_row (suc (length pa)) x b (row pa b) ≡ row (x ∷ pa) b
unfolding least
next_row-row x pa b =
    ap (λ r. suc (length pa) ∷ r)
      (subst (λ first. row_from (suc (length pa)) first (cells pa [] b) x b ≡ cells (x ∷ pa) [] b)
        (least_nil pa) (row_from-cells x pa [] b))

last_row-row : (a pa b : Text) → last_row (length pa) a b (row pa b) ≡ row (rev_onto a pa) b
last_row-row [] pa b = refl
last_row-row (x ∷ a) pa b = rw next_row-row (last_row-row a (x ∷ pa) b)

first_row-row : (pb b : Text) → first_row (length pb) b ≡ length pb ∷ cells [] pb b
unfolding least
first_row-row pb [] = refl
first_row-row pb (y ∷ b) = ap (λ r. length pb ∷ r) (first_row-row (y ∷ pb) b)

get_or-cells :
    (pa pb b : Text) (first : ℕ)
    → first ≡ least pa pb
    → get_or (first ∷ cells pa pb b) (length b) 0 ≡ least pa (rev_onto b pb)
get_or-cells pa pb [] first e = e
get_or-cells pa pb (y ∷ b) first e = get_or-cells pa (y ∷ pb) b (least pa (y ∷ pb)) refl

rows_lem :
    (a b : Text)
    → get_or (last_row 0 a b (first_row 0 b)) (length b) 0 ≡ least (rev_onto a []) (rev_onto b [])
rows_lem a b =
    rw (first_row-row [] b, last_row-row a [] b)
      (get_or-cells (rev_onto a []) [] b (length (rev_onto a [])) (sym (least_nil (rev_onto a []))))

reversed : (a b : Text) (n : ℕ) → Editsᴰ a b n → Editsᴰ (rev_onto a []) (rev_onto b []) n
reversed a b n e =
    subst (Editsᴰ (rev_onto a []) (rev_onto b [])) (omega arith)
      (Edits-rev_onto a b [] [] n 0 e done)

least_reversed : (a b : Text) → least (rev_onto a []) (rev_onto b []) ≡ least a b
least_reversed a b =
    let there = least_minimal _ _ _ (reversed a b (least a b) (least-Edits a b)) in
    let back =
      reversed (rev_onto a []) (rev_onto b []) _ (least-Edits (rev_onto a []) (rev_onto b [])) in
    let straight = rw (rev_onto-rev_onto a [], rev_onto-rev_onto b []) at back in
    omega (arith, there, least_minimal a b _ straight)

cost_same : (x : ℕ) → 0 + cost x x ≡ 0
cost_same x = ground arith

same-Edits : (a : Text) → Editsᴰ a a 0
same-Edits [] = done
same-Edits (x ∷ a) = subst (Editsᴰ (x ∷ a) (x ∷ a)) (cost_same x) (pair (same-Edits a))

least_same : (a : Text) → least a a ≡ 0
least_same a = omega (arith, least_minimal a a 0 (same-Edits a))

by_rows :
    (a b : Text)
    → (if is_empty a
        then length b
        else (if is_empty b
            then length a
            else get_or (last_row 0 a b (first_row 0 b)) (length b) 0))
      ≡ least a b
unfolding least
by_rows [] b = refl
by_rows (x ∷ a) [] = refl
by_rows (x ∷ a) (y ∷ b) = rows_lem (x ∷ a) (y ∷ b) ∙ least_reversed (x ∷ a) (y ∷ b)

distance-least : (a b : Text) → distance a b ≡ least a b
unfolding distance
distance-least a b = elim (Bool-cases (a === b)) [
  | inl same ↦ rw same (sym (subst (λ c. least a c ≡ 0) ((===_iff a b).0 same) (least_same a)))
  | inr differ ↦ rw differ (by_rows a b)
]

-- If one string can be turned into another at a cost, where it costs one to delete, to add or to replace a character, it
-- can be at the cost of the distance, which is no higher.
pub distance_lem :
    (a b : Text) (n : ℕ) → Editsᴰ a b n → Editsᴰ a b (distance a b) × (distance a b ≤ n)
distance_lem a b n e = rw (distance-least a b) (least-Edits a b, least_minimal a b n e)
