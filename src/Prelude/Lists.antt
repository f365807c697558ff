-- ===== src/Prelude/Lists.antt =====
-- Lists measured by native numbers, tested by Boolean functions, and predicates on their members.
use Prim.Native.Nat.{ℕ, zero, suc, ◌+◌}
use mathlib.Core.Path.{◌≡◌, refl, ap}
use mathlib.Core.Logic.{◌↔◌, ◌⊎◌, inl, inr}
use mathlib.Core.Bool.{Bool, true, false, ◌&&◌, ◌||◌}
use mathlib.Core.Option.{Option, none, some}
use mathlib.Core.List.{List, [], ◌∷◌, ◌++◌, map}
use native.Mathlib.Omega.{arith}
use maw_js.Prelude.Tests.{if◌then◌else◌, Bool-cases}

module _ {ℓ} {A : Type ℓ} where
  abbrev pub length : List A → ℕ
  length [] = 0
  length (x ∷ xs) = suc (length xs)

  abbrev pub get_elem? : List A → ℕ → Option A
  get_elem? [] i = none
  get_elem? (x ∷ xs) zero = some x
  get_elem? (x ∷ xs) (suc i) = get_elem? xs i

  abbrev pub get_or : List A → ℕ → A → A
  get_or [] i d = d
  get_or (x ∷ xs) zero d = x
  get_or (x ∷ xs) (suc i) d = get_or xs i d

  abbrev pub take : ℕ → List A → List A
  take zero xs = []
  take (suc n) [] = []
  take (suc n) (x ∷ xs) = x ∷ take n xs

  abbrev pub drop : ℕ → List A → List A
  drop zero xs = xs
  drop (suc n) [] = []
  drop (suc n) (x ∷ xs) = drop n xs

  abbrev pub filter : (A → Bool) → List A → List A
  filter p [] = []
  filter p (x ∷ xs) = let rest = filter p xs in if p x then x ∷ rest else rest

  abbrev pub find : (A → Bool) → List A → Option A
  find p [] = none
  find p (x ∷ xs) = let rest = find p xs in if p x then some x else rest

  abbrev pub any : (A → Bool) → List A → Bool
  any p [] = false
  any p (x ∷ xs) = p x || any p xs

  abbrev pub all : (A → Bool) → List A → Bool
  all p [] = true
  all p (x ∷ xs) = p x && all p xs

  pub length-append : (xs ys : List A) → length (xs ++ ys) ≡ length xs + length ys
  length-append [] ys = omega arith
  length-append (x ∷ xs) ys = omega (arith, length-append xs ys)

  pub take-append-drop : (n : ℕ) (xs : List A) → take n xs ++ drop n xs ≡ xs
  take-append-drop zero xs = refl
  take-append-drop (suc n) [] = refl
  take-append-drop (suc n) (x ∷ xs) = ap (λ l. x ∷ l) (take-append-drop n xs)

  pub filter-append :
      (p : A → Bool) (xs ys : List A) → filter p (xs ++ ys) ≡ filter p xs ++ filter p ys
  filter-append p [] ys = refl
  filter-append p (x ∷ xs) ys = ground (arith, filter-append p xs ys)

module _ {ℓ κ} {A : Type ℓ} (P : A → Type κ) where
  abbrev pub All : List A → Type κ
  All [] = Unit
  All (x ∷ xs) = P x × All xs

  pub All-append : (xs ys : List A) → All xs → All ys → All (xs ++ ys)
  All-append [] ys hx hy = hy
  All-append (x ∷ xs) ys hx hy = (hx.0, All-append xs ys hx.1 hy)

pub length-map {ℓ κ} :
    {A : Type ℓ} {B : Type κ} (f : A → B) (xs : List A) → length (map f xs) ≡ length xs
length-map f [] = refl
length-map f (x ∷ xs) = ap suc (length-map f xs)

-- A member of a list.
pub data Memᴰ {ℓ} {A : Type ℓ} (a : A) : List A → Type ℓ where
  head : {xs : List A} → Memᴰ a (a ∷ xs)
  tail : {x : A} {xs : List A} → Memᴰ a xs → Memᴰ a (x ∷ xs)

module _ {ℓ} {A : Type ℓ} where
  pub member_of_any :
      (p : A → Bool) (xs : List A) → any p xs ≡ true → (x : A) × Memᴰ x xs × (p x ≡ true)
  member_of_any p [] h = cc
  member_of_any p (x ∷ xs) h = elim (Bool-cases (p x)) [
    | inl e ↦ (x, head, e)
    | inr e ↦ let (y, m, q) = member_of_any p xs (ground (arith, e)) in (y, tail m, q)
  ]

  pub any_of_member :
      (p : A → Bool) (x : A) (xs : List A) → Memᴰ x xs → p x ≡ true → any p xs ≡ true
  any_of_member p x [] m h = elim m [ ]
  any_of_member p x (_ ∷ xs) head h = ground arith
  any_of_member p x (y ∷ xs) (tail m) h = ground (arith, any_of_member p x xs m h)

  mem_of_kept :
      (keep : A → Bool) (y : A) (ys zs : List A) (x : A)
      → keep y ≡ true
      → (Memᴰ x zs → Memᴰ x ys × (keep x ≡ true))
      → Memᴰ x (y ∷ zs)
      → Memᴰ x (y ∷ ys) × (keep x ≡ true)
  mem_of_kept keep y ys zs _ e rest head = (head, e)
  mem_of_kept keep y ys zs x e rest (tail m) = let (k, h) = rest m in (tail k, h)

  mem_of_filter :
      (keep : A → Bool) (xs : List A) (x : A)
      → Memᴰ x (filter keep xs)
      → Memᴰ x xs × (keep x ≡ true)
  mem_of_filter keep [] x m = elim m [ ]
  mem_of_filter keep (y ∷ ys) x m = elim (Bool-cases (keep y)) [
    | inl e ↦ mem_of_kept keep y ys (filter keep ys) x e (mem_of_filter keep ys x) (rw e at m)
    | inr e ↦ let (k, h) = mem_of_filter keep ys x (rw e at m) in (tail k, h)
  ]

  filter_of_mem :
      (keep : A → Bool) (xs : List A) (x : A) → Memᴰ x xs → keep x ≡ true → Memᴰ x (filter keep xs)
  filter_of_mem keep [] x m h = elim m [ ]
  filter_of_mem keep (_ ∷ ys) x head h = rw h head
  filter_of_mem keep (y ∷ ys) x (tail m) h = elim (Bool-cases (keep y)) [
    | inl e ↦ rw e (tail (filter_of_mem keep ys x m h))
    | inr e ↦ rw e (filter_of_mem keep ys x m h)
  ]

  pub mem-filter :
      (keep : A → Bool) (xs : List A) (x : A)
      → Memᴰ x (filter keep xs) ↔ (Memᴰ x xs × (keep x ≡ true))
  mem-filter keep xs x = (mem_of_filter keep xs x, λ h. filter_of_mem keep xs x h.0 h.1)

  pub mem_of_cons : (x y : A) (ys : List A) → Memᴰ x (y ∷ ys) → (x ≡ y) ⊎ Memᴰ x ys
  mem_of_cons _ y ys head = inl refl
  mem_of_cons x y ys (tail m) = inr m
