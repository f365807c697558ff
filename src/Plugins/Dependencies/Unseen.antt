-- ===== src/Plugins/Dependencies/Unseen.antt =====
-- plugin/dependencies.ts: the names that a search has seen, and the number of plugins that it has not.
use maw_js.Prelude.{
  ℕ, ◌≤◌, ◌<◌, ◌≡◌, ◌⊎◌, inl, inr, refl, subst, Bool, true, false, not, some, List, [], ◌∷◌, ◌++◌,
  Text, ◌===◌, ===_iff, ===-refl, filter, length, arith, Memᴰ, head, tail, member_of_any,
  any_of_member,
}
use maw_js.Prelude.Dict.{Dict, lookup}
use maw_js.Names.{includes_text}
use maw_js.Plugins.{LoadedPlugin}

pub seen_of_member : (name : Text) (xs : List Text) → Memᴰ name xs → includes_text name xs ≡ true
seen_of_member name xs m = any_of_member (λ s. s === name) name xs m (===-refl name)

pub member_of_seen : (name : Text) (xs : List Text) → includes_text name xs ≡ true → Memᴰ name xs
member_of_seen name xs h =
    let (x, m, e) = member_of_any (λ s. s === name) xs h in
    subst (λ y. Memᴰ y xs) ((===_iff x name).0 e) m

module _ {ℓ} {A : Type ℓ} where
  pub mem-snoc_left : (x y : A) (xs : List A) → Memᴰ x xs → Memᴰ x (xs ++ (y ∷ []))
  mem-snoc_left x y [] m = elim m [ ]
  mem-snoc_left x y (_ ∷ xs) head = head
  mem-snoc_left x y (_ ∷ xs) (tail m) = tail (mem-snoc_left x y xs m)

  pub mem-snoc_last : (y : A) (xs : List A) → Memᴰ y (xs ++ (y ∷ []))
  mem-snoc_last y [] = head
  mem-snoc_last y (_ ∷ xs) = tail (mem-snoc_last y xs)

  pub mem_of_snoc : (x y : A) (xs : List A) → Memᴰ x (xs ++ (y ∷ [])) → Memᴰ x xs ⊎ (x ≡ y)
  mem_of_snoc x y [] head = inr refl
  mem_of_snoc x y [] (tail m) = elim m [ ]
  mem_of_snoc x y (_ ∷ xs) head = inl head
  mem_of_snoc x y (_ ∷ xs) (tail m) = elim (mem_of_snoc x y xs m) [
    | inl n ↦ inl (tail n)
    | inr e ↦ inr e
  ]

-- How many entries of the index have not been seen.
abbrev pub is_unseen : List Text → Text × LoadedPlugin → Bool
is_unseen seen (name, _) = not (includes_text name seen)

abbrev pub unseen : Dict LoadedPlugin → List Text → ℕ
unseen index seen = length (filter (is_unseen seen) index)

pub unseen-cons :
    (index : Dict LoadedPlugin) (name : Text) (seen : List Text)
    → unseen index (name ∷ seen) ≤ unseen index seen
unseen-cons [] name seen = omega arith
unseen-cons ((key, p) ∷ rest) name seen = ground (arith, unseen-cons rest name seen)

pub unseen-cons_known :
    (index : Dict LoadedPlugin) (name : Text) (seen : List Text) (dep : LoadedPlugin)
    → lookup name index ≡ some dep
    → includes_text name seen ≡ false
    → unseen index (name ∷ seen) < unseen index seen
unfolding lookup
unseen-cons_known [] name seen dep e new = cc
unseen-cons_known ((key, p) ∷ rest) name seen dep e new = ground (
  arith,
  ===_iff key name,
  ===_iff name key,
  unseen-cons rest name seen,
  unseen-cons_known rest name seen dep,
)

pub unseen_le : (index : Dict LoadedPlugin) (seen : List Text) → unseen index seen ≤ length index
unseen_le [] seen = omega arith
unseen_le (_ ∷ rest) seen = ground (arith, unseen_le rest seen)
