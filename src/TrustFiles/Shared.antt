-- ===== src/TrustFiles/Shared.antt =====
-- lib/trust-store.ts: the trust list as a set of pairs, and what the two writers of `trust.json` do to
-- one another's data.
use maw_js.Prelude.{
  ℕ, ◌≡◌, ◌≢◌, ◌↔◌, ◌∙◌, refl, sym, Bool, true, false, ◌||◌, none, some, List, [], ◌∷◌, ◌++◌, Text,
  ===_iff, ===-refl, ===_of_ne, ===-comm, is_empty, find, any, Option-cases, inl, inr, ◌⊎◌, arith,
}
use maw_js.Prelude.Dict.{lookup}
use maw_js.Disk.{ConsentAction, at, TrustEntry, TrustEntryOnDisk, Disk}
use maw_js.Consent.Store.{record_trust, is_trusted, load_trust as load_consent_trust}
use maw_js.TrustFiles.{load_trust, save_trust, same_pair, cmd_add}

-- A list that pairs `s` and `t`, in either direction.
abbrev pub pairs : Text → Text → List TrustEntryOnDisk → Bool
pairs s t = any (λ e. same_pair (e.sender, e.target) (s, t))

same_pair_comm : (a b s t : Text) → same_pair (a, b) (s, t) ≡ same_pair (a, b) (t, s)
unfolding same_pair
same_pair_comm a b s t = ground arith

pub pairs_comm : (s t : Text) (list : List TrustEntryOnDisk) → pairs s t list ≡ pairs t s list
pairs_comm s t [] = refl
pairs_comm s t (e ∷ list) = rw (same_pair_comm e.sender e.target s t, pairs_comm s t list) refl

find-any :
    (p : TrustEntryOnDisk → Bool) (list : List TrustEntryOnDisk)
    → (find p list ≡ none) ↔ (any p list ≡ false)
find-any p [] = (λ _. refl, λ _. refl)
find-any p (e ∷ list) = ground (arith, find-any p list)

any_of_find :
    (p : TrustEntryOnDisk → Bool) (list : List TrustEntryOnDisk) (x : TrustEntryOnDisk)
    → find p list ≡ some x
    → any p list ≡ true
any_of_find p [] x h = cc
any_of_find p (e ∷ list) x h = ground (arith, any_of_find p list x)

any-append :
    (p : TrustEntryOnDisk → Bool) (xs ys : List TrustEntryOnDisk)
    → any p (xs ++ ys) ≡ (any p xs || any p ys)
any-append p [] ys = refl
any-append p (x ∷ xs) ys = ground (arith, any-append p xs ys)

load_trust-save_trust :
    (list : List TrustEntryOnDisk) (d : Disk) → load_trust (save_trust list d) ≡ list
unfolding load_trust save_trust
load_trust-save_trust list d = refl

record_trust-clears : (e : TrustEntry) (d : Disk) → load_trust (record_trust e d) ≡ []
unfolding load_trust record_trust
record_trust-clears e d = refl

save_trust-clears :
    (list : List TrustEntryOnDisk) (d : Disk) (f g : Text) (a : ConsentAction)
    → is_trusted (save_trust list d) f g a ≡ false
unfolding save_trust is_trusted load_consent_trust lookup
save_trust-clears list d f g a = refl

-- No two entries of the list are for one pair.
abbrev pub IsDistinct : List TrustEntryOnDisk → Type 0
IsDistinct [] = Unit
IsDistinct (e ∷ list) = (pairs e.sender e.target list ≡ false) × IsDistinct list

-- What a proper pair is: two names, not empty and not the same.
abbrev pub IsPair : Text → Text → Type 0
IsPair s t = (is_empty s ≡ false) × (is_empty t ≡ false) × (s ≢ t)

cmd_add-cases :
    (s t : Text) (now : ℕ) (d : Disk)
    → IsPair s t
    → ((pairs s t (load_trust d) ≡ true) × ((cmd_add s t now d).0 ≡ d))
      ⊎ ((pairs s t (load_trust d) ≡ false)
          × ((cmd_add s t now d).0
              ≡ save_trust
                  (load_trust d ++ (record { sender = s; target = t; added_at = at now } ∷ []))
                  d))
unfolding cmd_add
cmd_add-cases s t now d (hs, ht, ne) =
    let ne' = ===_of_ne s t ne in
    elim (Option-cases (find (λ e. same_pair (e.sender, e.target) (s, t)) (load_trust d))) [
      | inl e ↦ inr ((find-any _ (load_trust d)).0 e, rw (hs, ht, ne', e) refl)
      | inr (x, e) ↦ inl (any_of_find _ (load_trust d) x e, rw (hs, ht, ne', e) refl)
    ]

same_pair-cases :
    (a b s t : Text) → same_pair (a, b) (s, t) ≡ true → ((a ≡ s) × (b ≡ t)) ⊎ ((a ≡ t) × (b ≡ s))
unfolding same_pair
same_pair-cases a b s t h = ground (arith, ===_iff a s, ===_iff b t, ===_iff a t, ===_iff b s)

-- Two spellings of one pair are answered alike.
pairs_of_same :
    (a b s t : Text) (list : List TrustEntryOnDisk)
    → same_pair (a, b) (s, t) ≡ true
    → pairs s t list ≡ pairs a b list
pairs_of_same a b s t list h = elim (same_pair-cases a b s t h) [
  | inl (p, q) ↦ rw (p, q) refl
  | inr (p, q) ↦ rw (p, q) (pairs_comm s t list)
]

same_pair-sym : (a b s t : Text) → same_pair (a, b) (s, t) ≡ same_pair (s, t) (a, b)
unfolding same_pair
same_pair-sym a b s t = ground (arith, ===-comm a s, ===-comm b t, ===-comm a t, ===-comm b s)

IsDistinct-append :
    (list : List TrustEntryOnDisk) (n : TrustEntryOnDisk)
    → IsDistinct list
    → pairs n.sender n.target list ≡ false
    → IsDistinct (list ++ (n ∷ []))
IsDistinct-append [] n h new = (refl, tt)
IsDistinct-append (e ∷ list) n h new = (
  rw (any-append (λ x. same_pair (x.sender, x.target) (e.sender, e.target)) list (n ∷ []))
      (ground (arith, same_pair-sym n.sender n.target e.sender e.target)),
  IsDistinct-append list n h.1 (ground arith),
)

cmd_add-known :
    (s t : Text) (now : ℕ) (d : Disk)
    → IsPair s t
    → pairs s t (load_trust d) ≡ true
    → (cmd_add s t now d).0 ≡ d
cmd_add-known s t now d ok known = elim (cmd_add-cases s t now d ok) [
  | inl (_, e) ↦ e
  | inr (new, _) ↦ cc
]

IsPair-sym : (s t : Text) → IsPair s t → IsPair t s
IsPair-sym s t (hs, ht, ne) = (ht, hs, λ e. ne (sym e))

-- What one addition makes of the list of pairs.
abbrev pub Adds : (s t : Text) → (before after : List TrustEntryOnDisk) → Type 0
Adds s t before after =
    ((a b : Text) → pairs a b after ≡ (same_pair (s, t) (a, b) || pairs a b before))
    × (IsDistinct before → IsDistinct after)

Adds-present :
    (s t : Text) (list : List TrustEntryOnDisk) → pairs s t list ≡ true → Adds s t list list
Adds-present s t list known = (λ a b. ground (arith, pairs_of_same s t a b list), λ h. h)

Adds-append :
    (list : List TrustEntryOnDisk) (n : TrustEntryOnDisk)
    → pairs n.sender n.target list ≡ false
    → Adds n.sender n.target list (list ++ (n ∷ []))
Adds-append list n new = (
  λ a b. rw (any-append (λ e. same_pair (e.sender, e.target) (a, b)) list (n ∷ [])) (ground arith),
  λ h. IsDistinct-append list n h new,
)

cmd_add-Adds :
    (s t : Text) (now : ℕ) (d : Disk)
    → IsPair s t
    → Adds s t (load_trust d) (load_trust (cmd_add s t now d).0)
cmd_add-Adds s t now d ok = elim (cmd_add-cases s t now d ok) [
  | inl (known, e) ↦ rw e (Adds-present s t (load_trust d) known)
  | inr (new, e) ↦
      rw
        (
          e,
          load_trust-save_trust
              (load_trust d ++ (record { sender = s; target = t; added_at = at now } ∷ [])) d,
        )
        (Adds-append (load_trust d) (record { sender = s; target = t; added_at = at now }) new)
]

same_pair_refl : (s t : Text) → same_pair (s, t) (s, t) ≡ true
unfolding same_pair
same_pair_refl s t = ground (arith, ===-refl s, ===-refl t)

-- Adding a pair to the list puts it there, in both directions, and changes no other pair; a list
-- without duplicates stays one; and adding the pair again, in either direction, changes nothing.
pub cmd_add_lem :
    (s t : Text) (now later : ℕ) (d : Disk)
    → IsPair s t
    → let d' = (cmd_add s t now d).0 in
      Adds s t (load_trust d) (load_trust d')
      × ((cmd_add s t later d').0 ≡ d')
      × ((cmd_add t s later d').0 ≡ d')
cmd_add_lem s t now later d ok =
    let adds = cmd_add-Adds s t now d ok in
    let there : pairs s t (load_trust (cmd_add s t now d).0) ≡ true =
      adds.0 s t ∙ ground (arith, same_pair_refl s t) in
    (
      adds,
      cmd_add-known s t later _ ok there,
      cmd_add-known t s later _ (IsPair-sym s t ok) (pairs_comm t s _ ∙ there),
    )

-- The two stores overwrite one another, since both write `trust.json` in the state directory and
-- each reads the other's shape as an empty store: recording a consent empties the pairwise list,
-- and adding a pair that is not in the list takes back every consent.
pub stores_clobber :
    (e : TrustEntry) (s t : Text) (now : ℕ) (d : Disk)
    → (load_trust (record_trust e d) ≡ [])
      × (IsPair s t
          → pairs s t (load_trust d) ≡ false
          → (f g : Text) (a : ConsentAction) → is_trusted (cmd_add s t now d).0 f g a ≡ false)
stores_clobber e s t now d = (
  record_trust-clears e d,
  λ ok new f g a. elim (cmd_add-cases s t now d ok) [
    | inl (known, _) ↦ cc
    | inr (_, done) ↦ rw done (save_trust-clears _ d f g a)
  ],
)
