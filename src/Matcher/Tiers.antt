-- ===== src/Matcher/Tiers.antt =====
-- core/matcher/resolve-target.ts: what each outcome of the cascade tells of the list of items.
use maw_js.Prelude.{
  ◌≤◌, ◌≡◌, ◌⊎◌, inl, inr, refl, ap, ◌++◌, Bool, true, false, none, some, List, [], ◌∷◌, Text,
  is_empty, find, filter, length, Memᴰ, head, tail, arith, Bool-cases, subst,
}
use maw_js.Matcher.Resolve.{
  ResolveResult, missing, exact, fuzzy, ambiguous, pick, is_exact, is_suffix, is_prefix_or_middle,
  is_hint, key_of_target, fuzzy_tiers, resolve_by_name,
}

module _ {ℓ} {A : Type ℓ} where
  abbrev pub NoMatch : (A → Bool) → List A → Type ℓ
  NoMatch p items = (x : A) → Memᴰ x items → p x ≡ false

  -- `a` is the first item that passes the test.
  abbrev pub FirstMatch : (A → Bool) → List A → A → Type ℓ
  FirstMatch p items a =
      (before : List A) × (after : List A) × (items ≡ before ++ (a ∷ after))
      × NoMatch p before
      × (p a ≡ true)

  -- The second list is that of the items that pass the test, in their order and as often as they stand there.
  pub data Selectsᴰ (p : A → Bool) : List A → List A → Type ℓ where
    none_left : Selectsᴰ p [] []
    takes :
        {x : A} {items found : List A}
        → p x ≡ true
        → Selectsᴰ p items found
        → Selectsᴰ p (x ∷ items) (x ∷ found)
    skips :
        {x : A} {items found : List A}
        → p x ≡ false
        → Selectsᴰ p items found
        → Selectsᴰ p (x ∷ items) found

  filter-Selects : (p : A → Bool) (items : List A) → Selectsᴰ p items (filter p items)
  filter-Selects p [] = none_left
  filter-Selects p (x ∷ items) = elim (Bool-cases (p x)) [
    | inl h ↦ simp (h) (takes h (filter-Selects p items))
    | inr h ↦ simp (h) (skips h (filter-Selects p items))
  ]

  selects : (p : A → Bool) (items found : List A) → filter p items ≡ found → Selectsᴰ p items found
  selects p items found e = subst (Selectsᴰ p items) e (filter-Selects p items)

  -- What a tier with the test `p` tells, where `next` says what the later ones tell.
  abbrev pub TierTells : (A → Bool) → List A → (ResolveResult A → Type ℓ) → ResolveResult A → Type ℓ
  TierTells p items next r =
      ((a : A) × (r ≡ fuzzy a) × Selectsᴰ p items (a ∷ []))
      ⊎ ((found : List A) × (r ≡ ambiguous found) × (2 ≤ length found) × Selectsᴰ p items found)
      ⊎ (Selectsᴰ p items [] × next r)

  pick-TierTells :
      (p : A → Bool) (items found : List A) (next : ResolveResult A → Type ℓ) (r : ResolveResult A)
      → filter p items ≡ found
      → next r
      → TierTells p items next (pick found r)
  pick-TierTells p items [] next r e n = inr (inr (selects p items [] e, n))
  pick-TierTells p items (a ∷ []) next r e n = inl (a, refl, selects p items (a ∷ []) e)
  pick-TierTells p items (a ∷ b ∷ more) next r e n =
      inr (inl (a ∷ b ∷ more, refl, omega arith, selects p items (a ∷ b ∷ more) e))

  find_cases :
      (p : A → Bool) (items : List A)
      → ((a : A) × (find p items ≡ some a) × FirstMatch p items a)
        ⊎ ((find p items ≡ none) × NoMatch p items)
  find_cases p [] = inr (refl, λ x m. elim m [ ])
  find_cases p (y ∷ ys) = elim (Bool-cases (p y)) [
    | inl h ↦ inl (y, rw h refl, ([], ys, refl, (λ x m. elim m [ ]), h))
    | inr h ↦ elim (find_cases p ys) [
      | inl (a, e, (before, after, split, missed, k)) ↦ inl (
        a,
        rw h e,
        (y ∷ before, after, ap (λ l. y ∷ l) split, no_match_cons p y before h missed, k),
      )
      | inr (e, rest) ↦ inr (rw h e, no_match_cons p y ys h rest)
    ]
  ]
    where
      no_match_cons :
          (p : A → Bool) (y : A) (ys : List A) → p y ≡ false → NoMatch p ys → NoMatch p (y ∷ ys)
      no_match_cons p y ys h rest _ head = h
      no_match_cons p y ys h rest x (tail m) = rest x m

module _ {ℓ} {A : Type ℓ} (name : A → Text) where
  -- The outcome of a search for a non-empty key: the first item of exactly that name; or, where there is none,
  -- the one item with the suffix or, where there is none, the one with the prefix or the middle; several
  -- of one of these tiers; or no match in any, with the items that contain the key.
  abbrev pub Explains : (fleet_sessions : Bool) → (lc : Text) → List A → ResolveResult A → Type ℓ
  Explains fleet_sessions lc items r =
      ((a : A) × (r ≡ exact a) × FirstMatch (is_exact name lc) items a)
      ⊎ (NoMatch (is_exact name lc) items
          × TierTells (is_suffix name lc) items
              (TierTells (is_prefix_or_middle name fleet_sessions lc) items (λ q.
                (hints : List A) × (q ≡ missing hints) × Selectsᴰ (is_hint name lc) items hints))
              r)

  fuzzy_tiers-tells :
      (fleet_sessions : Bool) (lc : Text) (items : List A)
      → TierTells
          (is_suffix name lc)
          items
          (TierTells
            (is_prefix_or_middle name fleet_sessions lc)
            items
            (λ q. (hints : List A) × (q ≡ missing hints) × Selectsᴰ (is_hint name lc) items hints))
          (fuzzy_tiers name fleet_sessions lc items)
  unfolding fuzzy_tiers
  fuzzy_tiers-tells fleet_sessions lc items =
      let hints = filter (is_hint name lc) items in
      let middle = is_prefix_or_middle name fleet_sessions lc in
      let Missed : ResolveResult A → Type ℓ =
        λ q. (hs : List A) × (q ≡ missing hs) × Selectsᴰ (is_hint name lc) items hs in
      let missed : Missed (missing hints) =
        (hints, refl, selects (is_hint name lc) items hints refl) in
      pick-TierTells (is_suffix name lc) items (filter (is_suffix name lc) items)
        (TierTells middle items Missed) (pick (filter middle items) (missing hints)) refl
        (pick-TierTells middle items (filter middle items) Missed (missing hints) refl missed)

  -- For a key that is not empty, `resolveByName` gives the first item that has exactly the name, or, where none has, the
  -- only item of the first tier that has any; several in that tier are all reported, in the list's order; and a miss
  -- means that no tier has one, and gives the items that contain the key, in the list's order.
  pub resolve_by_name-Explains :
      (target : Text) (items : List A) (fleet_sessions : Bool)
      → is_empty (key_of_target name target) ≡ false
      → Explains fleet_sessions
          (key_of_target name target)
          items
          (resolve_by_name name target items fleet_sessions)
  unfolding resolve_by_name
  resolve_by_name-Explains target items fleet_sessions full =
      let lc = key_of_target name target in
      elim (find_cases (is_exact name lc) items) [
        | inl (a, e, first) ↦ inl (a, rw (resolve_by_name, full, e) refl, first)
        | inr (e, none_exact) ↦
            inr (
              none_exact,
              rw (resolve_by_name, full, e) (fuzzy_tiers-tells fleet_sessions lc items),
            )
      ]
