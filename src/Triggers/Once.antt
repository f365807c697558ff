-- ===== src/Triggers/Once.antt =====
-- core/runtime/triggers-engine.ts: which commands a call runs, and which triggers it removes.
use maw_js.Prelude.Dict.{Dict}
use maw_js.Prelude.{
  ℕ, suc, ◌≡◌, refl, sym, ap, ◌∙◌, Bool, ◌&&◌, List, [], ◌∷◌, ◌++◌, map, Text, length, filter,
  Bool-cases, inl, inr, append_assoc,
}
use maw_js.Triggers.{
  TriggerEvent, TriggerConfig, TriggerContext, Answer, TriggerFireResult, Engine, fires, is_ok,
  remove_at, result_of, record_last, after_fire, fire_from, fire,
}

-- A list with the index of each item.
abbrev pub indexed {ℓ} : {A : Type ℓ} → ℕ → List A → List (ℕ × A)
indexed i [] = []
indexed i (x ∷ xs) = (i, x) ∷ indexed (suc i) xs

unfoldable remove_all {ℓ} : {A : Type ℓ} → List ℕ → List A → List A
unfolding remove_at
remove_all [] xs = xs
remove_all (i ∷ is) xs = remove_all is (remove_at i xs)

remove_at-append {ℓ} :
    {A : Type ℓ} (xs : List A) (x : A) (ys : List A)
    → remove_at (length xs) (xs ++ (x ∷ ys)) ≡ xs ++ ys
unfolding remove_at
remove_at-append [] x ys = refl
remove_at-append (y ∷ xs) x ys = ap (λ l. y ∷ l) (remove_at-append xs x ys)

-- What stood after an item stands at the next index once an item before it is gone.
remove_at-append_next {ℓ} :
    {A : Type ℓ} (xs : List A) (b c : A) (zs : List A)
    → remove_at (suc (length xs)) (xs ++ (b ∷ c ∷ zs)) ≡ xs ++ (b ∷ zs)
unfolding remove_at
remove_at-append_next [] b c zs = refl
remove_at-append_next (x ∷ xs) b c zs = ap (λ l. x ∷ l) (remove_at-append_next xs b c zs)

module _ (event : TriggerEvent) (ctx : TriggerContext) (shell : (i : ℕ) (action : Text) → Answer)
    (now : ℕ → ℕ) where
  abbrev pub is_due : Dict ℕ → ℕ × TriggerConfig → Bool
  is_due timers (i, t) = fires event ctx timers (now i) t

  abbrev pub outcome : ℕ × TriggerConfig → TriggerFireResult
  outcome (i, t) = result_of event ctx shell now i t

  -- A one-time trigger whose command succeeds.
  abbrev pub is_spent : Dict ℕ → ℕ × TriggerConfig → Bool
  is_spent timers (i, t) =
      is_due timers (i, t) && (t.once && is_ok (result_of event ctx shell now i t).answer)

  abbrev pub spent : Dict ℕ → List (ℕ × TriggerConfig) → List ℕ
  spent timers items = map (λ x. x.0) (filter (is_spent timers) items)

  -- What the rounds of the loop give, as lists.
  abbrev Rounds : (i : ℕ) → List TriggerConfig → Engine → Type 0
  Rounds i ts e =
      let (e', results) = fire_from event ctx shell now i ts e in
      (results ≡ map outcome (filter (is_due e.idle_timers) (indexed i ts)))
      × (e'.triggers ≡ remove_all (spent e.idle_timers (indexed i ts)) e.triggers)

  fire_from-Rounds : (i : ℕ) (ts : List TriggerConfig) (e : Engine) → Rounds i ts e
  unfolding fire_from remove_all after_fire
  fire_from-Rounds i [] e = (refl, refl)
  fire_from-Rounds i (t ∷ ts) e = elim (Bool-cases (fires event ctx e.idle_timers (now i) t)) [
    | inr skipped ↦ rw (skipped, fire_from) (fire_from-Rounds (suc i) ts e)
    | inl due ↦
        let rest = fire_from-Rounds (suc i) ts (after_fire event ctx shell now i t e) in
        let with_triggers : List TriggerConfig → Engine = λ triggers. record e {
          triggers = triggers;
          last_fired =
              record_last event ctx shell now i (result_of event ctx shell now i t) e.last_fired;
        } in
        elim (Bool-cases (t.once && is_ok (result_of event ctx shell now i t).answer)) [
          | inl gone ↦
              rw (due, fire_from)
                (
                  ap (λ l. outcome (i, t) ∷ l) rest.0,
                  rw gone (fire_from-Rounds (suc i) ts (with_triggers (remove_at i e.triggers))).1,
                )
          | inr kept ↦
              rw (due, fire_from)
                (
                  ap (λ l. outcome (i, t) ∷ l) rest.0,
                  rw kept (fire_from-Rounds (suc i) ts (with_triggers e.triggers)).1,
                )
        ]
  ]

  -- A call runs the command of each trigger that is due, once and in order, whatever is removed meanwhile: the
  -- answer has the results of the triggers of the call's beginning that are for the event, are not for another
  -- repository, and whose agent is not active within its timeout.
  pub fire-results :
      (e : Engine)
      → (fire event ctx shell now e).1
        ≡ map outcome (filter (is_due e.idle_timers) (indexed 0 e.triggers))
  unfolding fire
  fire-results e = (fire_from-Rounds 0 e.triggers e).0

  -- If exactly one trigger is spent (a one-time trigger that is due and whose command succeeds), then a call removes
  -- it and no other.
  pub one_spent :
      (xs : List TriggerConfig) (a : TriggerConfig) (ys : List TriggerConfig) (e : Engine)
      → e.triggers ≡ xs ++ (a ∷ ys)
      → spent e.idle_timers (indexed 0 e.triggers) ≡ length xs ∷ []
      → (fire event ctx shell now e).0.triggers ≡ xs ++ ys
  unfolding fire remove_all
  one_spent xs a ys e here one =
      (fire_from-Rounds 0 e.triggers e).1
      ∙ ap (λ s. remove_all s e.triggers) one
      ∙ ap (remove_at (length xs)) here
      ∙ remove_at-append xs a ys

  -- If exactly two triggers are spent and another one follows the second, then a call removes the first and the
  -- follower of the second, and the second stays: the indices of the call's beginning do not fit the list after
  -- the first removal.
  pub second_spent_stays :
      (xs : List TriggerConfig) (a : TriggerConfig) (ys : List TriggerConfig) (b c : TriggerConfig)
      (zs : List TriggerConfig) (e : Engine)
      → e.triggers ≡ xs ++ (a ∷ (ys ++ (b ∷ c ∷ zs)))
      → spent e.idle_timers (indexed 0 e.triggers) ≡ length xs ∷ suc (length (xs ++ ys)) ∷ []
      → (fire event ctx shell now e).0.triggers ≡ (xs ++ ys) ++ (b ∷ zs)
  unfolding fire remove_all
  second_spent_stays xs a ys b c zs e here two =
      let second = remove_at (suc (length (xs ++ ys))) in
      (fire_from-Rounds 0 e.triggers e).1
      ∙ ap (λ s. remove_all s e.triggers) two
      ∙ ap (λ l. second (remove_at (length xs) l)) here
      ∙ ap second (remove_at-append xs a (ys ++ (b ∷ c ∷ zs)))
      ∙ ap second (sym (append_assoc xs ys (b ∷ c ∷ zs)))
      ∙ remove_at-append_next (xs ++ ys) b c zs
