-- ===== src/Transport/Failover.antt =====
-- core/transport/transport.ts: which transport decides the fate of a message, and which are asked.
use maw_js.Prelude.{
  ◌≡◌, ◌⊎◌, inl, inr, refl, sym, subst, ap, Bool, true, false, Option, none, some, List, [], ◌∷◌,
  ◌++◌, Text, filter, All, Bool-cases,
}
use maw_js.Transport.{
  TransportFailureReason, TransportTarget, TransportResult, classify_error, Attempt, answered,
  threw, Transport, after_error, after_attempt, all_failed, is_usable, end_or_next, send,
}

module _ (target : TransportTarget) (message : Text) where
  -- A transport that leaves the message to the next one: it is not connected, cannot reach the target, answers no,
  -- or throws an error of a class that can be tried again.
  abbrev pub Declines : Transport → Type 0
  Declines t =
      (is_usable target t ≡ false)
      ⊎ (t.send target message ≡ answered false)
      ⊎ ((err : Option Text) × (reason : TransportFailureReason) × (t.send target message
            ≡ threw err)
          × (classify_error err ≡ (reason, true)))

  -- A transport that delivers the message, or throws an error of another class; and the result of each.
  abbrev pub Decides : Transport → TransportResult → Type 0
  Decides t r =
      (is_usable target t ≡ true)
      × (((t.send target message ≡ answered true)
            × (r ≡ record { ok = true; via = t.name; reason = none; retryable = false }))
          ⊎ ((err : Option Text) × (reason : TransportFailureReason) × (t.send target message
                ≡ threw err)
              × (classify_error err ≡ (reason, false))
              × (r ≡ record { ok = false; via = t.name; reason = some reason; retryable = false })))

  -- The first transport that decides, after those that decline; only the usable ones up to it are asked.
  abbrev pub DecidedBy : List Transport → TransportResult × List Transport → Type 0
  DecidedBy ts (r, asked) =
      (before : List Transport) × (t : Transport) × (after : List Transport) × (ts
        ≡ before ++ (t ∷ after))
      × All Declines before
      × Decides t r
      × (asked ≡ filter (is_usable target) before ++ (t ∷ []))

  abbrev pub NoneDecides : List Transport → TransportResult × List Transport → Type 0
  NoneDecides ts (r, asked) =
      All Declines ts × (r ≡ all_failed) × (asked ≡ filter (is_usable target) ts)

  -- What one attempt of a usable transport is.
  abbrev Tells : Transport → Option TransportResult → Type 0
  Tells t none = Declines t
  Tells t (some r) = Decides t r

  error-Tells :
      (t : Transport) (err : Option Text) (c : TransportFailureReason × Bool)
      → is_usable target t ≡ true
      → t.send target message ≡ threw err
      → classify_error err ≡ c
      → Tells t (after_error t c)
  error-Tells t err (reason, true) usable sent class = inr (inr (err, reason, sent, class))
  error-Tells t err (reason, false) usable sent class =
      (usable, inr (err, reason, sent, class, refl))

  attempt-Tells :
      (t : Transport) (a : Attempt)
      → is_usable target t ≡ true
      → t.send target message ≡ a
      → Tells t (after_attempt t a)
  attempt-Tells t (answered true) usable sent = (usable, inl (sent, refl))
  attempt-Tells t (answered false) usable sent = inr (inl sent)
  attempt-Tells t (threw err) usable sent = error-Tells t err (classify_error err) usable sent refl

  abbrev Explained : List Transport → TransportResult × List Transport → Type 0
  Explained ts x = DecidedBy ts x ⊎ NoneDecides ts x

  -- A transport that declines in front of the others.
  passed_over :
      (t : Transport) (ts : List Transport) (x : TransportResult × List Transport)
      → is_usable target t ≡ false
      → Explained ts x
      → Explained (t ∷ ts) x
  passed_over t ts (r, asked) unusable (inl (before, u, after, split, declined, decides, e)) = inl (
    t ∷ before,
    u,
    after,
    ap (λ l. t ∷ l) split,
    (inl unusable, declined),
    decides,
    rw unusable e,
  )
  passed_over t ts (r, asked) unusable (inr (declined, failed, e)) =
      inr ((inl unusable, declined), failed, rw unusable e)

  asked_in_vain :
      (t : Transport) (ts : List Transport) (x : TransportResult × List Transport)
      → is_usable target t ≡ true
      → Declines t
      → Explained ts x
      → Explained (t ∷ ts) (x.0, t ∷ x.1)
  asked_in_vain t ts (r, asked) usable declines
        (inl (before, u, after, split, declined, decides, e)) =
      inl (
        t ∷ before,
        u,
        after,
        ap (λ l. t ∷ l) split,
        (declines, declined),
        decides,
        rw usable (ap (λ l. t ∷ l) e),
      )
  asked_in_vain t ts (r, asked) usable declines (inr (declined, failed, e)) =
      inr ((declines, declined), failed, rw usable (ap (λ l. t ∷ l) e))

  attempted :
      (t : Transport) (ts : List Transport) (a : Option TransportResult)
      (x : TransportResult × List Transport)
      → is_usable target t ≡ true
      → Tells t a
      → Explained ts x
      → Explained (t ∷ ts) (end_or_next t a x)
  attempted t ts none x usable declines rest = asked_in_vain t ts x usable declines rest
  attempted t ts (some r) x usable decides rest = inl ([], t, ts, refl, tt, decides, refl)

  send_asked :
      (t : Transport) (ts : List Transport)
      → is_usable target t ≡ true
      → send (t ∷ ts) target message
        ≡ end_or_next t (after_attempt t (t.send target message)) (send ts target message)
  unfolding send
  send_asked t ts usable = rw usable refl

  send_next :
      (t : Transport) (ts : List Transport)
      → is_usable target t ≡ false
      → send (t ∷ ts) target message ≡ send ts target message
  unfolding send
  send_next t ts unusable = rw unusable refl

  -- Either one transport decides, and all before it decline: then the result is its delivery or its error, and of
  -- the transports the usable ones up to it are asked, each once and in order. Or all decline: then the result is
  -- `unreachable` by none, and each usable one is asked once. A transport declines if it is not connected, cannot
  -- reach the target, answers no, or throws an error of a class that can be tried again; it decides if it is usable
  -- and delivers, or throws another error.
  pub send_lem :
      (ts : List Transport)
      → DecidedBy ts (send ts target message) ⊎ NoneDecides ts (send ts target message)
  unfolding send
  send_lem [] = inr (tt, refl, refl)
  send_lem (t ∷ ts) = elim (Bool-cases (is_usable target t)) [
    | inr unusable ↦
        subst (Explained (t ∷ ts)) (sym (send_next t ts unusable))
          (passed_over t ts (send ts target message) unusable (send_lem ts))
    | inl usable ↦ subst (Explained (t ∷ ts)) (sym (send_asked t ts usable)) (
        attempted t ts (after_attempt t (t.send target message)) (send ts target message) usable
          (attempt-Tells t (t.send target message) usable refl) (send_lem ts))
  ]
