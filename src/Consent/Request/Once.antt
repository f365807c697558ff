-- ===== src/Consent/Request/Once.antt =====
-- core/consent/request.ts: many attempts at one request.
use maw_js.Prelude.{ℕ, suc, ◌≤◌, ◌≡◌, refl, some, List, [], ◌∷◌, Text, inl, inr, ◌⊎◌, arith, subst}
use maw_js.Disk.{approved, TrustEntry, request, Disk}
use maw_js.Consent.Store.{pending_file}
use maw_js.Consent.Request.{ApproveError, ApproveResult, granted, approve_consent}
use maw_js.Consent.Request.Approval.{
  IsNamed, refused_unchanged, granted-Approval, IsDecided, decided_is_final,
}

-- A PIN that is typed in, and the two readings of the clock.
pub record PinAttempt : Type 0 where
  pub pin : Text
  pub now : ℕ
  pub stamp : ℕ

abbrev pub count_grant : ApproveResult → ℕ → ℕ
count_grant (granted _) n = suc n
count_grant (ApproveResult.refused _) n = n

ApproveResult-cases :
    (r : ApproveResult)
    → ((entry : TrustEntry) × (r ≡ granted entry))
      ⊎ ((e : ApproveError) × (r ≡ ApproveResult.refused e))
ApproveResult-cases (granted entry) = inl (entry, refl)
ApproveResult-cases (ApproveResult.refused e) = inr (e, refl)

module _ (sha256 : Text → Text) (id : Text) where
  -- The disk after the attempts, and how many were granted.
  unfoldable pub try_pins : List PinAttempt → Disk → Disk × ℕ
  try_pins [] d = (d, 0)
  try_pins (a ∷ rest) d =
      let (d', result) = approve_consent sha256 id a.pin a.now a.stamp d in
      let (d'', n) = try_pins rest d' in (d'', count_grant result n)

  decided_stays :
      (attempts : List PinAttempt) (d : Disk) → IsDecided id d → try_pins attempts d ≡ (d, 0)
  unfolding try_pins
  decided_stays [] d h = refl
  decided_stays (a ∷ rest) d h =
      let (s, refused, _) = decided_is_final sha256 id a.pin a.now a.stamp d h in
      rw refused (rw (decided_stays rest d h) refl)

  granted-IsDecided :
      (a : PinAttempt) (d : Disk) {entry : TrustEntry}
      → IsNamed d
      → (approve_consent sha256 id a.pin a.now a.stamp d).1 ≡ granted entry
      → IsDecided id (approve_consent sha256 id a.pin a.now a.stamp d).0
  granted-IsDecided a d named h =
      let done = granted-Approval sha256 id a.pin a.now a.stamp d h in
      (
        record done.req { status = approved },
        subst
            (λ i.
              pending_file i (approve_consent sha256 id a.pin a.now a.stamp d).0
              ≡ some (request (record done.req { status = approved })))
            (named id done.req done.listed) done.decided,
        refl,
      )

  -- However many PINs are tried, at most one approval is granted for a request; and if none is, the
  -- disk is as it was, so wrong guesses leave no trace and no trust.
  pub granted_once :
      (attempts : List PinAttempt) (d : Disk)
      → IsNamed d
      → ((try_pins attempts d).1 ≤ 1) × ((try_pins attempts d).1 ≡ 0 → (try_pins attempts d).0 ≡ d)
  unfolding try_pins
  granted_once [] d named = (omega arith, λ _. refl)
  granted_once (a ∷ rest) d named =
      elim (ApproveResult-cases (approve_consent sha256 id a.pin a.now a.stamp d).1) [
        | inl (entry, e) ↦
            let after = decided_stays rest _ (granted-IsDecided a d named e) in
            (rw (e, after) (omega arith), rw (e, after) (λ h. absurd (omega arith)))
        | inr (error, e) ↦
            let same = refused_unchanged sha256 id a.pin a.now a.stamp d e in
            rw (e, same) (granted_once rest d named)
      ]
