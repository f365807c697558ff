-- ===== src/Consent/Request/Approval.antt =====
-- core/consent/request.ts: what an approval needs, and that a request is decided once.
use maw_js.Prelude.{
  ℕ, ◌≡◌, refl, sym, subst, ◌∙◌, true, false, some, Text, ◌===◌, ===_iff, ===-refl, if◌then◌else◌,
  Option-cases, inl, inr, arith,
}
use maw_js.Prelude.Dict.{lookup-insert}
use maw_js.PairCodes.{is_valid_shape}
use maw_js.Disk.{
  ConsentAction, ConsentStatus, pending, approved, expired, at, human, TrustEntry, PendingRequest,
  PendingJson, request, Disk,
}
use maw_js.Consent.Store.{
  pending_file, read_pending, update_status, write_pending, record_trust, apply_expiry, is_past,
  is_trusted,
}
use maw_js.Consent.Store.Laws.{is_trusted-record_trust_self}
use maw_js.Consent.Request.{
  ApproveError, not_pending, ApproveResult, granted, RejectResult, is_pending, reject_consent,
  hash_pin, verify_pin, approve_consent,
}

-- Every request is in the file of its own id.
abbrev pub IsNamed : Disk → Type 0
IsNamed d =
    (id : Text) (req : PendingRequest) → pending_file id d ≡ some (request req) → req.id ≡ id

pub pending_file-write_pending :
    (req : PendingRequest) (d : Disk) (id : Text)
    → pending_file id (write_pending req d)
      ≡ (if req.id === id then some (request req) else pending_file id d)
unfolding pending_file write_pending
pending_file-write_pending req d id =
    ground (arith, lookup-insert req.id id (request req) d.pending_files)

pub write_pending-IsNamed :
    (req : PendingRequest) (d : Disk) → IsNamed d → IsNamed (write_pending req d)
write_pending-IsNamed req d h id r e =
    ground (arith, pending_file-write_pending req d id, ===_iff req.id id, h id r)

pending_file-record_trust :
    (e : TrustEntry) (d : Disk) (id : Text) → pending_file id (record_trust e d) ≡ pending_file id d
unfolding pending_file record_trust
pending_file-record_trust e d id = refl

-- What an approval that is granted has found and has done.
pub record Approval (sha256 : Text → Text) (id pin : Text) (now : ℕ) (d d' : Disk)
    (entry : TrustEntry) : Type 0 where
  pub req : PendingRequest
  pub listed : pending_file id d ≡ some (request req)
  pub waiting : req.status ≡ pending
  pub in_time : is_past now req.expires_at ≡ false
  pub shape : is_valid_shape pin ≡ true
  pub secret : hash_pin sha256 pin ≡ req.pin_hash
  pub from : entry.from ≡ req.from
  pub to : entry.to ≡ req.to
  pub action : entry.action ≡ req.action
  pub trusted : is_trusted d' req.from req.to req.action ≡ true
  pub decided : pending_file req.id d' ≡ some (request (record req { status = approved }))

module _ (sha256 : Text → Text) (id pin : Text) (now stamp : ℕ) (d : Disk) where
  -- A refusal changes nothing, whatever the reason.
  pub refused_unchanged :
      {e : ApproveError}
      → (approve_consent sha256 id pin now stamp d).1 ≡ ApproveResult.refused e
      → (approve_consent sha256 id pin now stamp d).0 ≡ d
  unfolding approve_consent
  refused_unchanged h = ground arith

read_pending-eq-some :
    (id : Text) (now : ℕ) (d : Disk) {req : PendingRequest}
    → read_pending id now d ≡ some req
    → (r : PendingRequest) × (pending_file id d ≡ some (request r)) × (apply_expiry r now ≡ req)
unfolding read_pending
read_pending-eq-some id now d h = elim (Option-cases (pending_file id d)) [
  | inl e ↦ absurd (ground (arith, e))
  | inr (PendingJson.corrupt, e) ↦ absurd (ground (arith, e))
  | inr (request r, e) ↦ (r, e, ground (arith, e))
]

apply_expiry-pending :
    (r : PendingRequest) (now : ℕ)
    → (apply_expiry r now).status ≡ pending
    → (r.status ≡ pending) × (is_past now r.expires_at ≡ false) × (apply_expiry r now ≡ r)
unfolding apply_expiry
apply_expiry-pending r now h = ground arith

record_trust-grants :
    (e : TrustEntry) (d : Disk) {f t : Text} {a : ConsentAction}
    → e.from ≡ f
    → e.to ≡ t
    → e.action ≡ a
    → is_trusted (record_trust e d) f t a ≡ true
record_trust-grants e d p q r = rw (← p, ← q, ← r) (is_trusted-record_trust_self e d)

module _ (sha256 : Text → Text) (id pin : Text) (now stamp : ℕ) (d : Disk) where
  granted_cases :
      {entry : TrustEntry}
      → (approve_consent sha256 id pin now stamp d).1 ≡ granted entry
      → (req : PendingRequest) × (read_pending id now d ≡ some req)
        × (req.status ≡ pending)
        × (verify_pin sha256 pin req.pin_hash ≡ true)
        × (entry.from ≡ req.from)
        × (entry.to ≡ req.to)
        × (entry.action ≡ req.action)
        × ((approve_consent sha256 id pin now stamp d).0
            ≡ record_trust entry (write_pending (record req { status = approved }) d))
  unfolding approve_consent update_status
  granted_cases h = elim (Option-cases (read_pending id now d)) [
    | inl e ↦ absurd (ground (arith, e))
    | inr (req, e) ↦ (
      req,
      e,
      ground (arith, e),
      ground (arith, e),
      ground (arith, e),
      ground (arith, e),
      ground (arith, e),
      ground (arith, e),
    )
  ]

  -- An approval is granted only for a request that is on file, undecided and in time, and only for a
  -- PIN of the right shape whose hash is the one on file. It makes the trust entry of that request,
  -- and the request is on file as approved.
  pub granted-Approval :
      {entry : TrustEntry}
      → (approve_consent sha256 id pin now stamp d).1 ≡ granted entry
      → Approval sha256 id pin now d (approve_consent sha256 id pin now stamp d).0 entry
  unfolding verify_pin
  granted-Approval {entry} h =
      let (req, read, waiting, verified, from, to, action, after) = granted_cases h in
      let (r, listed, same) = read_pending-eq-some id now d read in
      let (_, in_time, unchanged) = apply_expiry-pending r now (rw same waiting) in
      let e : r ≡ req = sym unchanged ∙ same in
      record {
        req = req;
        listed = subst (λ q. pending_file id d ≡ some (request q)) e listed;
        waiting = waiting;
        in_time = subst (λ q. is_past now q.expires_at ≡ false) e in_time;
        shape = ground (arith, verified);
        secret = ground (arith, verified, ===_iff (hash_pin sha256 pin) req.pin_hash);
        from = from;
        to = to;
        action = action;
        trusted =
            subst (λ d'. is_trusted d' req.from req.to req.action ≡ true) (sym after)
              (record_trust-grants entry _ from to action);
        decided =
            rw
              (
                after,
                pending_file-record_trust entry (write_pending (record req { status = approved }) d)
                    req.id,
                pending_file-write_pending (record req { status = approved }) d req.id,
                ===-refl req.id,
              )
              refl;
      }

-- A request that is not pending stays as it is.
abbrev pub IsDecided : (id : Text) → Disk → Type 0
IsDecided id d =
    (req : PendingRequest) × (pending_file id d ≡ some (request req))
    × (is_pending req.status ≡ false)

expire-decided :
    (now : ℕ) (r : PendingRequest) → is_pending r.status ≡ false → apply_expiry r now ≡ r
unfolding apply_expiry
expire-decided now r h = ground arith

-- Once a request is decided, no PIN and no rejection changes anything, at any time.
pub decided_is_final :
    (sha256 : Text → Text) (id pin : Text) (now stamp : ℕ) (d : Disk)
    → IsDecided id d
    → (s : ConsentStatus) × (approve_consent sha256 id pin now stamp d
        ≡ (d, ApproveResult.refused (not_pending s)))
      × (reject_consent id now d ≡ (d, RejectResult.refused (not_pending s)))
unfolding approve_consent reject_consent read_pending
decided_is_final sha256 id pin now stamp d (req, listed, closed) = (
  req.status,
  ground (arith, listed, expire-decided now req),
  ground (arith, listed, expire-decided now req),
)

module _ (sha256 : Text → Text) (id pin : Text) (now stamp : ℕ) (d : Disk) (req : PendingRequest)
    (listed : pending_file id d ≡ some (request req)) (waiting : req.status ≡ pending) where
  -- A request on file with the PIN's hash is granted up to its expiry, and refused as expired after.
  pub approve_in_time :
      is_past now req.expires_at ≡ false
      → verify_pin sha256 pin req.pin_hash ≡ true
      → (entry : TrustEntry) × ((approve_consent sha256 id pin now stamp d).1 ≡ granted entry)
        × (is_trusted (approve_consent sha256 id pin now stamp d).0 req.from req.to req.action
            ≡ true)
  unfolding approve_consent read_pending apply_expiry update_status
  approve_in_time in_time verified =
      let entry : TrustEntry = record {
        from = req.from;
        to = req.to;
        action = req.action;
        approved_at = at stamp;
        approved_by = human;
        request_id = some id;
      } in
      (
        entry,
        ground (arith, listed),
        subst (λ d'. is_trusted d' req.from req.to req.action ≡ true)
            (let e : record_trust entry (write_pending (record req { status = approved }) d)
                  ≡ (approve_consent sha256 id pin now stamp d).0 =
                ground (arith, listed) in
              e)
            (is_trusted-record_trust_self entry
              (write_pending (record req { status = approved }) d)),
      )

  pub approve_late :
      is_past now req.expires_at ≡ true
      → approve_consent sha256 id pin now stamp d ≡ (d, ApproveResult.refused (not_pending expired))
  unfolding approve_consent read_pending apply_expiry
  approve_late past = ground (arith, listed)
