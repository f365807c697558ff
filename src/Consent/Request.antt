-- ===== src/Consent/Request.antt =====
-- core/consent/pin.ts and core/consent/request.ts. SHA-256 is a parameter, the clock and the random
-- bytes are arguments, and the answer of the peer is a function of the request that is posted.
pub mod Approval
pub mod Once
use maw_js.Prelude.{
  ℕ, ◌+◌, ◌*◌, Bool, true, false, ◌&&◌, not, Option, none, some, List, Text, text, ◌===◌,
  if◌then◌else◌, ltb, leb,
}
use maw_js.PairCodes.{normalize, is_valid_shape, generate_code}
use maw_js.Disk.{
  ConsentAction, ConsentStatus, pending, approved, rejected, expired, Stamp, at, human, TrustEntry,
  PendingRequest, Disk,
}
use maw_js.Consent.Store.{write_pending, read_pending, update_status, record_trust}

-- 10 minutes.
abbrev pub ttl_ms : ℕ
ttl_ms = 10 * 60 * 1000

unfoldable pub generate_pin : List ℕ → Text
generate_pin bytes = generate_code bytes

pub record ConsentRequest : Type 0 where
  pub from : Text
  pub to : Text
  pub action : ConsentAction
  pub summary : Text

-- The answer to the POST: a status code, or a network error.
pub data PostOutcome : Type 0 where
  response : (status : ℕ) → PostOutcome
  network_error : PostOutcome

pub data ConsentResult : Type 0 where
  requested : (id pin : Text) → (expires_at : Stamp) → ConsentResult
  peer_rejected : (id : Text) → (status : ℕ) → ConsentResult
  peer_unreachable : (id : Text) → ConsentResult

-- `res.ok`
abbrev pub is_ok : ℕ → Bool
is_ok status = leb 200 status && leb status 299

-- What `requestConsent` answers after the POST.
abbrev pub after_post : PendingRequest → (pin : Text) → PostOutcome → ConsentResult
after_post req pin (response status) =
    if is_ok status then requested req.id pin req.expires_at else peer_rejected req.id status
after_post req pin network_error = peer_unreachable req.id

pub data ApproveError : Type 0 where
  not_found : ApproveError
  not_pending : ConsentStatus → ApproveError
  pin_mismatch : ApproveError

pub data ApproveResult : Type 0 where
  granted : TrustEntry → ApproveResult
  refused : ApproveError → ApproveResult

abbrev pub is_pending : ConsentStatus → Bool
is_pending pending = true
is_pending _ = false

pub data RejectResult : Type 0 where
  done : RejectResult
  refused : ApproveError → RejectResult

unfoldable pub reject_consent : (id : Text) → (now : ℕ) → Disk → Disk × RejectResult
reject_consent id now d = elim (read_pending id now d) [
  | none ↦ (d, refused not_found)
  | some req ↦
      if is_pending req.status
      then ((update_status id rejected now d).0, done)
      else (d, refused (not_pending req.status))
]

module _ (sha256 : Text → Text) where
  unfoldable pub hash_pin : Text → Text
  hash_pin pin = sha256 (normalize pin)

  unfoldable pub verify_pin : Text → (expected : Text) → Bool
  verify_pin pin expected = is_valid_shape pin && hash_pin pin === expected

  -- The record that `requestConsent` writes and posts.
  unfoldable pub new_pending : ConsentRequest → (id pin : Text) → (now : ℕ) → PendingRequest
  new_pending req id pin now = record {
    id = id;
    from = req.from;
    to = req.to;
    action = req.action;
    summary = req.summary;
    pin_hash = hash_pin pin;
    created_at = at now;
    expires_at = at (now + ttl_ms);
    status = pending;
  }

  -- `post` is `none` without a `peerUrl`. The local mirror is written before the POST.
  unfoldable pub request_consent :
      ConsentRequest
      → (post : Option (PendingRequest → PostOutcome)) → (id : Text) → (bytes : List ℕ) → (now : ℕ)
      → Disk
      → Disk × ConsentResult
  request_consent req post id bytes now d =
      let pin = generate_pin bytes in
      let record_ = new_pending req id pin now in
      (
        write_pending record_ d,
        elim post [
          | none ↦ requested id pin record_.expires_at
          | some send ↦ after_post record_ pin (send record_)
        ],
      )

  -- `now` is the clock when the request is read, and `stamp` when the trust entry is made.
  unfoldable pub approve_consent : (id pin : Text) → (now stamp : ℕ) → Disk → Disk × ApproveResult
  approve_consent id pin now stamp d = elim (read_pending id now d) [
    | none ↦ (d, refused not_found)
    | some req ↦
        if not (is_pending req.status)
        then (d, refused (not_pending req.status))
        else (if not (verify_pin pin req.pin_hash)
            then (d, refused pin_mismatch)
            else (let entry : TrustEntry = record {
              from = req.from;
              to = req.to;
              action = req.action;
              approved_at = at stamp;
              approved_by = human;
              request_id = some id;
            } in
                (record_trust entry (update_status id approved now d).0, granted entry)))
  ]
