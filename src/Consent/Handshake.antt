-- ===== src/Consent/Handshake.antt =====
-- The consent protocol between two nodes: core/consent/gate.ts and request.ts on the initiator, and
-- api/consent.ts and request.ts on the target. Each node has a disk of its own.
use maw_js.Prelude.{
  ℕ, ◌+◌, ◌≤◌, ◌<◌, ◌≡◌, refl, ap, ◌∙◌, true, false, none, some, List, Text, text, ◌===◌, ===-refl,
  is_empty, length, arith,
}
use maw_js.PairCodes.{normalize, is_valid_shape, generate_code}
use maw_js.PairCodes.Shape.{generate_code-is_valid_shape}
use maw_js.Disk.{
  hey, team_invite, plugin_install, TrustEntry, ConsentAction, ConsentStatus, pending, expired, at,
  PendingRequest, request, Disk,
}
use maw_js.Consent.Store.{
  is_trusted, action_text, read_pending, pending_file, write_pending, load_trust,
}
use maw_js.Consent.Request.{
  PostOutcome, response, requested, ApproveResult, granted, not_pending, ttl_ms, generate_pin,
  hash_pin, verify_pin, new_pending, request_consent, approve_consent, ConsentRequest,
}
use maw_js.Consent.Request.Approval.{pending_file-write_pending, approve_in_time, approve_late}
use maw_js.Consent.Api.{
  parse_action, has_empty_field, ConsentBody, post_request, status_code, created,
}
use maw_js.Consent.Gate.{peer, deny, gate_request, maybe_gate_consent, summarize}

abbrev status_text : ConsentStatus → Text
status_text pending = text "pending"
status_text ConsentStatus.approved = text "approved"
status_text ConsentStatus.rejected = text "rejected"
status_text expired = text "expired"

-- The request as the body of the POST: `JSON.stringify(pending)`, read back by the target.
abbrev pub body_of : PendingRequest → ConsentBody
body_of req = record {
  id = req.id;
  from = req.from;
  to = req.to;
  action = action_text req.action;
  summary = req.summary;
  pin_hash = req.pin_hash;
  created_at = some req.created_at;
  expires_at = some req.expires_at;
  status = status_text req.status;
}

-- The target's answer to the POST, and its disk after it.
abbrev pub target_reply : (now : ℕ) → (target : Disk) → PendingRequest → PostOutcome
target_reply now target req = response (status_code (post_request (body_of req) now target).1)

abbrev pub target_after : (now : ℕ) → (target : Disk) → PendingRequest → Disk
target_after now target req = (post_request (body_of req) now target).0

parse-action_text : (a : ConsentAction) → parse_action (action_text a) ≡ some a
unfolding ◌===◌
parse-action_text hey = refl
parse-action_text team_invite = refl
parse-action_text plugin_install = refl

has_empty_field-body_of :
    (req : PendingRequest)
    → is_empty req.id ≡ false
    → is_empty req.from ≡ false
    → is_empty req.to ≡ false
    → is_empty req.summary ≡ false
    → is_empty req.pin_hash ≡ false
    → has_empty_field (body_of req) ≡ false
has_empty_field-body_of req hi hf ht hs hp = ground arith

post_request-new :
    (req : PendingRequest) (now : ℕ) (d : Disk)
    → has_empty_field (body_of req) ≡ false
    → read_pending req.id now d ≡ none
    → post_request (body_of req) now d
      ≡ (write_pending (record req { status = pending }) d, created req.id req.expires_at)
unfolding post_request
post_request-new req now d full fresh = ground (arith, full, parse-action_text req.action, fresh)

pub record Exchange : Type 0 where
  pub my_node : Text
  pub node : Text
  pub query : Text
  pub message : Text
  pub peer_url : Text
  pub agent : Text
  -- The random values: the request's id and the bytes of the PIN.
  pub id : Text
  pub bytes : List ℕ
  -- The initiator's clock at the request, and the target's when it arrives.
  pub sent : ℕ
  pub arrived : ℕ

-- What is meant by a proper exchange with a target that has not seen the id.
pub record IsProper (x : Exchange) (mine target : Disk) : Type 0 where
  pub my_node : is_empty x.my_node ≡ false
  pub node : is_empty x.node ≡ false
  pub peer_url : is_empty x.peer_url ≡ false
  pub id : is_empty x.id ≡ false
  pub bytes : length x.bytes ≡ 6
  pub fresh : read_pending x.id x.arrived target ≡ none
  pub untrusted : is_trusted mine x.my_node x.node hey ≡ false

module _ (sha256 : Text → Text) (x : Exchange) where
  abbrev pub pin : Text
  pin = generate_pin x.bytes

  -- The request that the initiator makes.
  abbrev pub hey_request : PendingRequest
  hey_request =
      new_pending sha256
        (record {
          from = x.my_node;
          to = x.node;
          action = hey;
          summary = summarize x.query x.message;
        })
        x.id pin x.sent

hey_request-full :
    (sha256 : Text → Text) (x : Exchange) (mine target : Disk)
    → ((s : Text) → is_empty (sha256 s) ≡ false)
    → IsProper x mine target
    → has_empty_field (body_of (hey_request sha256 x)) ≡ false
unfolding new_pending hash_pin
hey_request-full sha256 x mine target digest ok =
    has_empty_field-body_of (hey_request sha256 x) ok.id ok.my_node ok.node refl
      (digest (normalize (pin sha256 x)))

is_trusted-write_pending :
    (req : PendingRequest) (d : Disk) (f t : Text) (a : ConsentAction)
    → is_trusted (write_pending req d) f t a ≡ is_trusted d f t a
unfolding is_trusted write_pending load_trust
is_trusted-write_pending req d f t a = refl

hey_request-posted :
    (sha256 : Text → Text) (x : Exchange) (mine target : Disk)
    → ((s : Text) → is_empty (sha256 s) ≡ false)
    → IsProper x mine target
    → post_request (body_of (hey_request sha256 x)) x.arrived target
      ≡ (write_pending (hey_request sha256 x) target, created x.id (at (x.sent + ttl_ms)))
unfolding new_pending
hey_request-posted sha256 x mine target digest ok =
    post_request-new (hey_request sha256 x) x.arrived target
      (hey_request-full sha256 x mine target digest ok) ok.fresh

gate_request-ok :
    (sha256 : Text → Text) (post : Text → PendingRequest → PostOutcome) (req : ConsentRequest)
    (url id : Text) (bytes : List ℕ) (now : ℕ) (d : Disk)
    → is_empty url ≡ false
    → post url (new_pending sha256 req id (generate_pin bytes) now) ≡ response 201
    → gate_request sha256 post req url id bytes now d ≡ (
      write_pending (new_pending sha256 req id (generate_pin bytes) now) d,
      deny 2 (requested id (generate_pin bytes) (at (now + ttl_ms))),
    )
unfolding gate_request request_consent new_pending
gate_request-ok sha256 post req url id bytes now d full sent = rw (full, sent) refl

-- The gate of an untrusted peer that answers 201.
run_gate_lem :
    (sha256 : Text → Text) (post : Text → PendingRequest → PostOutcome) (x : Exchange)
    (mine target : Disk)
    → IsProper x mine target
    → post x.peer_url (hey_request sha256 x) ≡ response 201
    → maybe_gate_consent sha256 post x.my_node x.query x.message
        (peer x.peer_url x.agent x.node)
        x.id
        x.bytes
        x.sent
        mine
      ≡ (
        write_pending (hey_request sha256 x) mine,
        deny 2 (requested x.id (pin sha256 x) (at (x.sent + ttl_ms))),
      )
unfolding maybe_gate_consent
run_gate_lem sha256 post x mine target ok reply =
    rw (ok.node, ok.untrusted)
      (gate_request-ok sha256 post _ x.peer_url x.id x.bytes x.sent mine ok.peer_url reply)

verify-spelled :
    (sha256 : Text → Text) (typed : Text) (bytes : List ℕ)
    → length bytes ≡ 6
    → normalize typed ≡ normalize (generate_pin bytes)
    → verify_pin sha256 typed (hash_pin sha256 (generate_pin bytes)) ≡ true
unfolding verify_pin hash_pin generate_pin is_valid_shape
verify-spelled sha256 typed bytes six same =
    rw (same, ===-refl (sha256 (normalize (generate_code bytes))))
      (let valid = (generate_code-is_valid_shape bytes six).1 in ground (arith, valid))

hey_request-listed :
    (sha256 : Text → Text) (x : Exchange) (d : Disk)
    → pending_file x.id (write_pending (hey_request sha256 x) d)
      ≡ some (request (hey_request sha256 x))
unfolding new_pending
hey_request-listed sha256 x d =
    rw (pending_file-write_pending (hey_request sha256 x) d x.id, ===-refl x.id) refl

-- The whole protocol, where the target answers the POST of the request: the gate of an untrusted peer puts the request
-- on the initiator's disk and hands out the PIN with exit code 2. The target's operator, who types that PIN in any
-- spelling of it within the ten minutes, gets the request approved, and the target then trusts the initiator for the
-- action. Later than that the PIN is refused, and the target's disk stays. The names, the url, the id and the digests
-- are not empty, the PIN has six bytes, and the target has not seen the id.
pub handshake :
    (sha256 : Text → Text) (post : Text → PendingRequest → PostOutcome) (x : Exchange)
    (mine target : Disk)
    → ((s : Text) → is_empty (sha256 s) ≡ false)
    → IsProper x mine target
    → post x.peer_url (hey_request sha256 x) ≡ target_reply x.arrived target (hey_request sha256 x)
    → (typed : Text) (now stamp : ℕ) → normalize typed ≡ normalize (pin sha256 x)
    → let asked = target_after x.arrived target (hey_request sha256 x) in
      (maybe_gate_consent sha256 post x.my_node x.query x.message
          (peer x.peer_url x.agent x.node)
          x.id
          x.bytes
          x.sent
          mine
        ≡ (
          write_pending (hey_request sha256 x) mine,
          deny 2 (requested x.id (pin sha256 x) (at (x.sent + ttl_ms))),
        ))
      × (now ≤ x.sent + ttl_ms
          → (entry : TrustEntry) × ((approve_consent sha256 x.id typed now stamp asked).1
              ≡ granted entry)
            × (is_trusted (approve_consent sha256 x.id typed now stamp asked).0 x.my_node x.node hey
                ≡ true))
      × (x.sent + ttl_ms < now
          → approve_consent sha256 x.id typed now stamp asked
            ≡ (asked, ApproveResult.refused (not_pending expired)))
unfolding new_pending
handshake sha256 post x mine target digest ok answered typed now stamp same =
    let posted = hey_request-posted sha256 x mine target digest ok in
    let reply : post x.peer_url (hey_request sha256 x) ≡ response 201 =
      answered ∙ ap (λ p. response (status_code p.1)) posted in
    let on_file : target_after x.arrived target (hey_request sha256 x)
        ≡ write_pending (hey_request sha256 x) target =
      ap (λ p. p.0) posted in
    (
      run_gate_lem sha256 post x mine target ok reply,
      rw on_file (λ early.
          approve_in_time sha256 x.id typed now stamp _ (hey_request sha256 x)
            (hey_request-listed sha256 x target) refl (ground arith)
            (verify-spelled sha256 typed x.bytes ok.bytes same)),
      rw on_file (λ late.
          approve_late sha256 x.id typed now stamp _ (hey_request sha256 x)
            (hey_request-listed sha256 x target) refl (ground arith)),
    )
