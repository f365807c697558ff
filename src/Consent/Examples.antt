-- ===== src/Consent/Examples.antt =====
-- Consent at concrete inputs: two nodes `m5` and `mba`, and a toy digest.
use maw_js.Prelude.{
  ℕ, ◌≡◌, ◌≢◌, ◌+◌, ◌≤◌, ◌<◌, refl, true, List, [], ◌∷◌, none, some, Text, text, is_space, to_upper,
  has_char, ◌===◌, All,
}
use maw_js.Prelude.Dict.{lookup, insert}
use maw_js.PairCodes.{normalize, is_valid_shape, generate_code}
use maw_js.Disk.{expired, hey, pending, approved, at, human, TrustEntry, PendingRequest, Disk}
use maw_js.Consent.Store.{
  load_trust, is_trusted, pending_file, read_pending, write_pending, apply_expiry,
}
use maw_js.Consent.Request.{
  ApproveResult, granted, not_pending, approve_consent, hash_pin, verify_pin, generate_pin, ttl_ms,
  response, requested,
}
use maw_js.Consent.Request.Approval.{IsNamed, write_pending-IsNamed, Approval, granted-Approval}
use maw_js.Consent.Request.Once.{PinAttempt, try_pins, granted_once}
use maw_js.Consent.Gate.{allow, peer, deny, maybe_gate_consent}
use maw_js.Consent.Handshake.{
  Exchange, IsProper, hey_request, pin, target_reply, target_after, handshake,
}
use maw_js.Consent.Initiator.{Send, run_sends, gate_never_learns}

abbrev digest : Text → Text
digest s = b's' ∷ s

abbrev empty_disk : Disk
empty_disk = record { trust = none; legacy_trust = none; pending_files = []; legacy_pending = [] }

abbrev bytes : List ℕ
bytes = 0 ∷ 33 ∷ 255 ∷ 7 ∷ 64 ∷ 31 ∷ []

abbrev trust_entry : TrustEntry
trust_entry = record {
  from = text "m5";
  to = text "mba";
  action = hey;
  approved_at = at 5;
  approved_by = human;
  request_id = none;
}

abbrev asked : PendingRequest
asked = record {
  id = text "a1";
  from = text "m5";
  to = text "mba";
  action = hey;
  summary = text "hey";
  pin_hash = b's' ∷ text "AB9HA9";
  created_at = at 0;
  expires_at = at 600000;
  status = pending;
}

abbrev asked_disk : Disk
asked_disk = write_pending asked empty_disk

abbrev granted_entry : TrustEntry
granted_entry = record {
  from = text "m5";
  to = text "mba";
  action = hey;
  approved_at = at 8;
  approved_by = human;
  request_id = some (text "a1");
}

granted-Approval_example :
    Approval digest
      (text "a1")
      (text "ab9-ha9")
      7
      asked_disk
      (approve_consent digest (text "a1") (text "ab9-ha9") 7 8 asked_disk).0
      granted_entry
unfolding approve_consent read_pending write_pending lookup insert ◌===◌ apply_expiry verify_pin
    hash_pin normalize is_valid_shape is_space to_upper has_char
granted-Approval_example =
    granted-Approval digest (text "a1") (text "ab9-ha9") 7 8 asked_disk {entry = granted_entry} refl

abbrev decided_disk : Disk
decided_disk = write_pending (record asked { status = approved }) empty_disk

no_files-IsNamed : IsNamed empty_disk
unfolding pending_file lookup
no_files-IsNamed id req e = cc

abbrev guesses : List PinAttempt
guesses =
    record { pin = text "AAAAAA"; now = 7; stamp = 7 }
    ∷ record { pin = text "AB9HA9"; now = 8; stamp = 8 }
    ∷ record { pin = text "AB9HA9"; now = 9; stamp = 9 }
    ∷ []

granted_once_example :
    ((try_pins digest (text "a1") guesses asked_disk).1 ≤ 1)
    × ((try_pins digest (text "a1") guesses asked_disk).1 ≡ 0
        → (try_pins digest (text "a1") guesses asked_disk).0 ≡ asked_disk)
granted_once_example =
    granted_once digest (text "a1") guesses asked_disk
      (write_pending-IsNamed asked empty_disk no_files-IsNamed)

abbrev exchange : Exchange
exchange = record {
  my_node = text "m5";
  node = text "mba";
  query = text "mba:neo";
  message = text "hi";
  peer_url = text "http://mba:3456";
  agent = text "neo";
  id = text "a1";
  bytes = bytes;
  sent = 100;
  arrived = 120;
}

exchange-IsProper : IsProper exchange empty_disk empty_disk
unfolding read_pending is_trusted load_trust lookup
exchange-IsProper = record {
  my_node = refl;
  node = refl;
  peer_url = refl;
  id = refl;
  bytes = refl;
  fresh = refl;
  untrusted = refl;
}

handshake_example :
    let after = target_after 120 empty_disk (hey_request digest exchange) in
    (maybe_gate_consent digest
        (λ url req. target_reply 120 empty_disk req)
        (text "m5")
        (text "mba:neo")
        (text "hi")
        (peer (text "http://mba:3456") (text "neo") (text "mba"))
        (text "a1")
        bytes
        100
        empty_disk
      ≡ (
        write_pending (hey_request digest exchange) empty_disk,
        deny 2 (requested (text "a1") (pin digest exchange) (at (100 + ttl_ms))),
      ))
    × (500 ≤ 100 + ttl_ms
        → (entry : TrustEntry) × ((approve_consent digest
              (text "a1")
              (text "ab9-ha9")
              500
              501
              after).1
            ≡ granted entry)
          × (is_trusted
                (approve_consent digest (text "a1") (text "ab9-ha9") 500 501 after).0
                (text "m5")
                (text "mba")
                hey
              ≡ true))
    × (100 + ttl_ms < 500
        → approve_consent digest (text "a1") (text "ab9-ha9") 500 501 after
          ≡ (after, ApproveResult.refused (not_pending expired)))
unfolding normalize is_space to_upper generate_pin generate_code
handshake_example =
    handshake digest (λ url req. target_reply 120 empty_disk req) exchange empty_disk empty_disk
      (λ s. refl) exchange-IsProper refl (text "ab9-ha9") 500 501 refl

abbrev send : Send
send = record {
  query = text "mba:neo";
  message = text "hi";
  peer_url = text "http://mba:3456";
  agent = text "neo";
  post = λ url req. response 201;
  id = text "a1";
  bytes = bytes;
  now = 100;
}

gate_never_learns_example :
    All
      (λ decision. decision ≢ allow)
      (run_sends digest (text "m5") (text "mba") (send ∷ send ∷ []) empty_disk)
unfolding is_trusted load_trust lookup
gate_never_learns_example =
    gate_never_learns digest (text "m5") (text "mba") (send ∷ send ∷ []) empty_disk refl refl
