-- ===== src/Auth/Continuity.antt =====
-- lib/federation-auth.ts: the per-peer signature holds a peer to the key that it is pinned to.
use maw_js.Prelude.{
  ℕ, ◌+◌, ◌-◌, ◌≤◌, ◌≡◌, ◌⊎◌, ◌∙◌, inl, inr, refl, sym, ap, true, false, not, Option, some, [], ◌∷◌,
  Text, text, ◌===◌, is_empty, is_space, to_lower, lower_case, trim, all, if◌then◌else◌, Bool-cases,
  Option-cases, arith,
}
use maw_js.Prelude.Dict.{Dict, lookup, insert}
use maw_js.Prelude.Decimal.{
  show_nat, parse_nat-show_nat, all-show_nat, is_digit, show_nat-not_empty,
}
use maw_js.Prelude.Trim.{no_space, trim-no_space}
use maw_js.Auth.Hex.{IsDigest, is_hex_char, all_of_IsDigest, same_digest_sound, same_digest_refl}
use maw_js.Auth.Middleware.{hash_body, or_empty}
use maw_js.Auth.FromSign.{
  from_sig_window_sec, from_sign_payload, legacy_from_sign_payload, fold_names, get_header, header,
  accept_verified, is_refuse_decision, is_hex, parse_unix_seconds, SignedRequest, Fields,
  read_fields, has_v3_sig, is_signed, sign_request_v3, v3_headers, sign_headers_v3, verify_hmac_sig,
  verify_signed, decide, verify_request,
}

hex-no_space : (c : ℕ) → is_hex_char c ≡ true → not (is_space c) ≡ true
unfolding is_space
hex-no_space c h = ground arith

digit-no_space : (s : Text) → all is_digit s ≡ true → no_space s ≡ true
unfolding is_space
digit-no_space [] h = refl
digit-no_space (c ∷ s) h = ground (arith, digit-no_space s)

digest-no_space : (s : Text) → IsDigest s → no_space s ≡ true
digest-no_space = all_of_IsDigest (λ c. not (is_space c)) hex-no_space

digest-is_hex : (s : Text) → IsDigest s → all is_hex s ≡ true
digest-is_hex = all_of_IsDigest is_hex (λ c h. ground arith)

read_fields-v3_headers :
    (from sig : Text) (t : ℕ)
    → read_fields (v3_headers from sig t) ≡ record {
      from = trim from;
      v3_sig = trim sig;
      v3_timestamp = trim (show_nat t);
      legacy_sig = trim [];
      legacy_signed_at = trim [];
    }
unfolding read_fields header get_header fold_names lookup insert ◌===◌ to_lower
read_fields-v3_headers from sig t = refl

module _ (sha256 : Text → Text) (hmac : (key payload : Text) → Text) (parse_iso : Text → Option ℕ)
    (digest : (key payload : Text) → IsDigest (hmac key payload))
    (full : (key payload : Text) → is_empty (hmac key payload) ≡ false) where
  abbrev v3_fields : (from sig : Text) → ℕ → Fields
  v3_fields from sig t = record {
    from = from;
    v3_sig = sig;
    v3_timestamp = show_nat t;
    legacy_sig = [];
    legacy_signed_at = [];
  }

  verify_hmac_sig-own :
      (key p : Text) → verify_hmac_sig sha256 hmac parse_iso key p (hmac key p) ≡ true
  unfolding verify_hmac_sig
  verify_hmac_sig-own key p =
      rw (full key p, digest-is_hex (hmac key p) (digest key p), same_digest_refl (hmac key p)) refl

  decide-own :
      (r : SignedRequest) (key from : Text) (t now : ℕ)
      → is_empty key ≡ false
      → is_empty from ≡ false
      → t ≤ 9007199254740991
      → (now - t) + (t - now) ≤ from_sig_window_sec
      → decide sha256 hmac parse_iso r
          (v3_fields from
            (hmac key
              (from_sign_payload from (show_nat t) r.method r.path (hash_body sha256 r.body)))
            t)
          key
          now
        ≡ accept_verified from
  unfolding decide parse_unix_seconds
  decide-own r key from t now hk hf ht hw =
      let p = from_sign_payload from (show_nat t) r.method r.path (hash_body sha256 r.body) in
      ground
        (arith, full key p, verify_hmac_sig-own key p, show_nat-not_empty t, parse_nat-show_nat t)

  verify_request-fields :
      (r : SignedRequest) (lookup_pubkey : Text → Option Text) (now : ℕ) (f : Fields)
      → read_fields r.headers ≡ f
      → verify_request sha256 hmac parse_iso r lookup_pubkey now
        ≡ decide sha256 hmac parse_iso r f
            (if is_empty f.from then [] else or_empty (lookup_pubkey f.from))
            now
  unfolding verify_request
  verify_request-fields r lookup_pubkey now f e =
      ap
        (λ g.
          decide sha256 hmac parse_iso r g
            (if is_empty g.from then [] else or_empty (lookup_pubkey g.from)) now)
        e

  made-cases :
      (method path body key from : Text) (t : ℕ) (headers : Dict Text)
      → sign_headers_v3 sha256 hmac parse_iso key from method path t body ≡ some headers
      → is_empty method ≡ false
      → (is_empty key ≡ false)
        × (is_empty from ≡ false)
        × (v3_headers from
              (hmac key (from_sign_payload from (show_nat t) method path (hash_body sha256 body)))
              t
            ≡ headers)
  unfolding sign_headers_v3 sign_request_v3
  made-cases method path body key from t headers made hm =
      (ground (arith, made), ground (arith, made), ground (arith, made))

  -- A request that carries the headers of `signHeadersV3` is accepted as verified by a node that has
  -- the sender's key pinned, inside the window.
  pub verify-sign_v3 :
      (lookup_pubkey : Text → Option Text) (method path body key from : Text) (t now : ℕ)
      (headers : Dict Text)
      → sign_headers_v3 sha256 hmac parse_iso key from method path t body ≡ some headers
      → is_empty method ≡ false
      → no_space from ≡ true
      → lookup_pubkey from ≡ some key
      → t ≤ 9007199254740991
      → (now - t) + (t - now) ≤ from_sig_window_sec
      → verify_request sha256 hmac parse_iso
          (record { method = method; path = path; headers = headers; body = body })
          lookup_pubkey
          now
        ≡ accept_verified from
  verify-sign_v3 lookup_pubkey method path body key from t now headers made hm hs pinned ht hw =
      let r : SignedRequest = record {
        method = method;
        path = path;
        headers = headers;
        body = body;
      } in
      let (hk, hf, same) = made-cases method path body key from t headers made hm in
      let sig =
        hmac key (from_sign_payload from (show_nat t) method path (hash_body sha256 body)) in
      let fields : read_fields headers ≡ v3_fields from sig t =
        ap read_fields (sym same)
        ∙ (read_fields-v3_headers from sig t
            ∙ rw
                (
                  trim-no_space from hs,
                  trim-no_space sig (digest-no_space sig (digest key _)),
                  trim-no_space (show_nat t) (digit-no_space (show_nat t) (all-show_nat t)),
                  trim-no_space [] refl,
                )
                refl) in
      verify_request-fields r lookup_pubkey now (v3_fields from sig t) fields
      ∙ rw (hf, pinned) (decide-own r key from t now hk hf ht hw)

-- What a request shows that is accepted for a peer with a pinned key: a time in the window, and the
-- key's digest over the method, the path, the body, the time and the sender.
pub record IsProven (sha256 : Text → Text) (hmac : (key payload : Text) → Text)
    (parse_iso : Text → Option ℕ) (r : SignedRequest) (f : Fields) (key : Text) (now : ℕ)
    : Type 0 where
  pub time : ℕ
  pub in_window : (now - time) + (time - now) ≤ from_sig_window_sec
  pub proof :
      (parse_unix_seconds f.v3_timestamp ≡ some time)
        × (lower_case f.v3_sig
            ≡ hmac key
                (from_sign_payload f.from f.v3_timestamp r.method r.path (hash_body sha256 r.body)))
      ⊎ (parse_iso f.legacy_signed_at ≡ some time)
        × (lower_case f.legacy_sig
            ≡ hmac key (
                legacy_from_sign_payload f.from f.legacy_signed_at r.method r.path
                  (hash_body sha256 r.body)))

module _ (sha256 : Text → Text) (hmac : (key payload : Text) → Text)
    (parse_iso : Text → Option ℕ) where
  read_fields-from :
      (r : SignedRequest)
      → accept_verified (read_fields r.headers).from
        ≡ accept_verified (header r.headers (text "x-maw-from"))
  unfolding read_fields
  read_fields-from r = refl

  pinned-decide :
      (r : SignedRequest) (lookup_pubkey : Text → Option Text) (now : ℕ) (key : Text)
      → is_empty (header r.headers (text "x-maw-from")) ≡ false
      → lookup_pubkey (header r.headers (text "x-maw-from")) ≡ some key
      → verify_request sha256 hmac parse_iso r lookup_pubkey now
        ≡ decide sha256 hmac parse_iso r (read_fields r.headers) key now
  unfolding verify_request
  pinned-decide r lookup_pubkey now key hf pinned = rw (hf, pinned) refl

module _ (sha256 : Text → Text) (hmac : (key payload : Text) → Text) (parse_iso : Text → Option ℕ)
    (digest : (key payload : Text) → IsDigest (hmac key payload)) where
  verify_hmac_sig_sound :
      (key p sig : Text)
      → verify_hmac_sig sha256 hmac parse_iso key p sig ≡ true
      → lower_case sig ≡ hmac key p
  unfolding verify_hmac_sig
  verify_hmac_sig_sound key p sig h =
      same_digest_sound (hmac key p) sig (digest key p) (ground arith)

  decide-signed :
      (r : SignedRequest) (f : Fields) (key : Text) (now : ℕ)
      → is_empty key ≡ false
      → is_refuse_decision (decide sha256 hmac parse_iso r f key now) ≡ false
      → (is_signed f ≡ true)
        × (is_refuse_decision (verify_signed sha256 hmac parse_iso r f key now) ≡ false)
        × (decide sha256 hmac parse_iso r f key now
            ≡ verify_signed sha256 hmac parse_iso r f key now)
  unfolding decide is_refuse_decision
  decide-signed r f key now hk h = elim (Bool-cases (is_signed f)) [
    | inl s ↦ (s, rw (hk, s) at h, rw (hk, s) refl)
    | inr u ↦ absurd (ground (arith, u))
  ]

  verify_signed-accepts :
      (r : SignedRequest) (f : Fields) (key : Text) (now : ℕ)
      → is_refuse_decision (verify_signed sha256 hmac parse_iso r f key now) ≡ false
      → (verify_signed sha256 hmac parse_iso r f key now ≡ accept_verified f.from)
        × IsProven sha256 hmac parse_iso r f key now
  unfolding verify_signed is_refuse_decision
  verify_signed-accepts r f key now h = elim (Bool-cases (has_v3_sig f)) [
    | inl v3 ↦ elim (Option-cases (parse_unix_seconds f.v3_timestamp)) [
      | inl bad ↦ absurd (ground (arith, v3, bad))
      | inr (t, e) ↦ (
        ground (arith, v3, e),
        record {
          time = t;
          in_window = ground (arith, v3, e);
          proof = inl (e, verify_hmac_sig_sound key _ f.v3_sig (ground (arith, v3, e)));
        },
      )
    ]
    | inr old ↦ elim (Option-cases (parse_iso f.legacy_signed_at)) [
      | inl bad ↦ absurd (ground (arith, old, bad))
      | inr (t, e) ↦ (
        ground (arith, old, e),
        record {
          time = t;
          in_window = ground (arith, old, e);
          proof = inr (e, verify_hmac_sig_sound key _ f.legacy_sig (ground (arith, old, e)));
        },
      )
    ]
  ]

  -- Continuity: once a sender's key is pinned, a request in its name is accepted only as verified,
  -- with the pinned key's digest over this very request; an unsigned one is refused.
  pub pinned_continuity :
      (r : SignedRequest) (lookup_pubkey : Text → Option Text) (now : ℕ) (key : Text)
      → is_empty (header r.headers (text "x-maw-from")) ≡ false
      → lookup_pubkey (header r.headers (text "x-maw-from")) ≡ some key
      → is_empty key ≡ false
      → is_refuse_decision (verify_request sha256 hmac parse_iso r lookup_pubkey now) ≡ false
      → (verify_request sha256 hmac parse_iso r lookup_pubkey now
          ≡ accept_verified (header r.headers (text "x-maw-from")))
        × IsProven sha256 hmac parse_iso r (read_fields r.headers) key now
  pinned_continuity r lookup_pubkey now key hf pinned hk h =
      let decided : verify_request sha256 hmac parse_iso r lookup_pubkey now
          ≡ decide sha256 hmac parse_iso r (read_fields r.headers) key now =
        pinned-decide sha256 hmac parse_iso r lookup_pubkey now key hf pinned in
      let (_, accepted, same) =
        decide-signed r (read_fields r.headers) key now hk (rw decided at h) in
      let (verified, proven) = verify_signed-accepts r (read_fields r.headers) key now accepted in
      (decided ∙ (same ∙ (verified ∙ read_fields-from sha256 hmac parse_iso r)), proven)
