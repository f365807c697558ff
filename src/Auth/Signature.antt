-- ===== src/Auth/Signature.antt =====
-- lib/federation-auth.ts: what passes the fleet signature and the middleware.
use maw_js.Prelude.{
  ℕ, ◌≤◌, ◌≡◌, ◌⊎◌, inl, inr, refl, true, false, ◌&&◌, some, [], Text, text, ◌===◌, is_empty,
  lower_case, Bool-cases, Option-cases, arith,
}
use maw_js.Prelude.Decimal.{ℤ, parse_int}
use maw_js.Auth.Hex.{IsDigest, same_digest_sound, same_digest_refl}
use maw_js.Auth.Middleware.{
  window_sec, delta, is_protected, is_loopback, payload, AuthConfig, AuthRequest, next, has_peers,
  trusts_loopback, version, or_empty, hash_body, sign, verify, check_headers, federation_auth,
}

module _ (hmac : (key payload : Text) → Text)
    (digest : (key payload : Text) → IsDigest (hmac key payload)) where
  -- A signature is accepted only inside the window and only if it is the digest of this very
  -- method, path, time and body, up to the case of its letters; the sender's own is accepted.
  pub verify_lem :
      (token method path : Text) (t : ℤ) (body_hash : Text) (now : ℕ)
      → ((signature : Text)
          → verify hmac token method path t signature body_hash now ≡ true
          → (delta now t ≤ window_sec)
            × (lower_case signature ≡ sign hmac token method path t body_hash))
        × (delta now t ≤ window_sec
            → verify hmac token method path t
                (sign hmac token method path t body_hash)
                body_hash
                now
              ≡ true)
  unfolding verify sign
  verify_lem token method path t body_hash now = (
    λ signature h. (
      ground arith,
      same_digest_sound (hmac token (payload method path t body_hash)) signature
          (digest token (payload method path t body_hash)) (ground arith),
    ),
    λ h. ground (arith, same_digest_refl (hmac token (payload method path t body_hash))),
  )

-- A request whose signature is good: its time is in the window, and it carries the digest over its
-- method, path and time, and over its body if it says v2.
pub record IsSigned (sha256 : Text → Text) (hmac : (key payload : Text) → Text) (c : AuthConfig)
    (r : AuthRequest) (now : ℕ) : Type 0 where
  pub time : ℤ
  pub signed_time : parse_int (or_empty r.timestamp) ≡ some time
  pub in_window : delta now time ≤ window_sec
  pub body_hash : Text
  pub bound :
      ((version r === text "v2") ≡ false) × (body_hash ≡ [])
      ⊎ ((body : Text) × (r.body ≡ some body) × (body_hash ≡ hash_body sha256 body))
  pub signature :
      lower_case (or_empty r.signature)
      ≡ sign hmac c.federation_token r.method r.path time body_hash

module _ (sha256 : Text → Text) (hmac : (key payload : Text) → Text)
    (digest : (key payload : Text) → IsDigest (hmac key payload)) where
  signed :
      (c : AuthConfig) (r : AuthRequest) (t : ℤ) (bh : Text) (now : ℕ)
      → parse_int (or_empty r.timestamp) ≡ some t
      → ((version r === text "v2") ≡ false) × (bh ≡ [])
        ⊎ ((body : Text) × (r.body ≡ some body) × (bh ≡ hash_body sha256 body))
      → verify hmac c.federation_token r.method r.path t (or_empty r.signature) bh now ≡ true
      → IsSigned sha256 hmac c r now
  signed c r t bh now time bound ok =
      let (sound, _) = verify_lem hmac digest c.federation_token r.method r.path t bh now in
      let (in_window, signature) = sound (or_empty r.signature) ok in
      record {
        time = t;
        signed_time = time;
        in_window = in_window;
        body_hash = bh;
        bound = bound;
        signature = signature;
      }

  check_headers-next :
      (c : AuthConfig) (r : AuthRequest) (now later : ℕ)
      → check_headers sha256 hmac c r now later ≡ next
      → IsSigned sha256 hmac c r now
  unfolding check_headers
  check_headers-next c r now later h = elim (Option-cases (parse_int (or_empty r.timestamp))) [
    | inl e ↦ absurd (ground (arith, e))
    | inr (t, e) ↦ elim (Bool-cases (version r === text "v2")) [
      | inr v1 ↦ signed c r t [] now e (inl (v1, refl)) (ground (arith, e, v1))
      | inl v2 ↦ elim (Option-cases r.body) [
        | inl lost ↦ absurd (ground (arith, e, v2, lost))
        | inr (body, read) ↦
            signed c r t (hash_body sha256 body) now e (inr (body, read, refl))
              (ground (arith, e, v2, read))
      ]
    ]
  ]

  -- What the middleware lets through: a request to an unprotected path, a request from this machine
  -- where that is trusted, any request if no token is set and there are no peers (or the operator
  -- allows peers without one), and else only a request with a good signature.
  pub federation_auth-next :
      (c : AuthConfig) (r : AuthRequest) (now later : ℕ)
      → federation_auth sha256 hmac c r now later ≡ next
      → is_protected r.path r.method ≡ true
      → trusts_loopback c && is_loopback r.client_ip ≡ false
      → (is_empty c.federation_token ≡ true)
          × ((has_peers c ≡ false) ⊎ (c.allow_peers_without_token ≡ true))
        ⊎ IsSigned sha256 hmac c r now
  unfolding federation_auth
  federation_auth-next c r now later h p l = elim (Bool-cases (is_empty c.federation_token)) [
    | inl bare ↦ inl (bare, ground (arith, bare))
    | inr token ↦ inr (check_headers-next c r now later (rw (p, l, token) at h))
  ]
