-- ===== src/Auth/Middleware.antt =====
-- lib/federation-auth.ts: the fleet signature (v1 and v2) and the middleware `federationAuth`.
use maw_js.Prelude.{
  ℕ, suc, ◌+◌, ◌-◌, Bool, true, false, not, ◌&&◌, ◌||◌, Option, none, some, List, [], ◌∷◌, ◌++◌,
  Text, text, ◌===◌, is_empty, any, starts_with, lower_case, if◌then◌else◌, ltb,
}
use maw_js.Prelude.Dict.{Dict}
use maw_js.Prelude.Decimal.{ℤ, pos, negsuc, show_int, parse_int}
use maw_js.Auth.Hex.{same_digest}

-- ±5 minutes, in seconds.
abbrev pub window_sec : ℕ
window_sec = 300

-- `Math.abs(now - timestamp)`
abbrev pub delta : (now : ℕ) → ℤ → ℕ
delta now (pos t) = (now - t) + (t - now)
delta now (negsuc t) = now + suc t

abbrev pub protected : List Text
protected =
    text "/api/send"
    ∷ text "/api/pane-keys"
    ∷ text "/api/talk"
    ∷ text "/api/transport/send"
    ∷ text "/api/triggers/fire"
    ∷ text "/api/worktrees/cleanup"
    ∷ []

abbrev pub protected_post : List Text
protected_post = text "/api/feed" ∷ []

unfoldable pub is_protected : (path method : Text) → Bool
is_protected path method =
    any (λ p. p === path) protected
    || (any (λ p. p === path) protected_post && method === text "POST")

unfoldable pub is_loopback : Option Text → Bool
is_loopback none = false
is_loopback (some a) =
    not (is_empty a)
    && (a === text "127.0.0.1"
        || (a === text "::1"
            || (a === text "::ffff:127.0.0.1"
                || (a === text "localhost" || starts_with a (text "127.")))))

-- Without the body hash: the payload of v1.
abbrev pub payload : (method path : Text) → ℤ → (body_hash : Text) → Text
payload method path timestamp body_hash =
    method
    ++ (b':'
        ∷ (path
            ++ (b':'
                ∷ (show_int timestamp ++ (if is_empty body_hash then [] else b':' ∷ body_hash)))))

-- The parts of the configuration that the middleware reads; an absent token is empty.
pub record AuthConfig : Type 0 where
  pub federation_token : Text
  pub peers : List Text
  pub named_peers : List Text
  pub allow_peers_without_token : Bool
  pub trust_loopback : Option Bool

-- What the middleware reads of a request. `body` is `none` if it cannot be read.
pub record AuthRequest : Type 0 where
  pub method : Text
  pub path : Text
  pub client_ip : Option Text
  pub signature : Option Text
  pub timestamp : Option Text
  pub auth_version : Option Text
  pub body : Option Text

pub data AuthOutcome : Type 0 where
  next : AuthOutcome
  federation_token_required missing_signature invalid_timestamp body_read_failed : AuthOutcome
  timestamp_expired : (delta : ℕ) → AuthOutcome
  signature_invalid : AuthOutcome

abbrev pub is_nil {ℓ} : {A : Type ℓ} → List A → Bool
is_nil [] = true
is_nil (_ ∷ _) = false

abbrev pub has_peers : AuthConfig → Bool
has_peers c = not (is_nil c.peers) || not (is_nil c.named_peers)

-- `config.trustLoopback !== false`
abbrev pub trusts_loopback : AuthConfig → Bool
trusts_loopback c = elim c.trust_loopback [ some false ↦ false | _ ↦ true ]

abbrev pub version : AuthRequest → Text
version r = elim r.auth_version [ none ↦ text "v1" | some v ↦ lower_case v ]

abbrev pub or_empty : Option Text → Text
or_empty none = []
or_empty (some s) = s

unfoldable pub hash_body : (sha256 : Text → Text) → Text → Text
hash_body sha256 body = if is_empty body then [] else sha256 body

module _ (hmac : (key payload : Text) → Text) where
  unfoldable pub sign : (token method path : Text) → ℤ → (body_hash : Text) → Text
  sign token method path timestamp body_hash = hmac token (payload method path timestamp body_hash)

  unfoldable pub verify :
      (token method path : Text) → ℤ → (signature body_hash : Text) → (now : ℕ) → Bool
  unfolding sign
  verify token method path timestamp signature body_hash now =
      if ltb window_sec (delta now timestamp)
      then false
      else same_digest (sign token method path timestamp body_hash) signature

module _ (sha256 : Text → Text) (hmac : (key payload : Text) → Text) where
  -- The headers of an outgoing call; an absent body is empty.
  unfoldable pub sign_headers : (token method path body : Text) → (now : ℕ) → Dict Text
  sign_headers token method path body now =
      let bh = hash_body sha256 body in
      (text "X-Maw-Timestamp", show_int (pos now))
      ∷ (text "X-Maw-Signature", sign hmac token method path (pos now) bh)
      ∷ (if is_empty bh then [] else (text "X-Maw-Auth-Version", text "v2") ∷ [])

  -- The last steps of the middleware; `later` is the clock that the answer to a failure reads.
  unfoldable pub check_signature :
      AuthConfig
      → AuthRequest
      → (signature : Text) → ℤ
      → (body_hash : Text) → (now later : ℕ) → AuthOutcome
  check_signature c r signature timestamp body_hash now later =
      if verify hmac c.federation_token r.method r.path timestamp signature body_hash now
      then next
      else (if ltb window_sec (delta later timestamp)
          then timestamp_expired (delta later timestamp)
          else signature_invalid)

  unfoldable pub check_headers : AuthConfig → AuthRequest → (now later : ℕ) → AuthOutcome
  unfolding check_signature
  check_headers c r now later =
      let sig = or_empty r.signature in
      let ts = or_empty r.timestamp in
      if is_empty sig || is_empty ts then missing_signature else elim (parse_int ts) [
        | none ↦ invalid_timestamp
        | some timestamp ↦
            if version r === text "v2"
            then elim r.body [
              | none ↦ body_read_failed
              | some body ↦ check_signature c r sig timestamp (hash_body sha256 body) now later
            ]
            else check_signature c r sig timestamp [] now later
      ]

  unfoldable pub federation_auth : AuthConfig → AuthRequest → (now later : ℕ) → AuthOutcome
  federation_auth c r now later =
      if not (is_protected r.path r.method)
      then next
      else (if trusts_loopback c && is_loopback r.client_ip
          then next
          else (if is_empty c.federation_token && (has_peers c && not c.allow_peers_without_token)
              then federation_token_required
              else (if is_empty c.federation_token then next else check_headers c r now later)))
