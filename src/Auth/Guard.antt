-- ===== src/Auth/Guard.antt =====
-- lib/elysia-auth.ts: what the two plugins together ask of a request to a protected route.
use maw_js.Prelude.{
  ℕ, ◌≤◌, ◌≡◌, ◌⊎◌, ◌∙◌, inl, inr, refl, sym, true, false, not, ◌||◌, Option, none, some, [], Text,
  text, is_empty, is_empty_eq, lower_case, if◌then◌else◌, Bool-cases, Option-cases, arith,
}
use maw_js.Prelude.Decimal.{ℤ, parse_int}
use maw_js.Auth.Hex.{IsDigest}
use maw_js.Auth.Middleware.{window_sec, delta, AuthConfig, AuthOutcome, next, or_empty, sign}
use maw_js.Auth.FromSign.{
  get_header, header, is_refuse_decision, FromVerifyDecision, SignedRequest, Fields, read_fields,
  decide, verify_request,
}
use maw_js.Auth.Plugins.{
  PluginRequest, guards, header_of, FromOutcome, passed, signed_request, from_outcome, if_named,
  let_in, then_key, check_token_signature, federation_plugin, read_and_verify, from_signing_plugin,
  guard,
}
use maw_js.Auth.Signature.{verify_lem}
use maw_js.Auth.Continuity.{IsProven, pinned_continuity}

-- A request that carries the fleet token's signature over its method, path and time. The body is not in it.
pub record IsTokenSigned (hmac : (key payload : Text) → Text) (c : AuthConfig) (r : PluginRequest)
    (now : ℕ) : Type 0 where
  pub time : ℤ
  pub signed_time : parse_int (header_of r (text "x-maw-timestamp")) ≡ some time
  pub in_window : delta now time ≤ window_sec
  pub signature :
      lower_case (header_of r (text "x-maw-signature"))
      ≡ sign hmac c.federation_token r.method r.pathname time []

-- The sender that a request names.
abbrev pub sender_of : PluginRequest → Text
sender_of r = header r.headers (text "x-maw-from")

-- The key on file for a sender, empty for none.
abbrev pub key_on_file : (lookup_pubkey : Text → Option Text) → (from : Text) → Text
key_on_file lookup_pubkey from = if is_empty from then [] else or_empty (lookup_pubkey from)

then_key-let_in :
    (o : AuthOutcome) (f : FromOutcome) → then_key o f ≡ let_in → (o ≡ next) × (f ≡ passed)
then_key-let_in o f h = ground arith

from_outcome-passed :
    (d : FromVerifyDecision) → from_outcome d ≡ passed → is_refuse_decision d ≡ false
from_outcome-passed d h = ground (arith)

module _ (sha256 : Text → Text) (hmac : (key payload : Text) → Text)
    (parse_iso : Text → Option ℕ) where
  -- Without a key on file every request is accepted.
  no_key :
      (r : SignedRequest) (f : Fields) (now : ℕ)
      → is_refuse_decision (decide sha256 hmac parse_iso r f [] now) ≡ false
  unfolding decide is_refuse_decision
  no_key r f now = ground arith

  verify_request-no_key :
      (r : SignedRequest) (lookup_pubkey : Text → Option Text) (now : ℕ)
      → key_on_file lookup_pubkey (header r.headers (text "x-maw-from")) ≡ []
      → is_refuse_decision (verify_request sha256 hmac parse_iso r lookup_pubkey now) ≡ false
  unfolding verify_request read_fields
  verify_request-no_key r lookup_pubkey now h = rw h (no_key r (read_fields r.headers) now)

  federation_plugin-named :
      (c : AuthConfig) (r : PluginRequest) (now later : ℕ)
      → is_empty c.federation_token ≡ false
      → is_empty (header_of r (text "x-maw-from")) ≡ false
      → federation_plugin sha256 hmac parse_iso c r now later ≡ next
  unfolding federation_plugin
  federation_plugin-named c r now later token named = elim (Bool-cases (guards r)) [
    | inl on ↦ simp (on, token, named) refl
    | inr off ↦ simp (off) refl
  ]

  read_and_verify-unknown :
      (r : PluginRequest) (lookup_pubkey : Text → Option Text) (now : ℕ) (body : Text)
      → key_on_file lookup_pubkey (sender_of r) ≡ []
      → r.body ≡ some body
      → read_and_verify sha256 hmac parse_iso r r.body lookup_pubkey now ≡ passed
  read_and_verify-unknown r lookup_pubkey now body unknown read =
      rw (read) (rw (verify_request-no_key (signed_request r body) lookup_pubkey now unknown) refl)

  if_named-passed : (h : Option Text) (o : FromOutcome) → o ≡ passed → if_named h o ≡ passed
  if_named-passed none o e = refl
  if_named-passed (some _) o e = e

  from_signing_plugin-unknown :
      (c : AuthConfig) (r : PluginRequest) (lookup_pubkey : Text → Option Text) (now : ℕ)
      (body : Text)
      → key_on_file lookup_pubkey (sender_of r) ≡ []
      → r.body ≡ some body
      → from_signing_plugin sha256 hmac parse_iso c r lookup_pubkey now ≡ passed
  unfolding from_signing_plugin
  from_signing_plugin-unknown c r lookup_pubkey now body unknown read =
      elim (Bool-cases (is_empty c.federation_token || not (guards r))) [
        | inl off ↦ simp (off) refl
        | inr on ↦ simp (on) (
            if_named-passed (get_header r.headers (text "x-maw-from")) _
              (read_and_verify-unknown r lookup_pubkey now body unknown read))
      ]

  -- A request that names any sender without a key on file passes both plugins, without a signature of any kind, to
  -- every route and from every address, although a token is set.
  pub stranger_passes :
      (c : AuthConfig) (r : PluginRequest) (lookup_pubkey : Text → Option Text) (now later : ℕ)
      (body : Text)
      → is_empty c.federation_token ≡ false
      → is_empty (header_of r (text "x-maw-from")) ≡ false
      → key_on_file lookup_pubkey (sender_of r) ≡ []
      → r.body ≡ some body
      → guard sha256 hmac parse_iso c r lookup_pubkey now later ≡ let_in
  unfolding guard
  stranger_passes c r lookup_pubkey now later body token named unknown read =
      rw
        (
          federation_plugin-named c r now later token named,
          from_signing_plugin-unknown c r lookup_pubkey now body unknown read,
        )
        refl

module _ (sha256 : Text → Text) (hmac : (key payload : Text) → Text) (parse_iso : Text → Option ℕ)
    (digest : (key payload : Text) → IsDigest (hmac key payload)) where
  check_token_signature-next :
      (c : AuthConfig) (r : PluginRequest) (t : Option ℤ) (now later : ℕ)
      → parse_int (header_of r (text "x-maw-timestamp")) ≡ t
      → check_token_signature sha256 hmac parse_iso c r
          (header_of r (text "x-maw-signature"))
          t
          now
          later
        ≡ next
      → IsTokenSigned hmac c r now
  unfolding check_token_signature
  check_token_signature-next c r none now later e h = cc
  check_token_signature-next c r (some t) now later e h =
      let (sound, _) = verify_lem hmac digest c.federation_token r.method r.pathname t [] now in
      let (in_window, signature) =
        sound (header_of r (text "x-maw-signature")) (ground (arith, h)) in
      record { time = t; signed_time = e; in_window = in_window; signature = signature }

  federation_plugin-unnamed :
      (c : AuthConfig) (r : PluginRequest) (now later : ℕ)
      → federation_plugin sha256 hmac parse_iso c r now later ≡ next
      → guards r ≡ true
      → is_empty c.federation_token ≡ false
      → is_empty (header_of r (text "x-maw-from")) ≡ true
      → IsTokenSigned hmac c r now
  unfolding federation_plugin
  federation_plugin-unnamed c r now later h on token unnamed =
      let sig = header_of r (text "x-maw-signature") in
      let ts = header_of r (text "x-maw-timestamp") in
      elim (Bool-cases (is_empty sig || is_empty ts)) [
        | inl missing ↦ absurd (cc (simp (on, token, unnamed, missing) at h))
        | inr there ↦
            check_token_signature-next c r (parse_int ts) now later refl
              (simp (on, token, unnamed, there) at h)
      ]

  -- What the second plugin has checked of a request that names a sender.
  abbrev pub IsSenderChecked :
      PluginRequest → (lookup_pubkey : Text → Option Text) → (now : ℕ) → Type 0
  IsSenderChecked r lookup_pubkey now =
      (body : Text) × (r.body ≡ some body)
      × ((key_on_file lookup_pubkey (sender_of r) ≡ [])
          ⊎ ((key : Text) × (lookup_pubkey (sender_of r) ≡ some key)
              × IsProven sha256 hmac parse_iso (signed_request r body)
                  (read_fields (signed_request r body).headers) key now))

  on_file :
      (lookup_pubkey : Text → Option Text) (from : Text)
      → (key_on_file lookup_pubkey from ≡ [])
        ⊎ ((is_empty from ≡ false)
            × (key : Text) × (lookup_pubkey from ≡ some key)
            × (is_empty key ≡ false))
  on_file lookup_pubkey from = elim (Bool-cases (is_empty from)) [
    | inl unnamed ↦ inl (rw unnamed refl)
    | inr named ↦ elim (Option-cases (lookup_pubkey from)) [
      | inl e ↦ inl (rw (named, e) refl)
      | inr (key, e) ↦ elim (Bool-cases (is_empty key)) [
        | inl bare ↦ inl (rw (named, e) (is_empty_eq key bare))
        | inr full ↦ inr (named, key, e, full)
      ]
    ]
  ]

  verify_request-checked :
      (r : PluginRequest) (lookup_pubkey : Text → Option Text) (now : ℕ) (body : Text)
      → r.body ≡ some body
      → is_refuse_decision
          (verify_request sha256 hmac parse_iso (signed_request r body) lookup_pubkey now)
        ≡ false
      → IsSenderChecked r lookup_pubkey now
  verify_request-checked r lookup_pubkey now body read accepted =
      elim (on_file lookup_pubkey (sender_of r)) [
        | inl unknown ↦ (body, read, inl unknown)
        | inr (named, key, e, full) ↦ (
          body,
          read,
          inr (
            key,
            e,
            (pinned_continuity sha256 hmac parse_iso digest (signed_request r body) lookup_pubkey
                now key named e full accepted).1,
          ),
        )
      ]

  if_named-named :
      (h : Option Text) (o : FromOutcome) → is_empty (or_empty h) ≡ false → if_named h o ≡ o
  if_named-named none o named = cc
  if_named-named (some _) o named = refl

  from_signing_plugin-named :
      (c : AuthConfig) (r : PluginRequest) (lookup_pubkey : Text → Option Text) (now : ℕ)
      → guards r ≡ true
      → is_empty c.federation_token ≡ false
      → is_empty (header_of r (text "x-maw-from")) ≡ false
      → from_signing_plugin sha256 hmac parse_iso c r lookup_pubkey now
        ≡ read_and_verify sha256 hmac parse_iso r r.body lookup_pubkey now
  unfolding from_signing_plugin
  from_signing_plugin-named c r lookup_pubkey now on token named =
      simp (on, token) (if_named-named (get_header r.headers (text "x-maw-from")) _ named)

  read_and_verify-passed :
      (r : PluginRequest) (read : Option Text) (lookup_pubkey : Text → Option Text) (now : ℕ)
      → r.body ≡ read
      → read_and_verify sha256 hmac parse_iso r read lookup_pubkey now ≡ passed
      → IsSenderChecked r lookup_pubkey now
  read_and_verify-passed r none lookup_pubkey now e h = cc
  read_and_verify-passed r (some body) lookup_pubkey now e h =
      verify_request-checked r lookup_pubkey now body e (from_outcome-passed _ h)

  -- With a token set, a request to a protected route that is not from this machine gets in only in one of two
  -- ways. Without a named sender it carries the token's signature over its method, path and time, within the
  -- window. With a named sender its body is read, and either no key is on file for the sender, or the request is
  -- proven by the key on file, over its method, path, time, body and sender, within the window.
  pub guard-let_in :
      (c : AuthConfig) (r : PluginRequest) (lookup_pubkey : Text → Option Text) (now later : ℕ)
      → guard sha256 hmac parse_iso c r lookup_pubkey now later ≡ let_in
      → guards r ≡ true
      → is_empty c.federation_token ≡ false
      → ((is_empty (header_of r (text "x-maw-from")) ≡ true) × IsTokenSigned hmac c r now)
        ⊎ ((is_empty (header_of r (text "x-maw-from")) ≡ false)
            × IsSenderChecked r lookup_pubkey now)
  unfolding guard
  guard-let_in c r lookup_pubkey now later h on token =
      let (by_token, by_key) = then_key-let_in _ _ h in
      elim (Bool-cases (is_empty (header_of r (text "x-maw-from")))) [
        | inl unnamed ↦
            inl (unnamed, federation_plugin-unnamed c r now later by_token on token unnamed)
        | inr named ↦ inr (
          named,
          read_and_verify-passed r r.body lookup_pubkey now refl
              (sym (from_signing_plugin-named c r lookup_pubkey now on token named) ∙ by_key),
        )
      ]
