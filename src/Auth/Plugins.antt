-- ===== src/Auth/Plugins.antt =====
-- lib/elysia-auth.ts: the two plugins that guard the routes of api/index.ts, one after the other. The address is
-- that of the connection; a body is absent if it cannot be read. What the first plugin reads of the configuration
-- is `AuthConfig` without its `trust_loopback`, which these plugins do not look at.
use maw_js.Prelude.{
  ℕ, Bool, not, ◌&&◌, ◌||◌, Option, none, some, List, [], ◌∷◌, Text, text, ◌===◌, is_empty, any,
  starts_with, drop, if◌then◌else◌, ltb,
}
use maw_js.Prelude.Dict.{Dict}
use maw_js.Prelude.Decimal.{ℤ, parse_int}
use maw_js.Auth.Middleware.{
  window_sec, delta, is_loopback, AuthConfig, AuthOutcome, next, federation_token_required,
  missing_signature, invalid_timestamp, timestamp_expired, signature_invalid, has_peers, or_empty,
  verify,
}
use maw_js.Auth.FromSign.{
  get_header, FromVerifyDecision, is_refuse_decision, SignedRequest, verify_request,
}

abbrev pub protected_routes : List Text
protected_routes =
    text "/send"
    ∷ text "/pane-keys"
    ∷ text "/probe"
    ∷ text "/wake"
    ∷ text "/sleep"
    ∷ text "/talk"
    ∷ text "/transport/send"
    ∷ text "/triggers/fire"
    ∷ text "/worktrees/cleanup"
    ∷ text "/_engine/register"
    ∷ text "/_engine/unregister"
    ∷ []

abbrev pub protected_post_routes : List Text
protected_post_routes = text "/feed" ∷ []

unfoldable pub is_protected_route : (path method : Text) → Bool
unfolding starts_with ◌===◌
is_protected_route path method =
    any (λ p. p === path) protected_routes
    || (any (λ p. p === path) protected_post_routes && method === text "POST")
    || (method === text "POST" && starts_with path (text "/plugins/"))
    || (method === text "GET" && starts_with path (text "/plugin/download/"))

-- `pathname.replace(/^\/api/, "")`
unfoldable pub route_of : (pathname : Text) → Text
unfolding starts_with
route_of pathname = if starts_with pathname (text "/api") then drop 4 pathname else pathname

pub record PluginRequest : Type 0 where
  pub method : Text
  pub pathname : Text
  pub client_ip : Option Text
  pub headers : Dict Text
  pub body : Option Text

abbrev pub guards : PluginRequest → Bool
guards r = is_protected_route (route_of r.pathname) r.method && not (is_loopback r.client_ip)

abbrev pub header_of : PluginRequest → Text → Text
header_of r name = or_empty (get_header r.headers name)

-- What the second plugin answers.
pub data FromOutcome : Type 0 where
  passed body_unread : FromOutcome
  refused : FromVerifyDecision → FromOutcome

abbrev pub signed_request : PluginRequest → (body : Text) → SignedRequest
signed_request r body = record {
  method = r.method;
  path = r.pathname;
  headers = r.headers;
  body = body;
}

abbrev pub from_outcome : FromVerifyDecision → FromOutcome
from_outcome decision = if is_refuse_decision decision then refused decision else passed

-- A request without the header has been dealt with by the other plugin.
abbrev pub if_named : Option Text → FromOutcome → FromOutcome
if_named none o = passed
if_named (some _) o = o

-- The first answer ends a request.
pub data GuardOutcome : Type 0 where
  let_in : GuardOutcome
  stopped_by_token : AuthOutcome → GuardOutcome
  stopped_by_key : FromOutcome → GuardOutcome

abbrev pub then_key : AuthOutcome → FromOutcome → GuardOutcome
then_key next passed = let_in
then_key next o = stopped_by_key o
then_key o _ = stopped_by_token o

module _ (sha256 : Text → Text) (hmac : (key payload : Text) → Text)
    (parse_iso : Text → Option ℕ) where
  -- The answer to a signature header and a time.
  unfoldable pub check_token_signature :
      AuthConfig → PluginRequest → (signature : Text) → Option ℤ → (now later : ℕ) → AuthOutcome
  unfolding verify
  check_token_signature c r signature none now later = invalid_timestamp
  check_token_signature c r signature (some timestamp) now later =
      if verify hmac c.federation_token r.method r.pathname timestamp signature [] now
      then next
      else (if ltb window_sec (delta later timestamp)
          then timestamp_expired (delta later timestamp)
          else signature_invalid)

  -- `federationAuth`. A request that names a sender is left to the other plugin.
  unfoldable pub federation_plugin : AuthConfig → PluginRequest → (now later : ℕ) → AuthOutcome
  unfolding check_token_signature is_protected_route is_loopback get_header parse_int
  federation_plugin c r now later =
      let sig = header_of r (text "x-maw-signature") in
      let ts = header_of r (text "x-maw-timestamp") in
      if not (guards r)
      then next
      else (if is_empty c.federation_token && has_peers c && not c.allow_peers_without_token
          then federation_token_required
          else (if is_empty c.federation_token
              then next
              else (if not (is_empty (header_of r (text "x-maw-from")))
                  then next
                  else (if is_empty sig || is_empty ts
                      then missing_signature
                      else check_token_signature c r sig (parse_int ts) now later))))

  -- With the body that was read.
  abbrev pub read_and_verify :
      PluginRequest
      → (body : Option Text) → (lookup_pubkey : Text → Option Text) → (now : ℕ) → FromOutcome
  read_and_verify r none lookup_pubkey now = body_unread
  read_and_verify r (some body) lookup_pubkey now =
      from_outcome (verify_request sha256 hmac parse_iso (signed_request r body) lookup_pubkey now)

  -- `fromSigningAuth`
  unfoldable pub from_signing_plugin :
      AuthConfig → PluginRequest → (lookup_pubkey : Text → Option Text) → (now : ℕ) → FromOutcome
  unfolding verify_request is_refuse_decision is_protected_route is_loopback get_header
  from_signing_plugin c r lookup_pubkey now =
      if is_empty c.federation_token || not (guards r)
      then passed
      else if_named (get_header r.headers (text "x-maw-from"))
          (read_and_verify r r.body lookup_pubkey now)

  -- Both, in the order in which they are mounted.
  unfoldable pub guard :
      AuthConfig
      → PluginRequest
      → (lookup_pubkey : Text → Option Text) → (now later : ℕ) → GuardOutcome
  unfolding federation_plugin from_signing_plugin
  guard c r lookup_pubkey now later =
      then_key (federation_plugin c r now later) (from_signing_plugin c r lookup_pubkey now)
