-- ===== src/Auth/Examples.antt =====
-- Request signatures at concrete inputs, with toy digests.
use maw_js.Prelude.{
  ℕ, ◌≡◌, ◌⊎◌, refl, true, false, Option, none, some, [], ◌∷◌, Text, text, ◌===◌, is_empty,
  is_space, to_lower, starts_with, arith,
}
use maw_js.Prelude.Dict.{lookup, insert}
use maw_js.Prelude.Decimal.{parse_int, parse_nat, show_nat}
use maw_js.Auth.Hex.{IsDigest, same_digest}
use maw_js.Auth.Middleware.{
  is_protected, is_loopback, AuthConfig, AuthRequest, has_peers, verify, check_headers,
  federation_auth,
}
use maw_js.Auth.FromSign.{
  accept_verified, is_refuse_decision, SignedRequest, read_fields, header, v3_headers,
  sign_headers_v3, verify_request, sign_request_v3, parse_unix_seconds, verify_hmac_sig,
}
use maw_js.Auth.Signature.{IsSigned, federation_auth-next}
use maw_js.Auth.Continuity.{verify-sign_v3, IsProven, pinned_continuity}
use maw_js.Auth.FromSign.{get_header, fold_names}
use maw_js.Auth.Plugins.{
  PluginRequest, header_of, let_in, guard, federation_plugin, from_signing_plugin,
  check_token_signature, is_protected_route, route_of,
}
use maw_js.Auth.Guard.{IsTokenSigned, stranger_passes, IsSenderChecked, guard-let_in}

abbrev sha : Text → Text
sha body = text "00ff"

abbrev mac : Text → Text → Text
mac key p = text "0a1b"

mac-IsDigest : (key p : Text) → IsDigest (mac key p)
mac-IsDigest key p = (refl, refl, (refl, refl, tt))

abbrev iso : Text → Option ℕ
iso s = none

abbrev config : AuthConfig
config = record {
  federation_token = text "k";
  peers = text "http://mba" ∷ [];
  named_peers = [];
  allow_peers_without_token = false;
  trust_loopback = none;
}

abbrev good : AuthRequest
good = record {
  method = text "POST";
  path = text "/api/send";
  client_ip = some (text "10.0.0.2");
  signature = some (text "0A1b");
  timestamp = some (text "1000");
  auth_version = some (text "V2");
  body = some (text "hi");
}

federation_auth-next_example :
    (is_empty (text "k") ≡ true) × ((has_peers config ≡ false) ⊎ (false ≡ true))
    ⊎ IsSigned sha mac config good 1010
unfolding federation_auth check_headers is_protected is_loopback ◌===◌ starts_with to_lower verify
    same_digest parse_int
federation_auth-next_example =
    federation_auth-next sha mac mac-IsDigest config good 1010 1011 refl refl refl

abbrev pinned : Text → Option Text
pinned from = some (text "key")

verify-sign_v3_example :
    verify_request sha mac iso
      (record {
        method = text "POST";
        path = text "/api/send";
        headers = v3_headers (text "neo:m5") (text "0a1b") 1000;
        body = text "hi";
      })
      pinned
      1010
    ≡ accept_verified (text "neo:m5")
unfolding sign_headers_v3 sign_request_v3 is_space
verify-sign_v3_example =
    verify-sign_v3 sha mac iso mac-IsDigest (λ key p. refl) pinned (text "POST") (text "/api/send")
      (text "hi") (text "key") (text "neo:m5") 1000 1010 _ refl refl refl refl (omega arith)
      (omega arith)

abbrev signed : SignedRequest
signed = record {
  method = text "POST";
  path = text "/api/send";
  headers = v3_headers (text "neo:m5") (text "0a1B") 1000;
  body = text "hi";
}

pinned_continuity_example :
    (verify_request sha mac iso signed pinned 1010
      ≡ accept_verified (header signed.headers (text "x-maw-from")))
    × IsProven sha mac iso signed (read_fields signed.headers) (text "key") 1010
unfolding verify_request header insert lookup ◌===◌ to_lower is_space show_nat is_refuse_decision
    parse_unix_seconds parse_nat verify_hmac_sig same_digest
pinned_continuity_example =
    pinned_continuity sha mac iso mac-IsDigest signed pinned 1010 (text "key") refl refl refl refl

abbrev stranger : PluginRequest
stranger = record {
  method = text "POST";
  pathname = text "/api/send";
  client_ip = some (text "10.0.0.9");
  headers = (text "X-Maw-From", text "who:ever") ∷ [];
  body = some (text "hi");
}

abbrev no_keys : Text → Option Text
no_keys from = none

stranger_passes_example : guard sha mac iso config stranger no_keys 1010 1010 ≡ let_in
unfolding get_header fold_names insert lookup ◌===◌ to_lower header is_space
stranger_passes_example =
    stranger_passes sha mac iso config stranger no_keys 1010 1010 (text "hi") refl refl refl refl

abbrev by_token : PluginRequest
by_token = record stranger {
  headers = (text "X-Maw-Signature", text "0a1b") ∷ (text "X-Maw-Timestamp", text "1000") ∷ [];
}

guard-let_in_example :
    ((is_empty (header_of by_token (text "x-maw-from")) ≡ true)
      × IsTokenSigned mac config by_token 1010)
    ⊎ ((is_empty (header_of by_token (text "x-maw-from")) ≡ false)
        × IsSenderChecked sha mac iso mac-IsDigest by_token pinned 1010)
unfolding guard federation_plugin from_signing_plugin check_token_signature is_protected_route
    route_of is_loopback get_header fold_names insert lookup ◌===◌ starts_with to_lower verify
    same_digest parse_int is_space
guard-let_in_example =
    guard-let_in sha mac iso mac-IsDigest config by_token pinned 1010 1011 refl refl refl
