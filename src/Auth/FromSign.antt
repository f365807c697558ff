-- ===== src/Auth/FromSign.antt =====
-- lib/federation-auth.ts: the per-peer signature (v3), `signRequestV3` and `verifyRequest`.
use maw_js.Prelude.{
  ℕ, ◌+◌, ◌-◌, Bool, true, false, not, ◌&&◌, ◌||◌, Option, none, some, [], ◌∷◌, ◌++◌, Text, text,
  is_empty, all, lower_case, upper_case, trim, if◌then◌else◌, ltb, leb,
}
use maw_js.Prelude.Dict.{Dict, lookup, insert}
use maw_js.Prelude.Decimal.{show_nat, parse_nat}
use maw_js.Auth.Hex.{same_digest}
use maw_js.Auth.Middleware.{hash_body, or_empty}

abbrev pub from_sig_window_sec : ℕ
from_sig_window_sec = 300

abbrev pub default_oracle : Text
default_oracle = text "mawjs"

-- `config.oracle` and `config.node`; an absent node is empty.
unfoldable pub resolve_from_address : (oracle : Option Text) → (node : Text) → Option Text
resolve_from_address oracle node =
    if is_empty node
    then none
    else some ((elim oracle [ none ↦ default_oracle | some o ↦ o ]) ++ (b':' ∷ node))

-- `METHOD:PATH:TIMESTAMP:BODY_SHA256:FROM`
unfoldable pub from_sign_payload : (from timestamp method path body_hash : Text) → Text
from_sign_payload from timestamp method path body_hash =
    upper_case method
    ++ (b':' ∷ (path ++ (b':' ∷ (timestamp ++ (b':' ∷ (body_hash ++ (b':' ∷ from)))))))

unfoldable pub legacy_from_sign_payload : (from signed_at method path body_hash : Text) → Text
legacy_from_sign_payload from signed_at method path body_hash =
    from ++ (10 ∷ (signed_at ++ (10 ∷ (upper_case method ++ (10 ∷ (path ++ (10 ∷ body_hash)))))))

-- The headers under their names in lower case; the last of two that differ in case counts.
unfoldable pub fold_names : Dict Text → Dict Text → Dict Text
fold_names lc [] = lc
fold_names lc ((k, v) ∷ rest) = fold_names (insert (lower_case k) v lc) rest

unfoldable pub get_header : Dict Text → Text → Option Text
unfolding fold_names
get_header headers name = lookup (lower_case name) (fold_names [] headers)

-- `(headers.get(name) ?? "").trim()`
unfoldable pub header : Dict Text → Text → Text
unfolding get_header trim
header headers name = trim (or_empty (get_header headers name))

pub data FromVerifyDecision : Type 0 where
  accept_legacy : FromVerifyDecision
  accept_tofu_record : (from : Text) → FromVerifyDecision
  accept_verified : (from : Text) → FromVerifyDecision
  refuse_unsigned : (from : Text) → FromVerifyDecision
  refuse_mismatch : (from : Text) → FromVerifyDecision
  refuse_skew : (from : Text) → (delta : ℕ) → FromVerifyDecision
  refuse_malformed : FromVerifyDecision

unfoldable pub is_refuse_decision : FromVerifyDecision → Bool
is_refuse_decision accept_legacy = false
is_refuse_decision (accept_tofu_record _) = false
is_refuse_decision (accept_verified _) = false
is_refuse_decision _ = true

-- `/^[0-9a-fA-F]+$/`
abbrev pub is_hex : ℕ → Bool
is_hex c = (leb 48 c && leb c 57) || ((leb 97 c && leb c 102) || (leb 65 c && leb c 70))

-- `Number.isSafeInteger`
abbrev pub safe : Option ℕ → Option ℕ
safe none = none
safe (some n) = if leb n 9007199254740991 then some n else none

unfoldable pub parse_unix_seconds : Text → Option ℕ
parse_unix_seconds raw = safe (parse_nat raw)

pub record SignedRequest : Type 0 where
  pub method : Text
  pub path : Text
  pub headers : Dict Text
  pub body : Text

-- The fields that are read of the headers.
pub record Fields : Type 0 where
  pub from : Text
  pub v3_sig : Text
  pub v3_timestamp : Text
  pub legacy_sig : Text
  pub legacy_signed_at : Text

unfoldable pub read_fields : Dict Text → Fields
unfolding header
read_fields h = record {
  from = header h (text "x-maw-from");
  v3_sig = header h (text "x-maw-signature-v3");
  v3_timestamp = header h (text "x-maw-timestamp");
  legacy_sig = header h (text "x-maw-signature");
  legacy_signed_at = header h (text "x-maw-signed-at");
}

abbrev pub has_v3_sig : Fields → Bool
has_v3_sig f = not (is_empty f.from) && (not (is_empty f.v3_sig) && not (is_empty f.v3_timestamp))

abbrev pub has_legacy_sig : Fields → Bool
has_legacy_sig f =
    not (is_empty f.from) && (not (is_empty f.legacy_sig) && not (is_empty f.legacy_signed_at))

abbrev pub is_signed : Fields → Bool
is_signed f = has_v3_sig f || has_legacy_sig f

abbrev pub v3_headers : (from_address signature : Text) → (timestamp : ℕ) → Dict Text
v3_headers from_address signature timestamp =
    (text "X-Maw-From", from_address)
    ∷ (text "X-Maw-Signature-V3", signature)
    ∷ (text "X-Maw-Timestamp", show_nat timestamp)
    ∷ (text "X-Maw-Auth-Version", text "v3")
    ∷ []

-- `parse_iso` is `Date.parse` with the milliseconds dropped.
module _ (sha256 : Text → Text) (hmac : (key payload : Text) → Text)
    (parse_iso : Text → Option ℕ) where
  unfoldable pub sign_request_v3 :
      (peer_key from_address method path : Text)
      → (timestamp : ℕ) → (body : Text) → Option (Text × Text)
  sign_request_v3 peer_key from_address method path timestamp body =
      let verb = if is_empty method then text "GET" else method in
      let body_hash = hash_body sha256 body in
      if is_empty peer_key || is_empty from_address
      then none
      else some (
        hmac peer_key (from_sign_payload from_address (show_nat timestamp) verb path body_hash),
        body_hash,
      )

  -- `none` is the exception of `signRequestV3`.
  unfoldable pub sign_headers_v3 :
      (peer_key from_address method path : Text)
      → (timestamp : ℕ) → (body : Text) → Option (Dict Text)
  sign_headers_v3 peer_key from_address method path timestamp body =
      elim (sign_request_v3 peer_key from_address method path timestamp body) [
        | none ↦ none
        | some (signature, _) ↦ some (v3_headers from_address signature timestamp)
      ]

  unfoldable pub verify_hmac_sig : (secret payload signature : Text) → Bool
  verify_hmac_sig secret payload signature =
      if is_empty signature || not (all is_hex signature)
      then false
      else same_digest (hmac secret payload) signature

  -- The steps for a cached key and a signed request.
  unfoldable pub verify_signed :
      SignedRequest → Fields → (cached : Text) → (now : ℕ) → FromVerifyDecision
  verify_signed r f cached now =
      let v3 = has_v3_sig f in
      elim (if v3 then parse_unix_seconds f.v3_timestamp else parse_iso f.legacy_signed_at) [
        | none ↦ refuse_malformed
        | some signed_at ↦
            let delta = (now - signed_at) + (signed_at - now) in
            if ltb from_sig_window_sec delta
            then refuse_skew f.from delta
            else (let body_hash = hash_body sha256 r.body in
                let payload =
                  if v3
                  then from_sign_payload f.from f.v3_timestamp r.method r.path body_hash
                  else legacy_from_sign_payload f.from f.legacy_signed_at r.method r.path
                      body_hash in
                if verify_hmac_sig cached payload (if v3 then f.v3_sig else f.legacy_sig)
                then accept_verified f.from
                else refuse_mismatch f.from)
      ]

  -- The O6 table. An absent or empty key counts as not cached.
  unfoldable pub decide : SignedRequest → Fields → (cached : Text) → (now : ℕ) → FromVerifyDecision
  unfolding verify_signed
  decide r f cached now =
      if is_empty cached
      then (if is_signed f then accept_tofu_record f.from else accept_legacy)
      else (if is_signed f then verify_signed r f cached now else refuse_unsigned f.from)

  unfoldable pub verify_request :
      SignedRequest → (lookup_pubkey : Text → Option Text) → (now : ℕ) → FromVerifyDecision
  unfolding decide read_fields
  verify_request r lookup_pubkey now =
      let f = read_fields r.headers in
      decide r f (if is_empty f.from then [] else or_empty (lookup_pubkey f.from)) now
