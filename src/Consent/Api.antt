-- ===== src/Consent/Api.antt =====
-- api/consent.ts: the HTTP handlers of /consent/request, /consent/:id/approve and /reject.
use maw_js.Prelude.{
  ℕ, Bool, true, ◌||◌, not, Option, none, some, Text, text, ◌===◌, starts_with, is_empty, is_some,
  if◌then◌else◌,
}
use maw_js.Disk.{ConsentAction, hey, team_invite, plugin_install, pending, Stamp, Disk, TrustEntry}
use maw_js.Consent.Store.{write_pending, read_pending}
use maw_js.Consent.Request.{
  ApproveResult, ApproveError, RejectResult, approve_consent, reject_consent,
}

-- The body of the POST. A field that is missing, null or empty is the empty text, or `none`.
pub record ConsentBody : Type 0 where
  pub id : Text
  pub from : Text
  pub to : Text
  pub action : Text
  pub summary : Text
  pub pin_hash : Text
  pub created_at : Option Stamp
  pub expires_at : Option Stamp
  pub status : Text

abbrev pub parse_action : Text → Option ConsentAction
parse_action a =
    if a === text "hey"
    then some hey
    else (if a === text "team-invite"
        then some team_invite
        else (if a === text "plugin-install" then some plugin_install else none))

pub data PostReply : Type 0 where
  missing_field unknown_action already_exists : PostReply
  created : (id : Text) → (expires_at : Stamp) → PostReply

-- `set.status`
abbrev pub status_code : PostReply → ℕ
status_code missing_field = 400
status_code unknown_action = 400
status_code already_exists = 409
status_code (created _ _) = 201

abbrev pub has_empty_field : ConsentBody → Bool
has_empty_field b =
    is_empty b.id
    || (is_empty b.from
        || (is_empty b.to
            || (is_empty b.action
                || (is_empty b.summary || (is_empty b.pin_hash || is_empty b.status)))))

-- The steps of the handler behind the test for missing fields.
unfoldable pub store_request :
    ConsentBody → (created_at expires_at : Stamp) → (now : ℕ) → Disk → Disk × PostReply
store_request b created_at expires_at now d = elim (parse_action b.action) [
  | none ↦ (d, unknown_action)
  | some action ↦ if is_some (read_pending b.id now d) then (d, already_exists) else (
    write_pending
        (record {
          id = b.id;
          from = b.from;
          to = b.to;
          action = action;
          summary = b.summary;
          pin_hash = b.pin_hash;
          created_at = created_at;
          expires_at = expires_at;
          status = pending;
        })
        d,
    created b.id expires_at,
  )
]

unfoldable pub post_request : ConsentBody → (now : ℕ) → Disk → Disk × PostReply
unfolding store_request
post_request b now d = elim b.created_at [
  | none ↦ (d, missing_field)
  | some created_at ↦ elim b.expires_at [
    | none ↦ (d, missing_field)
    | some expires_at ↦
        if has_empty_field b
        then (d, missing_field)
        else store_request b created_at expires_at now d
  ]
]

-- `none` is an in-process call, without a socket.
unfoldable pub is_loopback_address : Option Text → Bool
is_loopback_address none = true
is_loopback_address (some a) =
    is_empty a
    || (a === text "127.0.0.1"
        || (a === text "::1"
            || (a === text "::ffff:127.0.0.1"
                || (starts_with a (text "127.") || a === text "localhost"))))

pub data ApproveReply : Type 0 where
  loopback_only pin_required : ApproveReply
  bad_request : ApproveError → ApproveReply
  entry : TrustEntry → ApproveReply

abbrev pub approve_reply : ApproveResult → ApproveReply
approve_reply (ApproveResult.granted e) = entry e
approve_reply (ApproveResult.refused error) = bad_request error

unfoldable pub post_approve :
    (sha256 : Text → Text)
    → (address : Option Text) → (id pin : Text) → (now stamp : ℕ) → Disk
    → Disk × ApproveReply
post_approve sha256 address id pin now stamp d =
    if not (is_loopback_address address)
    then (d, loopback_only)
    else (if is_empty pin
        then (d, pin_required)
        else (let (d', result) = approve_consent sha256 id pin now stamp d in
            (d', approve_reply result)))

pub data RejectReply : Type 0 where
  loopback_only done : RejectReply
  bad_request : ApproveError → RejectReply

abbrev pub reject_reply : RejectResult → RejectReply
reject_reply RejectResult.done = done
reject_reply (RejectResult.refused error) = bad_request error

unfoldable pub post_reject :
    (address : Option Text) → (id : Text) → (now : ℕ) → Disk → Disk × RejectReply
post_reject address id now d =
    if not (is_loopback_address address)
    then (d, loopback_only)
    else (let (d', result) = reject_consent id now d in (d', reject_reply result))
