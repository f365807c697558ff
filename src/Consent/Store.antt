-- ===== src/Consent/Store.antt =====
-- core/consent/store.ts: the trust file and the pending requests. Request ids are plain file names.
pub mod Laws
use maw_js.Prelude.{
  ℕ, Bool, true, false, ◌||◌, Option, none, some, List, [], ◌∷◌, ◌++◌, Text, text, if◌then◌else◌,
  ltb, is_some,
}
use maw_js.Prelude.Dict.{Dict, lookup, insert, erase}
use maw_js.Disk.{
  ConsentAction, hey, team_invite, plugin_install, ConsentStatus, pending, expired, Stamp, at,
  unreadable, TrustEntry, PendingRequest, TrustJson, object, PendingJson, request, Disk,
}

-- The content of the file that `readableTrustPath` names.
unfoldable pub readable_trust : Disk → Option TrustJson
readable_trust d = elim d.trust [ none ↦ d.legacy_trust | some file ↦ some file ]

unfoldable pub load_trust : Disk → Dict TrustEntry
unfolding readable_trust
load_trust d = elim (readable_trust d) [ some (object trust) ↦ trust | _ ↦ [] ]

abbrev pub action_text : ConsentAction → Text
action_text hey = text "hey"
action_text team_invite = text "team-invite"
action_text plugin_install = text "plugin-install"

unfoldable pub trust_key : (from to : Text) → ConsentAction → Text
trust_key from to action = from ++ (text "→" ++ (to ++ (text ":" ++ action_text action)))

unfoldable pub save_trust : Dict TrustEntry → Disk → Disk
save_trust trust d = record d { trust = some (object trust) }

unfoldable pub record_trust : TrustEntry → Disk → Disk
unfolding save_trust
record_trust entry d =
    save_trust (insert (trust_key entry.from entry.to entry.action) entry (load_trust d)) d

unfoldable pub remove_trust : (from to : Text) → ConsentAction → Disk → Disk × Bool
unfolding save_trust
remove_trust from to action d =
    let key = trust_key from to action in
    if is_some (lookup key (load_trust d))
    then (save_trust (erase key (load_trust d)) d, true)
    else (d, false)

unfoldable pub is_trusted : Disk → (from to : Text) → ConsentAction → Bool
is_trusted d from to action = is_some (lookup (trust_key from to action) (load_trust d))

unfoldable pub write_pending : PendingRequest → Disk → Disk
write_pending req d = record d { pending_files = insert req.id (request req) d.pending_files }

abbrev pub is_past : (now : ℕ) → Stamp → Bool
is_past now (at t) = ltb t now
is_past now unreadable = false

abbrev pub expire : Bool → ConsentStatus → ConsentStatus
expire true pending = expired
expire _ status = status

unfoldable pub apply_expiry : PendingRequest → (now : ℕ) → PendingRequest
apply_expiry req now = record req { status = expire (is_past now req.expires_at) req.status }

-- The file of the first directory that has one.
unfoldable pub pending_file : Text → Disk → Option PendingJson
pending_file id d = elim (lookup id d.pending_files) [
  | none ↦ lookup id d.legacy_pending
  | some file ↦ some file
]

unfoldable pub read_pending : Text → (now : ℕ) → Disk → Option PendingRequest
unfolding pending_file
read_pending id now d = elim (pending_file id d) [
  | some (request req) ↦ some (apply_expiry req now)
  | _ ↦ none
]

unfoldable pub update_status : Text → ConsentStatus → (now : ℕ) → Disk → Disk × Bool
update_status id status now d = elim (read_pending id now d) [
  | none ↦ (d, false)
  | some req ↦ (write_pending (record req { status = status }) d, true)
]

unfoldable pub delete_pending : Text → Disk → Disk × Bool
delete_pending id d = (
  record d { pending_files = erase id d.pending_files; legacy_pending = erase id d.legacy_pending },
  is_some (lookup id d.pending_files) || is_some (lookup id d.legacy_pending),
)
