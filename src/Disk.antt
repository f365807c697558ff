-- ===== src/Disk.antt =====
-- The files of the state directory that the trust and consent stores share. Writes are atomic
-- (a temporary file and a rename), so a file holds a whole value. JSON text is read back as the
-- value that was written, and a file that does not parse is `corrupt`.
use maw_js.Prelude.{ℕ, Option, List, Text}
use maw_js.Prelude.Dict.{Dict}

pub data ConsentAction : Type 0 where
  hey team_invite plugin_install : ConsentAction

pub data ConsentStatus : Type 0 where
  pending approved rejected expired : ConsentStatus

-- A date string: the milliseconds that it stands for, if it parses.
pub data Stamp : Type 0 where
  at : ℕ → Stamp
  unreadable : Stamp

pub data Approver : Type 0 where
  human auto : Approver

-- core/consent/store.ts
pub record TrustEntry : Type 0 where
  pub from : Text
  pub to : Text
  pub action : ConsentAction
  pub approved_at : Stamp
  pub approved_by : Approver
  pub request_id : Option Text

-- core/consent/store.ts
pub record PendingRequest : Type 0 where
  pub id : Text
  pub from : Text
  pub to : Text
  pub action : ConsentAction
  pub summary : Text
  pub pin_hash : Text
  pub created_at : Stamp
  pub expires_at : Stamp
  pub status : ConsentStatus

-- lib/trust-store.ts: an entry of the pairwise trust list.
pub record TrustEntryOnDisk : Type 0 where
  pub sender : Text
  pub target : Text
  pub added_at : Stamp

-- The contents of `trust.json`, by what a reader tests: an array, or an object with an object
-- (or nothing) under `trust`. Any other value is `corrupt`.
pub data TrustJson : Type 0 where
  corrupt : TrustJson
  array : List TrustEntryOnDisk → TrustJson
  object : Dict TrustEntry → TrustJson

pub data PendingJson : Type 0 where
  corrupt : PendingJson
  request : PendingRequest → PendingJson

-- `none` is a missing file. A legacy place is `none` where its path is that of the state directory.
pub record Disk : Type 0 where
  pub trust : Option TrustJson
  pub legacy_trust : Option TrustJson
  pub pending_files : Dict PendingJson
  pub legacy_pending : Dict PendingJson
