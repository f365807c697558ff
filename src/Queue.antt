-- ===== src/Queue.antt =====
-- commands/shared/queue-store.ts: messages that wait for the operator's approval. A file holds a message,
-- or text that is none; the clock and the fresh id are arguments.
pub mod Refinement
pub mod Loading
mod Examples
use maw_js.Prelude.{
  ℕ, ◌+◌, ◌*◌, Bool, true, false, ◌||◌, Option, none, some, List, [], ◌∷◌, ◌++◌, Text, ltb,
  if◌then◌else◌, is_some,
}
use maw_js.Prelude.Dict.{Dict, lookup, insert, erase}
use maw_js.Names.{includes_text}
use maw_js.Disk.{Stamp, at, unreadable}

pub data MessageStatus : Type 0 where
  pending approved rejected : MessageStatus

pub record PendingMessage : Type 0 where
  pub id : Text
  pub sender : Text
  pub target : Text
  pub message : Text
  pub sent_at : Stamp
  pub status : MessageStatus
  pub query : Option Text

-- What a file holds: nothing that can be read as an object, an object without a text for an id, or a message. What else
-- is in an object without an id is not modelled.
pub data MessageJson : Type 0 where
  corrupt : MessageJson
  unnamed : MessageJson
  message_file : PendingMessage → MessageJson

-- The directory and the one of older versions, by the id in the file's name. The older one is empty where its
-- path is the same.
pub record QueueDisk : Type 0 where
  pub files : Dict MessageJson
  pub legacy : Dict MessageJson

abbrev pub ttl_ms : ℕ
ttl_ms = 30 * 24 * 60 * 60 * 1000

pub record NewMessage : Type 0 where
  pub sender : Text
  pub target : Text
  pub message : Text
  pub query : Option Text

abbrev pub message_of : (id : Text) → (now : ℕ) → NewMessage → PendingMessage
message_of id now input = record {
  id = id;
  sender = input.sender;
  target = input.target;
  message = input.message;
  sent_at = at now;
  status = pending;
  query = input.query;
}

unfoldable pub save_pending :
    (id : Text) → (now : ℕ) → NewMessage → QueueDisk → QueueDisk × PendingMessage
unfolding insert
save_pending id now input d =
    let m = message_of id now input in (record d { files = insert id (message_file m) d.files }, m)

-- A date that does not parse is never too old.
unfoldable pub is_expired : PendingMessage → (now : ℕ) → Bool
is_expired m now = elim m.sent_at [ at sent ↦ ltb (sent + ttl_ms) now | unreadable ↦ false ]

pub data UpdateResult : Type 0 where
  updated : PendingMessage → UpdateResult
  -- An object without an id gets the patch, and still has none.
  updated_unnamed : UpdateResult
  not_found unparsable : UpdateResult

abbrev pub merge : (PendingMessage → PendingMessage) → PendingMessage → PendingMessage
merge patch current = record (patch current) { id = current.id }

-- The message that replaces the file's, or the error.
abbrev pub update_file : (PendingMessage → PendingMessage) → MessageJson → UpdateResult
update_file patch corrupt = unparsable
update_file patch unnamed = updated_unnamed
update_file patch (message_file current) = updated (merge patch current)

abbrev pub write_update : (id : Text) → UpdateResult → Dict MessageJson → Dict MessageJson
write_update id (updated m) files = insert id (message_file m) files
write_update id updated_unnamed files = insert id unnamed files
write_update id not_found files = files
write_update id unparsable files = files

-- The fields of the patch replace those of the message, all but the id.
unfoldable pub update_pending :
    (id : Text) → (patch : PendingMessage → PendingMessage) → QueueDisk → QueueDisk × UpdateResult
unfolding lookup
update_pending id patch d = elim (lookup id d.files) [
  | some json ↦
      let result = update_file patch json in
      (record d { files = write_update id result d.files }, result)
  | none ↦ elim (lookup id d.legacy) [
    | some json ↦
        let result = update_file patch json in
        (record d { legacy = write_update id result d.legacy }, result)
    | none ↦ (d, not_found)
  ]
]

-- What one place tells a reader: go on to the next, remove the file, or the message.
pub data Reading : Type 0 where
  go_on reap : Reading
  stop : PendingMessage → Reading

abbrev pub reading : (now : ℕ) → Option MessageJson → Reading
reading now none = go_on
reading now (some corrupt) = go_on
reading now (some unnamed) = go_on
reading now (some (message_file m)) = if is_expired m now then reap else stop m

unfoldable pub load_pending_by_id :
    (id : Text) → (now : ℕ) → QueueDisk → QueueDisk × Option PendingMessage
unfolding lookup is_expired erase
load_pending_by_id id now d = elim (reading now (lookup id d.files)) [
  | stop m ↦ (d, some m)
  | reap ↦ (record d { files = erase id d.files }, none)
  | go_on ↦ elim (reading now (lookup id d.legacy)) [
    | stop m ↦ (d, some m)
    | reap ↦ (record d { legacy = erase id d.legacy }, none)
    | go_on ↦ (d, none)
  ]
]

unfoldable pub delete_pending : (id : Text) → QueueDisk → QueueDisk × Bool
unfolding lookup erase
delete_pending id d = (
  record { files = erase id d.files; legacy = erase id d.legacy },
  is_some (lookup id d.files) || is_some (lookup id d.legacy),
)

-- What the loop of `loadPending` shares between its rounds.
pub record Listing : Type 0 where
  pub seen : List Text
  pub out : List PendingMessage

abbrev pub push_message : PendingMessage → Listing → Listing
push_message m l = record { seen = m.id ∷ l.seen; out = l.out ++ (m ∷ []) }

-- One round on a message that was read: whether its file stays, and the list. A message whose id was seen is passed
-- over before its age is looked at.
abbrev pub list_message : PendingMessage → (is_seen expired : Bool) → Listing → Bool × Listing
list_message m true expired l = (true, l)
list_message m false true l = (false, l)
list_message m false false l = (true, push_message m l)

abbrev pub list_file : (now : ℕ) → MessageJson → Listing → Bool × Listing
list_file now corrupt l = (true, l)
list_file now unnamed l = (true, l)
list_file now (message_file m) l = list_message m (includes_text m.id l.seen) (is_expired m now) l

abbrev pub keep_if : Text × MessageJson → Bool → Dict MessageJson → Dict MessageJson
keep_if file true rest = file ∷ rest
keep_if file false rest = rest

abbrev pub list_files : (now : ℕ) → Dict MessageJson → Listing → Dict MessageJson × Listing
list_files now [] l = ([], l)
list_files now ((id, json) ∷ files) l =
    let (stays, l') = list_file now json l in
    let (rest, end) = list_files now files l' in (keep_if (id, json) stays rest, end)

-- The sort, where `before` is the order by `localeCompare` of the texts of `sentAt`, or of the ids.
abbrev pub insert_message :
    (before : PendingMessage → PendingMessage → Bool)
    → PendingMessage
    → List PendingMessage
    → List PendingMessage
insert_message before m [] = m ∷ []
insert_message before m (n ∷ ns) =
    let after = insert_message before m ns in if before n m then n ∷ after else m ∷ n ∷ ns

abbrev pub sort_messages :
    (before : PendingMessage → PendingMessage → Bool) → List PendingMessage → List PendingMessage
sort_messages before [] = []
sort_messages before (m ∷ ms) = insert_message before m (sort_messages before ms)

unfoldable pub load_pending :
    (before : PendingMessage → PendingMessage → Bool)
    → (now : ℕ) → QueueDisk
    → QueueDisk × List PendingMessage
unfolding is_expired
load_pending before now d =
    let (files, l) = list_files now d.files (record { seen = []; out = [] }) in
    let (legacy, end) = list_files now d.legacy l in
    (record { files = files; legacy = legacy }, sort_messages before end.out)
