-- ===== src/Queue/Refinement.antt =====
-- commands/shared/queue-store.ts: to its callers the queue is a map from ids to files.
use mathlib.Core.Path.{fun_ext}
use maw_js.Prelude.{
  ℕ, ◌≡◌, refl, subst, ===_iff, Bool, Option, none, some, List, [], ◌∷◌, Text, ◌===◌, if◌then◌else◌,
  is_some, arith, Bool-cases, inl, inr,
}
use maw_js.Prelude.Dict.{Dict, lookup, erase, lookup-insert, lookup-erase}
use maw_js.Queue.{
  PendingMessage, MessageJson, corrupt, unnamed, updated_unnamed, message_file, QueueDisk,
  NewMessage, message_of, save_pending, is_expired, UpdateResult, updated, not_found, unparsable,
  merge, update_pending, load_pending_by_id, delete_pending,
}

pub data QueueOp : Type 0 where
  save : (id : Text) → (now : ℕ) → NewMessage → QueueOp
  update : (id : Text) → (PendingMessage → PendingMessage) → QueueOp
  load : (id : Text) → (now : ℕ) → QueueOp
  delete : (id : Text) → QueueOp

pub data Answer : Type 0 where
  saved : PendingMessage → Answer
  update_answer : UpdateResult → Answer
  loaded : Option PendingMessage → Answer
  deleted : Bool → Answer

abbrev pub run_op : QueueOp → QueueDisk → QueueDisk × Answer
run_op (save id now input) d = let r = save_pending id now input d in (r.0, saved r.1)
run_op (update id patch) d = let r = update_pending id patch d in (r.0, update_answer r.1)
run_op (load id now) d = let r = load_pending_by_id id now d in (r.0, loaded r.1)
run_op (delete id) d = let r = delete_pending id d in (r.0, deleted r.1)

unfoldable pub run : List QueueOp → QueueDisk → List Answer
run [] d = []
run (op ∷ ops) d = let r = run_op op d in r.1 ∷ run ops r.0

-- The abstract queue: what stands under each id.
abbrev pub Queue : Type 0
Queue = Text → Option MessageJson

abbrev pub set : Queue → (id : Text) → Option MessageJson → Queue
set q id value j = if id === j then value else q j

-- What an update makes of a file, and answers.
abbrev pub spec_update :
    (PendingMessage → PendingMessage) → Option MessageJson → Option MessageJson × UpdateResult
spec_update patch none = (none, not_found)
spec_update patch (some corrupt) = (some corrupt, unparsable)
spec_update patch (some unnamed) = (some unnamed, updated_unnamed)
spec_update patch (some (message_file m)) =
    (some (message_file (merge patch m)), updated (merge patch m))

-- What a reading at a time leaves of a file, and answers: a message that is too old goes.
abbrev pub spec_load : (now : ℕ) → Option MessageJson → Option MessageJson × Option PendingMessage
spec_load now none = (none, none)
spec_load now (some corrupt) = (some corrupt, none)
spec_load now (some unnamed) = (some unnamed, none)
spec_load now (some (message_file m)) =
    if is_expired m now then (none, none) else (some (message_file m), some m)

abbrev pub spec_op : QueueOp → Queue → Queue × Answer
spec_op (save id now input) q =
    let m = message_of id now input in (set q id (some (message_file m)), saved m)
spec_op (update id patch) q = let r = spec_update patch (q id) in (set q id r.0, update_answer r.1)
spec_op (load id now) q = let r = spec_load now (q id) in (set q id r.0, loaded r.1)
spec_op (delete id) q = (set q id none, deleted (is_some (q id)))

unfoldable pub replay : List QueueOp → Queue → List Answer
replay [] q = []
replay (op ∷ ops) q = let r = spec_op op q in r.1 ∷ replay ops r.0

abbrev pub view : QueueDisk → Queue
view d j = lookup j d.files

-- One operation agrees with its specification, and leaves the older directory empty.
abbrev Agrees : QueueOp → QueueDisk → Type 0
Agrees op d =
    ((j : Text) → view (run_op op d).0 j ≡ (spec_op op (view d)).0 j)
    × ((run_op op d).1 ≡ (spec_op op (view d)).1)
    × ((run_op op d).0.legacy ≡ [])

save-Agrees :
    (id : Text) (now : ℕ) (input : NewMessage) (d : QueueDisk)
    → d.legacy ≡ []
    → Agrees (save id now input) d
unfolding save_pending
save-Agrees id now input d e = (λ j. lookup-insert id j _ d.files, refl, e)

delete-Agrees : (id : Text) (d : QueueDisk) → d.legacy ≡ [] → Agrees (delete id) d
unfolding delete_pending erase
delete-Agrees id d e = (λ j. lookup-erase id j d.files, ground (arith, e), ground (arith, e))

-- To set what is there changes nothing.
kept :
    (id j : Text) (o : Option MessageJson) (files : Dict MessageJson)
    → lookup id files ≡ o
    → lookup j files ≡ (if id === j then o else lookup j files)
kept id j o files e = elim (Bool-cases (id === j)) [
  | inl same ↦ rw same (subst (λ k. lookup k files ≡ o) ((===_iff id j).0 same) e)
  | inr other ↦ rw other refl
]

update-Agrees :
    (id : Text) (patch : PendingMessage → PendingMessage) (d : QueueDisk) (o : Option MessageJson)
    → d.legacy ≡ []
    → lookup id d.files ≡ o
    → Agrees (update id patch) d
unfolding update_pending lookup
update-Agrees id patch d none e h = (
  λ j. ground (arith, e, h, kept id j none d.files h),
  ground (arith, e, h),
  ground (arith, e, h),
)
update-Agrees id patch d (some corrupt) e h = (
  λ j. ground (arith, e, h, kept id j (some corrupt) d.files h),
  ground (arith, e, h),
  ground (arith, e, h),
)
update-Agrees id patch d (some unnamed) e h = (
  λ j. ground (arith, e, h, lookup-insert id j unnamed d.files),
  ground (arith, e, h),
  ground (arith, e, h),
)
update-Agrees id patch d (some (message_file m)) e h = (
  λ j. ground (arith, e, h, lookup-insert id j (message_file (merge patch m)) d.files),
  ground (arith, e, h),
  ground (arith, e, h),
)

load-Agrees :
    (id : Text) (now : ℕ) (d : QueueDisk) (o : Option MessageJson)
    → d.legacy ≡ []
    → lookup id d.files ≡ o
    → Agrees (load id now) d
unfolding load_pending_by_id lookup
load-Agrees id now d none e h = (
  λ j. ground (arith, e, h, kept id j none d.files h),
  ground (arith, e, h),
  ground (arith, e, h),
)
load-Agrees id now d (some corrupt) e h = (
  λ j. ground (arith, e, h, kept id j (some corrupt) d.files h),
  ground (arith, e, h),
  ground (arith, e, h),
)
load-Agrees id now d (some unnamed) e h = (
  λ j. ground (arith, e, h, kept id j (some unnamed) d.files h),
  ground (arith, e, h),
  ground (arith, e, h),
)
load-Agrees id now d (some (message_file m)) e h = elim (Bool-cases (is_expired m now)) [
  | inl old ↦ (
    λ j. ground (arith, e, h, old, lookup-erase id j d.files),
    ground (arith, e, h, old),
    ground (arith, e, h, old),
  )
  | inr fresh ↦ (
    λ j. ground (arith, e, h, fresh, kept id j (some (message_file m)) d.files h),
    ground (arith, e, h, fresh),
    ground (arith, e, h, fresh),
  )
]

agrees : (op : QueueOp) (d : QueueDisk) → d.legacy ≡ [] → Agrees op d
agrees (save id now input) d e = save-Agrees id now input d e
agrees (update id patch) d e = update-Agrees id patch d (lookup id d.files) e refl
agrees (load id now) d e = load-Agrees id now d (lookup id d.files) e refl
agrees (delete id) d e = delete-Agrees id d e

-- Without files of an older version, any sequence of saves, updates, readings and deletions gives the answers of
-- a map from ids to files, in which a reading removes a message older than thirty days.
pub run_refines :
    (ops : List QueueOp) (d : QueueDisk) → d.legacy ≡ [] → run ops d ≡ replay ops (view d)
unfolding run replay
run_refines [] d e = refl
run_refines (op ∷ ops) d e =
    let (states, answer, older) = agrees op d e in
    let same : view (run_op op d).0 ≡ (spec_op op (view d)).0 = fun_ext states in
    cc (answer, run_refines ops (run_op op d).0 older, same)
