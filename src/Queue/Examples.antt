-- ===== src/Queue/Examples.antt =====
-- commands/shared/queue-store.ts: a message that is saved, approved, read too late and deleted.
use maw_js.Prelude.{◌===◌, All, head, tail, inl, Bool, false, ◌≡◌, refl, none, List, [], ◌∷◌, text}
use maw_js.Queue.{
  QueueDisk, NewMessage, PendingMessage, message_file, corrupt, message_of, approved, load_pending,
}
use maw_js.Queue.Loading.{HasFile, IsListed, IsCurrent, load_pending_lem}
use maw_js.Queue.Refinement.{QueueOp, save, update, load, delete, run, replay, view, run_refines}

abbrev empty_disk : QueueDisk
empty_disk = record { files = []; legacy = [] }

abbrev note : NewMessage
note = record { sender = text "neo"; target = text "pulse"; message = text "hi"; query = none }

abbrev ops : List QueueOp
ops =
    save (text "a1") 5 note
    ∷ update (text "a1") (λ m. record m { status = approved })
    ∷ load (text "a1") 10
    ∷ load (text "a1") 2592000006
    ∷ delete (text "a1")
    ∷ []

run_refines_example : run ops empty_disk ≡ replay ops (view empty_disk)
run_refines_example = run_refines ops empty_disk refl

abbrev message : PendingMessage
message = message_of (text "b2") 2592000000 note

-- An old message, a file that does not parse, and in both directories a message of one id.
abbrev disk : QueueDisk
disk = record {
  files =
      (text "a1", message_file (message_of (text "a1") 5 note))
      ∷ (text "x", corrupt)
      ∷ (text "b2", message_file message)
      ∷ [];
  legacy = (text "b2", message_file (message_of (text "b2") 6 note)) ∷ [];
}

abbrev unordered : PendingMessage → PendingMessage → Bool
unordered _ _ = false

-- The message that is passed over keeps its file, although it is too old.
load_pending_test : load_pending unordered 2592000007 disk ≡ (
  record {
    files = (text "x", corrupt) ∷ (text "b2", message_file message) ∷ [];
    legacy = (text "b2", message_file (message_of (text "b2") 6 note)) ∷ [];
  },
  message ∷ [],
)
unfolding load_pending ◌===◌
load_pending_test = refl

load_pending_lem_example :
    HasFile (load_pending unordered 2592000007 disk).0 message
    × IsListed (load_pending unordered 2592000007 disk).1 (text "b2")
    × All (IsCurrent disk 2592000007) (load_pending unordered 2592000007 disk).1
unfolding load_pending
load_pending_lem_example =
    load_pending_lem unordered 2592000007 disk message ((text "b2", inl (tail (tail head))), refl)
