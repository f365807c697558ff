-- ===== src/PeersLock.antt =====
-- lib/peers/lock.ts: `withPeersLock`, as processes that take steps on the lock file. A process id names a process. Which
-- holders are alive is a parameter. The exclusive open and the write of the id are steps of their own. The open and read of
-- a holder's file are one step, and so are the test whether a file is there and its removal: other processes do not
-- run between these two calls, although they can.
pub mod Exclusion
mod Examples
use maw_js.Prelude.{
  ℕ, Bool, true, false, not, Option, none, some, List, [], ◌∷◌, ◌==◌, if◌then◌else◌,
}

-- The file at the lock's path: the process that created it, and whether its id is written.
pub record LockFile : Type 0 where
  pub creator : ℕ
  pub written : Bool

-- Where a process is: before the open, after its file is created, after the open found a file, after the
-- read of a live holder, before the removal of a stale file, in `fn`, after the release, after the timeout.
pub data Place : Type 0 where
  trying opened blocked waiting stealing critical released timed_out : Place

pub record LockState : Type 0 where
  pub file : Option LockFile
  pub place : ℕ → Place

pub data Action : Type 0 where
  open_lock write_pid read_holder unlink_stale poll give_up unlock : Action

abbrev pub move : (pid : ℕ) → Place → (ℕ → Place) → ℕ → Place
move pid p place j = if j == pid then p else place j

-- `!isAlive(holderPid)`: a file that is gone or has no id yet gives no id.
abbrev pub is_stale : (ℕ → Bool) → Option LockFile → Bool
is_stale alive none = true
is_stale alive (some f) = if f.written then not (alive f.creator) else true

-- The write goes to the file that the process created, which the path may not name any more.
abbrev pub write_to : (pid : ℕ) → Option LockFile → Option LockFile
write_to pid none = none
write_to pid (some f) = if f.creator == pid then some (record f { written = true }) else some f

-- One action of a process in a place; `none` where the code does not take it there.
unfoldable pub act : (ℕ → Bool) → (pid : ℕ) → Action → Place → LockState → Option LockState
act alive pid open_lock trying s = elim s.file [
  | none ↦ some (record {
    file = some (record { creator = pid; written = false });
    place = move pid opened s.place;
  })
  | some f ↦ some (record s { place = move pid blocked s.place })
]
act alive pid write_pid opened s =
    some (record { file = write_to pid s.file; place = move pid critical s.place })
act alive pid read_holder blocked s =
    some
      (record s { place = move pid (if is_stale alive s.file then stealing else waiting) s.place })
act alive pid unlink_stale stealing s =
    some (record { file = none; place = move pid trying s.place })
act alive pid poll waiting s = some (record s { place = move pid trying s.place })
act alive pid give_up waiting s = some (record s { place = move pid timed_out s.place })
act alive pid unlock critical s = some (record { file = none; place = move pid released s.place })
act alive pid _ _ s = none

unfoldable pub step : (ℕ → Bool) → (pid : ℕ) → Action → LockState → Option LockState
unfolding act
step alive pid a s = act alive pid a (s.place pid) s

-- A schedule: which process takes which action.
unfoldable pub run : (ℕ → Bool) → List (ℕ × Action) → LockState → Option LockState
unfolding step
run alive [] s = some s
run alive ((pid, a) ∷ rest) s = elim (step alive pid a s) [
  | none ↦ none
  | some s' ↦ run alive rest s'
]
