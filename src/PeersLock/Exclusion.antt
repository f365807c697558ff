-- ===== src/PeersLock/Exclusion.antt =====
-- lib/peers/lock.ts: when at most one process is in the critical section, and when two are.
use maw_js.Prelude.{
  ℕ, ◌≡◌, ◌≢◌, refl, Bool, true, false, not, Option, none, some, List, [], ◌∷◌, all, arith,
  Option-cases, inl, inr, sym, subst, ◌∙◌,
}
use maw_js.PeersLock.{
  LockFile, Place, trying, opened, blocked, waiting, stealing, critical, LockState, Action,
  open_lock, write_pid, read_holder, unlink_stale, poll, give_up, unlock, move, write_to, act, step,
  run,
}

-- A process that has created the file and not released it.
abbrev pub holds : Place → Bool
holds opened = true
holds critical = true
holds _ = false

abbrev pub creator_of : Option LockFile → Option ℕ
creator_of none = none
creator_of (some f) = some f.creator

-- Each holder has created the file that is there.
abbrev pub IsOwned : LockState → Type 0
IsOwned s = (i : ℕ) → holds (s.place i) ≡ true → creator_of s.file ≡ some i

abbrev pub is_steal : ℕ × Action → Bool
is_steal (_, unlink_stale) = true
is_steal _ = false

creator_of-write_to : (pid : ℕ) (f : Option LockFile) → creator_of (write_to pid f) ≡ creator_of f
creator_of-write_to pid none = refl
creator_of-write_to pid (some f) = ground arith

act-IsOwned :
    (alive : ℕ → Bool) (pid : ℕ) (a : Action) (p : Place) (s s' : LockState)
    → is_steal (pid, a) ≡ false
    → s.place pid ≡ p
    → act alive pid a p s ≡ some s'
    → IsOwned s
    → IsOwned s'
unfolding act
act-IsOwned alive pid open_lock trying s s' n e h own i hi = elim (Option-cases s.file) [
  | inl f ↦ ground (arith, f, own i)
  | inr (x, f) ↦ ground (arith, f, own i)
]
act-IsOwned alive pid write_pid opened s s' n e h own i hi =
    ground (arith, own i, own pid, creator_of-write_to pid s.file)
act-IsOwned alive pid read_holder blocked s s' n e h own i hi = ground (arith, own i)
act-IsOwned alive pid poll waiting s s' n e h own i hi = ground (arith, own i)
act-IsOwned alive pid give_up waiting s s' n e h own i hi = ground (arith, own i)
act-IsOwned alive pid unlock critical s s' n e h own i hi = ground (arith, own i, own pid)
act-IsOwned alive pid _ _ s s' n e h own i hi = cc

run-IsOwned :
    (alive : ℕ → Bool) (schedule : List (ℕ × Action)) (s s' : LockState)
    → all (λ e. not (is_steal e)) schedule ≡ true
    → run alive schedule s ≡ some s'
    → IsOwned s
    → IsOwned s'
unfolding run step
run-IsOwned alive [] s s' n h own = ground (arith, h, own)
run-IsOwned alive ((pid, a) ∷ rest) s s' n h own = elim (Option-cases (step alive pid a s)) [
  | inl e ↦ cc (rw (e, run) at h)
  | inr (t, e) ↦
      run-IsOwned alive rest t s' (ground arith) (rw (e, run) at h)
        (act-IsOwned alive pid a (s.place pid) s t (ground arith) refl e own)
]

-- In a schedule in which no process removes the file of another, from a state in which each process that holds
-- the lock has created the file that is there, two processes in the critical section are one.
pub exclusive_without_steals :
    (alive : ℕ → Bool) (schedule : List (ℕ × Action)) (s s' : LockState) (i j : ℕ)
    → all (λ e. not (is_steal e)) schedule ≡ true
    → IsOwned s
    → run alive schedule s ≡ some s'
    → s'.place i ≡ critical
    → s'.place j ≡ critical
    → i ≡ j
exclusive_without_steals alive schedule s s' i j n own h ci cj =
    let own' = run-IsOwned alive schedule s s' n h own in
    cc (own' i (rw ci refl), own' j (rw cj refl))

-- Process `i` creates the file; before it has written its id, `j` finds the file, reads no id, removes the
-- file and locks; then `i` goes on.
abbrev pub steal_schedule : (i j : ℕ) → List (ℕ × Action)
steal_schedule i j =
    (i, open_lock)
    ∷ (j, open_lock)
    ∷ (j, read_holder)
    ∷ (j, unlink_stale)
    ∷ (j, open_lock)
    ∷ (j, write_pid)
    ∷ (i, write_pid)
    ∷ []

run_nil : (alive : ℕ → Bool) (s : LockState) → run alive [] s ≡ some s
unfolding run
run_nil alive s = refl

run_cons :
    (alive : ℕ → Bool) (pid : ℕ) (a : Action) (p : Place) (rest : List (ℕ × Action))
    (s t u : LockState)
    → s.place pid ≡ p
    → act alive pid a p s ≡ some t
    → run alive rest t ≡ some u
    → run alive ((pid, a) ∷ rest) s ≡ some u
unfolding run step
run_cons alive pid a p rest s t u e h r =
    let taken = subst (λ q. act alive pid a q s ≡ some t) (sym e) h in ground (arith, taken, r)

move_here : (pid : ℕ) (p : Place) (place : ℕ → Place) → move pid p place pid ≡ p
move_here pid p place = ground arith

move_there : (pid j : ℕ) (p : Place) (place : ℕ → Place) → j ≢ pid → move pid p place j ≡ place j
move_there pid j p place ne = ground arith

open_free :
    (alive : ℕ → Bool) (pid : ℕ) (s : LockState)
    → s.file ≡ none
    → act alive pid open_lock trying s
      ≡ some (record {
        file = some (record { creator = pid; written = false });
        place = move pid opened s.place;
      })
unfolding act
open_free alive pid s f = ground (arith, f)

-- From any state with no lock file and two processes that try to lock, whether they are alive or not, there is
-- a schedule after which both are in the critical section.
pub steals_break_exclusion :
    (alive : ℕ → Bool) (s : LockState) (i j : ℕ)
    → s.file ≡ none
    → s.place i ≡ trying
    → s.place j ≡ trying
    → i ≢ j
    → (s' : LockState) × (run alive (steal_schedule i j) s ≡ some s')
      × (s'.place i ≡ critical)
      × (s'.place j ≡ critical)
unfolding act
steals_break_exclusion alive s i j f pi pj ne =
    let ne' : j ≢ i = λ e. ne (sym e) in
    let file_i : LockFile = record { creator = i; written = false } in
    let file_j : LockFile = record { creator = j; written = false } in
    let s₁ : LockState = record { file = some file_i; place = move i opened s.place } in
    let s₂ : LockState = record s₁ { place = move j blocked s₁.place } in
    let s₃ : LockState = record s₂ { place = move j stealing s₂.place } in
    let s₄ : LockState = record { file = none; place = move j trying s₃.place } in
    let s₅ : LockState = record { file = some file_j; place = move j opened s₄.place } in
    let s₆ : LockState = record { file = write_to j s₅.file; place = move j critical s₅.place } in
    let s₇ : LockState = record { file = write_to i s₆.file; place = move i critical s₆.place } in
    let still : s₆.place i ≡ opened = ground (arith, ne) in
    let r₆ = run_cons alive i write_pid opened [] s₆ s₇ s₇ still refl (run_nil alive s₇) in
    let r₅ = run_cons alive j write_pid opened _ s₅ s₆ s₇ (move_here j opened s₄.place) refl r₆ in
    let r₄ = run_cons alive j open_lock trying _ s₄ s₅ s₇ (move_here j trying s₃.place) refl r₅ in
    let r₃ =
      run_cons alive j unlink_stale stealing _ s₃ s₄ s₇ (move_here j stealing s₂.place) refl r₄ in
    let r₂ =
      run_cons alive j read_holder blocked _ s₂ s₃ s₇ (move_here j blocked s₁.place) refl r₃ in
    let found = move_there i j opened s.place ne' ∙ pj in
    let r₁ = run_cons alive j open_lock trying _ s₁ s₂ s₇ found refl r₂ in
    (
      s₇,
      run_cons alive i open_lock trying _ s s₁ s₇ pi (open_free alive i s f) r₁,
      move_here i critical s₆.place,
      move_there i j critical s₆.place ne' ∙ move_here j critical s₅.place,
    )
