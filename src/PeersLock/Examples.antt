-- ===== src/PeersLock/Examples.antt =====
-- lib/peers/lock.ts: the theorems at concrete processes.
use maw_js.Prelude.{ℕ, ◌≡◌, refl, Bool, true, some, none, [], ◌∷◌, List, arith}
use maw_js.PeersLock.{
  LockState, Place, trying, critical, Action, open_lock, write_pid, read_holder, poll, unlock, move,
  run,
}
use maw_js.PeersLock.Exclusion.{
  IsOwned, exclusive_without_steals, steal_schedule, steals_break_exclusion,
}

abbrev idle : LockState
idle = record { file = none; place = λ _. trying }

abbrev everyone : ℕ → Bool
everyone pid = true

-- Process 1 locks, 2 waits for it, 1 unlocks, and 2 locks.
abbrev in_turn : List (ℕ × Action)
in_turn =
    (1, open_lock)
    ∷ (1, write_pid)
    ∷ (2, open_lock)
    ∷ (2, read_holder)
    ∷ (1, unlock)
    ∷ (2, poll)
    ∷ (2, open_lock)
    ∷ (2, write_pid)
    ∷ []

idle-IsOwned : IsOwned idle
idle-IsOwned i h = cc

abbrev after_turns : LockState
after_turns = record {
  file = some (record { creator = 2; written = true });
  place = move 2 critical (
      move 2 Place.opened (
        move 2 trying (
          move 1 Place.released (
            move 2 Place.waiting
              (move 2 Place.blocked (move 1 critical (move 1 Place.opened (λ _. trying))))))));
}

exclusive_without_steals_example : ◌≡◌ {A = ℕ} 2 2
unfolding run
exclusive_without_steals_example =
    exclusive_without_steals everyone in_turn idle after_turns 2 2 refl idle-IsOwned refl refl refl

steals_break_exclusion_example :
    (s' : LockState) × (run everyone (steal_schedule 1 2) idle ≡ some s')
    × (s'.place 1 ≡ critical)
    × (s'.place 2 ≡ critical)
steals_break_exclusion_example =
    steals_break_exclusion everyone idle 1 2 refl refl refl (λ e. omega (arith, e))
