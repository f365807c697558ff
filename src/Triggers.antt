-- ===== src/Triggers.antt =====
-- core/runtime/triggers-engine.ts: `fire`, which runs the commands of the triggers for an event. The shell's answers,
-- the clock and the times of the agents' last activity are arguments; the configuration is not changed by others
-- while it runs.
pub mod Once
pub mod Cron
mod Examples
use maw_js.Prelude.Dict.{Dict, lookup}
use maw_js.Prelude.{
  ℕ, zero, suc, ◌+◌, ◌-◌, ◌*◌, Bool, true, false, not, ◌&&◌, ◌||◌, Option, none, some, List, [],
  ◌∷◌, ◌++◌, Text, text, is_empty, starts_with, length, ltb, ◌==◌, ◌===◌, if◌then◌else◌,
}

-- config/types.ts
pub data TriggerEvent : Type 0 where
  issue_close pr_merge agent_idle agent_wake agent_crash cron : TriggerEvent

pub record TriggerConfig : Type 0 where
  pub on : TriggerEvent
  pub repo : Option Text
  -- In seconds.
  pub timeout : Option ℕ
  pub schedule : Option Text
  pub action : Text
  pub name : Option Text
  pub once : Bool

-- The entries of the context, in their order; a value can be undefined.
abbrev pub TriggerContext : Type 0
TriggerContext = List (Text × Option Text)

pub data Answer : Type 0 where
  succeeded failed : (text : Text) → Answer

pub record TriggerFireResult : Type 0 where
  pub trigger : TriggerConfig
  pub action : Text
  pub answer : Answer
  pub ts : ℕ

-- What the engine keeps: the configured triggers, the last result of each index, and the idle timers.
pub record Engine : Type 0 where
  pub triggers : List TriggerConfig
  pub last_fired : ℕ → Option TriggerFireResult
  pub idle_timers : Dict ℕ

abbrev pub event_name : TriggerEvent → Text
event_name issue_close = text "issue-close"
event_name pr_merge = text "pr-merge"
event_name agent_idle = text "agent-idle"
event_name agent_wake = text "agent-wake"
event_name agent_crash = text "agent-crash"
event_name cron = text "cron"

abbrev pub is_idle_event : TriggerEvent → Bool
is_idle_event agent_idle = true
is_idle_event _ = false

-- `s.split(key).join(value)` for a key that is not empty; `skip` characters belong to an occurrence.
unfoldable pub replace_from : (skip : ℕ) → (key value : Text) → Text → Text
unfolding starts_with
replace_from skip key value [] = []
replace_from (suc skip) key value (_ ∷ s) = replace_from skip key value s
replace_from zero key value (c ∷ s) = elim (starts_with (c ∷ s) key) [
  | true ↦ value ++ replace_from (length key - 1) key value s
  | false ↦ c ∷ replace_from zero key value s
]

abbrev pub placeholder : Text → Text
placeholder key = (b'{' ∷ key) ++ text "}"

unfoldable pub expand_context : TriggerContext → Text → Text
unfolding replace_from
expand_context [] action = action
expand_context ((key, none) ∷ ctx) action = expand_context ctx action
expand_context ((key, some value) ∷ ctx) action =
    expand_context ctx (replace_from 0 (placeholder key) value action)

unfoldable pub expand_action : (action : Text) → TriggerEvent → TriggerContext → Text
unfolding expand_context replace_from
expand_action action event ctx =
    expand_context ctx (replace_from 0 (text "{event}") (event_name event) action)

-- A field of the context, where an absent or undefined one reads as the empty text.
abbrev pub defined : Option (Option Text) → Text
defined (some (some value)) = value
defined _ = []

unfoldable pub field : Text → TriggerContext → Text
unfolding lookup
field key ctx = defined (lookup key ctx)

abbrev pub or_empty : Option Text → Text
or_empty (some t) = t
or_empty none = []

abbrev pub or_zero : Option ℕ → ℕ
or_zero (some n) = n
or_zero none = 0

unfoldable pub is_other_repo : TriggerConfig → TriggerContext → Bool
unfolding field
is_other_repo t ctx =
    let repo = or_empty t.repo in
    not (is_empty repo)
    && not (is_empty (field (text "repo") ctx))
    && not (repo === field (text "repo") ctx)

-- The agent's last activity is less than the timeout ago. A time of 0 counts as none, as the code's tests do.
unfoldable pub is_too_active :
    TriggerEvent → TriggerConfig → TriggerContext → Dict ℕ → (now : ℕ) → Bool
unfolding field lookup
is_too_active event t ctx timers now =
    let agent = field (text "agent") ctx in
    let last = or_zero (lookup agent timers) in
    is_idle_event event
    && not (or_zero t.timeout == 0)
    && not (is_empty agent)
    && not (last == 0)
    && ltb now (last + or_zero t.timeout * 1000)

unfoldable pub fires : TriggerEvent → TriggerContext → Dict ℕ → (now : ℕ) → TriggerConfig → Bool
unfolding is_other_repo is_too_active ◌===◌
fires event ctx timers now t =
    event_name t.on === event_name event
    && not (is_other_repo t ctx)
    && not (is_too_active event t ctx timers now)

abbrev pub is_ok : Answer → Bool
is_ok (succeeded _) = true
is_ok (failed _) = false

-- `triggers.filter((_, idx) => idx !== i)`
unfoldable pub remove_at {ℓ} : {A : Type ℓ} → ℕ → List A → List A
remove_at i [] = []
remove_at zero (x ∷ xs) = xs
remove_at (suc i) (x ∷ xs) = x ∷ remove_at i xs

-- One call of `fire`: the event, its context, the shell's answer to the command of each index, and the clock.
module _ (event : TriggerEvent) (ctx : TriggerContext) (shell : (i : ℕ) (action : Text) → Answer)
    (now : ℕ → ℕ) where
  unfoldable pub result_of : (i : ℕ) → TriggerConfig → TriggerFireResult
  unfolding expand_action
  result_of i t =
      let action = expand_action t.action event ctx in
      record { trigger = t; action = action; answer = shell i action; ts = now i }

  abbrev pub record_last :
      (i : ℕ) → TriggerFireResult → (ℕ → Option TriggerFireResult) → ℕ → Option TriggerFireResult
  record_last i r last j = if j == i then some r else last j

  -- The rest of a round for a trigger that fires: the history, and the removal of a one-time trigger.
  unfoldable pub after_fire : (i : ℕ) → TriggerConfig → Engine → Engine
  unfolding result_of remove_at
  after_fire i t e =
      let r = result_of i t in
      record e {
        triggers = if t.once && is_ok r.answer then remove_at i e.triggers else e.triggers;
        last_fired = record_last i r e.last_fired;
      }

  -- The loop over the triggers that were configured when the call began.
  unfoldable pub fire_from : (i : ℕ) → List TriggerConfig → Engine → Engine × List TriggerFireResult
  unfolding fires after_fire result_of
  fire_from i [] e = (e, [])
  fire_from i (t ∷ ts) e = elim (fires event ctx e.idle_timers (now i) t) [
    | false ↦ fire_from (suc i) ts e
    | true ↦ let rest = fire_from (suc i) ts (after_fire i t e) in (rest.0, result_of i t ∷ rest.1)
  ]

  unfoldable pub fire : Engine → Engine × List TriggerFireResult
  unfolding fire_from
  fire e = fire_from 0 e.triggers e
