-- ===== src/Triggers/Examples.antt =====
-- core/runtime/triggers-engine.ts: two one-time triggers and a lasting one.
use maw_js.Prelude.{
  ℕ, ◌≤◌, ◌<◌, ◌⊎◌, ◌↔◌, ◌+◌, ◌*◌, Memᴰ, ◌≡◌, refl, Bool, true, false, none, some, List, [], ◌∷◌,
  Text, text, starts_with, ◌===◌,
}
use maw_js.Prelude.Dict.{lookup}
use maw_js.Triggers.{
  agent_idle, TriggerConfig, TriggerContext, Answer, succeeded, Engine, replace_from,
  expand_context, expand_action, field, is_other_repo, is_too_active, fires, result_of, fire,
}
use maw_js.Triggers.Cron.{parse_cron_part, parse_cron_field}
use maw_js.Triggers.Cron.Range.{range_text, parse_cron_part_lem}
use maw_js.Triggers.Once.{second_spent_stays}

abbrev trigger : Text → Bool → TriggerConfig
trigger action once = record {
  on = agent_idle;
  repo = none;
  timeout = some 30;
  schedule = none;
  action = action;
  name = none;
  once = once;
}

abbrev engine : List TriggerConfig → Engine
engine triggers = record {
  triggers = triggers;
  last_fired = λ i. none;
  idle_timers = (text "neo", 1000) ∷ [];
}

abbrev ctx : TriggerContext
ctx = (text "agent", some (text "neo")) ∷ []

abbrev shell : ℕ → Text → Answer
shell i action = succeeded []

expand_action_run :
    expand_action (text "wake {agent} on {event}") agent_idle ctx ≡ text "wake neo on agent-idle"
unfolding expand_action expand_context replace_from starts_with
expand_action_run = refl

abbrev both : List TriggerConfig
both = trigger (text "a") true ∷ trigger (text "b") true ∷ trigger (text "c") false ∷ []

second_spent_stays_example :
    (fire agent_idle ctx shell (λ i. 40000) (engine both)).0.triggers ≡ trigger (text "b") true ∷ []
unfolding fires is_other_repo is_too_active field lookup ◌===◌ result_of
second_spent_stays_example =
    second_spent_stays agent_idle ctx shell (λ i. 40000) [] (trigger (text "a") true) []
      (trigger (text "b") true) (trigger (text "c") false) [] (engine both) refl refl

quarters_parse : parse_cron_part 0 59 (text "*/15") ≡ some (0 ∷ 15 ∷ 30 ∷ 45 ∷ [])
unfolding parse_cron_part ◌===◌
quarters_parse = refl

-- A list of parts, and a part out of the field's range.
cron_test : parse_cron_field (text "1-5/2,7") 0 23 ≡ some (1 ∷ 3 ∷ 5 ∷ 7 ∷ [])
unfolding parse_cron_field ◌===◌
cron_test = refl

cron_error_test : parse_cron_field (text "3,24") 0 23 ≡ none
unfolding parse_cron_field ◌===◌
cron_error_test = refl

-- What follows the second number of a range is not read.
cron_lenient_test : parse_cron_field (text "1-2-x") 0 23 ≡ some (1 ∷ 2 ∷ [])
unfolding parse_cron_field ◌===◌
cron_lenient_test = refl

-- `5-45/15`
parse_cron_part_lem_example :
    (0 ≤ 5
      → 5 ≤ 45
      → 45 ≤ 59
      → 1 ≤ 15
      → (out : List ℕ) × (parse_cron_part 0 59 (range_text 5 45 15) ≡ some out)
        × ((x : ℕ) → Memᴰ x out ↔ ((k : ℕ) × (x ≡ 5 + k * 15) × (x ≤ 45))))
    × (((5 < 0) ⊎ (45 < 5) ⊎ (59 < 45) ⊎ (◌≡◌ {A = ℕ} 15 0))
        → parse_cron_part 0 59 (range_text 5 45 15) ≡ none)
parse_cron_part_lem_example = parse_cron_part_lem 0 59 5 45 15
