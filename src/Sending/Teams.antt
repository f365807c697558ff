-- ===== src/Sending/Teams.antt =====
-- commands/shared/comm-send.ts and lib/oracle-members.ts: a message to the members of a team.
use maw_js.Prelude.{
  ℕ, suc, ◌+◌, ◌≡◌, ◌∙◌, ap, refl, Bool, true, false, not, ◌&&◌, Option, none, some, List, [], ◌∷◌,
  ◌++◌, map, Text, text, is_empty, find, filter, any, lower_case, trim, length, ◌===◌,
  if◌then◌else◌, arith,
}
use maw_js.Names.{strip_oracle_any_case, unique_strings, non_empty}
use maw_js.Windows.{Window, Session}
use maw_js.Sending.{Call, World, Ending, thrown, cmd_send}

pub record OracleMember : Type 0 where
  pub oracle : Text
  pub role : Text

pub record OracleTeamRegistry : Type 0 where
  pub members : List OracleMember
  pub exclude_self : Option Bool

abbrev pub is_excluding : Option Bool → Bool
is_excluding (some false) = false
is_excluding _ = true

unfoldable pub filter_members :
    List OracleMember → (exclude_self : Option Bool) → (current_oracle : Text) → List Text
unfolding ◌===◌
filter_members members exclude_self current =
    let names = map (λ m. m.oracle) members in
    if is_excluding exclude_self && not (is_empty current)
    then filter (λ o. not (o === current)) names
    else names

abbrev pub get_oracle_members : Option OracleTeamRegistry → (current_oracle : Text) → List Text
get_oracle_members none current = []
get_oracle_members (some r) current = filter_members r.members r.exclude_self current

unfoldable pub team_workspace_window_candidates : (member : Text) → List Text
unfolding strip_oracle_any_case trim
team_workspace_window_candidates member =
    let raw = trim member in
    let stripped = strip_oracle_any_case raw in
    unique_strings (
      non_empty
        (raw ∷ stripped ∷ (if is_empty stripped then [] else stripped ++ text "-oracle") ∷ []))

abbrev pub is_wanted : List Text → Window → Bool
is_wanted wanted w = any (λ name. lower_case name === lower_case w.name) wanted

abbrev pub window_target : Text → Option Window → Option Text
window_target session none = none
window_target session (some w) = some (session ++ (b':' ∷ w.name))

abbrev pub in_workspace : List Text → Option Session → Option Text
in_workspace wanted none = none
in_workspace wanted (some s) = window_target s.name (find (is_wanted wanted) s.windows)

unfoldable pub resolve_team_workspace_member_target :
    (team member : Text) → List Session → Option Text
unfolding team_workspace_window_candidates ◌===◌
resolve_team_workspace_member_target team member sessions =
    in_workspace (team_workspace_window_candidates member) (find (λ s. s.name === team) sessions)

abbrev pub routed_member : (team member : Text) → List Session → Text
routed_member team member sessions =
    elim (resolve_team_workspace_member_target team member sessions) [ some t ↦ t | none ↦ member ]

pub record Tally : Type 0 where
  pub delivered : ℕ
  pub failed : ℕ

abbrev pub is_delivered : World × Ending → Bool
is_delivered (w, thrown) = false
is_delivered (w, _) = not w.exit_called

abbrev pub count : (is_delivered : Bool) → Tally → Tally
count true t = record t { delivered = suc t.delivered }
count false t = record t { failed = suc t.failed }

-- The loop over the members, where `call` gives each query's call. Each starts with no failure noted.
unfoldable pub fan_out :
    (call : (query : Text) → Call) (team : Text)
    → List Session
    → (members : List Text) → World
    → World × Tally
unfolding cmd_send resolve_team_workspace_member_target
fan_out call team sessions [] w = (w, record { delivered = 0; failed = 0 })
fan_out call team sessions (member ∷ members) w =
    let x =
      cmd_send false (call (routed_member team member sessions))
        (record w { exit_called = false }) in
    let (w', t) = fan_out call team sessions members x.0 in (w', count (is_delivered x) t)

count-sum :
    (b : Bool) (t : Tally)
    → (count b t).delivered + (count b t).failed ≡ suc (t.delivered + t.failed)
count-sum true t = omega arith
count-sum false t = omega arith

-- The fan-out tries every member: those that it counts as delivered and as failed are all of them.
pub fan_out-length :
    (call : (query : Text) → Call) (team : Text) (sessions : List Session) (members : List Text)
    (w : World)
    → let t = (fan_out call team sessions members w).1 in t.delivered + t.failed ≡ length members
unfolding fan_out
fan_out-length call team sessions [] w = refl
fan_out-length call team sessions (member ∷ members) w =
    let x =
      cmd_send false (call (routed_member team member sessions))
        (record w { exit_called = false }) in
    count-sum (is_delivered x) (fan_out call team sessions members x.0).1
    ∙ ap suc (fan_out-length call team sessions members x.0)
