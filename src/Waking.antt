-- ===== src/Waking.antt =====
-- commands/shared/should-auto-wake.ts, and the step of commands/shared/comm-send.ts that plans a wake-up with it.
use maw_js.Prelude.{
  ℕ, Bool, true, false, not, ◌&&◌, ◌||◌, Option, none, some, List, [], ◌∷◌, ◌++◌, Text, text,
  is_empty, find, any, all, trim, ◌==◌, leb, ◌===◌, if◌then◌else◌,
}
use maw_js.Names.{after_number}
use maw_js.Windows.{Window, Session}
use maw_js.Routing.{NamedPeer, Config}

pub data AutoWakeSite : Type 0 where
  view hey api_send api_wake peek bud wake_cmd : AutoWakeSite

-- lib/oracle-manifest.ts: what the decision reads of an entry.
pub record Oracle : Type 0 where
  pub name : Text
  pub sources : List Text
  pub is_live : Bool

pub record ShouldAutoWakeOpts : Type 0 where
  pub site : AutoWakeSite
  pub is_live : Bool
  pub is_fleet_known : Bool
  pub force : Bool
  pub no_wake : Bool
  pub is_canonical_target : Bool
  pub manifest : Option Oracle

pub record ShouldAutoWakeDecision : Type 0 where
  pub wake : Bool
  pub reason : Text

abbrev pub is_flag_site : AutoWakeSite → Bool
is_flag_site view = true
is_flag_site hey = true
is_flag_site api_send = true
is_flag_site wake_cmd = true
is_flag_site _ = false

abbrev pub says : Bool → Text → ShouldAutoWakeDecision
says wake reason = record { wake = wake; reason = reason }

-- The policy of a site.
unfoldable pub site_policy :
    AutoWakeSite → (is_canonical is_live is_fleet_known : Bool) → ShouldAutoWakeDecision
site_policy peek canonical live known = says false (text "peek never auto-wakes")
site_policy api_wake canonical live known = says true (text "api-wake endpoint always wakes")
site_policy bud canonical live known = says true (text "bud always wakes new oracle")
site_policy wake_cmd canonical live known =
    if live
    then says false (text "wake-cmd: already live (noop)")
    else says true (text "wake-cmd: missing — wake")
site_policy view canonical live known =
    if live
    then says false (text "view: target already running")
    else (if known
        then says true (text "view: fleet-known and not running")
        else says false (text "view: unknown — caller should ask"))
site_policy hey canonical live known =
    if canonical
    then says false (text "hey: canonical target — skip wake")
    else (if live
        then says false (text "hey: target already running")
        else (if known
            then says true (text "hey: fleet-known and not running")
            else says false (text "hey: unknown target — no auto-wake")))
site_policy api_send canonical live known =
    if live
    then says false (text "api-send: target already running")
    else (if known
        then says true (text "api-send: fleet-known and not running")
        else says false (text "api-send: unknown target — no auto-wake"))

abbrev pub includes_fleet : List Text → Bool
includes_fleet sources = any (λ s. s === text "fleet") sources

-- An entry of the manifest wins over the caller's own facts.
abbrev pub live_of : ShouldAutoWakeOpts → Bool
live_of opts = elim opts.manifest [ some o ↦ o.is_live | none ↦ opts.is_live ]

abbrev pub fleet_known_of : ShouldAutoWakeOpts → Bool
fleet_known_of opts = elim opts.manifest [
  | some o ↦ includes_fleet o.sources
  | none ↦ opts.is_fleet_known
]

unfoldable pub should_auto_wake : ShouldAutoWakeOpts → ShouldAutoWakeDecision
unfolding site_policy ◌===◌
should_auto_wake opts =
    if is_flag_site opts.site && opts.no_wake
    then says false (text "--no-wake explicit deny")
    else (if is_flag_site opts.site && opts.force
        then says true (text "--wake explicit force")
        else site_policy opts.site opts.is_canonical_target (live_of opts) (fleet_known_of opts))

-- `query.split(":")`
abbrev pub with_head : ℕ → List Text → List Text
with_head c [] = (c ∷ []) ∷ []
with_head c (part ∷ parts) = (c ∷ part) ∷ parts

unfoldable pub split_colons : Text → List Text
split_colons [] = [] ∷ []
split_colons (c ∷ s) =
    let parts = split_colons s in if c == b':' then [] ∷ parts else with_head c parts

abbrev pub is_session_char : ℕ → Bool
is_session_char c =
    (leb b'A' c && leb c b'Z')
    || (leb b'a' c && leb c b'z')
    || (leb b'0' c && leb c b'9')
    || c == b'_'
    || c == b'.'
    || c == b'-'

abbrev pub is_session_name : Option Text → Bool
is_session_name none = false
is_session_name (some rest) = not (is_empty rest) && all is_session_char rest

-- `isTmuxSessionIdTarget`
unfoldable pub is_tmux_session_id_target : Text → Bool
unfolding after_number trim
is_tmux_session_id_target target = is_session_name (after_number false (trim target))

-- The node (none or empty for no node), the agent, and whether the session is spelled out.
abbrev pub target_parts : (query : Text) → List Text → Text × Text × Bool
target_parts query [] = ([], query, false)
target_parts query (_ ∷ []) = ([], query, false)
target_parts query (node ∷ agent ∷ []) = (node, agent, is_tmux_session_id_target agent)
target_parts query (node ∷ agent ∷ _ ∷ _) = (node, agent, true)

abbrev pub is_own_node : Option Text → Text → Bool
is_own_node none node = false
is_own_node (some own) node = node === own

unfoldable pub has_local_session : (agent : Text) → List Session → Bool
unfolding ◌===◌
has_local_session agent sessions =
    any
      (λ (s : Session).
        s.name === agent
        || any (λ (w : Window). w.name === (agent ++ text "-oracle") || w.name === agent) s.windows)
      sessions

-- What the step asks for: nothing, a wake-up on this node, or a request to a peer.
pub data WakePlan : Type 0 where
  stay : WakePlan
  wake_here : (agent : Text) → WakePlan
  wake_there : (url agent : Text) → WakePlan

abbrev pub hey_here : (live : Bool) → Option Oracle → ShouldAutoWakeOpts
hey_here live entry = record {
  site = hey;
  is_live = live;
  is_fleet_known = false;
  force = false;
  no_wake = false;
  is_canonical_target = false;
  manifest = elim entry [ some o ↦ some (record o { is_live = live }) | none ↦ none ];
}

abbrev pub hey_there : ShouldAutoWakeOpts
hey_there = record {
  site = hey;
  is_live = false;
  is_fleet_known = true;
  force = false;
  no_wake = false;
  is_canonical_target = false;
  manifest = none;
}

abbrev pub plan_there : (agent : Text) → Option NamedPeer → WakePlan
plan_there agent none = stay
plan_there agent (some p) =
    if (should_auto_wake hey_there).wake then wake_there p.url agent else stay

abbrev pub plan_for : Config → List Session → List Oracle → Text × Text × Bool → WakePlan
plan_for config sessions oracles (node, agent, canonical) =
    if is_empty agent || canonical
    then stay
    else (if is_empty node || is_own_node config.node node || node === text "local"
        then (if (should_auto_wake (
              hey_here (has_local_session agent sessions)
                (find (λ o. o.name === agent) oracles))).wake
            then wake_here agent
            else stay)
        else plan_there agent (find (λ p. p.name === node) config.named_peers))

unfoldable pub wake_plan : (query : Text) → Config → List Session → List Oracle → WakePlan
unfolding should_auto_wake split_colons has_local_session ◌===◌
wake_plan query config sessions oracles =
    plan_for config sessions oracles (target_parts query (split_colons query))
