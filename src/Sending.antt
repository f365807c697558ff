-- ===== src/Sending.antt =====
-- commands/shared/comm-send.ts: `cmdSend` to one target, from the resolution to the delivery. What tmux, the
-- network and the wake-up give are fields of the call. A team's fan-out runs the same code with a
-- `process.exit` that does not end the process.
pub mod Gates
pub mod Bypass
pub mod Whole
pub mod Teams
mod Examples
use maw_js.Prelude.{
  ℕ, Bool, true, false, not, ◌&&◌, ◌||◌, Option, none, some, List, [], ◌∷◌, ◌++◌, Text, text,
  is_empty, has_char, if◌then◌else◌,
}
use maw_js.Disk.{PendingRequest, Disk}
use maw_js.TrustFiles.{cmd_add}
use maw_js.Acl.{
  ScopesDir, Scope, load_all_scopes, evaluate_acl_from_disk, AclDecision, allow, queue,
}
use maw_js.Queue.{QueueDisk, save_pending}
use maw_js.Windows.{Session}
use maw_js.Consent.Request.{PostOutcome}
use maw_js.Consent.Gate.{
  Resolved, unresolved, local, peer, self_node, error, GateDecision, deny, maybe_gate_consent,
}
use maw_js.Waking.{Oracle, WakePlan, stay, wake_here, wake_there, wake_plan}
use maw_js.Routing.{
  Config, FleetSession, ManifestEntry, Outcome, resolved, ambiguous, resolve_target, self_name,
  non_empty_text,
}

-- The options, the environment, and what the world outside answers.
pub record Call : Type 0 where
  pub query : Text
  pub message : Text
  pub config : Config
  pub oracle : Option Text
  -- The sessions before a wake-up on this node and after it, and whether a wake-up succeeds.
  pub sessions : List Session
  pub woken_sessions : List Session
  pub wake_ok : Bool
  pub oracles : List Oracle
  pub fleet : List FleetSession
  pub manifest : List ManifestEntry
  pub approve : Bool
  pub trust : Bool
  pub inbox_only : Bool
  pub consent_on : Bool
  pub acl_bypass : Bool
  -- Whether the scopes and the trust list can be read, a message can be put in the queue, and a trust entry stored. The
  -- code catches each of these errors.
  pub acl_reads : Bool
  pub queue_saves : Bool
  pub trust_saves : Bool
  pub before : Text → Text → Bool
  pub scopes : ScopesDir
  -- `resolveOraclePane`, the writer of the receiver's inbox, a peer's answer, and the peers' scan.
  pub pane : Text → Text
  pub inbox_ok : Bool
  pub peer_ok : (url target : Text) → Bool
  pub discovered : Option Text
  pub sha256 : Text → Text
  pub consent_post : (peer_url : Text) → PendingRequest → PostOutcome
  pub queue_id : Text
  pub consent_id : Text
  pub bytes : List ℕ
  pub now : ℕ

-- What leaves the process: keys typed into a pane, a message posted to a peer, or a peer's wake-up asked for.
pub data Delivery : Type 0 where
  typed : (pane : Text) → Delivery
  posted : (url target : Text) → Delivery
  woke : (url agent : Text) → Delivery

pub record World : Type 0 where
  pub disk : Disk
  pub messages : QueueDisk
  pub sent : List Delivery
  -- Whether a replaced `process.exit` was called: the fan-out's `memberFailed`.
  pub exit_called : Bool

pub data Ending : Type 0 where
  returned : Ending
  exited : (code : ℕ) → Ending
  thrown : Ending

-- `process.exit(code)`, where `exits` tells whether it ends the process, and what follows it in the code.
abbrev pub exit : (exits : Bool) → (code : ℕ) → World → World × Ending → World × Ending
exit true code w next = (w, exited code)
exit false code w next = (record next.0 { exit_called = true }, next.1)

abbrev pub with_sent : Delivery → World → World
with_sent delivery w = record w { sent = w.sent ++ (delivery ∷ []) }

abbrev pub sender_oracle : Call → Text
sender_oracle c = elim c.oracle [ some o ↦ o | none ↦ text "mawjs" ]

abbrev pub has_scopes : List Scope → Bool
has_scopes [] = false
has_scopes (_ ∷ _) = true

abbrev pub is_queue : AclDecision → Bool
is_queue queue = true
is_queue allow = false

-- Whether the access list has a message to a peer put in the queue: it is asked, and nothing fails. The first error is
-- logged, and the send goes on.
unfoldable pub acl_queues : Call → (target : Text) → Disk → Bool
unfolding load_all_scopes evaluate_acl_from_disk
acl_queues c target d =
    not c.approve
    && not c.acl_bypass
    && c.acl_reads
    && has_scopes (load_all_scopes c.before c.scopes)
    && is_queue (evaluate_acl_from_disk c.before (sender_oracle c) target c.scopes d)
    && c.queue_saves

unfoldable pub queue_message : Call → (target : Text) → World → World
unfolding save_pending
queue_message c target w =
    let saved =
      save_pending c.queue_id c.now
        (record {
          sender = sender_oracle c;
          target = target;
          message = c.message;
          query = some c.query;
        })
        w.messages in
    record w { messages = saved.0 }

-- `--approve --trust`; an error of the store is logged.
unfoldable pub trust_target : Call → (target : Text) → World → World
unfolding cmd_add
trust_target c target w =
    if c.approve && c.trust && c.trust_saves
    then record w { disk = (cmd_add (sender_oracle c) target c.now w.disk).0 }
    else w

-- The end of the code: a receiver's inbox for a target that is not live, or the error.
unfoldable pub queue_or_fail : (exits : Bool) → Call → World → World × Ending
queue_or_fail exits c w = if c.inbox_ok then (w, returned) else exit exits 1 w (w, returned)

unfoldable pub discover : (exits : Bool) → Call → World → World × Ending
unfolding queue_or_fail
discover exits c w = elim (non_empty_text c.discovered) [
  | none ↦ queue_or_fail exits c w
  | some url ↦
      let w' = with_sent (posted url c.query) w in
      if c.peer_ok url c.query then (w', returned) else exit exits 1 w' (queue_or_fail exits c w')
]

unfoldable pub type_keys : Call → (pane : Text) → World → World × Ending
type_keys c pane w =
    let w' = with_sent (typed pane) w in
    elim (non_empty_text c.config.node) [ some _ ↦ (w', returned) | none ↦ (w', thrown) ]

unfoldable pub deliver_local : (exits : Bool) → Call → (target : Text) → World → World × Ending
unfolding type_keys
deliver_local exits c target w =
    let pane = c.pane target in
    if c.inbox_only
    then (if c.inbox_ok then (w, returned) else exit exits 1 w (type_keys c pane w))
    else type_keys c pane w

unfoldable pub deliver : (exits : Bool) → Call → Resolved → World → World × Ending
unfolding deliver_local discover
deliver exits c (local target) w = deliver_local exits c target w
deliver exits c (self_node target) w = deliver_local exits c target w
deliver exits c (peer url target node) w =
    let w' = with_sent (posted url target) w in
    if c.peer_ok url target then (w', returned) else exit exits 1 w' (discover exits c w')
deliver exits c (error reason) w = discover exits c w
deliver exits c unresolved w = discover exits c w

-- The consent gate, where it is on.
abbrev pub after_consent :
    (exits : Bool) → Call → Resolved → World → Disk × GateDecision → World × Ending
after_consent exits c r w (d, GateDecision.allow) = deliver exits c r (record w { disk = d })
after_consent exits c r w (d, deny code result) =
    exit exits code (record w { disk = d }) (deliver exits c r (record w { disk = d }))

unfoldable pub consent_step : (exits : Bool) → Call → Resolved → World → World × Ending
unfolding deliver maybe_gate_consent
consent_step exits c r w =
    if c.consent_on
    then after_consent exits c r w (
        maybe_gate_consent c.sha256 c.consent_post (self_name c.config) c.query c.message r
          c.consent_id c.bytes c.now w.disk)
    else deliver exits c r w

-- From the resolution on.
unfoldable pub send_resolved : (exits : Bool) → Call → Resolved → World → World × Ending
unfolding consent_step acl_queues queue_message trust_target
send_resolved exits c (peer url target node) w =
    if acl_queues c target w.disk
    then (queue_message c target w, returned)
    else consent_step exits c (peer url target node) (trust_target c target w)
send_resolved exits c r w = consent_step exits c r w

abbrev pub send_outcome : (exits : Bool) → Call → Outcome → World → World × Ending
send_outcome exits c (resolved r) w = send_resolved exits c r w
send_outcome exits c (ambiguous _) w = (w, thrown)

abbrev pub send_among : (exits : Bool) → Call → List Session → World → World × Ending
send_among exits c sessions w =
    send_outcome exits c (resolve_target c.query c.config sessions c.fleet c.manifest) w

-- The planned wake-up, then the resolution. Only a peer's refusal ends the call.
abbrev pub after_plan : (exits : Bool) → Call → WakePlan → World → World × Ending
after_plan exits c stay w = send_among exits c c.sessions w
after_plan exits c (wake_here agent) w =
    send_among exits c (if c.wake_ok then c.woken_sessions else c.sessions) w
after_plan exits c (wake_there url agent) w =
    let w' = with_sent (woke url agent) w in
    let sent = send_among exits c c.sessions w' in if c.wake_ok then sent else exit exits 1 w' sent

unfoldable pub resolve_and_send : (exits : Bool) → Call → World → World × Ending
unfolding send_resolved resolve_target wake_plan
resolve_and_send exits c w = after_plan exits c (wake_plan c.query c.config c.sessions c.oracles) w

-- `isBareLocalHeyTarget`
unfoldable pub is_bare : (query : Text) → Bool
unfolding has_char
is_bare query = not (is_empty query) && not (has_char b':' query) && not (has_char b'/' query)

-- A bare name is for this node only. A wake-up on this node, which may still follow, sends nothing.
abbrev pub send_bare : (exits : Bool) → Call → Outcome → World → World × Ending
send_bare exits c (resolved (local t)) w = send_resolved exits c (local t) w
send_bare exits c (resolved (self_node t)) w = send_resolved exits c (self_node t) w
send_bare exits c (ambiguous _) w = exit exits 1 w (w, thrown)
send_bare exits c (resolved _) w = exit exits 1 w (resolve_and_send exits c w)

-- `cmdSend` for a query that names no team and no plugin.
unfoldable pub cmd_send : (exits : Bool) → Call → World → World × Ending
unfolding resolve_and_send is_bare
cmd_send exits c w =
    if is_bare c.query
    then send_bare exits c (resolve_target c.query c.config c.sessions c.fleet c.manifest) w
    else resolve_and_send exits c w
