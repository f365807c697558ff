-- ===== src/Sending/Whole.antt =====
-- commands/shared/comm-send.ts: all that a call of `cmdSend` can let out, where the process can exit.
use maw_js.Prelude.{
  ◌≡◌, ◌⊎◌, inl, inr, refl, sym, subst, ◌∙◌, Bool, true, false, Option, none, some, List, [], ◌∷◌,
  ◌++◌, append-nil, append_assoc, Text, arith, Bool-cases, if◌then◌else◌,
}
use maw_js.Consent.Gate.{
  Resolved, unresolved, local, peer, self_node, error, GateDecision, maybe_gate_consent,
}
use maw_js.Windows.{Session}
use maw_js.Routing.{Outcome, resolved, ambiguous, resolve_target, self_name, non_empty_text}
use maw_js.Waking.{WakePlan, stay, wake_here, wake_there, wake_plan}
use maw_js.Sending.{
  Call, Delivery, typed, posted, woke, World, Ending, exited, thrown, with_sent, trust_target,
  queue_or_fail, discover, type_keys, deliver_local, deliver, consent_step, send_resolved,
  send_outcome, send_among, after_plan, resolve_and_send, is_bare, send_bare, cmd_send,
}
use maw_js.Sending.Gates.{AclPermits, ConsentPermits, send_resolved-Gated}

-- What the query is resolved among: the sessions before a wake-up on this node, or those after it.
abbrev pub AreListed : Call → List Session → Type 0
AreListed c sessions = (sessions ≡ c.sessions) ⊎ (sessions ≡ c.woken_sessions)

-- What entitles a delivery to leave: keys are for the pane of a target of this node that the query was resolved to, and
-- a message to a peer was resolved to it and passed both gates, or the discovery found the peer.
abbrev pub IsEntitled : Call → World → Delivery → Type 0
IsEntitled c w (typed pane) =
    (target : Text) × (sessions : List Session) × AreListed c sessions
    × (let o = resolve_target c.query c.config sessions c.fleet c.manifest in
        (o ≡ resolved (local target)) ⊎ (o ≡ resolved (self_node target)))
    × (pane ≡ c.pane target)
IsEntitled c w (posted url target) =
    ((node : Text) × (sessions : List Session) × AreListed c sessions
      × (resolve_target c.query c.config sessions c.fleet c.manifest
          ≡ resolved (peer url target node))
      × AclPermits c target w.disk
      × ConsentPermits c node (trust_target c target w).disk)
    ⊎ ((non_empty_text c.discovered ≡ some url) × (target ≡ c.query))
IsEntitled c w (woke url agent) = ⊥

-- At most one message.
abbrev pub Message : Call → World → List Delivery → Type 0
Message c w [] = Unit
Message c w (d ∷ []) = IsEntitled c w d
Message c w (_ ∷ _ ∷ _) = ⊥

abbrev pub Sends : Call → World → World × Ending → Type 0
Sends c w x = (new : List Delivery) × (x.0.sent ≡ w.sent ++ new) × Message c w new

-- The planned request to a peer to wake its agent, and then at most one message.
abbrev pub WakesAndSends : Call → World → World × Ending → Type 0
WakesAndSends c w x =
    (url : Text) × (agent : Text) × (new : List Delivery) × (wake_plan c.query c.config c.sessions
        c.oracles
      ≡ wake_there url agent)
    × (x.0.sent ≡ w.sent ++ (woke url agent ∷ new))
    × Message c w new

unsent-Sends : (c : Call) (w : World) (x : World × Ending) → x.0.sent ≡ w.sent → Sends c w x
unsent-Sends c w x same = ([], same ∙ sym (append-nil w.sent), tt)

type_keys-Sends :
    (c : Call) (target : Text) (w : World)
    → IsEntitled c w (typed (c.pane target))
    → Sends c w (type_keys c (c.pane target) w)
unfolding type_keys
type_keys-Sends c target w entitled = (typed (c.pane target) ∷ [], ground arith, entitled)

deliver_local-Sends :
    (c : Call) (target : Text) (w : World)
    → IsEntitled c w (typed (c.pane target))
    → Sends c w (deliver_local true c target w)
unfolding deliver_local
deliver_local-Sends c target w entitled = elim (Bool-cases c.inbox_only) [
  | inl only ↦ unsent-Sends c w (deliver_local true c target w) (ground (arith, only))
  | inr live ↦
      let (new, sent, message) = type_keys-Sends c target w entitled in
      (new, simp (live) sent, message)
]

queue_or_fail-sent : (c : Call) (w : World) → (queue_or_fail true c w).0.sent ≡ w.sent
unfolding queue_or_fail
queue_or_fail-sent c w = ground arith

discover-Sends : (c : Call) (w : World) → Sends c w (discover true c w)
unfolding discover
discover-Sends c w = by_scan (non_empty_text c.discovered) refl
  where
    by_scan :
        (found : Option Text) → non_empty_text c.discovered ≡ found → Sends c w (discover true c w)
    by_scan none e =
        unsent-Sends c w (discover true c w) (rw (e, discover) (queue_or_fail-sent c w))
    by_scan (some url) e = (posted url c.query ∷ [], rw (e, discover) (ground arith), inr (e, refl))

-- A target that is no peer passes the consent gate as it is.
ungated :
    (c : Call) (r : Resolved) (w : World)
    → maybe_gate_consent c.sha256 c.consent_post
        (self_name c.config)
        c.query
        c.message
        r
        c.consent_id
        c.bytes
        c.now
        w.disk
      ≡ (w.disk, GateDecision.allow)
    → Sends c w (deliver true c r w)
    → Sends c w (consent_step true c r w)
unfolding consent_step
ungated c r w passes (new, sent, message) = elim (Bool-cases c.consent_on) [
  | inl on ↦ (new, rw (on, consent_step) (rw passes sent), message)
  | inr off ↦ (new, rw (off, consent_step) sent, message)
]

outcome-Sends :
    (c : Call) (sessions : List Session) (w : World) (o : Outcome)
    → AreListed c sessions
    → resolve_target c.query c.config sessions c.fleet c.manifest ≡ o
    → Sends c w (send_outcome true c o w)
unfolding send_resolved deliver maybe_gate_consent
outcome-Sends c sessions w (ambiguous names) among e = unsent-Sends c w (w, thrown) refl
outcome-Sends c sessions w (resolved (local target)) among e =
    ungated c (local target) w refl
      (deliver_local-Sends c target w (target, sessions, among, inl e, refl))
outcome-Sends c sessions w (resolved (self_node target)) among e =
    ungated c (self_node target) w refl
      (deliver_local-Sends c target w (target, sessions, among, inr e, refl))
outcome-Sends c sessions w (resolved (error reason)) among e =
    ungated c (error reason) w refl (discover-Sends c w)
outcome-Sends c sessions w (resolved unresolved) among e =
    ungated c unresolved w refl (discover-Sends c w)
outcome-Sends c sessions w (resolved (peer url target node)) among e =
    elim (send_resolved-Gated c url target node w) [
      | inl unsent ↦ unsent-Sends c w (send_resolved true c (peer url target node) w) unsent
      | inr (sent, acl, consent) ↦
          (posted url target ∷ [], sent, inl (node, sessions, among, e, acl, consent))
    ]

send_among-Sends :
    (c : Call) (sessions : List Session) (w : World)
    → AreListed c sessions
    → Sends c w (send_among true c sessions w)
send_among-Sends c sessions w among =
    outcome-Sends c sessions w (resolve_target c.query c.config sessions c.fleet c.manifest) among
      refl

trust_target-disk :
    (c : Call) (target : Text) (sent : Delivery) (w : World)
    → (trust_target c target (with_sent sent w)).disk ≡ (trust_target c target w).disk
unfolding trust_target
trust_target-disk c target sent w = ground arith

-- What is entitled after a delivery was so before it.
IsEntitled-with_sent :
    (c : Call) (sent d : Delivery) (w : World)
    → IsEntitled c (with_sent sent w) d
    → IsEntitled c w d
unfolding trust_target
IsEntitled-with_sent c sent (typed pane) w h = h
IsEntitled-with_sent c sent (posted url target) w (inl (node, sessions, among, e, acl, consent)) =
    inl (
      node,
      sessions,
      among,
      e,
      acl,
      subst (ConsentPermits c node) (trust_target-disk c target sent w) consent,
    )
IsEntitled-with_sent c sent (posted url target) w (inr h) = inr h
IsEntitled-with_sent c sent (woke url agent) w h = h

Message-with_sent :
    (c : Call) (sent : Delivery) (w : World) (new : List Delivery)
    → Message c (with_sent sent w) new
    → Message c w new
Message-with_sent c sent w [] h = h
Message-with_sent c sent w (d ∷ []) h = IsEntitled-with_sent c sent d w h
Message-with_sent c sent w (_ ∷ _ ∷ _) h = h

AreListed-if : (c : Call) (ok : Bool) → AreListed c (if ok then c.woken_sessions else c.sessions)
AreListed-if c true = inr refl
AreListed-if c false = inl refl

after_plan-Sends :
    (c : Call) (plan : WakePlan) (w : World)
    → wake_plan c.query c.config c.sessions c.oracles ≡ plan
    → Sends c w (after_plan true c plan w) ⊎ WakesAndSends c w (after_plan true c plan w)
after_plan-Sends c stay w e = inl (send_among-Sends c c.sessions w (inl refl))
after_plan-Sends c (wake_here agent) w e = inl (
    send_among-Sends c (if c.wake_ok then c.woken_sessions else c.sessions) w
      (AreListed-if c c.wake_ok))
after_plan-Sends c (wake_there url agent) w e =
    let w' = with_sent (woke url agent) w in
    let (new, sent, message) = send_among-Sends c c.sessions w' (inl refl) in
    elim (Bool-cases c.wake_ok) [
      | inl ok ↦ inr (
        url,
        agent,
        new,
        e,
        simp (ok) (sent ∙ append_assoc w.sent (woke url agent ∷ []) new),
        Message-with_sent c (woke url agent) w new message,
      )
      | inr refused ↦ inr (url, agent, [], e, simp (refused) refl, tt)
    ]

-- A call that can exit lets out at most one message, after at most one request to a peer to wake its agent. The
-- request is the planned one. The message is keys for the pane of a target of this node that the query was resolved to;
-- or it goes to a peer that the query was resolved to, where the consent gate permits it, and the access list does or
-- fails to be read or to queue the message; or it goes to a peer that the discovery found. The query is resolved among
-- the call's sessions, before or after a wake-up. What it lets out stands behind what was sent before.
pub cmd_send-Sends :
    (c : Call) (w : World) → Sends c w (cmd_send true c w) ⊎ WakesAndSends c w (cmd_send true c w)
unfolding cmd_send resolve_and_send
cmd_send-Sends c w = elim (Bool-cases (is_bare c.query)) [
  | inl bare ↦
      rw (bare, cmd_send)
        (inl (bare_sends (resolve_target c.query c.config c.sessions c.fleet c.manifest) refl))
  | inr named ↦
      rw (named, cmd_send)
        (after_plan-Sends c (wake_plan c.query c.config c.sessions c.oracles) w refl)
]
  where
    bare_sends :
        (o : Outcome)
        → resolve_target c.query c.config c.sessions c.fleet c.manifest ≡ o
        → Sends c w (send_bare true c o w)
    bare_sends (ambiguous names) e = unsent-Sends c w (w, exited 1) refl
    bare_sends (resolved (local t)) e =
        outcome-Sends c c.sessions w (resolved (local t)) (inl refl) e
    bare_sends (resolved (self_node t)) e =
        outcome-Sends c c.sessions w (resolved (self_node t)) (inl refl) e
    bare_sends (resolved (error reason)) e = unsent-Sends c w (w, exited 1) refl
    bare_sends (resolved unresolved) e = unsent-Sends c w (w, exited 1) refl
    bare_sends (resolved (peer url target node)) e = unsent-Sends c w (w, exited 1) refl
