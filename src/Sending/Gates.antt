-- ===== src/Sending/Gates.antt =====
-- commands/shared/comm-send.ts: what a message to a peer has passed when it leaves.
use maw_js.Prelude.{
  ◌≡◌, ◌⊎◌, inl, inr, refl, ap, ◌∙◌, Bool, true, false, ◌&&◌, List, [], ◌∷◌, ◌++◌, Text, is_empty,
  arith, Bool-cases,
}
use maw_js.Disk.{Disk, hey}
use maw_js.Consent.Store.{is_trusted}
use maw_js.Consent.Initiator.{Send, gate_iff}
use maw_js.Consent.Gate.{peer, GateDecision, deny, maybe_gate_consent}
use maw_js.Acl.{Scope, load_all_scopes, evaluate_acl_from_disk, AclDecision, allow, queue}
use maw_js.Routing.{self_name}
use maw_js.Sending.{
  Call, posted, World, Ending, sender_oracle, has_scopes, is_queue, acl_queues, queue_message,
  trust_target, deliver, after_consent, consent_step, send_resolved,
}

-- Why the access list lets a message to a peer go: the operator's word, no scopes, its decision, or an error in reading
-- the list or in queueing the message.
abbrev pub AclPermits : Call → (target : Text) → Disk → Type 0
AclPermits c target d =
    (c.approve ≡ true)
    ⊎ (c.acl_bypass ≡ true)
    ⊎ (load_all_scopes c.before c.scopes ≡ [])
    ⊎ (evaluate_acl_from_disk c.before (sender_oracle c) target c.scopes d ≡ allow)
    ⊎ (c.acl_reads ≡ false)
    ⊎ (c.queue_saves ≡ false)

-- Why the consent gate does: it is off, the peer has no node's name, or the node is trusted.
abbrev pub ConsentPermits : Call → (node : Text) → Disk → Type 0
ConsentPermits c node d =
    (c.consent_on ≡ false)
    ⊎ (is_empty node ≡ true)
    ⊎ (is_trusted d (self_name c.config) node hey ≡ true)

acl_permits :
    (c : Call) (target : Text) (d : Disk) → acl_queues c target d ≡ false → AclPermits c target d
unfolding acl_queues
acl_permits c target d h = elim (Bool-cases c.approve) [
  | inl a ↦ inl a
  | inr a ↦ elim (Bool-cases c.acl_bypass) [
    | inl b ↦ inr (inl b)
    | inr b ↦ inr (
        inr (
          by_cases (load_all_scopes c.before c.scopes)
            (evaluate_acl_from_disk c.before (sender_oracle c) target c.scopes d) c.acl_reads
            c.queue_saves (ground (arith, a, b, h))))
  ]
]
  where
    by_cases :
        (scopes : List Scope) (decision : AclDecision) (reads saves : Bool)
        → (reads && has_scopes scopes && is_queue decision && saves) ≡ false
        → (scopes ≡ []) ⊎ (decision ≡ allow) ⊎ (reads ≡ false) ⊎ (saves ≡ false)
    by_cases [] decision reads saves h = inl refl
    by_cases (_ ∷ _) allow reads saves h = inr (inl refl)
    by_cases (_ ∷ _) queue false saves h = inr (inr (inl refl))
    by_cases (_ ∷ _) queue true false h = inr (inr (inr refl))
    by_cases (_ ∷ _) queue true true h = cc

deliver_peer :
    (c : Call) (url target node : Text) (w : World)
    → (deliver true c (peer url target node) w).0.sent ≡ w.sent ++ (posted url target ∷ [])
unfolding deliver
deliver_peer c url target node w = ground arith

-- What a call sends: nothing, or the one message, where both gates permit it.
abbrev pub Gated : Call → (url target node : Text) → World → World × Ending → Type 0
Gated c url target node w r =
    (r.0.sent ≡ w.sent)
    ⊎ ((r.0.sent ≡ w.sent ++ (posted url target ∷ []))
        × AclPermits c target w.disk
        × ConsentPermits c node (trust_target c target w).disk)

-- What the gate's decision is about.
abbrev pub send_of : Call → (url target : Text) → Send
send_of c url target = record {
  query = c.query;
  message = c.message;
  peer_url = url;
  agent = target;
  post = c.consent_post;
  id = c.consent_id;
  bytes = c.bytes;
  now = c.now;
}

-- Neither the trusting of a target nor the gate sends anything.
pub trust_target-sent :
    (c : Call) (target : Text) (w : World) → (trust_target c target w).sent ≡ w.sent
unfolding trust_target
trust_target-sent c target w = ground arith

after_consent_lem :
    (c : Call) (url target node : Text) (w : World) (d : Disk) (decision : GateDecision)
    → let r = after_consent true c (peer url target node) w (d, decision) in
      ((decision ≡ GateDecision.allow) × (r.0.sent ≡ w.sent ++ (posted url target ∷ [])))
      ⊎ (r.0.sent ≡ w.sent)
after_consent_lem c url target node w d GateDecision.allow =
    inl (refl, deliver_peer c url target node (record w { disk = d }))
after_consent_lem c url target node w d (deny code result) = inr refl

consent_step_lem :
    (c : Call) (url target node : Text) (w : World)
    → let r = consent_step true c (peer url target node) w in
      (r.0.sent ≡ w.sent)
      ⊎ ((r.0.sent ≡ w.sent ++ (posted url target ∷ [])) × ConsentPermits c node w.disk)
unfolding consent_step
consent_step_lem c url target node w =
    let my_node = self_name c.config in
    let r = peer url target node in
    let s = send_of c url target in
    let gate =
      maybe_gate_consent c.sha256 c.consent_post my_node c.query c.message r c.consent_id c.bytes
        c.now w.disk in
    let decides = (gate_iff c.sha256 s my_node r w.disk).0 in
    elim (Bool-cases c.consent_on) [
      | inl on ↦ elim (after_consent_lem c url target node w gate.0 gate.1) [
        | inl (passed, sent) ↦ inr (rw (on, consent_step) sent, inr (decides.0 passed))
        | inr same ↦ inl (rw (on, consent_step) same)
      ]
      | inr off ↦ inr (rw (off, consent_step) (deliver_peer c url target node w), inl off)
    ]

-- Where the process can exit, a message that is resolved to a peer either does not leave, or leaves once, to that
-- peer and target, and only if the access list permits it (the operator approves it or bypasses the list, or no
-- scopes are defined, or they or the trust list allow it, or they cannot be read, or the message cannot be queued) and
-- the consent gate does (it is off, the peer has no
-- node's name, or this node's disk trusts the node).
pub send_resolved-Gated :
    (c : Call) (url target node : Text) (w : World)
    → Gated c url target node w (send_resolved true c (peer url target node) w)
unfolding send_resolved queue_message
send_resolved-Gated c url target node w = elim (Bool-cases (acl_queues c target w.disk)) [
  | inl held ↦ inl (rw (held, send_resolved) refl)
  | inr free ↦
      let w' = trust_target c target w in
      let same = trust_target-sent c target w in
      elim (consent_step_lem c url target node w') [
        | inl unsent ↦ inl (rw (free, send_resolved) (unsent ∙ same))
        | inr (sent, permits) ↦ inr (
          rw (free, send_resolved) (sent ∙ ap (λ l. l ++ (posted url target ∷ [])) same),
          acl_permits c target w.disk free,
          permits,
        )
      ]
]
