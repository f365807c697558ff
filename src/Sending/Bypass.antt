-- ===== src/Sending/Bypass.antt =====
-- commands/shared/comm-send.ts: what leaves the node although the consent gate denies it or is not asked.
use maw_js.Prelude.{
  ◌≡◌, ◌≢◌, inl, inr, refl, ap, ◌∙◌, Bool, true, false, some, [], ◌∷◌, ◌++◌, Text, is_empty,
  Bool-cases,
}
use maw_js.Disk.{Disk, hey}
use maw_js.Consent.Store.{is_trusted}
use maw_js.Consent.Initiator.{Passes, gate_iff}
use maw_js.Consent.Gate.{Resolved, peer, error, GateDecision, deny, maybe_gate_consent}
use maw_js.Routing.{self_name, non_empty_text}
use maw_js.Sending.{
  Call, posted, World, Ending, returned, with_sent, acl_queues, trust_target, discover, deliver,
  after_consent, consent_step, send_resolved,
}
use maw_js.Sending.Gates.{send_of, trust_target-sent}

deliver_on_ok :
    (exits : Bool) (c : Call) (url target node : Text) (w : World)
    → c.peer_ok url target ≡ true
    → deliver exits c (peer url target node) w ≡ (with_sent (posted url target) w, returned)
unfolding deliver
deliver_on_ok exits c url target node w ok = rw ok refl

-- What a fan-out's call makes of a message: it is posted to the peer, and yet a failure is noted.
abbrev pub PostedAsFailed : (url target : Text) → World → World × Ending → Type 0
PostedAsFailed url target w x =
    (x.0.sent ≡ w.sent ++ (posted url target ∷ [])) × (x.1 ≡ returned) × (x.0.exit_called ≡ true)

-- Where the process cannot exit, a denial and a permission end in the same delivery.
after_denial_goes_on :
    (c : Call) (url target node : Text) (w : World) (d : Disk) (decision : GateDecision)
    → c.peer_ok url target ≡ true
    → decision ≢ GateDecision.allow
    → PostedAsFailed url target w (after_consent false c (peer url target node) w (d, decision))
after_denial_goes_on c url target node w d GateDecision.allow ok denied = absurd (denied refl)
after_denial_goes_on c url target node w d (deny code result) ok denied =
    let sent = deliver_on_ok false c url target node (record w { disk = d }) ok in
    (ap (λ x. x.0.sent) sent, ap (λ x. x.1) sent, refl)

after_denial :
    (c : Call) (r : Resolved) (w : World) (d : Disk) (decision : GateDecision)
    → decision ≢ GateDecision.allow
    → (after_consent true c r w (d, decision)).0.sent ≡ w.sent
after_denial c r w d GateDecision.allow denied = absurd (denied refl)
after_denial c r w d (deny code result) denied = refl

consent_step_bypass :
    (c : Call) (url target node : Text) (w : World)
    → c.consent_on ≡ true
    → is_empty node ≡ false
    → is_trusted w.disk (self_name c.config) node hey ≡ false
    → c.peer_ok url target ≡ true
    → let run = λ (exits : Bool). consent_step exits c (peer url target node) w in
      ((run true).0.sent ≡ w.sent) × PostedAsFailed url target w (run false)
unfolding consent_step
consent_step_bypass c url target node w on named untrusted ok =
    let my_node = self_name c.config in
    let r = peer url target node in
    let s = send_of c url target in
    let gate =
      maybe_gate_consent c.sha256 c.consent_post my_node c.query c.message r c.consent_id c.bytes
        c.now w.disk in
    let denied : gate.1 ≢ GateDecision.allow =
      λ passed. not_passed ((gate_iff c.sha256 s my_node r w.disk).0.0 passed) in
    let (sent, back, noted) = after_denial_goes_on c url target node w gate.0 gate.1 ok denied in
    (
      rw (on, consent_step) (after_denial c r w gate.0 gate.1 denied),
      (rw (on, consent_step) sent, rw (on, consent_step) back, rw (on, consent_step) noted),
    )
  where
    not_passed : Passes w.disk (self_name c.config) (peer url target node) → ⊥
    not_passed (inl unnamed) = cc
    not_passed (inr trusted) = cc

-- For a message to a peer that the access list does not hold, with the consent gate on and a named node that this
-- node's disk does not trust (after a trust entry that the call itself asks for): where the process can exit
-- nothing leaves, and where it cannot, in a fan-out to a team, the message is posted to the peer. If the peer takes
-- it, the call returns, and the fan-out counts the member as failed.
pub fan_out_ignores_denial :
    (c : Call) (url target node : Text) (w : World)
    → acl_queues c target w.disk ≡ false
    → c.consent_on ≡ true
    → is_empty node ≡ false
    → is_trusted (trust_target c target w).disk (self_name c.config) node hey ≡ false
    → c.peer_ok url target ≡ true
    → let run = λ (exits : Bool). send_resolved exits c (peer url target node) w in
      ((run true).0.sent ≡ w.sent) × PostedAsFailed url target w (run false)
unfolding send_resolved
fan_out_ignores_denial c url target node w free on named untrusted ok =
    let same = trust_target-sent c target w in
    let (held, (sent, back, noted)) =
      consent_step_bypass c url target node (trust_target c target w) on named untrusted ok in
    (
      rw (free, send_resolved) (held ∙ same),
      (
        rw (free, send_resolved) (sent ∙ ap (λ l. l ++ (posted url target ∷ [])) same),
        rw (free, send_resolved) back,
        rw (free, send_resolved) noted,
      ),
    )

discover_found :
    (exits : Bool) (c : Call) (url : Text) (w : World)
    → non_empty_text c.discovered ≡ some url
    → c.peer_ok url c.query ≡ true
    → discover exits c w ≡ (with_sent (posted url c.query) w, returned)
unfolding discover
discover_found exits c url w found ok = rw (found, discover) (rw ok refl)

-- A message whose target does not resolve, and which the scan of the peers finds at a peer that takes it, is posted
-- there whatever the consent gate and the access list say of that peer; the disk and the queue stay as they were.
pub discovery_is_ungated :
    (c : Call) (reason url : Text) (w : World)
    → non_empty_text c.discovered ≡ some url
    → c.peer_ok url c.query ≡ true
    → send_resolved true c (error reason) w ≡ (with_sent (posted url c.query) w, returned)
unfolding send_resolved consent_step deliver maybe_gate_consent
discovery_is_ungated c reason url w found ok = elim (Bool-cases c.consent_on) [
  | inl on ↦ simp (on) (discover_found true c url w found ok)
  | inr off ↦ simp (off) (discover_found true c url w found ok)
]
