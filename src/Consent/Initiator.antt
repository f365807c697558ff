-- ===== src/Consent/Initiator.antt =====
-- core/consent/gate.ts: what the initiator's own disk decides over many sends.
use maw_js.Prelude.{
  ℕ, ◌≡◌, ◌≢◌, ◌↔◌, ◌∙◌, refl, true, false, List, [], ◌∷◌, Text, is_empty, All, Bool-cases, inl,
  inr, ◌⊎◌,
}
use maw_js.Disk.{ConsentAction, hey, PendingRequest, Disk}
use maw_js.Consent.Store.{is_trusted, write_pending, load_trust}
use maw_js.Consent.Request.{
  ConsentRequest, PostOutcome, ConsentResult, requested, peer_rejected, peer_unreachable,
  request_consent,
}
use maw_js.Consent.Gate.{
  Resolved, unresolved, local, peer, self_node, error, GateDecision, allow, gate_reply,
  gate_request, summarize, maybe_gate_consent,
}

-- One send: the arguments of the gate, the answer of the network, and the random values.
pub record Send : Type 0 where
  pub query : Text
  pub message : Text
  pub peer_url : Text
  pub agent : Text
  pub post : Text → PendingRequest → PostOutcome
  pub id : Text
  pub bytes : List ℕ
  pub now : ℕ

gate_reply-ne-allow : (r : ConsentResult) → gate_reply r ≢ allow
gate_reply-ne-allow (requested id pin when) = cc
gate_reply-ne-allow (peer_rejected id s) = cc
gate_reply-ne-allow (peer_unreachable id) = cc

is_trusted-write_pending :
    (req : PendingRequest) (d : Disk) (f t : Text) (a : ConsentAction)
    → is_trusted (write_pending req d) f t a ≡ is_trusted d f t a
unfolding is_trusted write_pending load_trust
is_trusted-write_pending req d f t a = refl

-- What the gate asks of a resolved target.
abbrev pub Passes : Disk → (my_node : Text) → Resolved → Type 0
Passes d my_node (peer url target node) =
    (is_empty node ≡ true) ⊎ (is_trusted d my_node node hey ≡ true)
Passes d my_node _ = Unit

module _ (sha256 : Text → Text) where
  gate_request-denies :
      (post : Text → PendingRequest → PostOutcome) (req : ConsentRequest) (url id : Text)
      (bytes : List ℕ) (now : ℕ) (d : Disk)
      → ((gate_request sha256 post req url id bytes now d).1 ≢ allow)
        × ((f t : Text) (a : ConsentAction)
            → is_trusted (gate_request sha256 post req url id bytes now d).0 f t a
              ≡ is_trusted d f t a)
  unfolding gate_request request_consent
  gate_request-denies post req url id bytes now d =
      (gate_reply-ne-allow _, λ f t a. is_trusted-write_pending _ d f t a)

  -- The gate lets a send to a peer through exactly if the peer is trusted on the initiator's disk,
  -- or its node is unknown; every other resolution passes. A send that passes writes nothing.
  pub gate_iff :
      (s : Send) (my_node : Text) (r : Resolved) (d : Disk)
      → let (d', decision) =
          maybe_gate_consent sha256 s.post my_node s.query s.message r s.id s.bytes s.now d in
        ((decision ≡ allow) ↔ Passes d my_node r) × (decision ≡ allow → d' ≡ d)
  unfolding maybe_gate_consent
  gate_iff s my_node (peer url target node) d =
      let (denied, _) =
        gate_request-denies s.post
          (record {
            from = my_node;
            to = node;
            action = hey;
            summary = summarize s.query s.message;
          })
          url s.id s.bytes s.now d in
      elim (Bool-cases (is_empty node)) [
        | inl unknown ↦ rw unknown ((λ _. inl refl, λ _. refl), λ _. refl)
        | inr known ↦ elim (Bool-cases (is_trusted d my_node node hey)) [
          | inl trusted ↦ rw (known, trusted) ((λ _. inr refl, λ _. refl), λ _. refl)
          | inr untrusted ↦
              rw (known, untrusted)
                ((λ e. absurd (denied e), elim [ inl e ↦ cc | inr e ↦ cc ]), λ e. absurd (denied e))
        ]
      ]
  gate_iff s my_node unresolved d = ((λ _. tt, λ _. refl), λ _. refl)
  gate_iff s my_node (local _) d = ((λ _. tt, λ _. refl), λ _. refl)
  gate_iff s my_node (self_node _) d = ((λ _. tt, λ _. refl), λ _. refl)
  gate_iff s my_node (error _) d = ((λ _. tt, λ _. refl), λ _. refl)

  -- The decisions of sends to one peer, one after the other, on the initiator's disk.
  unfoldable pub run_sends : (my_node node : Text) → List Send → Disk → List GateDecision
  run_sends my_node node [] d = []
  run_sends my_node node (s ∷ rest) d =
      let (d', decision) =
        maybe_gate_consent sha256 s.post my_node s.query s.message (peer s.peer_url s.agent node)
          s.id s.bytes s.now d in
      decision ∷ run_sends my_node node rest d'

  -- A send never makes a later one pass: whatever the peer answers and approves, every send to an
  -- untrusted peer is denied, since the gate reads the initiator's own trust file and nothing that
  -- the gate does writes to it.
  pub gate_never_learns :
      (my_node node : Text) (sends : List Send) (d : Disk)
      → is_empty node ≡ false
      → is_trusted d my_node node hey ≡ false
      → All (λ decision. decision ≢ allow) (run_sends my_node node sends d)
  unfolding run_sends maybe_gate_consent
  gate_never_learns my_node node [] d h untrusted = tt
  gate_never_learns my_node node (s ∷ rest) d h untrusted =
      rw (h, untrusted)
        (let (denied, kept) = gate_request-denies s.post _ s.peer_url s.id s.bytes s.now d in
          (denied, gate_never_learns my_node node rest _ h (kept my_node node hey ∙ untrusted)))
