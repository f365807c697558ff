-- ===== src/Peers/Pinning.antt =====
-- lib/peers: a pinned key stays until the operator forgets or removes the peer.
use maw_js.Prelude.{
  ℕ, ◌≡◌, Bool, true, false, not, Option, some, List, [], ◌∷◌, Text, ◌===◌, ===_iff, all, arith,
  Option-cases, Bool-cases, inl, inr,
}
use maw_js.Prelude.Dict.{lookup, insert, lookup-insert, lookup-erase}
use maw_js.Peers.Store.{Peer, PeersDisk, load_peers, mutate_peers, read_unlocked}
use maw_js.Peers.Tofu.{
  TofuDecision, tofu_bootstrap, legacy_first_contact, legacy_after_pinned, match, mismatch, key_of,
  cached_key, evaluate_peer_identity, update_peer, tofu_record_peer_identity, forget_peer_pubkey,
  clear_key,
}
use maw_js.Peers.Commands.{
  AddOptions, Probe, new_peer, commit_add, after_decision, decide_add, start_add, finish_add,
  cmd_add, handshake_mismatch, is_valid_alias, refresh, after_probe, cmd_probe, cmd_remove,
  cmd_forget,
}
use maw_js.Peers.Pins.{pinned, load_peers_read, load_peers_kept, pin-update, apply_kept}

-- What can happen to the store; `observe` is a key seen from the peer that the store has.
pub data PeerOp : Type 0 where
  add : AddOptions → (protocol : Option Text) → Probe → (now : ℕ) → PeerOp
  probe : (alias : Text) → Probe → (now : ℕ) → PeerOp
  observe : (alias : Text) → (observed : Option Text) → (now : ℕ) → PeerOp
  forget remove : (alias : Text) → PeerOp

unfoldable pub run_op : PeerOp → PeersDisk → PeersDisk
run_op (add opts protocol p now) d = (cmd_add opts protocol p now d).0
run_op (probe alias p now) d = (cmd_probe alias p now d).0
run_op (observe alias observed now) d =
    let loaded = load_peers d in
    (tofu_record_peer_identity alias (lookup alias loaded.0) observed now loaded.1).0
run_op (forget alias) d = (cmd_forget alias d).0
run_op (remove alias) d = (cmd_remove alias d).0

unfoldable pub run_ops : List PeerOp → PeersDisk → PeersDisk
unfolding run_op
run_ops [] d = d
run_ops (op ∷ ops) d = run_ops ops (run_op op d)

-- The operation is not the operator's forgetting or removing of `alias`.
abbrev pub spares : Text → PeerOp → Bool
spares alias (forget a) = not (a === alias)
spares alias (remove a) = not (a === alias)
spares alias _ = true

new_peer_kept :
    (k : Text) (opts : AddOptions) (p : Probe) (existing : Option Peer) (decision : TofuDecision)
    (now : ℕ)
    → key_of (cached_key existing) ≡ some k
    → key_of (new_peer opts p existing decision now).pubkey ≡ some k
unfolding new_peer
new_peer_kept k opts p existing decision now h = elim (Option-cases (cached_key existing)) [
  | inl e ↦ ground (arith, e)
  | inr (x, e) ↦ ground (arith, e)
]

commit_add_kept :
    (alias k : Text) (opts : AddOptions) (p : Probe) (existing : Option Peer)
    (decision : TofuDecision) (now : ℕ) (d : PeersDisk)
    → (opts.alias ≡ alias → key_of (cached_key existing) ≡ some k)
    → pinned alias d ≡ some k
    → pinned alias (commit_add opts p existing decision now d).0 ≡ some k
unfolding commit_add mutate_peers read_unlocked
commit_add_kept alias k opts p existing decision now d same h =
    let peer = new_peer opts p existing decision now in
    let written = mutate_peers (insert opts.alias peer) d in
    apply_kept alias k decision now written (elim (Bool-cases (opts.alias === alias)) [
      | inl e ↦
          let eq = (===_iff opts.alias alias).0 e in
          ground (
            arith,
            e,
            lookup-insert opts.alias alias peer (read_unlocked d),
            new_peer_kept k opts p existing decision now (same eq),
          )
      | inr e ↦ ground (arith, e, lookup-insert opts.alias alias peer (read_unlocked d))
    ])

after_decision_kept :
    (alias k : Text) (opts : AddOptions) (p : Probe) (existing : Option Peer)
    (decision : TofuDecision) (now : ℕ) (d : PeersDisk)
    → (opts.alias ≡ alias → key_of (cached_key existing) ≡ some k)
    → pinned alias d ≡ some k
    → pinned alias (after_decision opts p existing decision now d).0 ≡ some k
unfolding after_decision
after_decision_kept alias k opts p existing (mismatch _ _ _) now d same h = h
after_decision_kept alias k opts p existing (tofu_bootstrap a o) now d same h =
    commit_add_kept alias k opts p existing (tofu_bootstrap a o) now d same h
after_decision_kept alias k opts p existing (match a c o) now d same h =
    commit_add_kept alias k opts p existing (match a c o) now d same h
after_decision_kept alias k opts p existing (legacy_first_contact a) now d same h =
    commit_add_kept alias k opts p existing (legacy_first_contact a) now d same h
after_decision_kept alias k opts p existing (legacy_after_pinned a c) now d same h =
    commit_add_kept alias k opts p existing (legacy_after_pinned a c) now d same h

cmd_add_kept :
    (alias k : Text) (opts : AddOptions) (protocol : Option Text) (p : Probe) (now : ℕ)
    (d : PeersDisk)
    → pinned alias d ≡ some k
    → pinned alias (cmd_add opts protocol p now d).0 ≡ some k
unfolding cmd_add start_add finish_add
cmd_add_kept alias k opts protocol p now d h =
    let loaded = load_peers d in
    let existing = lookup opts.alias loaded.0 in
    let kept = load_peers_kept alias k d h in
    let same : opts.alias ≡ alias → key_of (cached_key existing) ≡ some k =
      λ e. rw (load_peers_read d, e) h in
    let after =
      after_decision_kept alias k opts p existing (decide_add opts p existing) now loaded.1 same
        kept in
    elim (Option-cases (handshake_mismatch opts.pubkey p.pubkey)) [
      | inl e ↦ ground (arith, e, h, kept, after)
      | inr (x, e) ↦ ground (arith, e, h, kept, after)
    ]

refresh_key : (p : Probe) (now : ℕ) (peer : Peer) → (refresh p now peer).pubkey ≡ peer.pubkey
unfolding refresh
refresh_key p now peer = elim (Option-cases p.error) [
  | inl e ↦ ground (arith, e)
  | inr (x, e) ↦ ground (arith, e)
]

refreshed_kept :
    (alias k a : Text) (p : Probe) (now : ℕ) (d : PeersDisk)
    → pinned alias d ≡ some k
    → pinned alias (mutate_peers (update_peer a (refresh p now)) d) ≡ some k
unfolding mutate_peers read_unlocked
refreshed_kept alias k a p now d h =
    pin-update alias k a (refresh p now) (read_unlocked d)
      (λ _ peer e. rw (refresh_key p now peer) e) h

after_probe_kept :
    (alias k a : Text) (p : Probe) (decision : TofuDecision) (now : ℕ) (d : PeersDisk)
    → pinned alias d ≡ some k
    → pinned alias (after_probe a p decision now d).0 ≡ some k
unfolding after_probe
after_probe_kept alias k a p (mismatch _ _ _) now d h = h
after_probe_kept alias k a p decision now d h =
    apply_kept alias k decision now (mutate_peers (update_peer a (refresh p now)) d)
      (refreshed_kept alias k a p now d h)

cmd_probe_kept :
    (alias k a : Text) (p : Probe) (now : ℕ) (d : PeersDisk)
    → pinned alias d ≡ some k
    → pinned alias (cmd_probe a p now d).0 ≡ some k
unfolding cmd_probe
cmd_probe_kept alias k a p now d h =
    let kept = load_peers_kept alias k d h in
    elim (Option-cases (lookup a (load_peers d).0)) [
      | inl e ↦ ground (arith, e, kept)
      | inr (peer, e) ↦
          let decision = evaluate_peer_identity a (some peer) p.pubkey in
          ground (arith, e, after_probe_kept alias k a p decision now (load_peers d).1 kept)
    ]

cmd_remove_kept :
    (alias k a : Text) (d : PeersDisk)
    → (a === alias) ≡ false
    → pinned alias d ≡ some k
    → pinned alias (cmd_remove a d).0 ≡ some k
unfolding cmd_remove mutate_peers read_unlocked
cmd_remove_kept alias k a d ne h = ground (arith, ne, lookup-erase a alias (read_unlocked d))

cmd_forget_kept :
    (alias k a : Text) (d : PeersDisk)
    → (a === alias) ≡ false
    → pinned alias d ≡ some k
    → pinned alias (cmd_forget a d).0 ≡ some k
unfolding cmd_forget forget_peer_pubkey mutate_peers read_unlocked
cmd_forget_kept alias k a d ne h =
    let after =
      pin-update alias k a clear_key (read_unlocked d)
        (λ e. absurd (cc (ne, (===_iff a alias).1 e))) h in
    elim (Bool-cases (is_valid_alias a)) [
      | inl e ↦ ground (arith, e, after)
      | inr e ↦ ground (arith, e, h)
    ]

run_op_kept :
    (alias k : Text) (op : PeerOp) (d : PeersDisk)
    → spares alias op ≡ true
    → pinned alias d ≡ some k
    → pinned alias (run_op op d) ≡ some k
unfolding run_op tofu_record_peer_identity
run_op_kept alias k (add opts protocol p now) d s h = cmd_add_kept alias k opts protocol p now d h
run_op_kept alias k (probe a p now) d s h = cmd_probe_kept alias k a p now d h
run_op_kept alias k (observe a observed now) d s h =
    let loaded = load_peers d in
    apply_kept alias k (evaluate_peer_identity a (lookup a loaded.0) observed) now loaded.1
      (load_peers_kept alias k d h)
run_op_kept alias k (forget a) d s h = cmd_forget_kept alias k a d (ground arith) h
run_op_kept alias k (remove a) d s h = cmd_remove_kept alias k a d (ground arith) h

-- While an alias has a key, no sequence of adding, probing and observing any peers, with any keys, and of
-- forgetting and removing other aliases, each run to its end, changes the key that is held for it.
pub pin_is_kept :
    (alias k : Text) (ops : List PeerOp) (d : PeersDisk)
    → all (spares alias) ops ≡ true
    → pinned alias d ≡ some k
    → pinned alias (run_ops ops d) ≡ some k
unfolding run_ops
pin_is_kept alias k [] d s h = h
pin_is_kept alias k (op ∷ ops) d s h =
    pin_is_kept alias k ops (run_op op d) (ground arith) (run_op_kept alias k op d (ground arith) h)
