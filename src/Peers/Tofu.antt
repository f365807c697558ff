-- ===== src/Peers/Tofu.antt =====
-- lib/peers/tofu.ts: trust on first use of a peer's key. The messages are left out.
use maw_js.Prelude.{ℕ, Option, none, some, Text, ◌===◌, is_empty, if◌then◌else◌}
use maw_js.Prelude.Dict.{Dict, lookup, insert}
use maw_js.Peers.Store.{Peer, PeersDisk, mutate_peers, read_unlocked, truthy}

pub data TofuDecision : Type 0 where
  tofu_bootstrap : (alias observed : Text) → TofuDecision
  legacy_first_contact : (alias : Text) → TofuDecision
  legacy_after_pinned : (alias cached : Text) → TofuDecision
  match : (alias cached observed : Text) → TofuDecision
  mismatch : (alias cached observed : Text) → TofuDecision

-- `peer?.pubkey`
abbrev pub cached_key : Option Peer → Option Text
cached_key none = none
cached_key (some peer) = peer.pubkey

-- A key that is absent or empty counts as none.
abbrev pub key_of : Option Text → Option Text
key_of none = none
key_of (some k) = if is_empty k then none else some k

unfoldable pub evaluate_keys : (alias : Text) → (cached observed : Option Text) → TofuDecision
evaluate_keys alias none (some observed) = tofu_bootstrap alias observed
evaluate_keys alias none none = legacy_first_contact alias
evaluate_keys alias (some cached) none = legacy_after_pinned alias cached
evaluate_keys alias (some cached) (some observed) =
    if cached === observed then match alias cached observed else mismatch alias cached observed

unfoldable pub evaluate_peer_identity :
    (alias : Text) → Option Peer → (observed : Option Text) → TofuDecision
unfolding evaluate_keys
evaluate_peer_identity alias peer observed =
    evaluate_keys alias (key_of (cached_key peer)) (key_of observed)

abbrev pub stamp_key : (observed : Text) → (now : ℕ) → Peer → Peer
stamp_key observed now p =
    if truthy p.pubkey then p else record p { pubkey = some observed; pubkey_first_seen = some now }

-- Changes the peer under `alias`, if there is one.
unfoldable pub update_peer : (alias : Text) → (Peer → Peer) → Dict Peer → Dict Peer
update_peer alias f peers = elim (lookup alias peers) [
  | none ↦ peers
  | some p ↦ insert alias (f p) peers
]

-- `PeerPubkeyMismatchError`
pub data Applied : Type 0 where
  applied : Applied
  thrown : (alias cached observed : Text) → Applied

unfoldable pub apply_tofu_decision : TofuDecision → (now : ℕ) → PeersDisk → PeersDisk × Applied
unfolding mutate_peers update_peer
apply_tofu_decision (tofu_bootstrap alias observed) now d =
    (mutate_peers (update_peer alias (stamp_key observed now)) d, applied)
apply_tofu_decision (mismatch alias cached observed) now d = (d, thrown alias cached observed)
apply_tofu_decision (match _ _ _) now d = (d, applied)
apply_tofu_decision (legacy_first_contact _) now d = (d, applied)
apply_tofu_decision (legacy_after_pinned _ _) now d = (d, applied)

-- The decision is returned where nothing is thrown.
unfoldable pub tofu_record_peer_identity :
    (alias : Text)
    → Option Peer
    → (observed : Option Text) → (now : ℕ) → PeersDisk
    → PeersDisk × Applied
unfolding evaluate_peer_identity apply_tofu_decision
tofu_record_peer_identity alias peer observed now d =
    apply_tofu_decision (evaluate_peer_identity alias peer observed) now d

pub data ForgetOutcome : Type 0 where
  cleared no_pubkey not_found : ForgetOutcome

abbrev pub forget_outcome : Option Peer → ForgetOutcome
forget_outcome none = not_found
forget_outcome (some p) = elim p.pubkey [ none ↦ no_pubkey | some _ ↦ cleared ]

abbrev pub clear_key : Peer → Peer
clear_key p = elim p.pubkey [
  | none ↦ p
  | some _ ↦ record p { pubkey = none; pubkey_first_seen = none }
]

unfoldable pub forget_peer_pubkey : (alias : Text) → PeersDisk → PeersDisk × ForgetOutcome
unfolding mutate_peers read_unlocked update_peer
forget_peer_pubkey alias d =
    (mutate_peers (update_peer alias clear_key) d, forget_outcome (lookup alias (read_unlocked d)))
