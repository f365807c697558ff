-- ===== src/Peers/Pins.antt =====
-- lib/peers: the key that the store holds for an alias, and what one step of a command does to it.
use maw_js.Prelude.{
  ℕ, ◌≡◌, ◌≢◌, refl, Option, none, some, [], Text, ◌===◌, ===_iff, arith, Option-cases, Bool-cases,
  inl, inr,
}
use maw_js.Prelude.Dict.{Dict, lookup, lookup-insert}
use maw_js.Peers.Store.{
  Peer, PeersDisk, PeersJson, corrupt, store, load_peers, mutate_peers, read_unlocked,
}
use maw_js.Peers.Tofu.{
  TofuDecision, tofu_bootstrap, legacy_first_contact, legacy_after_pinned, match, mismatch, key_of,
  cached_key, apply_tofu_decision, update_peer, stamp_key,
}

-- The key that peers hold for an alias.
abbrev pub pin : Text → Dict Peer → Option Text
pin alias peers = key_of (cached_key (lookup alias peers))

abbrev pub pinned : Text → PeersDisk → Option Text
pinned alias d = pin alias (read_unlocked d)

-- Loading gives what the store holds, and leaves in place a store that pins a key.
load_lem :
    (alias k : Text) (d : PeersDisk) (p l : Option PeersJson)
    → d.primary ≡ p
    → d.legacy ≡ l
    → ((load_peers d).0 ≡ read_unlocked d)
      × (pinned alias d ≡ some k → pinned alias (load_peers d).1 ≡ some k)
unfolding load_peers read_unlocked lookup
load_lem alias k d none none e e' = ground (arith, e, e')
load_lem alias k d none (some corrupt) e e' = ground (arith, e, e')
load_lem alias k d none (some (store s)) e e' = ground (arith, e, e')
load_lem alias k d (some corrupt) l e e' = ground (arith, e, e')
load_lem alias k d (some (store s)) l e e' = ground (arith, e, e')

pub load_peers_read : (d : PeersDisk) → (load_peers d).0 ≡ read_unlocked d
load_peers_read d = (load_lem [] [] d d.primary d.legacy refl refl).0

pub load_peers_kept :
    (alias k : Text) (d : PeersDisk)
    → pinned alias d ≡ some k
    → pinned alias (load_peers d).1 ≡ some k
load_peers_kept alias k d = (load_lem alias k d d.primary d.legacy refl refl).1

load_intact :
    (d : PeersDisk) (p l : Option PeersJson)
    → d.primary ≡ p
    → d.legacy ≡ l
    → p ≢ some corrupt
    → (read_unlocked (load_peers d).1 ≡ read_unlocked d) × ((load_peers d).1.primary ≡ p)
unfolding load_peers read_unlocked lookup
load_intact d none none e e' intact = ground (arith, e, e')
load_intact d none (some corrupt) e e' intact = ground (arith, e, e')
load_intact d none (some (store s)) e e' intact = ground (arith, e, e')
load_intact d (some corrupt) l e e' intact = absurd (intact refl)
load_intact d (some (store s)) l e e' intact = ground (arith, e, e')

-- Loading changes nothing of what a store holds that is not corrupt.
pub load_peers_same :
    (d : PeersDisk)
    → d.primary ≢ some corrupt
    → (read_unlocked (load_peers d).1 ≡ read_unlocked d) × ((load_peers d).1.primary ≡ d.primary)
load_peers_same d intact = load_intact d d.primary d.legacy refl refl intact

pub pin-update :
    (alias k a : Text) (f : Peer → Peer) (peers : Dict Peer)
    → (a ≡ alias → (p : Peer) → key_of p.pubkey ≡ some k → key_of (f p).pubkey ≡ some k)
    → pin alias peers ≡ some k
    → pin alias (update_peer a f peers) ≡ some k
unfolding update_peer
pin-update alias k a f peers keeps h = elim (Option-cases (lookup a peers)) [
  | inl e ↦ ground (arith, e)
  | inr (p, e) ↦ elim (Bool-cases (a === alias)) [
    | inl same ↦
        let eq = (===_iff a alias).0 same in
        ground (arith, e, eq, lookup-insert a alias (f p) peers, keeps eq p)
    | inr other ↦ ground (arith, e, other, lookup-insert a alias (f p) peers)
  ]
]

stamp_key_kept :
    (k observed : Text) (now : ℕ) (p : Peer)
    → key_of p.pubkey ≡ some k
    → key_of (stamp_key observed now p).pubkey ≡ some k
stamp_key_kept k observed now p h = elim (Option-cases p.pubkey) [
  | inl e ↦ ground (arith, e)
  | inr (x, e) ↦ ground (arith, e)
]

pub apply_kept :
    (alias k : Text) (decision : TofuDecision) (now : ℕ) (d : PeersDisk)
    → pinned alias d ≡ some k
    → pinned alias (apply_tofu_decision decision now d).0 ≡ some k
unfolding apply_tofu_decision mutate_peers read_unlocked
apply_kept alias k (tofu_bootstrap a observed) now d h =
    pin-update alias k a (stamp_key observed now) (read_unlocked d)
      (λ _ p. stamp_key_kept k observed now p) h
apply_kept alias k (mismatch _ _ _) now d h = h
apply_kept alias k (match _ _ _) now d h = h
apply_kept alias k (legacy_first_contact _) now d h = h
apply_kept alias k (legacy_after_pinned _ _) now d h = h
