-- ===== src/Scout/Upkeep.antt =====
-- transports/scout-state.ts: the interval of the scouts, the invariant of the map of peers, and the removal
-- of stale peers.
use maw_js.Prelude.{
  ℕ, suc, zero, ◌+◌, ◌*◌, ◌^◌, ◌≤◌, min, ◌≡◌, ◌≢◌, ◌↔◌, ◌∙◌, sym, refl, Bool, true, false, not,
  some, List, [], ◌∷◌, map, Text, ◌===◌, ===_iff, any, filter, All, is_some, arith, Bool-cases,
  Option-cases, inl, inr, if◌then◌else◌, Memᴰ, mem-filter, member_of_any, any_of_member,
}
use mathlib.Core.Bool.{false≢true}
use maw_js.Prelude.Dict.{Dict, lookup, insert}
use maw_js.Scout.{
  DiscoveredPeer, HelloMessage, ScoutState, scout_initial_ms, scout_max_ms, peer_stale_ms,
  handle_hello, seen_peer, reset_backoff, advance_backoff, mark_paired, mark_pending, clear_pending,
  mark_existing_peer_paired, prune_stale, is_stale, has_text, new_state,
}
use maw_js.Scout.Pairing.{
  Event, hello, advance, pair_done, set_pending, unset_pending, node_paired, prune, run_event,
  run_events,
}

unfoldable pub advances : ℕ → ScoutState → ScoutState
advances zero s = s
advances (suc n) s = (advance_backoff (advances n s)).1

-- The `n`-th interval after a reset is a second doubled `n` times, up to eight seconds.
pub advances-reset_backoff :
    (n : ℕ) (s : ScoutState)
    → (advances n (reset_backoff s)).backoff_ms ≡ min (scout_initial_ms * 2 ^ n) scout_max_ms
unfolding advances advance_backoff reset_backoff
advances-reset_backoff zero s = refl
advances-reset_backoff (suc n) s = let rest = advances-reset_backoff n s in omega (arith, rest)

-- A peer stands under its own id, which is not the node's.
abbrev pub IsEntry : (own : Text) → Text × DiscoveredPeer → Type 0
IsEntry own e = (e.1.zid ≡ e.0) × (e.0 ≢ own)

abbrev pub IsValid : (own : Text) → ScoutState → Type 0
IsValid own s =
    (s.local_zid ≡ own)
    × All (IsEntry own) s.discovered_peers
    × (scout_initial_ms ≤ s.backoff_ms)
    × (s.backoff_ms ≤ scout_max_ms)

All-insert :
    (own k : Text) (p : DiscoveredPeer) (peers : Dict DiscoveredPeer)
    → IsEntry own (k, p)
    → All (IsEntry own) peers
    → All (IsEntry own) (insert k p peers)
unfolding insert
All-insert own k p [] new h = (new, tt)
All-insert own k p ((j, q) ∷ peers) new (h, hs) = elim (Bool-cases (j === k)) [
  | inl e ↦ rw e (new, hs)
  | inr e ↦ rw e (h, All-insert own k p peers new hs)
]

All-lookup :
    (own k : Text) (p : DiscoveredPeer) (peers : Dict DiscoveredPeer)
    → All (IsEntry own) peers
    → lookup k peers ≡ some p
    → IsEntry own (k, p)
unfolding lookup
All-lookup own k p [] h e = cc
All-lookup own k p ((j, q) ∷ peers) (h, hs) e = elim (Bool-cases (j === k)) [
  | inl same ↦
      let key = (===_iff j k).0 same in
      let value : q ≡ p = ground (arith, same, e) in
      (cc (h.0, key, value), λ own_key. h.1 (cc (key, own_key)))
  | inr other ↦ All-lookup own k p peers hs (ground (arith, other, e))
]

All-filter :
    (own : Text) (keep : Text × DiscoveredPeer → Bool) (peers : Dict DiscoveredPeer)
    → All (IsEntry own) peers
    → All (IsEntry own) (filter keep peers)
All-filter own keep [] h = tt
All-filter own keep (e ∷ peers) (h, hs) = elim (Bool-cases (keep e)) [
  | inl k ↦ rw k (h, All-filter own keep peers hs)
  | inr k ↦ rw k (All-filter own keep peers hs)
]

All-node_paired :
    (own node : Text) (peers : Dict DiscoveredPeer)
    → All (IsEntry own) peers
    → All
        (IsEntry own)
        (map (λ e. (e.0, if e.1.node === node then record e.1 { paired = true } else e.1)) peers)
All-node_paired own node [] h = tt
All-node_paired own node ((k, p) ∷ peers) (h, hs) =
    let rest = All-node_paired own node peers hs in
    elim (Bool-cases (p.node === node)) [ inl e ↦ rw e (h, rest) | inr e ↦ rw e (h, rest) ]

reset-IsValid :
    (own : Text) (b : Bool) (s : ScoutState)
    → IsValid own s
    → IsValid own (if b then reset_backoff s else s)
unfolding reset_backoff
reset-IsValid own true s (o, es, lo, hi) = (o, es, omega arith, omega arith)
reset-IsValid own false s v = v

hello-IsValid :
    (own : Text) (h : HelloMessage) (host : Text) (now : ℕ) (s : ScoutState)
    → IsValid own s
    → IsValid own (handle_hello h host now s).1
unfolding handle_hello reset_backoff
hello-IsValid own h host now s (o, es, lo, hi) =
    let peer = seen_peer h host now (lookup h.zid s.discovered_peers) in
    elim (Bool-cases (h.zid === s.local_zid)) [
      | inl e ↦ rw e (o, es, lo, hi)
      | inr e ↦
          let entry : IsEntry own (h.zid, peer) =
            (refl, λ p. false≢true (sym e ∙ (===_iff h.zid s.local_zid).1 (p ∙ sym o))) in
          let all = All-insert own h.zid peer s.discovered_peers entry es in
          let recorded : ScoutState = record s {
            discovered_peers = insert h.zid peer s.discovered_peers;
          } in
          rw e (
            reset-IsValid own (not (is_some (lookup h.zid s.discovered_peers))) recorded
              (o, all, lo, hi))
    ]

paired-IsValid : (own zid : Text) (s : ScoutState) → IsValid own s → IsValid own (mark_paired zid s)
unfolding mark_paired clear_pending
paired-IsValid own zid s (o, es, lo, hi) = elim (Option-cases (lookup zid s.discovered_peers)) [
  | inl e ↦ rw (e, mark_paired) (o, es, lo, hi)
  | inr (p, e) ↦
      let entry : IsEntry own (zid, p) = All-lookup own zid p s.discovered_peers es e in
      rw (e, mark_paired)
        (o, All-insert own zid (record p { paired = true }) s.discovered_peers entry es, lo, hi)
]

pending-IsValid :
    (own zid : Text) (s : ScoutState) → IsValid own s → IsValid own (mark_pending zid s)
unfolding mark_pending
pending-IsValid own zid s (o, es, lo, hi) = elim (Bool-cases (has_text zid s.pending_connections)) [
  | inl e ↦ rw e (o, es, lo, hi)
  | inr e ↦ rw e (o, es, lo, hi)
]

event-IsValid :
    (own : Text) (e : Event) (s : ScoutState) → IsValid own s → IsValid own (run_event e s)
unfolding run_event advance_backoff mark_paired mark_pending clear_pending mark_existing_peer_paired
    prune_stale
event-IsValid own (hello h host now) s v = hello-IsValid own h host now s v
event-IsValid own advance s (o, es, lo, hi) = (o, es, omega (arith, lo, hi), omega (arith, lo, hi))
event-IsValid own (pair_done zid) s v = paired-IsValid own zid s v
event-IsValid own (set_pending zid) s v = pending-IsValid own zid s v
event-IsValid own (unset_pending zid) s v = v
event-IsValid own (node_paired node) s (o, es, lo, hi) =
    (o, All-node_paired own node s.discovered_peers es, lo, hi)
event-IsValid own (prune now) s (o, es, lo, hi) =
    (o, All-filter own (λ e. not (is_stale now e)) s.discovered_peers es, lo, hi)

run-IsValid :
    (own : Text) (es : List Event) (s : ScoutState) → IsValid own s → IsValid own (run_events es s)
unfolding run_events
run-IsValid own [] s v = v
run-IsValid own (e ∷ es) s v = run-IsValid own es (run_event e s) (event-IsValid own e s v)

-- Over any events from a new state, the interval of the scouts stays between one and eight seconds, each peer
-- stands under its own id, and the node itself is not among its peers.
pub run_events-IsValid :
    (own : Text) (es : List Event) → IsValid own (run_events es (new_state own))
unfolding new_state
run_events-IsValid own es = run-IsValid own es (new_state own) (refl, tt, omega arith, omega arith)

-- The test that keeps a pending id.
abbrev still_pending : (now : ℕ) → ScoutState → Text → Bool
still_pending now s zid = not (any (λ e. e.0 === zid) (filter (is_stale now) s.discovered_peers))

fresh_of_pending :
    (now : ℕ) (s : ScoutState) (zid : Text) (e : Text × DiscoveredPeer)
    → still_pending now s zid ≡ true
    → Memᴰ e s.discovered_peers
    → e.0 ≡ zid
    → now ≤ e.1.last_seen + peer_stale_ms
fresh_of_pending now s zid e kept m own = elim (Bool-cases (is_stale now e)) [
  | inl stale ↦
      let listed = (mem-filter (is_stale now) s.discovered_peers e).1 (m, stale) in
      let found = any_of_member (λ e. e.0 === zid) e _ listed ((===_iff e.0 zid).1 own) in
      ground (arith, found, kept)
  | inr fresh ↦ ground (arith, fresh)
]

pending_of_fresh :
    (now : ℕ) (s : ScoutState) (zid : Text)
    → ((e : Text × DiscoveredPeer)
        → Memᴰ e s.discovered_peers
        → e.0 ≡ zid
        → now ≤ e.1.last_seen + peer_stale_ms)
    → still_pending now s zid ≡ true
pending_of_fresh now s zid h =
    let stale = filter (is_stale now) s.discovered_peers in
    elim (Bool-cases (any (λ e. e.0 === zid) stale)) [
      | inl found ↦
          let (e, m, own) = member_of_any (λ e. e.0 === zid) stale found in
          let (there, old) = (mem-filter (is_stale now) s.discovered_peers e).0 m in
          ground (arith, old, h e there ((===_iff e.0 zid).0 own))
      | inr none_found ↦ rw none_found refl
    ]

-- A removal at the time `now` keeps exactly the peers seen within thirty seconds, and, of the pending ids,
-- those that no removed entry has.
pub prune_stale_lem :
    (now : ℕ) (s : ScoutState) (e : Text × DiscoveredPeer) (zid : Text)
    → let after = (prune_stale now s).1 in
      (Memᴰ e after.discovered_peers
        ↔ (Memᴰ e s.discovered_peers × (now ≤ e.1.last_seen + peer_stale_ms)))
      × (Memᴰ zid after.pending_connections ↔ (
          Memᴰ zid s.pending_connections
          × ((e' : Text × DiscoveredPeer)
              → Memᴰ e' s.discovered_peers
              → e'.0 ≡ zid
              → now ≤ e'.1.last_seen + peer_stale_ms)))
unfolding prune_stale
prune_stale_lem now s e zid =
    let peers = s.discovered_peers in
    (
      (
        λ m.
            (let (there, kept) = (mem-filter (λ p. not (is_stale now p)) peers e).0 m in
              (there, ground (arith, kept))),
        λ h. (mem-filter (λ p. not (is_stale now p)) peers e).1 (h.0, ground (arith, h.1)),
      ),
      (
        λ m.
            (let (there, kept) = (mem-filter (still_pending now s) s.pending_connections zid).0 m in
              (there, λ e' m' own. fresh_of_pending now s zid e' kept m' own)),
        λ h.
            (mem-filter (still_pending now s) s.pending_connections zid).1
              (h.0, pending_of_fresh now s zid h.1),
      ),
    )
