-- ===== src/Scout/Pairing.antt =====
-- transports/scout-state.ts: which of two nodes starts the pairing, and how often.
use maw_js.Prelude.{
  ℕ, ◌+◌, ◌≤◌, ◌≡◌, ◌≢◌, ◌⊎◌, ◌∙◌, refl, Bool, true, false, not, ◌&&◌, none, List, [], ◌∷◌, map,
  Text, text, ◌===◌, ===_iff, ===_of_ne, ◌==◌, is_some, arith, Bool-cases, Option-cases, inl, inr,
  if◌then◌else◌, all,
}
use maw_js.Prelude.Dict.{Dict, lookup, insert, lookup-insert}
use maw_js.Scout.{
  DiscoveredPeer, HelloMessage, ScoutState, greater_zid, has_text, handle_hello, seen_peer,
  reset_backoff, advance_backoff, mark_paired, mark_pending, clear_pending,
  mark_existing_peer_paired, prune_stale,
}

-- What happens to the state.
pub data Event : Type 0 where
  hello : HelloMessage → (host : Text) → (now : ℕ) → Event
  advance : Event
  pair_done set_pending unset_pending : (zid : Text) → Event
  node_paired : (node : Text) → Event
  prune : (now : ℕ) → Event

unfoldable pub run_event : Event → ScoutState → ScoutState
run_event (hello h host now) s = (handle_hello h host now s).1
run_event advance s = (advance_backoff s).1
run_event (pair_done zid) s = mark_paired zid s
run_event (set_pending zid) s = mark_pending zid s
run_event (unset_pending zid) s = clear_pending zid s
run_event (node_paired node) s = mark_existing_peer_paired node s
run_event (prune now) s = (prune_stale now s).1

unfoldable pub run_events : List Event → ScoutState → ScoutState
unfolding run_event
run_events [] s = s
run_events (e ∷ es) s = run_events es (run_event e s)

-- How often `zid` is to be paired in the course of the events.
abbrev pub starts_pairing : (zid : Text) → Event → ScoutState → ℕ
starts_pairing zid (hello h host now) s =
    if h.zid === zid && (handle_hello h host now s).0.should_pair then 1 else 0
starts_pairing zid _ s = 0

unfoldable pub pairings : (zid : Text) → List Event → ScoutState → ℕ
unfolding run_event
pairings zid [] s = 0
pairings zid (e ∷ es) s = starts_pairing zid e s + pairings zid es (run_event e s)

abbrev pub is_prune : Event → Bool
is_prune (prune _) = true
is_prune _ = false

greater_zid-not : (a b : Text) → a ≢ b → greater_zid a b ≡ not (greater_zid b a)
unfolding greater_zid
greater_zid-not [] [] ne = absurd (ne refl)
greater_zid-not [] (d ∷ t) ne = refl
greater_zid-not (c ∷ s) [] ne = refl
greater_zid-not (c ∷ s) (d ∷ t) ne = elim (Bool-cases (c == d)) [
  | inl e ↦
      let same : c ≡ d = ground (arith, e) in
      let rest = greater_zid-not s t (λ p. ne (cc (same, p))) in ground (arith, e, rest)
  | inr e ↦ ground (arith, e)
]

-- What a node has of another that it has not heard of.
abbrev pub IsFresh : ScoutState → HelloMessage → Type 0
IsFresh s h =
    (lookup h.zid s.discovered_peers ≡ none)
    × (has_text h.zid s.pending_connections ≡ false)
    × (has_text (text "pair") h.capabilities ≡ true)

first_hello :
    (s : ScoutState) (h : HelloMessage) (host : Text) (now : ℕ)
    → h.zid ≢ s.local_zid
    → IsFresh s h
    → (handle_hello h host now s).0.should_pair ≡ greater_zid s.local_zid h.zid
unfolding handle_hello
first_hello s h host now ne (fresh, free, able) =
    rw (===_of_ne h.zid s.local_zid ne, fresh, free, able) refl

-- Where two nodes with different ids get one another's first hello, both hellos list the capability `pair`, and neither
-- node is already connecting to the other, exactly one of them starts the pairing.
pub one_side_pairs :
    (s s' : ScoutState) (h h' : HelloMessage) (host host' : Text) (now now' : ℕ)
    → h.zid ≡ s.local_zid
    → h'.zid ≡ s'.local_zid
    → s.local_zid ≢ s'.local_zid
    → IsFresh s h'
    → IsFresh s' h
    → (handle_hello h' host now s).0.should_pair
      ≡ not ((handle_hello h host' now' s').0.should_pair)
one_side_pairs s s' h h' host host' now now' own own' ne fresh fresh' = cc (
  first_hello s h' host now (λ e. ne (cc (own', e))) fresh,
  first_hello s' h host' now' (λ e. ne (cc (own, e))) fresh',
  greater_zid-not s.local_zid s'.local_zid ne,
  own,
  own',
)

abbrev known : Text → ScoutState → Bool
known zid s = is_some (lookup zid s.discovered_peers)

known-insert :
    (zid k : Text) (p : DiscoveredPeer) (peers : Dict DiscoveredPeer)
    → is_some (lookup zid peers) ≡ true
    → is_some (lookup zid (insert k p peers)) ≡ true
known-insert zid k p peers h = ground (arith, lookup-insert k zid p peers)

known-map :
    (zid : Text) (f : Text × DiscoveredPeer → DiscoveredPeer) (peers : Dict DiscoveredPeer)
    → is_some (lookup zid (map (λ e. (e.0, f e)) peers)) ≡ is_some (lookup zid peers)
unfolding lookup
known-map zid f [] = refl
known-map zid f ((k, p) ∷ peers) = ground (arith, known-map zid f peers)

known_kept :
    (zid : Text) (e : Event) (s : ScoutState)
    → is_prune e ≡ false
    → known zid s ≡ true
    → known zid (run_event e s) ≡ true
unfolding run_event handle_hello advance_backoff mark_paired mark_pending clear_pending
    mark_existing_peer_paired reset_backoff
known_kept zid (hello h host now) s np k =
    let peer = seen_peer h host now (lookup h.zid s.discovered_peers) in
    ground (arith, known-insert zid h.zid peer s.discovered_peers k)
known_kept zid advance s np k = k
known_kept zid (pair_done z) s np k = elim (Option-cases (lookup z s.discovered_peers)) [
  | inl e ↦ ground (arith, e)
  | inr (p, e) ↦
      ground (arith, e, known-insert zid z (record p { paired = true }) s.discovered_peers k)
]
known_kept zid (set_pending z) s np k = ground arith
known_kept zid (unset_pending z) s np k = k
known_kept zid (node_paired node) s np k =
    known-map zid (λ e. if e.1.node === node then record e.1 { paired = true } else e.1)
      s.discovered_peers
    ∙ k
known_kept zid (prune _) s np k = cc

-- A peer that is known starts nothing.
known_starts :
    (zid : Text) (e : Event) (s : ScoutState) → known zid s ≡ true → starts_pairing zid e s ≡ 0
unfolding handle_hello
known_starts zid (hello h host now) s k = ground (arith, ===_iff h.zid zid)
known_starts zid advance s k = refl
known_starts zid (pair_done _) s k = refl
known_starts zid (set_pending _) s k = refl
known_starts zid (unset_pending _) s k = refl
known_starts zid (node_paired _) s k = refl
known_starts zid (prune _) s k = refl

starts_or_quiet :
    (zid : Text) (e : Event) (s : ScoutState)
    → (starts_pairing zid e s ≡ 0)
      ⊎ ((starts_pairing zid e s ≡ 1) × (known zid (run_event e s) ≡ true))
unfolding run_event handle_hello reset_backoff
starts_or_quiet zid (hello h host now) s =
    let peer = seen_peer h host now (lookup h.zid s.discovered_peers) in
    elim (Bool-cases (h.zid === zid && (handle_hello h host now s).0.should_pair)) [
      | inl e ↦
          let there = lookup-insert h.zid zid peer s.discovered_peers in
          inr (rw e refl, ground (arith, e, there))
      | inr e ↦ inl (rw e refl)
    ]
starts_or_quiet zid advance s = inl refl
starts_or_quiet zid (pair_done _) s = inl refl
starts_or_quiet zid (set_pending _) s = inl refl
starts_or_quiet zid (unset_pending _) s = inl refl
starts_or_quiet zid (node_paired _) s = inl refl
starts_or_quiet zid (prune _) s = inl refl

known_is_quiet :
    (zid : Text) (es : List Event) (s : ScoutState)
    → all (λ e. not (is_prune e)) es ≡ true
    → known zid s ≡ true
    → pairings zid es s ≡ 0
unfolding pairings
known_is_quiet zid [] s np k = refl
known_is_quiet zid (e ∷ es) s np k =
    let rest =
      known_is_quiet zid es (run_event e s) (ground arith) (known_kept zid e s (ground arith) k) in
    omega (arith, known_starts zid e s k, rest)

-- Until peers are pruned, whatever hellos arrive and whatever becomes of the attempts, the pairing with an id
-- is started at most once.
pub pairs_once :
    (zid : Text) (es : List Event) (s : ScoutState)
    → all (λ e. not (is_prune e)) es ≡ true
    → pairings zid es s ≤ 1
unfolding pairings
pairs_once zid [] s np = omega arith
pairs_once zid (e ∷ es) s np = elim (starts_or_quiet zid e s) [
  | inl quiet ↦ omega (arith, quiet, pairs_once zid es (run_event e s) (ground arith))
  | inr (one, k) ↦ omega (arith, one, known_is_quiet zid es (run_event e s) (ground arith) k)
]
