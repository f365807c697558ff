-- ===== src/Scout.antt =====
-- transports/scout-state.ts and scout-protocol.ts: the peers that a node hears of. The clock is an
-- argument, and the fields of the class are the record `ScoutState`.
pub mod Pairing
pub mod Upkeep
mod Examples
use maw_js.Prelude.{
  ℕ, ◌-◌, ◌*◌, min, Bool, true, false, not, ◌&&◌, ◌||◌, Option, none, some, List, [], ◌∷◌, map,
  Text, text, ◌===◌, ◌==◌, ltb, any, filter, find, includes, if◌then◌else◌, is_some,
}
use maw_js.Prelude.Dict.{Dict, lookup, insert}

abbrev pub scout_initial_ms : ℕ
scout_initial_ms = 1000

abbrev pub scout_max_ms : ℕ
scout_max_ms = 8000

abbrev pub peer_stale_ms : ℕ
peer_stale_ms = 30000

pub record DiscoveredPeer : Type 0 where
  pub zid : Text
  pub node : Text
  pub host : Text
  pub oracle : Text
  pub locators : List Text
  pub capabilities : List Text
  pub oracles : List Text
  pub last_seen : ℕ
  pub paired : Bool

-- What `handleHello` reads of a hello.
pub record HelloMessage : Type 0 where
  pub zid : Text
  pub node : Text
  pub oracle : Text
  pub locators : List Text
  pub capabilities : List Text
  pub oracles : List Text

-- `pending_connections` is a set, as a list.
pub record ScoutState : Type 0 where
  pub local_zid : Text
  pub backoff_ms : ℕ
  pub discovered_peers : Dict DiscoveredPeer
  pub pending_connections : List Text

unfoldable pub new_state : Text → ScoutState
new_state local_zid = record {
  local_zid = local_zid;
  backoff_ms = scout_initial_ms;
  discovered_peers = [];
  pending_connections = [];
}

-- `a > b` on strings.
unfoldable pub greater_zid : (a b : Text) → Bool
greater_zid [] b = false
greater_zid (c ∷ s) [] = true
greater_zid (c ∷ s) (d ∷ t) = ltb d c || (c == d && greater_zid s t)

abbrev pub has_text : Text → List Text → Bool
has_text t list = any (λ x. x === t) list

-- The interval that was current, and the state with the next one.
unfoldable pub advance_backoff : ScoutState → ℕ × ScoutState
advance_backoff s = (s.backoff_ms, record s { backoff_ms = min (s.backoff_ms * 2) scout_max_ms })

unfoldable pub reset_backoff : ScoutState → ScoutState
reset_backoff s = record s { backoff_ms = scout_initial_ms }

pub record HelloResult : Type 0 where
  pub is_new : Bool
  pub should_pair : Bool

abbrev pub was_paired : Option DiscoveredPeer → Bool
was_paired none = false
was_paired (some p) = p.paired

abbrev pub seen_peer :
    HelloMessage → (host : Text) → (now : ℕ) → Option DiscoveredPeer → DiscoveredPeer
seen_peer hello host now existing = record {
  zid = hello.zid;
  node = hello.node;
  host = host;
  oracle = hello.oracle;
  locators = hello.locators;
  capabilities = hello.capabilities;
  oracles = hello.oracles;
  last_seen = now;
  paired = was_paired existing;
}

unfoldable pub handle_hello :
    HelloMessage → (host : Text) → (now : ℕ) → ScoutState → HelloResult × ScoutState
unfolding lookup insert reset_backoff greater_zid
handle_hello hello host now s =
    if hello.zid === s.local_zid
    then (record { is_new = false; should_pair = false }, s)
    else let existing = lookup hello.zid s.discovered_peers in
      let is_new = not (is_some existing) in
      let peers = insert hello.zid (seen_peer hello host now existing) s.discovered_peers in
      let recorded : ScoutState = record s { discovered_peers = peers } in
      let should_pair =
        is_new
        && not (was_paired existing)
        && not (has_text hello.zid s.pending_connections)
        && has_text (text "pair") hello.capabilities
        && greater_zid s.local_zid hello.zid in
      (
        record { is_new = is_new; should_pair = should_pair },
        if is_new then reset_backoff recorded else recorded,
      )

abbrev pub remove_text : Text → List Text → List Text
remove_text t list = filter (λ x. not (x === t)) list

unfoldable pub clear_pending : Text → ScoutState → ScoutState
clear_pending zid s = record s { pending_connections = remove_text zid s.pending_connections }

unfoldable pub mark_pending : Text → ScoutState → ScoutState
mark_pending zid s =
    if has_text zid s.pending_connections
    then s
    else record s { pending_connections = zid ∷ s.pending_connections }

-- Sets the field of the peer that the map holds.
unfoldable pub mark_paired : Text → ScoutState → ScoutState
unfolding lookup insert clear_pending
mark_paired zid s = elim (lookup zid s.discovered_peers) [
  | none ↦ clear_pending zid s
  | some p ↦
      let peers = insert zid (record p { paired = true }) s.discovered_peers in
      clear_pending zid (record s { discovered_peers = peers })
]

unfoldable pub mark_existing_peer_paired : (node : Text) → ScoutState → ScoutState
mark_existing_peer_paired node s = record s {
  discovered_peers =
      map (λ e. (e.0, if e.1.node === node then record e.1 { paired = true } else e.1))
        s.discovered_peers;
}

-- The nodes that are removed, and the state without them. The cutoff of a clock below 30 seconds is
-- negative in the source and zero here: no time lies before either.
abbrev pub is_stale : (now : ℕ) → Text × DiscoveredPeer → Bool
is_stale now e = ltb e.1.last_seen (now - peer_stale_ms)

unfoldable pub prune_stale : (now : ℕ) → ScoutState → List Text × ScoutState
prune_stale now s =
    let stale = filter (is_stale now) s.discovered_peers in
    (
      map (λ e. e.1.node) stale,
      record s {
        discovered_peers = filter (λ e. not (is_stale now e)) s.discovered_peers;
        pending_connections =
            filter (λ zid. not (any (λ e. e.0 === zid) stale)) s.pending_connections;
      },
    )

unfoldable pub find_peer_by_node : (node : Text) → ScoutState → Option (Text × DiscoveredPeer)
find_peer_by_node node s = find (λ e. e.1.node === node) s.discovered_peers

unfoldable pub find_peer_by_oracle : (oracle : Text) → ScoutState → Option (Text × DiscoveredPeer)
unfolding includes
find_peer_by_oracle oracle s =
    find (λ e. any (λ o. includes o oracle) e.1.oracles) s.discovered_peers
