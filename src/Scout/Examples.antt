-- ===== src/Scout/Examples.antt =====
-- transports/scout-state.ts: the theorems at concrete nodes and events.
use maw_js.Prelude.{◌≤◌, ◌≡◌, ◌≢◌, ◌===◌, ===_iff, refl, true, not, List, [], ◌∷◌, Text, text}
use mathlib.Core.Bool.{false≢true}
use maw_js.Prelude.Dict.{lookup}
use maw_js.Scout.{DiscoveredPeer, HelloMessage, ScoutState, new_state, handle_hello}
use maw_js.Scout.Pairing.{
  Event, hello, advance, pair_done, set_pending, unset_pending, run_events, pairings,
  one_side_pairs, pairs_once,
}
use maw_js.Scout.Upkeep.{IsValid, run_events-IsValid}

abbrev hello_of : Text → HelloMessage
hello_of zid = record {
  zid = zid;
  node = text "mba";
  oracle = text "neo";
  locators = [];
  capabilities = text "pair" ∷ text "feed" ∷ [];
  oracles = text "neo" ∷ [];
}

abbrev left : ScoutState
left = new_state (text "0a1b")

abbrev right : ScoutState
right = new_state (text "0a2b")

ids_differ : text "0a1b" ≢ text "0a2b"
unfolding ◌===◌
ids_differ = λ h. false≢true ((===_iff (text "0a1b") (text "0a2b")).1 h)

one_side_pairs_example :
    (handle_hello (hello_of (text "0a2b")) (text "mba.local") 5 left).0.should_pair
    ≡ not ((handle_hello (hello_of (text "0a1b")) (text "m5.local") 6 right).0.should_pair)
unfolding new_state lookup ◌===◌
one_side_pairs_example =
    one_side_pairs left right (hello_of (text "0a1b")) (hello_of (text "0a2b")) (text "mba.local")
      (text "m5.local") 5 6 refl refl ids_differ (refl, refl, refl) (refl, refl, refl)

-- Hellos of one peer around a failed attempt and a success.
abbrev events : List Event
events =
    hello (hello_of (text "0a1b")) (text "m5.local") 1
    ∷ set_pending (text "0a1b")
    ∷ advance
    ∷ unset_pending (text "0a1b")
    ∷ hello (hello_of (text "0a1b")) (text "m5.local") 2
    ∷ pair_done (text "0a1b")
    ∷ hello (hello_of (text "0a1b")) (text "m5.local") 3
    ∷ []

pairs_once_example : pairings (text "0a1b") events right ≤ 1
pairs_once_example = pairs_once (text "0a1b") events right refl

run_events-IsValid_example : IsValid (text "0a2b") (run_events events (new_state (text "0a2b")))
run_events-IsValid_example = run_events-IsValid (text "0a2b") events

abbrev old_peer : Text × DiscoveredPeer
old_peer = (
  text "0a1b",
  record {
    zid = text "0a1b";
    node = text "m5";
    host = text "m5.local";
    oracle = text "neo";
    locators = [];
    capabilities = [];
    oracles = [];
    last_seen = 1000;
    paired = true;
  },
)

abbrev aged : ScoutState
aged = record right { discovered_peers = old_peer ∷ []; pending_connections = text "0a1b" ∷ [] }
