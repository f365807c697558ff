-- ===== src/Peers/Store.antt =====
-- lib/peers/store.ts: `peers.json` and its legacy place. A mutation runs under the lock of lock.ts, so
-- it is one step; writes are atomic, and dates are the milliseconds that they stand for.
use maw_js.Prelude.{ℕ, Bool, false, Option, none, some, List, [], ◌∷◌, ◌++◌, Text, is_empty, not}
use maw_js.Prelude.Dict.{Dict}

pub data ErrorCode : Type 0 where
  dns refused timeout tls http_4xx http_5xx bad_body unknown : ErrorCode

pub record LastError : Type 0 where
  pub code : ErrorCode
  pub message : Text
  pub at : ℕ

pub record Identity : Type 0 where
  pub oracle : Text
  pub node : Text

-- A field that is absent is `none`; of `nickname`, also null is, which no reader tells from absent.
pub record Peer : Type 0 where
  pub url : Text
  pub node : Option Text
  pub added_at : ℕ
  pub last_seen : Option ℕ
  pub last_error : Option LastError
  pub nickname : Option Text
  pub pubkey : Option Text
  pub pubkey_first_seen : Option ℕ
  pub identity : Option Identity
  pub one_way : Option Bool
  pub last_symmetric_check : Option ℕ

-- What a file holds: peers, or text that does not parse to the store's shape.
pub data PeersJson : Type 0 where
  corrupt : PeersJson
  store : Dict Peer → PeersJson

-- The two places, and the files that were moved aside.
pub record PeersDisk : Type 0 where
  pub primary : Option PeersJson
  pub legacy : Option PeersJson
  pub aside : List PeersJson

-- `loadPeers` of one place: its peers, what is left in the place, and what is moved aside.
abbrev pub read_place : Option PeersJson → Dict Peer × Option PeersJson × List PeersJson
read_place none = ([], none, [])
read_place (some corrupt) = ([], none, corrupt ∷ [])
read_place (some (store peers)) = (peers, some (store peers), [])

unfoldable pub load_peers : PeersDisk → Dict Peer × PeersDisk
load_peers d = elim d.primary [
  | some json ↦
      let (peers, left, moved) = read_place (some json) in
      (peers, record d { primary = left; aside = d.aside ++ moved })
  | none ↦
      let (peers, left, moved) = read_place d.legacy in
      (peers, record d { legacy = left; aside = d.aside ++ moved })
]

-- `readUnlocked` of one place.
abbrev pub peers_in : Option PeersJson → Dict Peer
peers_in (some (store peers)) = peers
peers_in (some corrupt) = []
peers_in none = []

-- `readUnlocked` of the place that `mutatePeers` chooses.
unfoldable pub read_unlocked : PeersDisk → Dict Peer
read_unlocked d = elim d.primary [ some json ↦ peers_in (some json) | none ↦ peers_in d.legacy ]

unfoldable pub mutate_peers : (Dict Peer → Dict Peer) → PeersDisk → PeersDisk
unfolding read_unlocked
mutate_peers mutate d = record d { primary = some (store (mutate (read_unlocked d))) }

-- JavaScript's test of an optional string.
abbrev pub truthy : Option Text → Bool
truthy none = false
truthy (some s) = not (is_empty s)
