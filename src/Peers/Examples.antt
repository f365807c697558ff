-- ===== src/Peers/Examples.antt =====
-- lib/peers: runs of the peer store, and the theorems at concrete inputs.
use maw_js.Prelude.{
  ◌≡◌, ◌≢◌, refl, true, false, none, some, List, [], ◌∷◌, Text, text, ◌===◌, ===_iff,
}
use mathlib.Core.Bool.{false≢true}
use maw_js.Prelude.Dict.{lookup, insert}
use maw_js.Peers.Store.{Peer, PeersDisk, store, load_peers, read_unlocked}
use maw_js.Peers.Tofu.{tofu_record_peer_identity}
use maw_js.Peers.Commands.{
  AddOptions, Probe, named, pubkey_mismatch, added, cmd_forget, is_valid_alias, start_add,
  finish_add, cmd_add,
}
use maw_js.Peers.NodeKey.{HasKey}
use maw_js.Prelude.{head, tail, arith}
use maw_js.Peers.Pins.{pinned}
use maw_js.Peers.Pinning.{PeerOp, add, probe, observe, forget, remove, run_ops, pin_is_kept}
use maw_js.Peers.Overlap.{IsSound, overlapping_adds}

abbrev mba : Text
mba = text "mba"

abbrev key_1 : Text
key_1 = text "aa11"

abbrev key_2 : Text
key_2 = text "bb22"

abbrev empty_disk : PeersDisk
empty_disk = record { primary = none; legacy = none; aside = [] }

abbrev mba_peer : Peer
mba_peer = record {
  url = text "http://mba:3456";
  node = some mba;
  added_at = 1000;
  last_seen = some 1000;
  last_error = none;
  nickname = none;
  pubkey = some key_1;
  pubkey_first_seen = some 1000;
  identity = none;
  one_way = none;
  last_symmetric_check = none;
}

abbrev mba_disk : PeersDisk
mba_disk = record { primary = some (store ((mba, mba_peer) ∷ [])); legacy = none; aside = [] }

abbrev options : AddOptions
options = record {
  alias = mba;
  url = text "http://mba:3456";
  node = none;
  pubkey = none;
  identity = none;
  mark_symmetric_check = true;
  one_way = none;
}

abbrev shows : Text → Probe
shows key = record {
  node = some mba;
  nickname = named (text "air");
  pubkey = some key;
  identity = none;
  error = none;
}

-- A peer that returns with another key, is probed and added again, and another alias that is removed.
abbrev attempts : List PeerOp
attempts =
    observe mba (some key_2) 2000
    ∷ probe mba (shows key_2) 3000
    ∷ add options (some (text "http:")) (shows key_2) 4000
    ∷ remove (text "white")
    ∷ add options (some (text "http:")) (shows key_1) 5000
    ∷ []

keys_differ : key_1 ≢ key_2
unfolding ◌===◌
keys_differ = λ h. false≢true ((===_iff key_1 key_2).1 h)

pin_is_kept_example : pinned mba (run_ops attempts mba_disk) ≡ some key_1
unfolding read_unlocked lookup ◌===◌
pin_is_kept_example = pin_is_kept mba key_1 attempts mba_disk refl refl

forgotten :
    pinned mba (run_ops (forget mba ∷ observe mba (some key_2) 9 ∷ []) mba_disk) ≡ some key_2
unfolding run_ops read_unlocked lookup tofu_record_peer_identity load_peers cmd_forget ◌===◌ insert
forgotten = refl

shows-IsSound : (key : Text) → IsSound options (some (text "http:")) (shows key)
unfolding is_valid_alias ◌===◌
shows-IsSound key = record { alias = refl; protocol = refl; keys = refl }

overlapping_adds_example :
    let http = some (text "http:") in
    let one = start_add options http empty_disk in
    let both = start_add options http one in
    let first = finish_add options http (shows key_1) 1 empty_disk both in
    let second = finish_add options http (shows key_2) 2 one first.0 in
    (pinned mba first.0 ≡ some key_1)
    × (first.1 ≡ added false)
    × (pinned mba second.0 ≡ some key_2)
    × (second.1 ≡ added true)
    × ((cmd_add options http (shows key_2) 2 first.0).1 ≡ pubkey_mismatch mba key_1 key_2)
unfolding read_unlocked lookup
overlapping_adds_example =
    overlapping_adds options options (some (text "http:")) (some (text "http:")) (shows key_1)
      (shows key_2) 1 2 empty_disk key_1 key_2 refl (shows-IsSound key_1) (shows-IsSound key_2)
      (λ e. cc) refl refl refl keys_differ

mba-HasKey : HasKey mba key_1 ((mba, mba_peer) ∷ [])
mba-HasKey _ k' head n key = ground arith
mba-HasKey e k' (tail m) n key = elim m [ ]
