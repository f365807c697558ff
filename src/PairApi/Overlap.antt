-- ===== src/PairApi/Overlap.antt =====
-- api/pair.ts: two automatic pairings that one hello lets through, since the hello is taken behind the `await` of the
-- probe.
use maw_js.Prelude.{ℕ, ◌≡◌, refl, ap, Bool, true, false, Option, none, some, Text, ===-refl, ◌∙◌}
use maw_js.Prelude.Dict.{lookup as dict_lookup, erase, lookup-erase}
use maw_js.Peers.Store.{PeersDisk}
use maw_js.Peers.Commands.{
  Probe, AddOutcome, invalid_alias, invalid_url, pubkey_mismatch, added, cmd_add,
}
use maw_js.Routing.{non_empty_text}
use maw_js.PairApi.{
  AutoBody, PairState, no_recent_hello, auto_paired, auto_options, is_recent, after_add, auto_check,
  auto_end, auto_pair,
}

-- The body of a request with its fields.
pub record HasFields (b : AutoBody) (a u z : Text) : Type 0 where
  pub node : non_empty_text b.node ≡ some a
  pub url : non_empty_text b.url ≡ some u
  pub zid : non_empty_text b.zid ≡ some z

abbrev pub is_added : AddOutcome → Bool
is_added (added _) = true
is_added _ = false

after_add-is_added :
    (zid : Text) (s : PairState) (x : PeersDisk × AddOutcome)
    → is_added x.1 ≡ true
    → ((after_add zid s x).1 ≡ auto_paired)
      × ((after_add zid s x).0.recent_hellos ≡ erase zid s.recent_hellos)
after_add-is_added zid s (peers, pubkey_mismatch _ _ _) h = cc
after_add-is_added zid s (peers, invalid_alias) h = cc
after_add-is_added zid s (peers, invalid_url) h = cc
after_add-is_added zid s (peers, added _) h = (refl, refl)

auto_end-after_add :
    (b : AutoBody) (node url zid : Text) (pr : Option Text) (remote : Probe) (now : ℕ)
    (s : PairState)
    → HasFields b node url zid
    → auto_end now b pr remote s
      ≡ after_add zid s (cmd_add (auto_options node url b) pr remote now s.peers)
unfolding auto_end
auto_end-after_add b node url zid pr remote now s fields =
    simp (fields.node, fields.url, fields.zid) refl

auto_check-is_recent :
    (b : AutoBody) (node url zid : Text) (now : ℕ) (s : PairState)
    → HasFields b node url zid
    → is_recent now (dict_lookup zid s.recent_hellos) ≡ true
    → auto_check now b s ≡ none
unfolding auto_check
auto_check-is_recent b node url zid now s fields recent =
    simp (fields.node, fields.url, fields.zid, recent) refl

auto_pair_late :
    (b : AutoBody) (node url zid : Text) (pr : Option Text) (remote : Probe) (now : ℕ)
    (s : PairState)
    → HasFields b node url zid
    → dict_lookup zid s.recent_hellos ≡ none
    → auto_pair now b pr remote s ≡ (s, no_recent_hello)
unfolding auto_pair auto_check
auto_pair_late b node url zid pr remote now s fields gone =
    simp (fields.node, fields.url, fields.zid, gone) refl

-- Two automatic requests name the same zid, its hello is recent for both, and the peers of both can be added. Where both
-- are checked before either adds its peer, both pass the check and both pair, with the one hello. Where the second comes
-- when the first has ended, it is refused: the hello is gone.
pub overlapping_autos :
    (b b' : AutoBody) (node url node' url' zid : Text) (pr pr' : Option Text)
    (remote remote' : Probe) (checked checked' now now' : ℕ) (s : PairState)
    → HasFields b node url zid
    → HasFields b' node' url' zid
    → is_recent checked (dict_lookup zid s.recent_hellos) ≡ true
    → is_recent checked' (dict_lookup zid s.recent_hellos) ≡ true
    → is_added (cmd_add (auto_options node url b) pr remote now s.peers).1 ≡ true
    → is_added
        (cmd_add
          (auto_options node' url' b')
          pr'
          remote'
          now'
          (auto_end now b pr remote s).0.peers).1
      ≡ true
    → let first = auto_end now b pr remote s in
      (auto_check checked b s ≡ none)
      × (auto_check checked' b' s ≡ none)
      × (first.1 ≡ auto_paired)
      × ((auto_end now' b' pr' remote' first.0).1 ≡ auto_paired)
      × (auto_pair now' b' pr' remote' first.0 ≡ (first.0, no_recent_hello))
overlapping_autos b b' node url node' url' zid pr pr' remote remote' checked checked' now now' s has
      has' recent recent' ok ok' =
    let first = auto_end now b pr remote s in
    let ends = auto_end-after_add b node url zid pr remote now s has in
    let (pairs, taken) =
      after_add-is_added zid s (cmd_add (auto_options node url b) pr remote now s.peers) ok in
    let gone : dict_lookup zid first.0.recent_hellos ≡ none =
      ap (λ x. dict_lookup zid x.0.recent_hellos) ends
      ∙ (ap (dict_lookup zid) taken
          ∙ (lookup-erase zid zid s.recent_hellos ∙ rw (===-refl zid) refl)) in
    (
      auto_check-is_recent b node url zid checked s has recent,
      auto_check-is_recent b' node' url' zid checked' s has' recent',
      ap (λ x. x.1) ends ∙ pairs,
      ap (λ x. x.1) (auto_end-after_add b' node' url' zid pr' remote' now' first.0 has')
          ∙ (after_add-is_added zid first.0 _ ok').0,
      auto_pair_late b' node' url' zid pr' remote' now' first.0 has' gone,
    )
