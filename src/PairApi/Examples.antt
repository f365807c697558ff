-- ===== src/PairApi/Examples.antt =====
-- Tests of the pairing API and of what bounds the pairings.
use maw_js.Prelude.{
  is_space, to_upper, has_char, ◌===◌, ℕ, ◌≡◌, ◌≤◌, refl, Option, none, some, List, [], ◌∷◌, Text,
  text,
}
use maw_js.Prelude.Dict.{insert}
use maw_js.PairCodes.{consumed}
use maw_js.Peers.Commands.{Probe, undefined}
use maw_js.PairApi.{
  AutoBody, PairState, PairRequest, generate, probe, accept, status, hello, auto, generated,
  auto_check, auto_end, auto_pair, no_recent_hello, refused, is_live, paired, consumed_by,
  not_consumed, noted, auto_paired, handle,
}
use maw_js.PairApi.Costs.{count, is_generate, is_hello, is_paired, is_auto_paired}
use maw_js.PairApi.Bounds.{run, pairings_bounded}
use maw_js.PairApi.Overlap.{HasFields, overlapping_autos}

abbrev start : PairState
start = record {
  codes = [];
  results = [];
  recent_hellos = [];
  peers = record { primary = none; legacy = none; aside = [] };
}

abbrev quiet : Probe
quiet = record { node = none; nickname = undefined; pubkey = none; identity = none; error = none }

abbrev web : Option Text
web = some (text "http:")

abbrev code : Text
code = text "BCD-EFG"

abbrev url : Text
url = text "http://remote:3456"

abbrev body : AutoBody
body = record {
  node = some (text "remote");
  oracle = none;
  url = some url;
  zid = some (text "z1");
  pubkey = none;
}

-- A code that is asked about, used, used again, and an automatic pairing with one hello before it.
abbrev day : List (ℕ × PairRequest)
day =
    (100, generate (1 ∷ 2 ∷ 3 ∷ 4 ∷ 5 ∷ 6 ∷ []) none none)
    ∷ (200, probe code)
    ∷ (250, status code)
    ∷ (300, accept code (some (text "remote")) (some url) web quiet)
    ∷ (400, accept code (some (text "other")) (some url) web quiet)
    ∷ (500, status (text "bcdefg"))
    ∷ (600, auto body web quiet)
    ∷ (700, hello (text "z1"))
    ∷ (800, auto body web quiet)
    ∷ (900, auto body web quiet)
    ∷ []

run-day :
    (run day start).1
    ≡ generated code 120100 120000
      ∷ is_live
      ∷ not_consumed
      ∷ paired
      ∷ refused consumed
      ∷ consumed_by (text "remote") url
      ∷ no_recent_hello
      ∷ noted
      ∷ auto_paired
      ∷ no_recent_hello
      ∷ []
unfolding run handle is_space to_upper has_char ◌===◌
run-day = refl

pairings_bounded_example :
    (count is_paired (run day start).1 ≤ count is_generate day)
    × (count is_auto_paired (run day start).1 ≤ count is_hello day)
pairings_bounded_example = pairings_bounded day start refl refl

-- A hello of `z1` at 700.
abbrev greeted : PairState
greeted = record start { recent_hellos = (text "z1", 700) ∷ [] }

abbrev other_body : AutoBody
other_body = record body { node = some (text "other") }

body-HasFields : HasFields body (text "remote") url (text "z1")
body-HasFields = record { node = refl; url = refl; zid = refl }

other_body-HasFields : HasFields other_body (text "other") url (text "z1")
other_body-HasFields = record { node = refl; url = refl; zid = refl }

overlapping_autos_example :
    let first = auto_end 810 body web quiet greeted in
    (auto_check 800 body greeted ≡ none)
    × (auto_check 805 other_body greeted ≡ none)
    × (first.1 ≡ auto_paired)
    × ((auto_end 820 other_body web quiet first.0).1 ≡ auto_paired)
    × (auto_pair 820 other_body web quiet first.0 ≡ (first.0, no_recent_hello))
unfolding auto_end ◌===◌ insert
overlapping_autos_example =
    overlapping_autos body other_body (text "remote") url (text "other") url (text "z1") web web
      quiet quiet 800 805 810 820 greeted body-HasFields other_body-HasFields refl refl refl refl
