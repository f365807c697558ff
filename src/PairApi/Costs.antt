-- ===== src/PairApi/Costs.antt =====
-- api/pair.ts: what a pairing takes, of open codes and of hellos.
use maw_js.Prelude.{
  ℕ, suc, ◌+◌, ◌≤◌, ◌≡◌, inl, inr, refl, Bool, true, false, not, Option, none, some, List, [], ◌∷◌,
  Text, filter, length, ltb, ap, Bool-cases, Option-cases, arith,
}
use maw_js.Prelude.Dict.{Dict, lookup as dict_lookup, insert, erase}
use maw_js.PairCodes.{
  PairEntry, Store, LookupResult, found, failed, check_entry, lookup, consume, normalize,
}
use maw_js.Peers.Store.{PeersDisk}
use maw_js.Peers.Commands.{
  Probe, AddOutcome, invalid_alias, invalid_url, pubkey_mismatch, added, cmd_add,
}
use maw_js.PairApi.{
  AutoBody, auto_options, PairState, PairRequest, generate, hello, PairAnswer, paired, auto_paired,
  accept_with, after_consume, is_recent, after_add, auto_with,
}

abbrev pub is_generate : ℕ × PairRequest → Bool
is_generate (_, generate _ _ _) = true
is_generate _ = false

abbrev pub is_hello : ℕ × PairRequest → Bool
is_hello (_, hello _) = true
is_hello _ = false

abbrev pub is_paired : PairAnswer → Bool
is_paired paired = true
is_paired _ = false

abbrev pub is_auto_paired : PairAnswer → Bool
is_auto_paired auto_paired = true
is_auto_paired _ = false

abbrev pub count {ℓ} : {A : Type ℓ} → (A → Bool) → List A → ℕ
count p xs = length (filter p xs)

abbrev pub is_open : Text × PairEntry → Bool
is_open (_, entry) = not entry.consumed

-- Codes that have not been consumed.
abbrev pub open_codes : Store → ℕ
open_codes = count is_open

pub open_codes-insert :
    (key : Text) (entry : PairEntry) (codes : Store)
    → open_codes (insert key entry codes) ≤ suc (open_codes codes)
unfolding insert
open_codes-insert key entry [] = ground arith
open_codes-insert key entry ((name, value) ∷ rest) =
    ground (arith, open_codes-insert key entry rest)

open_codes-insert_used :
    (key : Text) (old new : PairEntry) (codes : Store)
    → dict_lookup key codes ≡ some old
    → old.consumed ≡ false
    → new.consumed ≡ true
    → suc (open_codes (insert key new codes)) ≡ open_codes codes
unfolding insert dict_lookup
open_codes-insert_used key old new [] e live used = cc
open_codes-insert_used key old new ((name, value) ∷ rest) e live used =
    ground (arith, open_codes-insert_used key old new rest)

pub length-insert :
    (key : Text) (at : ℕ) (hellos : Dict ℕ) → length (insert key at hellos) ≤ suc (length hellos)
unfolding insert
length-insert key at [] = omega arith
length-insert key at ((name, value) ∷ rest) = ground (arith, length-insert key at rest)

pub length-filter {ℓ} : {A : Type ℓ} (p : A → Bool) (xs : List A) → length (filter p xs) ≤ length xs
length-filter p [] = omega arith
length-filter p (x ∷ xs) = ground (arith, length-filter p xs)

length-erase : (key : Text) (hellos : Dict ℕ) → length (erase key hellos) ≤ length hellos
unfolding erase
length-erase key [] = omega arith
length-erase key ((name, value) ∷ rest) = ground (arith, length-erase key rest)

length-erase_known :
    (key : Text) (at : ℕ) (hellos : Dict ℕ)
    → dict_lookup key hellos ≡ some at
    → suc (length (erase key hellos)) ≤ length hellos
unfolding erase dict_lookup
length-erase_known key at [] e = cc
length-erase_known key at ((name, value) ∷ rest) e =
    ground (arith, length-erase_known key at rest, length-erase key rest)

-- What a use of a code does to the number of open codes.
abbrev Spends : Store → LookupResult × Store → Type 0
Spends codes (found _, after) = suc (open_codes after) ≡ open_codes codes
Spends codes (failed _, after) = after ≡ codes

consume-Spends : (now : ℕ) (code : Text) (codes : Store) → Spends codes (consume now code codes)
unfolding consume lookup check_entry
consume-Spends now code codes = elim (Option-cases (dict_lookup (normalize code) codes)) [
  | inl e ↦ rw (e, consume) refl
  | inr (entry, e) ↦ elim (Bool-cases entry.consumed) [
    | inl used ↦ simp (e, used) refl
    | inr live ↦ elim (Bool-cases (ltb entry.expires_at now)) [
      | inl late ↦ simp (e, live, late) refl
      | inr in_time ↦
          simp (e, live, in_time)
            (open_codes-insert_used (normalize code) entry (record entry { consumed = true }) codes
              e live refl)
    ]
  ]
]

abbrev pub one : Bool → ℕ
one true = 1
one false = 0

-- A pairing by a code takes an open code, and an automatic one takes a hello.
abbrev pub Costs : PairState → ℕ × PairRequest → PairState × PairAnswer → Type 0
Costs s r (s', a) =
    (one (is_paired a) + open_codes s'.codes ≤ one (is_generate r) + open_codes s.codes)
    × (one (is_auto_paired a) + length s'.recent_hellos ≤ one (is_hello r) + length s.recent_hellos)

after_consume-Costs :
    (now : ℕ) (code node url : Text) (protocol : Option Text) (remote : Probe) (s : PairState)
    (x : LookupResult × Store) (r : ℕ × PairRequest)
    → Spends s.codes x
    → Costs s r (after_consume now code node url protocol remote s x)
after_consume-Costs now code node url protocol remote s (failed reason, codes) r e =
    ground (arith, ap open_codes e)
after_consume-Costs now code node url protocol remote s (found entry, codes) r e = omega arith

pub accept_with-Costs :
    (now : ℕ) (code : Text) (node url protocol : Option Text) (remote : Probe) (s : PairState)
    (r : ℕ × PairRequest)
    → Costs s r (accept_with now code node url protocol remote s)
accept_with-Costs now code none url protocol remote s r = omega arith
accept_with-Costs now code (some node) none protocol remote s r = omega arith
accept_with-Costs now code (some node) (some url) protocol remote s r =
    after_consume-Costs now code node url protocol remote s (consume now code s.codes) r
      (consume-Spends now code s.codes)

after_add-Costs :
    (zid : Text) (at : ℕ) (s : PairState) (x : PeersDisk × AddOutcome) (r : ℕ × PairRequest)
    → dict_lookup zid s.recent_hellos ≡ some at
    → Costs s r (after_add zid s x)
after_add-Costs zid at s (peers, pubkey_mismatch _ _ _) r e = omega arith
after_add-Costs zid at s (peers, invalid_alias) r e = omega arith
after_add-Costs zid at s (peers, invalid_url) r e = omega arith
after_add-Costs zid at s (peers, added _) r e =
    omega (arith, length-erase_known zid at s.recent_hellos e)

pub auto_with-Costs :
    (now : ℕ) (b : AutoBody) (node url zid protocol : Option Text) (remote : Probe) (s : PairState)
    (r : ℕ × PairRequest)
    → Costs s r (auto_with now b node url zid protocol remote s)
auto_with-Costs now b none url zid protocol remote s r = omega arith
auto_with-Costs now b (some node) none zid protocol remote s r = omega arith
auto_with-Costs now b (some node) (some url) none protocol remote s r = omega arith
auto_with-Costs now b (some node) (some url) (some zid) protocol remote s r =
    elim (Option-cases (dict_lookup zid s.recent_hellos)) [
      | inl e ↦ rw e (omega arith)
      | inr (at, e) ↦ elim (Bool-cases (is_recent now (dict_lookup zid s.recent_hellos))) [
        | inl recent ↦ simp (recent) (
            after_add-Costs zid at s (cmd_add (auto_options node url b) protocol remote now s.peers)
              r e)
        | inr old ↦ simp (old) (omega arith)
      ]
    ]
