-- ===== src/PairCodes/SingleUse.antt =====
-- lib/pair-codes.ts: what the store promises about one code over time.
use maw_js.Prelude.{
  ℕ, suc, ◌+◌, ◌≤◌, ◌≡◌, Bool, true, false, List, [], ◌∷◌, arith, if◌then◌else◌, ltb, Text, ◌===◌,
  ===_iff, ===-refl, Option, none, some, Option-cases, Bool-cases, inl, inr,
}
use maw_js.Prelude.Dict.{lookup-insert, lookup-insert_self, lookup as dict_lookup}
use maw_js.PairCodes.{
  PairEntry, normalize, Store, register, not_found, expired, consumed, LookupResult, found, failed,
  check_entry, lookup, consume,
}

-- A code that is registered can be consumed until its time to live has passed, however it is spelled.
pub consume-register :
    (t ttl now : ℕ) (code spelled : Text) (store : Store)
    → normalize spelled ≡ normalize code
    → (consume now spelled (register t code ttl store).1).0 ≡ (
        if ltb (t + ttl) now
        then failed expired
        else found (record (register t code ttl store).0 { consumed = true }))
unfolding consume lookup register
consume-register t ttl now code spelled store h = rw h (
    ground (
      arith,
      lookup-insert (normalize code) (normalize code) (register t code ttl store).0 store,
      ===-refl (normalize code),
    ))

-- Attempts to use codes, each at a time of its own.
abbrev pub Attempt : Type 0
Attempt = ℕ × Text

abbrev pub count_if : Bool → LookupResult → ℕ → ℕ
count_if true (found _) n = suc n
count_if _ _ n = n

-- How many of the attempts at the code with normal form `key` succeed.
unfoldable pub successes : Text → List Attempt → Store → ℕ
successes key [] store = 0
successes key ((now, code) ∷ rest) store =
    let (result, store') = consume now code store in
    count_if (normalize code === key) result (successes key rest store')

-- How many more times the code of an entry can be used.
abbrev uses_left : Option PairEntry → ℕ
uses_left none = 0
uses_left (some entry) = if entry.consumed then 0 else 1

consume-other :
    (now : ℕ) (code key : Text) (store : Store)
    → (normalize code === key) ≡ false
    → dict_lookup key (consume now code store).1 ≡ dict_lookup key store
unfolding consume lookup check_entry
consume-other now code key store h = elim (Option-cases (dict_lookup (normalize code) store)) [
  | inl e ↦ rw e
  | inr (entry, e) ↦
      rw e (
        ground (arith, lookup-insert (normalize code) key (record entry { consumed = true }) store))
]

consume-uses_left :
    (now : ℕ) (code : Text) (store : Store)
    → count_if true (consume now code store).0 0
        + uses_left (dict_lookup (normalize code) (consume now code store).1)
      ≤ uses_left (dict_lookup (normalize code) store)
unfolding consume lookup check_entry
consume-uses_left now code store = elim (Option-cases (dict_lookup (normalize code) store)) [
  | inl e ↦ rw e (rw e (omega arith))
  | inr (entry, e) ↦ rw e (
      ground
        (arith, e, lookup-insert_self (normalize code) (record entry { consumed = true }) store))
]

successes-le :
    (key : Text) (attempts : List Attempt) (store : Store)
    → successes key attempts store ≤ uses_left (dict_lookup key store)
unfolding successes
successes-le key [] store = omega arith
successes-le key ((now, code) ∷ rest) store =
    let ih = successes-le key rest (consume now code store).1 in
    elim (Bool-cases (normalize code === key)) [
      | inl same ↦
          let e = (===_iff (normalize code) key).0 same in
          rw same (ground (arith, ih, e, rw e at (consume-uses_left now code store)))
      | inr other ↦ rw other (rw (consume-other now code key store other) at ih)
    ]

-- Whatever attempts are made, at whatever times and in whatever spellings, a code is used at most
-- once; and a code that the store lacks or has consumed is never used.
pub single_use :
    (code : Text) (attempts : List Attempt) (store : Store)
    → (successes (normalize code) attempts store ≤ 1)
      × ((now : ℕ)
          → (consume now code store).0 ≡ failed not_found
          → successes (normalize code) attempts store ≡ 0)
      × ((now : ℕ)
          → (consume now code store).0 ≡ failed consumed
          → successes (normalize code) attempts store ≡ 0)
unfolding consume lookup check_entry
single_use code attempts store =
    let bound = successes-le (normalize code) attempts store in
    (ground (arith, bound), λ now e. ground (arith, bound), λ now e. ground (arith, bound))
