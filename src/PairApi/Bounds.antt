-- ===== src/PairApi/Bounds.antt =====
-- api/pair.ts: how often nodes can pair, over any sequence of requests that do not overlap.
use maw_js.Prelude.{
  ℕ, ◌+◌, ◌≤◌, ◌≡◌, inl, inr, refl, Bool, false, Option, none, some, List, [], ◌∷◌, Text, length,
  ap, Bool-cases, arith,
}
use maw_js.Prelude.Dict.{lookup as dict_lookup, insert}
use maw_js.PairCodes.{
  generate_code, is_valid_shape, not_found, expired, consumed, register, LookupResult, found,
  failed, lookup, normalize,
}
use maw_js.Routing.{non_empty_text}
use maw_js.PairApi.{
  PairResult, status_answer, PairState, PairRequest, generate, probe, accept, status, hello, auto,
  PairAnswer, ttl_of, probe_answer, probe_pair, status_without_result, status_pair, generate_pair,
  accept_pair, is_fresh, record_hello_zid, auto_pair, handle,
}
use maw_js.PairApi.Costs.{
  is_generate, is_hello, is_paired, is_auto_paired, count, open_codes, open_codes-insert,
  length-insert, length-filter, one, Costs, accept_with-Costs, auto_with-Costs,
}

-- The requests in turn, each at its time, and their answers.
unfoldable pub run : List (ℕ × PairRequest) → PairState → PairState × List PairAnswer
unfolding handle
run [] s = (s, [])
run ((now, request) ∷ rest) s =
    let (s', answer) = handle now request s in
    let (end, answers) = run rest s' in (end, answer ∷ answers)

-- A question about a code pairs nobody.
abbrev IsQuiet : PairAnswer → Type 0
IsQuiet a = (is_paired a ≡ false) × (is_auto_paired a ≡ false)

probe_answer-IsQuiet : (r : LookupResult) → IsQuiet (probe_answer r)
probe_answer-IsQuiet (found _) = (refl, refl)
probe_answer-IsQuiet (failed _) = (refl, refl)

probe_pair-IsQuiet : (now : ℕ) (code : Text) (s : PairState) → IsQuiet (probe_pair now code s)
unfolding probe_pair
probe_pair-IsQuiet now code s = elim (Bool-cases (is_valid_shape code)) [
  | inl shaped ↦ simp (shaped) (probe_answer-IsQuiet (lookup now code s.codes))
  | inr bad ↦ simp (bad) (refl, refl)
]

status_without_result-IsQuiet : (r : LookupResult) → IsQuiet (status_without_result r)
status_without_result-IsQuiet (found _) = (refl, refl)
status_without_result-IsQuiet (failed not_found) = (refl, refl)
status_without_result-IsQuiet (failed expired) = (refl, refl)
status_without_result-IsQuiet (failed consumed) = (refl, refl)

status_answer-IsQuiet :
    (result : Option PairResult) (r : LookupResult) → IsQuiet (status_answer result r)
status_answer-IsQuiet (some _) r = (refl, refl)
status_answer-IsQuiet none r = status_without_result-IsQuiet r

status_pair-IsQuiet : (now : ℕ) (code : Text) (s : PairState) → IsQuiet (status_pair now code s)
unfolding status_pair
status_pair-IsQuiet now code s =
    status_answer-IsQuiet (dict_lookup (normalize code) s.results)
      (lookup now (normalize code) s.codes)

quiet-Costs : (r : ℕ × PairRequest) (s : PairState) (a : PairAnswer) → IsQuiet a → Costs s r (s, a)
quiet-Costs r s a quiet = simp (quiet.0, quiet.1) (omega arith)

handle-Costs :
    (now : ℕ) (request : PairRequest) (s : PairState)
    → Costs s (now, request) (handle now request s)
unfolding handle generate_pair register accept_pair record_hello_zid auto_pair
handle-Costs now (generate bytes ttl_ms expires) s = omega (
  arith,
  open_codes-insert (normalize (generate_code bytes))
      (record {
        code = normalize (generate_code bytes);
        expires_at = now + ttl_of ttl_ms expires;
        consumed = false;
        created_at = now;
      })
      s.codes,
)
handle-Costs now (probe code) s =
    quiet-Costs (now, probe code) s (probe_pair now code s) (probe_pair-IsQuiet now code s)
handle-Costs now (accept code name url protocol remote) s =
    let r : ℕ × PairRequest = (now, accept code name url protocol remote) in
    elim (Bool-cases (is_valid_shape code)) [
      | inl shaped ↦ simp (shaped) (
          accept_with-Costs now code (non_empty_text name) (non_empty_text url) protocol remote s r)
      | inr bad ↦ simp (bad) (omega arith)
    ]
handle-Costs now (status code) s =
    quiet-Costs (now, status code) s (status_pair now code s) (status_pair-IsQuiet now code s)
handle-Costs now (hello zid) s = omega (
  arith,
  length-filter (is_fresh now) (insert zid now s.recent_hellos),
  length-insert zid now s.recent_hellos,
)
handle-Costs now (auto b protocol remote) s =
    auto_with-Costs now b (non_empty_text b.node) (non_empty_text b.url) (non_empty_text b.zid)
      protocol remote s (now, auto b protocol remote)

count-cons {ℓ} :
    {A : Type ℓ} (p : A → Bool) (x : A) (xs : List A) → count p (x ∷ xs) ≡ one (p x) + count p xs
count-cons p x xs = ground arith

-- What a run of requests costs, in open codes and in hellos.
run-Costs :
    (requests : List (ℕ × PairRequest)) (s : PairState)
    → (count is_paired (run requests s).1 + open_codes (run requests s).0.codes
        ≤ count is_generate requests + open_codes s.codes)
      × (count is_auto_paired (run requests s).1 + length (run requests s).0.recent_hellos
          ≤ count is_hello requests + length s.recent_hellos)
unfolding run
run-Costs [] s = omega arith
run-Costs ((now, request) ∷ rest) s =
    let s' = (handle now request s).0 in
    let a = (handle now request s).1 in
    omega (
      arith,
      handle-Costs now request s,
      run-Costs rest s',
      count-cons is_paired a (run rest s').1,
      count-cons is_auto_paired a (run rest s').1,
      count-cons is_generate (now, request) rest,
      count-cons is_hello (now, request) rest,
    )

-- Over any sequence of requests to the pairing API, each handled to its end before the next one, from a state without
-- codes and hellos, at most as many `accept`
-- requests pair as codes were generated, and at most as many automatic requests pair as hellos were recorded.
pub pairings_bounded :
    (requests : List (ℕ × PairRequest)) (s : PairState)
    → s.codes ≡ []
    → s.recent_hellos ≡ []
    → (count is_paired (run requests s).1 ≤ count is_generate requests)
      × (count is_auto_paired (run requests s).1 ≤ count is_hello requests)
pairings_bounded requests s no_codes no_hellos =
    omega (arith, run-Costs requests s, ap open_codes no_codes, ap length no_hellos)
