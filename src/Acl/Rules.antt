-- ===== src/Acl/Rules.antt =====
-- commands/shared/scope-acl.ts: the rules that allow a message, and the trust list's part in them.
use maw_js.Prelude.{
  ℕ, ◌≡◌, ◌↔◌, ◌⊎◌, ◌∙◌, refl, sym, ap, subst, inl, inr, Bool, true, ◌&&◌, ◌||◌, none, some, List,
  [], ◌∷◌, map, filter, Text, text, ends_with, ◌===◌, ===_iff, ===-refl, ===-comm, any, arith,
  Bool-cases, Memᴰ, member_of_any, any_of_member, if◌then◌else◌,
}
use maw_js.Disk.{TrustEntryOnDisk, Disk}
use maw_js.TrustFiles.{load_trust, same_pair, cmd_add}
use maw_js.TrustFiles.Shared.{pairs, pairs_comm, IsPair, cmd_add_lem}
use maw_js.Acl.{
  Scope, scopes_of, TrustPair, allow, queue, includes_name, shares, trusts, evaluate_acl, ScopesDir,
  insert_by, sort_by_name, load_all_scopes, load_trust_from_disk, evaluate_acl_from_disk,
}

-- A rule that allows a message between two different oracles.
pub data IsAllowed (s t : Text) (scopes : List Scope) (trust : List TrustPair) : Type 0 where
  self : s ≡ t → IsAllowed s t scopes trust
  by_scope :
      {sc : Scope}
      → Memᴰ sc scopes
      → Memᴰ s sc.members
      → Memᴰ t sc.members
      → IsAllowed s t scopes trust
  by_trust :
      {e : TrustPair}
      → Memᴰ e trust
      → ((e.sender ≡ s) × (e.target ≡ t)) ⊎ ((e.sender ≡ t) × (e.target ≡ s))
      → IsAllowed s t scopes trust

includes_iff :
    (name : Text) (members : List Text) → (includes_name name members ≡ true) ↔ Memᴰ name members
includes_iff name members = (
  λ h.
      (let (x, m, e) = member_of_any (λ m. m === name) members h in
        subst (λ y. Memᴰ y members) ((===_iff x name).0 e) m),
  λ m. any_of_member (λ m. m === name) name members m (===-refl name),
)

trusts_iff :
    (s t : Text) (e : TrustPair)
    → (trusts s t e ≡ true)
      ↔ (((e.sender ≡ s) × (e.target ≡ t)) ⊎ ((e.sender ≡ t) × (e.target ≡ s)))
trusts_iff s t e = (
  λ h. elim (Bool-cases (e.sender === s && e.target === t)) [
    | inl b ↦ inl (ground (arith, b, ===_iff e.sender s), ground (arith, b, ===_iff e.target t))
    | inr b ↦
        inr (ground (arith, b, h, ===_iff e.sender t), ground (arith, b, h, ===_iff e.target s))
  ],
  λ o. elim o [
    | inl (a, b) ↦ ground (arith, (===_iff e.sender s).1 a, (===_iff e.target t).1 b)
    | inr (a, b) ↦ ground (arith, (===_iff e.sender t).1 a, (===_iff e.target s).1 b)
  ],
)

rule_of_allow :
    (s t : Text) (scopes : List Scope) (trust : List TrustPair)
    → evaluate_acl s t scopes trust ≡ allow
    → IsAllowed s t scopes trust
unfolding evaluate_acl
rule_of_allow s t scopes trust h = elim (Bool-cases (s === t)) [
  | inl e ↦ self ((===_iff s t).0 e)
  | inr e ↦ elim (Bool-cases (any (shares s t) scopes)) [
    | inl shared ↦
        let (sc, m, both) = member_of_any (shares s t) scopes shared in
        by_scope m ((includes_iff s sc.members).0 (ground arith))
          ((includes_iff t sc.members).0 (ground arith))
    | inr apart ↦
        let (p, m, pair) = member_of_any (trusts s t) trust (ground (arith, e, apart, h)) in
        by_trust m ((trusts_iff s t p).0 pair)
  ]
]

allow_of_rule :
    (s t : Text) (scopes : List Scope) (trust : List TrustPair)
    → IsAllowed s t scopes trust
    → evaluate_acl s t scopes trust ≡ allow
unfolding evaluate_acl
allow_of_rule s t scopes trust (self e) = ground (arith, (===_iff s t).1 e)
allow_of_rule s t scopes trust (by_scope {sc} m ms mt) =
    let both : shares s t sc ≡ true =
      ground (arith, (includes_iff s sc.members).1 ms, (includes_iff t sc.members).1 mt) in
    ground (arith, any_of_member (shares s t) sc scopes m both)
allow_of_rule s t scopes trust (by_trust {e} m pair) =
    ground (arith, any_of_member (trusts s t) e trust m ((trusts_iff s t e).1 pair))

-- A message is allowed exactly if the two oracles are one, or are members of one scope, or a trust entry
-- joins them in either direction.
pub evaluate_acl_iff :
    (s t : Text) (scopes : List Scope) (trust : List TrustPair)
    → (evaluate_acl s t scopes trust ≡ allow) ↔ IsAllowed s t scopes trust
evaluate_acl_iff s t scopes trust = (rule_of_allow s t scopes trust, allow_of_rule s t scopes trust)

-- The files of the scopes directory in any order of reading hold the same rules.
any-insert_by :
    (p : Scope → Bool) (before : Text → Text → Bool) (s : Scope) (xs : List Scope)
    → any p (insert_by before s xs) ≡ (p s || any p xs)
unfolding insert_by
any-insert_by p before s [] = refl
any-insert_by p before s (t ∷ rest) = ground (arith, any-insert_by p before s rest)

any-sort_by_name :
    (p : Scope → Bool) (before : Text → Text → Bool) (xs : List Scope)
    → any p (sort_by_name before xs) ≡ any p xs
unfolding sort_by_name
any-sort_by_name p before [] = refl
any-sort_by_name p before (s ∷ rest) =
    any-insert_by p before s (sort_by_name before rest)
    ∙ ap (λ b. p s || b) (any-sort_by_name p before rest)

-- The decision in two rules: a scope or none, and the pairwise list.
trusts-pairs :
    (s t : Text) (list : List TrustEntryOnDisk)
    → any (trusts s t) (map (λ e. record { sender = e.sender; target = e.target }) list)
      ≡ pairs s t list
unfolding same_pair
trusts-pairs s t [] = refl
trusts-pairs s t (e ∷ list) = ground (arith, trusts-pairs s t list)

-- The decision in its three tests.
acl_tests :
    (before : Text → Text → Bool) (s t : Text) (dir : ScopesDir) (d : Disk)
    → evaluate_acl_from_disk before s t dir d ≡ (
        if s === t || any (shares s t) (load_all_scopes before dir) || pairs s t (load_trust d)
        then allow
        else queue)
unfolding evaluate_acl_from_disk evaluate_acl load_trust_from_disk
acl_tests before s t dir d = ground (arith, trusts-pairs s t (load_trust d))

-- After a pair of two different non-empty names is added to the trust list, messages between the two are
-- allowed in both directions, and every other decision is as before, whatever the scopes are.
pub cmd_add-acl :
    (before : Text → Text → Bool) (s t : Text) (now : ℕ) (dir : ScopesDir) (d : Disk) (a b : Text)
    → IsPair s t
    → evaluate_acl_from_disk before a b dir (cmd_add s t now d).0
      ≡ (if same_pair (s, t) (a, b) then allow else evaluate_acl_from_disk before a b dir d)
cmd_add-acl before s t now dir d a b ok = ground (
  arith,
  acl_tests before a b dir d,
  acl_tests before a b dir (cmd_add s t now d).0,
  (cmd_add_lem s t now now d ok).0.0 a b,
)

shares_comm : (s t : Text) (scopes : List Scope) → any (shares s t) scopes ≡ any (shares t s) scopes
shares_comm s t [] = refl
shares_comm s t (sc ∷ rest) = ground (arith, shares_comm s t rest)

-- Which scopes there are does not depend on the order of their names.
any_loaded :
    (before before' : Text → Text → Bool) (s t : Text) (dir : ScopesDir)
    → any (shares s t) (load_all_scopes before dir) ≡ any (shares t s) (load_all_scopes before' dir)
unfolding load_all_scopes ends_with
any_loaded before before' s t none = refl
any_loaded before before' s t (some files) =
    let read = scopes_of (filter (λ f. ends_with f.0 (text ".json")) files) in
    any-sort_by_name (shares s t) before read
    ∙ shares_comm s t read
    ∙ sym (any-sort_by_name (shares t s) before' read)

-- The decision is the same in both directions, and does not depend on the order of names in which the
-- scopes are sorted.
pub evaluate_acl_comm :
    (before before' : Text → Text → Bool) (s t : Text) (dir : ScopesDir) (d : Disk)
    → evaluate_acl_from_disk before s t dir d ≡ evaluate_acl_from_disk before' t s dir d
evaluate_acl_comm before before' s t dir d = ground (
  arith,
  acl_tests before s t dir d,
  acl_tests before' t s dir d,
  any_loaded before before' s t dir,
  ===-comm s t,
  pairs_comm s t (load_trust d),
)
