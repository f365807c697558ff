-- ===== src/Matcher/Normalize.antt =====
-- core/matcher/normalize-target.ts: the loops on fuel, the length of the text being enough.
use maw_js.Prelude.{
  ℕ, zero, suc, ◌-◌, ◌≤◌, ◌<◌, ◌≡◌, refl, inl, inr, true, false, [], ◌∷◌, ◌++◌, Text, text, ◌===◌,
  ===_iff, is_empty, is_empty_eq, trim, ends_with, length, if◌then◌else◌, arith, Bool-cases, sym,
  ap, subst, ◌∙◌, append_assoc, append-nil, length-append,
}
use maw_js.Names.{drop_last}

-- `while (s.endsWith("/")) s = s.slice(0, -1)`
unfoldable pub strip_slashes : ℕ → Text → Text
unfolding ends_with
strip_slashes zero s = s
strip_slashes (suc fuel) s = elim (ends_with s (text "/")) [
  | true ↦ strip_slashes fuel (drop_last 1 s)
  | false ↦ s
]

abbrev pub git_suffix : Text
git_suffix = text "/.git"

-- The body of the outer loop.
unfoldable pub strip_once : Text → Text
unfolding strip_slashes
strip_once s =
    let t = strip_slashes (length s) s in if ends_with t git_suffix then drop_last 5 t else t

-- `do { prev = s; … } while (s !== prev)`
unfoldable pub strip_loop : ℕ → Text → Text
unfolding strip_once
strip_loop zero s = s
strip_loop (suc fuel) s =
    let t = strip_once s in elim (t === s) [ true ↦ s | false ↦ strip_loop fuel t ]

-- An argument that is no string gives the empty text.
unfoldable pub normalize_target : Text → Text
unfolding strip_loop trim
normalize_target raw = let s = trim raw in if is_empty s then [] else strip_loop (suc (length s)) s

ends_with-split :
    (s p : Text) → ends_with s p ≡ true → (length p ≤ length s) × (drop_last (length p) s ++ p ≡ s)
unfolding ends_with
ends_with-split [] [] h = (omega arith, refl)
ends_with-split [] (_ ∷ _) h = cc
ends_with-split (c ∷ s) p h = elim (Bool-cases ((c ∷ s) === p)) [
  | inl same ↦
      let e = (===_iff (c ∷ s) p).0 same in
      let n = ap length e in
      let zero_left : length (c ∷ s) - length p ≡ 0 = omega (arith, n) in
      (omega (arith, n), rw zero_left (sym e))
  | inr other ↦
      let (le, e) = ends_with-split s p (ground (arith, other, h)) in
      let one_more : length (c ∷ s) - length p ≡ suc (length s - length p) = omega (arith, le) in
      (omega (arith, le), rw one_more (ap (λ t. c ∷ t) e))
]

-- What a typed name can have behind it: slashes and `/.git`, in any order.
pub data IsStack : Text → Type 0 where
  done : {s : Text} → s ≡ [] → IsStack s
  slash : {s t : Text} → s ≡ text "/" ++ t → IsStack t → IsStack s
  git : {s t : Text} → s ≡ git_suffix ++ t → IsStack t → IsStack s

IsStack-append : {s t : Text} → IsStack s → IsStack t → IsStack (s ++ t)
IsStack-append (done e) b = rw e b
IsStack-append {t = u} (slash {s} {t} e a) b = slash (rw e refl) (IsStack-append a b)
IsStack-append {t = u} (git {s} {t} e a) b = git (rw e refl) (IsStack-append a b)

-- `s` is `t` and a stack behind it.
abbrev pub Strips : (s t : Text) → Type 0
Strips s t = (rest : Text) × (t ++ rest ≡ s) × IsStack rest

Strips-trans : (s t u : Text) → Strips s t → Strips t u → Strips s u
Strips-trans s t u (r, e, a) (r', e', a') =
    (r' ++ r, sym (append_assoc u r' r) ∙ ap (λ x. x ++ r) e' ∙ e, IsStack-append a' a)

strip_slashes_lem :
    (fuel : ℕ) (s : Text)
    → length s ≤ fuel
    → Strips s (strip_slashes fuel s) × (ends_with (strip_slashes fuel s) (text "/") ≡ false)
unfolding strip_slashes
strip_slashes_lem zero [] h = (([], refl, done refl), refl)
strip_slashes_lem zero (_ ∷ _) h = absurd (omega arith)
strip_slashes_lem (suc fuel) s h = elim (Bool-cases (ends_with s (text "/"))) [
  | inl e ↦
      let (le, eq) = ends_with-split s (text "/") e in
      let shorter = drop_last 1 s in
      let n = ap length eq in
      let count = length-append shorter (text "/") in
      let (there, clean) = strip_slashes_lem fuel shorter (omega (arith, h, n, count)) in
      let one : Strips s shorter = (text "/", eq, slash refl (done refl)) in
      rw (e, strip_slashes) (Strips-trans s shorter (strip_slashes fuel shorter) one there, clean)
  | inr e ↦ rw (e, strip_slashes) (([], append-nil s, done refl), e)
]

-- Neither a slash nor `/.git` stands at the end.
abbrev pub IsClean : Text → Type 0
IsClean s = (ends_with s (text "/") ≡ false) × (ends_with s git_suffix ≡ false)

strip_once_lem : (s : Text) → Strips s (strip_once s) × (strip_once s ≡ s → IsClean s)
unfolding strip_once
strip_once_lem s =
    let t = strip_slashes (length s) s in
    let (there, clean) = strip_slashes_lem (length s) s (omega arith) in
    elim (Bool-cases (ends_with t git_suffix)) [
      | inl e ↦
          let (le, eq) = ends_with-split t git_suffix e in
          let five : Strips t (drop_last 5 t) = (git_suffix, eq, git refl (done refl)) in
          let all = Strips-trans s t (drop_last 5 t) there five in
          let split = ap length there.1 in
          let count = length-append t there.0 in
          let split' = ap length eq in
          let count' = length-append (drop_last 5 t) git_suffix in
          rw (e, strip_once)
            (
              all,
              λ same.
                  (let n = ap length same in
                    absurd (omega (arith, n, split, count, split', count'))),
            )
      | inr e ↦ rw (e, strip_once) (there, λ same. subst IsClean same (clean, e))
    ]

shorter_of_Strips : (s t : Text) → Strips s t → (t === s) ≡ false → length t < length s
shorter_of_Strips s t ([], e, a) other =
    let same = sym (append-nil t) ∙ e in cc (other, (===_iff t s).1 same)
shorter_of_Strips s t (c ∷ rest, e, a) other =
    let n = ap length e in omega (arith, n, length-append t (c ∷ rest))

strip_loop_lem :
    (fuel : ℕ) (s : Text)
    → length s < fuel
    → Strips s (strip_loop fuel s) × IsClean (strip_loop fuel s)
unfolding strip_loop
strip_loop_lem zero s h = absurd (omega arith)
strip_loop_lem (suc fuel) s h =
    let t = strip_once s in
    let (there, stable) = strip_once_lem s in
    elim (Bool-cases (t === s)) [
      | inl e ↦ rw (e, strip_loop) (([], append-nil s, done refl), stable ((===_iff t s).0 e))
      | inr e ↦
          let smaller = shorter_of_Strips s t there e in
          let (rest, clean) = strip_loop_lem fuel t (omega (arith, h, smaller)) in
          rw (e, strip_loop) (Strips-trans s t (strip_loop fuel t) there rest, clean)
    ]

-- The loops of `normalizeTarget` end, and take off the trimmed text exactly the slashes and `/.git` that
-- stand behind it: the result is followed there by such a stack, and ends with neither itself.
pub normalize_target_lem :
    (raw : Text) → Strips (trim raw) (normalize_target raw) × IsClean (normalize_target raw)
unfolding normalize_target
normalize_target_lem raw = elim (Bool-cases (is_empty (trim raw))) [
  | inl e ↦ rw (e, normalize_target) (([], sym (is_empty_eq (trim raw) e), done refl), (refl, refl))
  | inr e ↦
      rw (e, normalize_target) (strip_loop_lem (suc (length (trim raw))) (trim raw) (omega arith))
]
