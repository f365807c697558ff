-- ===== src/PairCodes/Shape.antt =====
-- lib/pair-codes.ts: the shape of codes.
use maw_js.Prelude.{
  ℕ, zero, suc, ◌%◌, ◌<◌, ◌≡◌, refl, sym, ap, Bool, true, false, not, ◌&&◌, List, [], ◌∷◌, ◌++◌,
  map, arith, length, length-map, take, drop, filter, filter-append, take-append-drop, all, get_or,
  Text, is_space, to_upper, has_char, ◌==◌, ==_iff, Bool-cases, inl, inr, ◌∙◌, ◌≡⟨◌⟩◌, ◌∎,
}
use mathlib.Core.List.{map-append}
use maw_js.PairCodes.{
  alphabet, is_separator, normalize, is_valid_shape, pretty, redact, code_char, generate_code,
}

-- A character that a code may have, and that `normalize` keeps as it is.
abbrev is_code_char : ℕ → Bool
is_code_char c = has_char c alphabet && (not (is_separator c) && to_upper c == c)

get_or-all :
    (p : ℕ → Bool) (xs : Text) (i d : ℕ)
    → all p xs ≡ true
    → i < length xs
    → p (get_or xs i d) ≡ true
get_or-all p [] i d h lt = absurd (omega arith)
get_or-all p (x ∷ xs) zero d h lt = ground arith
get_or-all p (x ∷ xs) (suc i) d h lt = get_or-all p xs i d (ground arith) (omega arith)

alphabet_lem : all is_code_char alphabet ≡ true
unfolding has_char is_space to_upper
alphabet_lem = refl

code_char_lem : (byte : ℕ) → is_code_char (code_char byte) ≡ true
code_char_lem byte = get_or-all is_code_char alphabet (byte % 32) 0 alphabet_lem (omega arith)

kept_by_normalize : (s : Text) → all is_code_char s ≡ true → normalize s ≡ s
unfolding normalize
kept_by_normalize [] h = refl
kept_by_normalize (c ∷ s) h = ground (arith, kept_by_normalize s, ==_iff (to_upper c) c)

all-code_char : (bytes : List ℕ) → all is_code_char (map code_char bytes) ≡ true
all-code_char [] = refl
all-code_char (b ∷ bs) = rw (code_char_lem b) (all-code_char bs)

in_alphabet : (s : Text) → all is_code_char s ≡ true → all (λ c. has_char c alphabet) s ≡ true
in_alphabet [] h = refl
in_alphabet (c ∷ s) h = ground (arith, in_alphabet s)

-- A generated code is its own normal form, and has the shape that `isValidShape` asks for, whatever
-- the six random bytes are.
pub generate_code-is_valid_shape :
    (bytes : List ℕ)
    → length bytes ≡ 6
    → (normalize (generate_code bytes) ≡ generate_code bytes)
      × (is_valid_shape (generate_code bytes) ≡ true)
unfolding generate_code is_valid_shape
generate_code-is_valid_shape bytes h =
    let kept = kept_by_normalize (map code_char bytes) (all-code_char bytes) in
    (kept, rw (kept, length-map code_char bytes, h, in_alphabet _ (all-code_char bytes)))

separator-upper : (c : ℕ) → is_separator c ≡ false → is_separator (to_upper c) ≡ false
unfolding is_space to_upper
separator-upper c h = ground arith

upper_idem : (c : ℕ) → to_upper (to_upper c) ≡ to_upper c
unfolding to_upper
upper_idem c = ground arith

normalize_idempotent : (s : Text) → normalize (normalize s) ≡ normalize s
unfolding normalize
normalize_idempotent [] = refl
normalize_idempotent (c ∷ s) =
    ground (arith, normalize_idempotent s, separator-upper c, upper_idem c)

normalize-append : (s t : Text) → normalize (s ++ t) ≡ normalize s ++ normalize t
unfolding normalize
normalize-append s t =
    rw (filter-append (λ c. not (is_separator c)) s t)
      (map-append to_upper (filter (λ c. not (is_separator c)) s) _)

normalize-hyphen : (s : Text) → normalize (b'-' ∷ s) ≡ normalize s
unfolding normalize is_space
normalize-hyphen s = refl

normalize-hyphenate : (c : Text) → normalize (take 3 c ++ (b'-' ∷ drop 3 c)) ≡ normalize c
normalize-hyphenate c =
    normalize (take 3 c ++ (b'-' ∷ drop 3 c))
    ≡⟨ normalize-append (take 3 c) _ ⟩ normalize (take 3 c) ++ normalize (b'-' ∷ drop 3 c)
    ≡⟨ ap (λ t. normalize (take 3 c) ++ t) (normalize-hyphen (drop 3 c)) ⟩
      normalize (take 3 c) ++ normalize (drop 3 c)
    ≡⟨ sym (normalize-append (take 3 c) (drop 3 c)) ⟩ normalize (take 3 c ++ drop 3 c)
    ≡⟨ ap normalize (take-append-drop 3 c) ⟩ normalize c ∎

-- The spelling that is shown to a human is read back as the same code.
pub normalize-pretty : (code : Text) → normalize (pretty code) ≡ normalize code
unfolding pretty
normalize-pretty code = elim (Bool-cases (length (normalize code) == 6)) [
  | inl six ↦ rw six (normalize-hyphenate (normalize code) ∙ normalize_idempotent code)
  | inr other ↦ rw other (normalize_idempotent code)
]

-- Two codes whose normal forms have one length and the same first three characters have the same redacted
-- form.
pub redact-eq :
    (a b : Text)
    → length (normalize a) ≡ length (normalize b)
    → take 3 (normalize a) ≡ take 3 (normalize b)
    → redact a ≡ redact b
unfolding redact
redact-eq a b h e = rw (h, e) refl
