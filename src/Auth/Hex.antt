-- ===== src/Auth/Hex.antt =====
-- Node's `Buffer.from(s, "hex")` and `timingSafeEqual`.
use maw_js.Prelude.{
  ℕ, ◌+◌, ◌-◌, ◌*◌, ◌<◌, ◌≡◌, refl, Bool, true, ◌&&◌, ◌||◌, Option, none, some, List, [], ◌∷◌, Text,
  ◌===◌, ===_iff, ===-refl, Option-cases, inl, inr, ◌≢◌, if◌then◌else◌, ◌==◌, leb, length, to_lower,
  lower_case, arith, all,
}

unfoldable pub nibble : ℕ → Option ℕ
nibble c =
    if leb 48 c && leb c 57
    then some (c - 48)
    else (if leb 97 c && leb c 102
        then some (c - 87)
        else (if leb 65 c && leb c 70 then some (c - 55) else none))

-- The bytes of the pairs up to the first that is not hex.
abbrev cons_pair : Option ℕ → Option ℕ → List ℕ → List ℕ
cons_pair (some a) (some b) rest = (a * 16 + b) ∷ rest
cons_pair _ _ rest = []

unfoldable pub hex_decode : Text → List ℕ
unfolding nibble
hex_decode [] = []
hex_decode (c ∷ []) = []
hex_decode (c ∷ d ∷ s) = cons_pair (nibble c) (nibble d) (hex_decode s)

-- `expected.length !== signature.length` and the comparison of the buffers, which throws, and so
-- fails, if they differ in length.
unfoldable pub same_digest : (expected signature : Text) → Bool
unfolding hex_decode
same_digest expected signature =
    length expected == length signature && hex_decode expected === hex_decode signature

-- A text of lowercase hex digits, of even length: what a digest is.
abbrev pub is_hex_char : ℕ → Bool
is_hex_char c = (leb 48 c && leb c 57) || (leb 97 c && leb c 102)

abbrev pub IsDigest : Text → Type 0
IsDigest [] = Unit
IsDigest (c ∷ []) = ⊥
IsDigest (c ∷ d ∷ s) = (is_hex_char c ≡ true) × (is_hex_char d ≡ true) × IsDigest s

nibble-lt : (c n : ℕ) → nibble c ≡ some n → n < 16
unfolding nibble
nibble-lt c n h = ground arith

nibble-hex : (c : ℕ) → is_hex_char c ≡ true → nibble c ≢ none
unfolding nibble
nibble-hex c h e = ground arith

nibble-lower :
    (c d n : ℕ) → is_hex_char c ≡ true → nibble c ≡ some n → nibble d ≡ some n → to_lower d ≡ c
unfolding nibble to_lower
nibble-lower c d n h p q = ground arith

pair-eq :
    (x y : ℕ) (rest : List ℕ) (a b : Option ℕ) (rest' : List ℕ)
    → y < 16
    → ((n : ℕ) → b ≡ some n → n < 16)
    → (x * 16 + y) ∷ rest ≡ cons_pair a b rest'
    → (a ≡ some x) × (b ≡ some y) × (rest ≡ rest')
pair-eq x y rest (some a) (some b) rest' hy hb e =
    let small = hb b refl in (ground arith, ground arith, ground arith)
pair-eq x y rest none b rest' hy hb e = cc
pair-eq x y rest (some a) none rest' hy hb e = cc

hex_decode-lower :
    (e s : Text) → IsDigest e → length e ≡ length s → hex_decode e ≡ hex_decode s → lower_case s ≡ e
unfolding hex_decode
hex_decode-lower [] [] h l d = refl
hex_decode-lower [] (_ ∷ _) h l d = absurd (omega arith)
hex_decode-lower (_ ∷ []) s h l d = absurd h
hex_decode-lower (c ∷ c' ∷ e) [] h l d = absurd (omega arith)
hex_decode-lower (c ∷ c' ∷ e) (_ ∷ []) h l d = absurd (omega arith)
hex_decode-lower (c ∷ c' ∷ e) (a ∷ a' ∷ s) (hc, hc', he) l d = elim (Option-cases (nibble c)) [
  | inl p ↦ absurd (nibble-hex c hc p)
  | inr (x, p) ↦ elim (Option-cases (nibble c')) [
    | inl q ↦ absurd (nibble-hex c' hc' q)
    | inr (y, q) ↦
        let (ax, ay, rest) =
          pair-eq x y (hex_decode e) (nibble a) (nibble a') (hex_decode s) (nibble-lt c' y q)
            (λ n. nibble-lt a' n) (rw (p, q) at d) in
        cc (
          nibble-lower c a x hc p ax,
          nibble-lower c' a' y hc' q ay,
          hex_decode-lower e s he (omega arith) rest,
        )
  ]
]

-- A signature that passes the comparison is the digest, up to the case of its letters.
pub same_digest_sound : (e s : Text) → IsDigest e → (same_digest e s ≡ true) → lower_case s ≡ e
unfolding same_digest
same_digest_sound e s h same =
    hex_decode-lower e s h (ground arith) (ground (arith, ===_iff (hex_decode e) (hex_decode s)))

pub same_digest_refl : (e : Text) → same_digest e e ≡ true
unfolding same_digest
same_digest_refl e = ground (arith, ===-refl (hex_decode e))

-- What holds of lowercase hex digits holds of a digest.
pub all_of_IsDigest :
    (p : ℕ → Bool)
    → ((c : ℕ) → is_hex_char c ≡ true → p c ≡ true)
    → (s : Text) → IsDigest s
    → all p s ≡ true
all_of_IsDigest p h [] d = refl
all_of_IsDigest p h (_ ∷ []) d = absurd d
all_of_IsDigest p h (c ∷ c' ∷ s) (hc, hc', d) = ground (arith, h c, h c', all_of_IsDigest p h s d)
