-- ===== src/Prelude/Tests.antt =====
-- Boolean tests on the native numbers, the conditional, and splits that keep their equation.
use Prim.Native.Nat.{ℕ, ◌≤◌, ◌<◌, compare, Ordering}
use mathlib.Core.Path.{◌≡◌, refl}
use mathlib.Core.Logic.{◌↔◌, ◌⊎◌, inl, inr}
use mathlib.Core.Bool.{Bool, true, false, not, ◌&&◌, ◌||◌, false≢true}
use mathlib.Core.Option.{Option, none, some}
use native.Mathlib.Omega.{arith}

abbrev pub ltb : ℕ → ℕ → Bool
ltb a b = elim (compare a b) [ Ordering.lt ↦ true | _ ↦ false ]

abbrev pub leb : ℕ → ℕ → Bool
leb a b = elim (compare a b) [ Ordering.gt ↦ false | _ ↦ true ]

infix 50 ◌==◌
abbrev pub ◌==◌ : ℕ → ℕ → Bool
a == b = elim (compare a b) [ Ordering.eq ↦ true | _ ↦ false ]

infix 1 if◌then◌else◌
abbrev pub if◌then◌else◌ {ℓ} : {A : Type ℓ} → Bool → A → A → A
if true then x else y = x
if false then x else y = y

pub ltb→lt : (a b : ℕ) → ltb a b ≡ true → a < b
ltb→lt a b h = ground arith

pub lt→ltb : (a b : ℕ) → a < b → ltb a b ≡ true
lt→ltb a b h = ground arith

pub leb→le : (a b : ℕ) → leb a b ≡ true → a ≤ b
leb→le a b h = ground arith

pub ==_iff : (a b : ℕ) → ((a == b) ≡ true) ↔ (a ≡ b)
==_iff a b = ground arith

pub Bool-cases : (b : Bool) → (b ≡ true) ⊎ (b ≡ false)
Bool-cases true = inl refl
Bool-cases false = inr refl

pub Option-cases {ℓ} : {A : Type ℓ} (o : Option A) → (o ≡ none) ⊎ ((a : A) × (o ≡ some a))
Option-cases none = inl refl
Option-cases (some a) = inr (a, refl)

abbrev pub is_some {ℓ} : {A : Type ℓ} → Option A → Bool
is_some none = false
is_some (some _) = true

-- `a || b` and `a ?? b` on values that may be absent.
abbrev pub first_some {ℓ} : {A : Type ℓ} → Option A → Option A → Option A
first_some (some a) b = some a
first_some none b = b

-- Two tests that hold under the same condition are the same.
pub Bool-ext : (b c : Bool) → (b ≡ true → c ≡ true) → (c ≡ true → b ≡ true) → b ≡ c
Bool-ext true c f g = ground (arith, f refl)
Bool-ext false true f g = g refl
Bool-ext false false f g = refl

module _ {ℓ} {P : Type ℓ} where
  -- Joining a test that means `P` with another.
  pub or-eq-true_iff : (b c : Bool) → ((b ≡ true) ↔ P) → ((b || c) ≡ true) ↔ (P ⊎ (c ≡ true))
  or-eq-true_iff true c h = (λ _. inl (h.0 refl), λ _. refl)
  or-eq-true_iff false true h = (λ _. inr refl, λ _. refl)
  or-eq-true_iff false false h = (λ e. cc, elim [ inl p ↦ h.1 p | inr e ↦ e ])

  pub not-and-eq-true_iff :
      (b c : Bool) → ((b ≡ true) ↔ P) → ((not b && c) ≡ true) ↔ (¬ P × (c ≡ true))
  not-and-eq-true_iff true c h = (λ e. cc, λ e. absurd (e.0 (h.0 refl)))
  not-and-eq-true_iff false c h = (λ e. (λ p. false≢true (h.1 p), e), λ e. e.1)
