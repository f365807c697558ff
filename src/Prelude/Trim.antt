-- ===== src/Prelude/Trim.antt =====
-- Texts without white space are left alone by `trim`.
use mathlib.Core.Path.{◌≡◌, refl, ap, ◌∙◌}
use mathlib.Core.Bool.{Bool, true, not}
use mathlib.Core.List.{[], ◌∷◌, ◌++◌, reverse, reverse-reverse, reverse-cons}
use native.Mathlib.Omega.{arith}
use maw_js.Prelude.Lists.{all}
use maw_js.Prelude.Strings.{Text, is_space, trim_start, trim}

abbrev pub no_space : Text → Bool
no_space = all (λ c. not (is_space c))

trim_start-no_space : (s : Text) → no_space s ≡ true → trim_start s ≡ s
trim_start-no_space [] h = refl
trim_start-no_space (c ∷ s) h = ground arith

no_space-append : (s t : Text) → no_space s ≡ true → no_space t ≡ true → no_space (s ++ t) ≡ true
no_space-append [] t h k = k
no_space-append (c ∷ s) t h k = ground (arith, no_space-append s t)

no_space-reverse : (s : Text) → no_space s ≡ true → no_space (reverse s) ≡ true
no_space-reverse [] h = refl
no_space-reverse (c ∷ s) h =
    rw reverse-cons
      (no_space-append (reverse s) (c ∷ []) (no_space-reverse s (ground arith)) (ground arith))

pub trim-no_space : (s : Text) → no_space s ≡ true → trim s ≡ s
unfolding trim
trim-no_space s h =
    ap (λ t. reverse (trim_start (reverse t))) (trim_start-no_space s h)
    ∙ ap reverse (trim_start-no_space (reverse s) (no_space-reverse s h))
    ∙ reverse-reverse s
