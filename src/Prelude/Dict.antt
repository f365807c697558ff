-- ===== src/Prelude/Dict.antt =====
-- A JavaScript `Map` or plain object keyed by strings, as the list of its entries in insertion order.
use mathlib.Core.Path.{◌≡◌, refl}
use mathlib.Core.Option.{Option, none, some}
use mathlib.Core.List.{List, [], ◌∷◌}
use native.Mathlib.Omega.{arith}
use maw_js.Prelude.Tests.{if◌then◌else◌}
use maw_js.Prelude.Strings.{Text, ◌===◌, ===_iff, ===-refl}

abbrev pub Dict {ℓ} : Type ℓ → Type ℓ
Dict V = List (Text × V)

module _ {ℓ} {V : Type ℓ} where
  unfoldable pub lookup : Text → Dict V → Option V
  lookup key [] = none
  lookup key ((name, value) ∷ rest) = if name === key then some value else lookup key rest

  -- `m.set(key, v)`: an entry that is there keeps its place.
  unfoldable pub insert : Text → V → Dict V → Dict V
  insert key new [] = (key, new) ∷ []
  insert key new ((name, value) ∷ rest) =
      let after = insert key new rest in
      if name === key then (key, new) ∷ rest else (name, value) ∷ after

  -- `m.delete(key)`.
  unfoldable pub erase : Text → Dict V → Dict V
  erase key [] = []
  erase key ((name, value) ∷ rest) =
      let after = erase key rest in if name === key then after else (name, value) ∷ after

  pub lookup-insert :
      (set get : Text) (new : V) (entries : Dict V)
      → lookup get (insert set new entries) ≡ (if set === get then some new else lookup get entries)
  unfolding lookup insert
  lookup-insert set get new [] = refl
  lookup-insert set get new ((name, value) ∷ rest) =
      ground
        (arith, ===_iff set get, ===_iff name set, ===_iff name get, lookup-insert set get new rest)

  pub lookup-insert_self :
      (key : Text) (new : V) (entries : Dict V) → lookup key (insert key new entries) ≡ some new
  lookup-insert_self key new entries =
      ground (arith, lookup-insert key key new entries, ===-refl key)

  pub lookup-erase :
      (gone get : Text) (entries : Dict V)
      → lookup get (erase gone entries) ≡ (if gone === get then none else lookup get entries)
  unfolding lookup erase
  lookup-erase gone get [] = ground arith
  lookup-erase gone get ((name, value) ∷ rest) =
      ground
        (arith, ===_iff gone get, ===_iff name gone, ===_iff name get, lookup-erase gone get rest)
