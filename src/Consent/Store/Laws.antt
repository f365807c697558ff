-- ===== src/Consent/Store/Laws.antt =====
-- core/consent/store.ts: what the trust file answers after a change, and what a read leaves alone.
use maw_js.Prelude.{
  or-eq-true_iff, not-and-eq-true_iff, ℕ, ◌≡◌, refl, Bool, true, false, not, ◌⊎◌, ◌&&◌, ◌||◌, [],
  ◌∷◌, ◌++◌, Text, ◌===◌, ===_iff, ===-refl, has_char, is_some, arith, ◌↔◌,
}
use maw_js.Prelude.Dict.{Dict, lookup, lookup-insert, lookup-erase}
use maw_js.Disk.{ConsentAction, hey, team_invite, plugin_install, TrustEntry, Disk}
use maw_js.Consent.Store.{
  action_text, trust_key, load_trust, save_trust, record_trust, remove_trust, is_trusted,
}

-- Two texts around a separator that the first parts lack.
split_first :
    (c : ℕ) (s s' t t' : Text)
    → has_char c s ≡ false
    → has_char c s' ≡ false
    → s ++ (c ∷ t) ≡ s' ++ (c ∷ t')
    → (s ≡ s') × (t ≡ t')
unfolding has_char
split_first c [] [] t t' h h' e = ground arith
split_first c [] (d ∷ s') t t' h h' e = ground arith
split_first c (d ∷ s) [] t t' h h' e = ground arith
split_first c (d ∷ s) (d' ∷ s') t t' h h' e = ground (arith, split_first c s s' t t')

has_char-middle : (c : ℕ) (s t : Text) → has_char c (s ++ (c ∷ t)) ≡ true
unfolding has_char
has_char-middle c [] t = ground arith
has_char-middle c (d ∷ s) t = ground (arith, has_char-middle c s t)

-- The same for the last separator.
split_last :
    (c : ℕ) (s s' t t' : Text)
    → has_char c t ≡ false
    → has_char c t' ≡ false
    → s ++ (c ∷ t) ≡ s' ++ (c ∷ t')
    → (s ≡ s') × (t ≡ t')
split_last c [] [] t t' h h' e = ground arith
split_last c [] (d ∷ s') t t' h h' e = ground (arith, has_char-middle c s' t')
split_last c (d ∷ s) [] t t' h h' e = ground (arith, has_char-middle c s t)
split_last c (d ∷ s) (d' ∷ s') t t' h h' e = ground (arith, split_last c s s' t t')

action_text-no_colon : (a : ConsentAction) → has_char b':' (action_text a) ≡ false
unfolding has_char
action_text-no_colon hey = refl
action_text-no_colon team_invite = refl
action_text-no_colon plugin_install = refl

action_text-injective : (a b : ConsentAction) → action_text a ≡ action_text b → a ≡ b
action_text-injective a b h = ground arith

abbrev pub has_arrow : Text → Bool
has_arrow = has_char 0x2192

-- Keys of two triples are equal only if the triples are, where the `from` names hold no arrow.
pub trust_key-injective :
    (f f' t t' : Text) (a a' : ConsentAction)
    → has_arrow f ≡ false
    → has_arrow f' ≡ false
    → trust_key f t a ≡ trust_key f' t' a'
    → (f ≡ f') × (t ≡ t') × (a ≡ a')
unfolding trust_key
trust_key-injective f f' t t' a a' h h' e =
    let (same_from, rest) = split_first 0x2192 f f' _ _ h h' e in
    let (same_to, same_action) =
      split_last b':' t t' _ _ (action_text-no_colon a) (action_text-no_colon a') rest in
    (same_from, same_to, action_text-injective a a' same_action)

-- One triple of a key.
abbrev pub Names : (f t : Text) → ConsentAction → (f' t' : Text) → ConsentAction → Type 0
Names f t a f' t' a' = (f ≡ f') × (t ≡ t') × (a ≡ a')

is_trusted-save_trust :
    (m : Dict TrustEntry) (d : Disk) (f t : Text) (a : ConsentAction)
    → is_trusted (save_trust m d) f t a ≡ is_some (lookup (trust_key f t a) m)
unfolding is_trusted save_trust load_trust
is_trusted-save_trust m d f t a = refl

is_trusted-record_trust :
    (e : TrustEntry) (d : Disk) (f t : Text) (a : ConsentAction)
    → is_trusted (record_trust e d) f t a
      ≡ (trust_key e.from e.to e.action === trust_key f t a || is_trusted d f t a)
unfolding record_trust is_trusted load_trust
is_trusted-record_trust e d f t a =
    ground
      (arith, lookup-insert (trust_key e.from e.to e.action) (trust_key f t a) e (load_trust d))

is_trusted-remove_trust :
    (d : Disk) (f t f' t' : Text) (a a' : ConsentAction)
    → is_trusted (remove_trust f t a d).0 f' t' a'
      ≡ (not (trust_key f t a === trust_key f' t' a') && is_trusted d f' t' a')
unfolding remove_trust is_trusted load_trust
is_trusted-remove_trust d f t f' t' a a' = ground (
  arith,
  lookup-erase (trust_key f t a) (trust_key f' t' a') (load_trust d),
  ===_iff (trust_key f t a) (trust_key f' t' a'),
)

trust_key_iff :
    (f t f' t' : Text) (a a' : ConsentAction)
    → has_arrow f ≡ false
    → has_arrow f' ≡ false
    → ((trust_key f t a === trust_key f' t' a') ≡ true) ↔ Names f t a f' t' a'
trust_key_iff f t f' t' a a' h h' = (
  λ e. trust_key-injective f f' t t' a a' h h' ((===_iff _ _).0 e),
  λ n. (===_iff _ _).1 (rw (n.0, n.1, n.2)),
)

-- After an entry is recorded, a triple is trusted exactly if it is the entry's or was trusted before;
-- after one is removed, exactly if it was trusted and is another. The `from` names hold no arrow.
pub trust_changes :
    (d : Disk) (e : TrustEntry) (f t : Text) (a : ConsentAction)
    → has_arrow e.from ≡ false
    → has_arrow f ≡ false
    → ((is_trusted (record_trust e d) f t a ≡ true)
        ↔ (Names e.from e.to e.action f t a ⊎ (is_trusted d f t a ≡ true)))
      × ((is_trusted (remove_trust e.from e.to e.action d).0 f t a ≡ true)
          ↔ (¬ Names e.from e.to e.action f t a × (is_trusted d f t a ≡ true)))
trust_changes d e f t a he hf =
    let key = trust_key_iff e.from e.to f t e.action a he hf in
    (
      rw (is_trusted-record_trust e d f t a) (or-eq-true_iff _ _ key),
      rw (is_trusted-remove_trust d e.from e.to f t e.action a) (not-and-eq-true_iff _ _ key),
    )

pub is_trusted-record_trust_self :
    (e : TrustEntry) (d : Disk) → is_trusted (record_trust e d) e.from e.to e.action ≡ true
is_trusted-record_trust_self e d =
    rw (is_trusted-record_trust e d e.from e.to e.action, ===-refl (trust_key e.from e.to e.action))
