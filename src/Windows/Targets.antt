-- ===== src/Windows/Targets.antt =====
-- core/runtime/find-window.ts: every target that is found is a window of one of the sessions.
use maw_js.Prelude.{
  ℕ, ◌&&◌, not, all, to_lower, is_empty_eq, ◌==◌, ◌≡◌, ◌⊎◌, inl, inr, refl, subst, Bool, true,
  false, Option, none, some, List, [], ◌∷◌, Text, ◌===◌, ===_iff, is_empty, lower_case, includes,
  has_char, find, Memᴰ, first_some, if◌then◌else◌, arith, Bool-cases, Option-cases,
}
use maw_js.Names.{unique_strings, strip_number}
use maw_js.Windows.{
  Window, Session, Found, window, is_digits, is_dot_char, pane_of, split_last_dot, until_colon,
  is_window_number, match_session, session_part, window_part, in_session, semantic_match,
  exact_sessions, exact_windows, substring_matches, raw_if, raw_target, bare_passes, found_or,
  find_window, split_pane,
}
use maw_js.Windows.Passes.{
  IsNamed, IsPane, IsTarget, IsWindowOf, decide_pass_lem, exact_sessions-IsWindowOf,
  exact_windows-IsWindowOf, first_window-IsWindowOf, literal, match_session-mem, mem_of_find,
  mem_of_unique, of_window, substring_matches-IsWindowOf, window_of,
}

raw_if-query :
    (query win t : Text) (o : Option Session)
    → raw_if query win o ≡ window t
    → ((s : Session) × (o ≡ some s)) × ((win ≡ []) ⊎ (is_window_number win ≡ true)) × (t ≡ query)
raw_if-query query win t none e = cc
raw_if-query query win t (some s) e = elim (Bool-cases (is_empty win)) [
  | inl none_there ↦ ((s, refl), inl (is_empty_eq win none_there), ground (arith, none_there, e))
  | inr there ↦ elim (Bool-cases (is_window_number win)) [
    | inl number ↦ ((s, refl), inr number, ground (arith, there, number, e))
    | inr other ↦ absurd (ground (arith, there, other, e))
  ]
]

mem_named :
    (p : Session → Bool) (sessions : List Session) (s : Session)
    → find p sessions ≡ some s
    → p s ≡ true
mem_named p [] s e = cc
mem_named p (x ∷ sessions) s e = elim (Bool-cases (p x)) [
  | inl h ↦ (let same : x ≡ s = ground (arith, h, e) in subst (λ y. p y ≡ true) same h)
  | inr h ↦ mem_named p sessions s (ground (arith, h, e))
]

of_first_some :
    (o o' : Option Session) (s : Session) (part : Text)
    → (o ≡ some s → IsNamed s part)
    → (o' ≡ some s → IsNamed s part)
    → first_some o o' ≡ some s
    → IsNamed s part
of_first_some (some x) o' s part h h' e = h e
of_first_some none o' s part h h' e = h' e

match_session-IsNamed :
    (sessions : List Session) (part : Text) (s : Session)
    → match_session sessions part true ≡ some s
    → IsNamed s (lower_case part)
unfolding match_session
match_session-IsNamed sessions part s e =
    let p = lower_case part in
    elim (Bool-cases (is_empty p)) [
      | inl h ↦ absurd (ground (arith, h, e))
      | inr h ↦
          of_first_some (find (λ x. lower_case x.name === p) sessions) _ s p
            (λ f. inl (
              (===_iff (lower_case s.name) p).0
                (mem_named (λ x. lower_case x.name === p) sessions s f)))
            (of_first_some (find (λ x. strip_number (lower_case x.name) === p) sessions) none s p
              (λ f. inr (
                (===_iff (strip_number (lower_case s.name)) p).0
                  (mem_named (λ x. strip_number (lower_case x.name) === p) sessions s f)))
              (λ n. cc))
            (rw (h, match_session) at e)
    ]

lower-to_lower : (c : ℕ) → to_lower (to_lower c) ≡ to_lower c
unfolding to_lower
lower-to_lower c = ground arith

lower_case-lower_case : (t : Text) → lower_case (lower_case t) ≡ lower_case t
lower_case-lower_case [] = refl
lower_case-lower_case (c ∷ t) = ground (arith, lower-to_lower c, lower_case-lower_case t)

lower_colon : (c : ℕ) → (to_lower c == b':') ≡ (c == b':')
unfolding to_lower
lower_colon c = ground arith

-- The part before the colon of a text in lower case is in lower case.
lower_case-session_part :
    (t : Text) → lower_case (session_part (lower_case t)) ≡ session_part (lower_case t)
unfolding until_colon
lower_case-session_part [] = refl
lower_case-session_part (c ∷ t) =
    ground (arith, lower_colon c, lower-to_lower c, lower_case-session_part t)

raw_target-IsTarget :
    (sessions : List Session) (query t : Text)
    → raw_target sessions query ≡ window t
    → IsTarget sessions query t
unfolding raw_target
raw_target-IsTarget sessions query t e = elim (Bool-cases (has_char b':' query)) [
  | inl h ↦
      let q = lower_case query in
      let ((s, named), numbered, same) =
        raw_if-query query (window_part q) t (match_session sessions (session_part q) true)
          (rw (h, raw_target) at e) in
      literal (match_session-mem sessions (session_part q) s named)
        (subst (IsNamed s) (lower_case-session_part query)
          (match_session-IsNamed sessions (session_part q) s named))
        h numbered same
  | inr h ↦ absurd (ground (arith, h, e))
]

pane_of-IsPane : (win : Text) (o : Option (Text × Text)) → IsPane (pane_of win o).1
pane_of-IsPane win none = inl refl
pane_of-IsPane win (some (w, p)) =
    elim (Bool-cases (not (is_empty w) && all is_dot_char w && is_digits p)) [
      | inl h ↦
          simp (h) (inr (p, refl, last_of (not (is_empty w)) (all is_dot_char w) (is_digits p) h))
      | inr h ↦ simp (h) (inl refl)
    ]
  where
    last_of : (a b c : Bool) → (a && b && c) ≡ true → c ≡ true
    last_of a b c h = ground arith

split_pane-IsPane : (win : Text) → IsPane (split_pane win).1
unfolding split_pane
split_pane-IsPane win = pane_of-IsPane win (split_last_dot win)

in_session-IsWindowOf :
    (sessions : List Session) (win pane t : Text) (o : Option Session)
    → IsPane pane
    → ((s : Session) → o ≡ some s → Memᴰ s sessions)
    → in_session win pane o ≡ some t
    → IsWindowOf sessions t
in_session-IsWindowOf sessions win pane t none is m e = cc
in_session-IsWindowOf sessions win pane t (some s) is m e = elim (Bool-cases (is_empty win)) [
  | inl h ↦ first_window-IsWindowOf sessions s s.windows t (m s refl) (λ w k. k) (rw h at e)
  | inr h ↦
      let p = λ (w : Window). includes (lower_case w.name) win in
      elim (Option-cases (find p s.windows)) [
        | inl n ↦ absurd (ground (arith, h, n, e))
        | inr (w, f) ↦
            window_of (m s refl) (mem_of_find p s.windows w f) is (ground (arith, h, f, e))
      ]
]

bare_passes-IsTarget :
    (sessions : List Session) (query t : Text)
    → bare_passes sessions query ≡ window t
    → IsTarget sessions query t
unfolding bare_passes
bare_passes-IsTarget sessions query t e =
    let q = lower_case query in
    decide_pass_lem sessions query t (unique_strings (exact_sessions sessions q)) _
      (λ u m. exact_sessions-IsWindowOf sessions q u (mem_of_unique [] _ u m))
      (decide_pass_lem sessions query t (unique_strings (exact_windows sessions q)) _
        (λ u m. exact_windows-IsWindowOf sessions q u (mem_of_unique [] _ u m))
        (decide_pass_lem sessions query t (unique_strings (substring_matches sessions q)) _
          (λ u m. substring_matches-IsWindowOf sessions q u (mem_of_unique [] _ u m))
          (raw_target-IsTarget sessions query t)))
      e

found_or_lem :
    (sessions : List Session) (query t : Text) (o : Option Text) (next : Found)
    → (o ≡ some t → IsWindowOf sessions t)
    → (next ≡ window t → IsTarget sessions query t)
    → found_or o next ≡ window t
    → IsTarget sessions query t
found_or_lem sessions query t none next h rest e = rest e
found_or_lem sessions query t (some u) next h rest e = of_window (h (cc e))

semantic_match-IsWindowOf :
    (sessions : List Session) (q t : Text)
    → semantic_match sessions q ≡ some t
    → IsWindowOf sessions t
unfolding semantic_match
semantic_match-IsWindowOf sessions q t e =
    let parts = split_pane (window_part q) in
    in_session-IsWindowOf sessions parts.0 parts.1 t (match_session sessions (session_part q) true)
      (split_pane-IsPane (window_part q))
      (λ s named. match_session-mem sessions (session_part q) s named) e

if_colon :
    (sessions : List Session) (b : Bool) (q t : Text)
    → (if b then semantic_match sessions q else none) ≡ some t
    → IsWindowOf sessions t
if_colon sessions true q t e = semantic_match-IsWindowOf sessions q t e
if_colon sessions false q t e = cc

pub find_window-IsTarget :
    (sessions : List Session) (query t : Text)
    → find_window sessions query ≡ window t
    → IsTarget sessions query t
unfolding find_window
find_window-IsTarget sessions query t e =
    found_or_lem sessions query t _ _ (if_colon sessions (has_char b':' query) (lower_case query) t)
      (bare_passes-IsTarget sessions query t) e
