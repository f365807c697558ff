-- ===== src/Windows/Passes.antt =====
-- core/runtime/find-window.ts: what a target is, and what each pass of the search gives.
use maw_js.Prelude.{
  ◌≡◌, ◌⊎◌, inl, inr, refl, sym, subst, ◌||◌, Bool, true, false, Option, none, some, List, [], ◌∷◌,
  ◌++◌, Text, ◌===◌, is_empty, lower_case, includes, has_char, find, Memᴰ, head, tail, mem_of_cons,
  first_some, if◌then◌else◌, arith, Bool-cases,
}
use maw_js.Names.{unique_from, includes_text, strip_number}
use maw_js.Windows.{
  Window, Session, Found, window, is_digits, is_window_number, match_session, session_part,
  window_part, target_of, first_window, list_of, exact_sessions, windows_where, exact_windows,
  substring_matches, decide_pass,
}

-- Nothing, or a dot and a number.
abbrev pub IsPane : Text → Type 0
IsPane pane = (pane ≡ []) ⊎ ((p : Text) × (pane ≡ b'.' ∷ p) × (is_digits p ≡ true))

-- `t` names a window of one of the sessions, or a pane of it by its number.
pub data IsWindowOf (sessions : List Session) (t : Text) : Type 0 where
  window_of :
      {s : Session} {w : Window}
      → Memᴰ s sessions
      → Memᴰ w s.windows
      → {pane : Text} → IsPane pane
      → t ≡ target_of s w pane
      → IsWindowOf sessions t

-- The session's name is the text, without regard to case, or is so after its number.
abbrev pub IsNamed : Session → Text → Type 0
IsNamed s part = (lower_case s.name ≡ part) ⊎ (strip_number (lower_case s.name) ≡ part)

-- After the colon stands nothing, or a number, or two of them with a dot between.
abbrev pub IsNumbered : Text → Type 0
IsNumbered query =
    (window_part (lower_case query) ≡ [])
    ⊎ (is_window_number (window_part (lower_case query)) ≡ true)

-- What a target can be: a window, or the query itself, which names a session and no window or one by number.
pub data IsTarget (sessions : List Session) (query t : Text) : Type 0 where
  of_window : IsWindowOf sessions t → IsTarget sessions query t
  literal :
      {s : Session}
      → Memᴰ s sessions
      → IsNamed s (session_part (lower_case query))
      → has_char b':' query ≡ true
      → IsNumbered query
      → t ≡ query
      → IsTarget sessions query t

module _ {ℓ} {A : Type ℓ} where
  pub mem_of_find : (p : A → Bool) (xs : List A) (a : A) → find p xs ≡ some a → Memᴰ a xs
  mem_of_find p [] a e = cc
  mem_of_find p (x ∷ xs) a e = elim (Bool-cases (p x)) [
    | inl h ↦ (let same : x ≡ a = ground (arith, h, e) in subst (λ y. Memᴰ y (x ∷ xs)) same head)
    | inr h ↦ tail (mem_of_find p xs a (ground (arith, h, e)))
  ]

  mem_of_first_some :
      (xs : List A) (o o' : Option A) (a : A)
      → (o ≡ some a → Memᴰ a xs)
      → (o' ≡ some a → Memᴰ a xs)
      → first_some o o' ≡ some a
      → Memᴰ a xs
  mem_of_first_some xs (some x) o' a h h' e = h e
  mem_of_first_some xs none o' a h h' e = h' e

  mem_of_append : (x : A) (xs ys : List A) → Memᴰ x (xs ++ ys) → Memᴰ x xs ⊎ Memᴰ x ys
  mem_of_append x [] ys m = inr m
  mem_of_append _ (x ∷ xs) ys head = inl head
  mem_of_append x (y ∷ xs) ys (tail m) = elim (mem_of_append x xs ys m) [
    | inl a ↦ inl (tail a)
    | inr b ↦ inr b
  ]

pub match_session-mem :
    (sessions : List Session) (part : Text) (s : Session)
    → match_session sessions part true ≡ some s
    → Memᴰ s sessions
unfolding match_session
match_session-mem sessions part s e =
    let p = lower_case part in
    elim (Bool-cases (is_empty p)) [
      | inl h ↦ absurd (ground (arith, h, e))
      | inr h ↦
          mem_of_first_some sessions _ _ s (mem_of_find (λ s. lower_case s.name === p) sessions s)
            (mem_of_first_some sessions _ none s
              (mem_of_find (λ s. strip_number (lower_case s.name) === p) sessions s) (λ n. cc))
            (rw (h, match_session) at e)
    ]

weaken :
    (s : Session) (rest : List Session) (t : Text) → IsWindowOf rest t → IsWindowOf (s ∷ rest) t
weaken s rest t (window_of m n pane e) = window_of (tail m) n pane e

windows_where-IsWindowOf :
    (sessions : List Session) (p : Window → Bool) (s : Session) (ws : List Window) (t : Text)
    → Memᴰ s sessions
    → ((w : Window) → Memᴰ w ws → Memᴰ w s.windows)
    → Memᴰ t (windows_where p s ws)
    → IsWindowOf sessions t
unfolding windows_where
windows_where-IsWindowOf sessions p s [] t m sub k = elim k [ ]
windows_where-IsWindowOf sessions p s (w ∷ ws) t m sub k =
    let rest = windows_where-IsWindowOf sessions p s ws t m (λ v n. sub v (tail n)) in
    elim (Bool-cases (p w)) [
      | inl h ↦
          elim (mem_of_cons t (target_of s w []) (windows_where p s ws)
            (rw (h, windows_where) at k)) [
              | inl e ↦ window_of m (sub w head) (inl refl) e
              | inr n ↦ rest n
            ]
      | inr h ↦ rest (rw (h, windows_where) at k)
    ]

pub first_window-IsWindowOf :
    (sessions : List Session) (s : Session) (ws : List Window) (t : Text)
    → Memᴰ s sessions
    → ((w : Window) → Memᴰ w ws → Memᴰ w s.windows)
    → first_window s ws ≡ some t
    → IsWindowOf sessions t
first_window-IsWindowOf sessions s [] t m sub e = cc
first_window-IsWindowOf sessions s (w ∷ ws) t m sub e = window_of m (sub w head) (inl refl) (cc e)

mem_list_of : (o : Option Text) (t : Text) → Memᴰ t (list_of o) → o ≡ some t
mem_list_of none t m = elim m [ ]
mem_list_of (some u) t m = elim (mem_of_cons t u [] m) [ inl e ↦ cc e | inr n ↦ elim n [ ] ]

pub exact_sessions-IsWindowOf :
    (sessions : List Session) (q t : Text)
    → Memᴰ t (exact_sessions sessions q)
    → IsWindowOf sessions t
unfolding exact_sessions
exact_sessions-IsWindowOf [] q t m = elim m [ ]
exact_sessions-IsWindowOf (s ∷ rest) q t m =
    let sn = lower_case s.name in
    let later : Memᴰ t (exact_sessions rest q) → IsWindowOf (s ∷ rest) t =
      λ n. weaken s rest t (exact_sessions-IsWindowOf rest q t n) in
    elim (Bool-cases (sn === q || strip_number sn === q)) [
      | inl h ↦
          elim (mem_of_append t (list_of (first_window s s.windows)) (exact_sessions rest q)
            (rw (h, exact_sessions) at m)) [
              | inl n ↦
                  first_window-IsWindowOf (s ∷ rest) s s.windows t head (λ w k. k)
                    (mem_list_of _ t n)
              | inr n ↦ later n
            ]
      | inr h ↦ later (rw (h, exact_sessions) at m)
    ]

pub exact_windows-IsWindowOf :
    (sessions : List Session) (q t : Text)
    → Memᴰ t (exact_windows sessions q)
    → IsWindowOf sessions t
unfolding exact_windows
exact_windows-IsWindowOf [] q t m = elim m [ ]
exact_windows-IsWindowOf (s ∷ rest) q t m =
    let p = λ (w : Window). lower_case w.name === q in
    elim (mem_of_append t (windows_where p s s.windows) (exact_windows rest q) m) [
      | inl n ↦ windows_where-IsWindowOf (s ∷ rest) p s s.windows t head (λ w k. k) n
      | inr n ↦ weaken s rest t (exact_windows-IsWindowOf rest q t n)
    ]

named_session :
    (s : Session) (rest : List Session) (b : Bool) (t : Text)
    → Memᴰ t (if b then list_of (first_window s s.windows) else [])
    → IsWindowOf (s ∷ rest) t
named_session s rest true t m =
    first_window-IsWindowOf (s ∷ rest) s s.windows t head (λ w k. k) (mem_list_of _ t m)
named_session s rest false t m = elim m [ ]

pub substring_matches-IsWindowOf :
    (sessions : List Session) (q t : Text)
    → Memᴰ t (substring_matches sessions q)
    → IsWindowOf sessions t
unfolding substring_matches
substring_matches-IsWindowOf [] q t m = elim m [ ]
substring_matches-IsWindowOf (s ∷ rest) q t m =
    let p = λ (w : Window). includes (lower_case w.name) q in
    let b = includes (lower_case s.name) q in
    elim (mem_of_append t (windows_where p s s.windows) _ m) [
      | inl n ↦ windows_where-IsWindowOf (s ∷ rest) p s s.windows t head (λ w k. k) n
      | inr n ↦
          elim (mem_of_append t (if b then list_of (first_window s s.windows) else [])
            (substring_matches rest q) n) [
              | inl k ↦ named_session s rest b t k
              | inr k ↦ weaken s rest t (substring_matches-IsWindowOf rest q t k)
            ]
    ]

pub mem_of_unique : (seen ts : List Text) (t : Text) → Memᴰ t (unique_from seen ts) → Memᴰ t ts
unfolding unique_from
mem_of_unique seen [] t m = m
mem_of_unique seen (u ∷ ts) t m = elim (Bool-cases (includes_text u seen)) [
  | inl h ↦ tail (mem_of_unique seen ts t (rw (h, unique_from) at m))
  | inr h ↦ elim (mem_of_cons t u (unique_from (u ∷ seen) ts) (rw (h, unique_from) at m)) [
    | inl e ↦ subst (λ x. Memᴰ x (u ∷ ts)) (sym e) head
    | inr n ↦ tail (mem_of_unique (u ∷ seen) ts t n)
  ]
]

-- A pass that decides gives one of its candidates.
pub decide_pass_lem :
    (sessions : List Session) (query t : Text) (ts : List Text) (next : Found)
    → ((u : Text) → Memᴰ u ts → IsWindowOf sessions u)
    → (next ≡ window t → IsTarget sessions query t)
    → decide_pass ts next ≡ window t
    → IsTarget sessions query t
decide_pass_lem sessions query t [] next each rest e = rest e
decide_pass_lem sessions query t (u ∷ []) next each rest e =
    let same : u ≡ t = cc e in of_window (subst (λ x. IsWindowOf sessions x) same (each u head))
decide_pass_lem sessions query t (u ∷ v ∷ more) next each rest e = cc
