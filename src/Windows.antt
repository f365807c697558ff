-- ===== src/Windows.antt =====
-- core/runtime/find-window.ts: the tmux window that a query names.
pub mod Passes
pub mod Targets
mod Examples
use maw_js.Prelude.{
  ℕ, Bool, true, false, not, ◌&&◌, ◌||◌, Option, none, some, List, [], ◌∷◌, ◌++◌, Text, text, ◌===◌,
  ◌==◌, is_empty, lower_case, includes, has_char, find, filter, all, if◌then◌else◌, first_some,
}
use maw_js.Prelude.Decimal.{is_digit, show_nat}
use maw_js.Names.{strip_number, unique_strings}

pub record Window : Type 0 where
  pub index : ℕ
  pub name : Text
  pub active : Bool

-- `source` is what core/routing.ts reads of a session; it is absent for a local one.
pub record Session : Type 0 where
  pub name : Text
  pub windows : List Window
  pub source : Option Text

-- A target, null, or the candidates of an `AmbiguousMatchError`.
pub data Found : Type 0 where
  window : (target : Text) → Found
  no_window : Found
  throws : (candidates : List Text) → Found

unfoldable pub match_session : List Session → (part : Text) → (strict : Bool) → Option Session
unfolding strip_number includes
match_session sessions part strict =
    let p = lower_case part in
    if is_empty p
    then none
    else first_some (find (λ s. lower_case s.name === p) sessions) (
        first_some (find (λ s. strip_number (lower_case s.name) === p) sessions)
          (if strict then none else find (λ s. includes (lower_case s.name) p) sessions))

-- The text before the first colon and the one after it.
unfoldable pub until_colon : Text → Text
until_colon [] = []
until_colon (c ∷ s) = let rest = until_colon s in if c == b':' then [] else c ∷ rest

unfoldable pub past_colon : Text → Text
past_colon [] = []
past_colon (c ∷ s) = if c == b':' then s else past_colon s

-- `q.split(":", 2)`
abbrev pub session_part : Text → Text
session_part q = until_colon q

abbrev pub window_part : Text → Text
window_part q = until_colon (past_colon q)

-- What stands before and after the last dot.
abbrev pub or_dot : (c : ℕ) → Text → Option (Text × Text) → Option (Text × Text)
or_dot c s (some (a, b)) = some (c ∷ a, b)
or_dot c s none = if c == b'.' then some ([], s) else none

unfoldable pub split_last_dot : Text → Option (Text × Text)
split_last_dot [] = none
split_last_dot (c ∷ s) = or_dot c s (split_last_dot s)

abbrev pub is_digits : Text → Bool
is_digits s = not (is_empty s) && all is_digit s

-- `.` of a regular expression
abbrev pub is_dot_char : ℕ → Bool
is_dot_char c = not (c == 10 || c == 13 || c == 0x2028 || c == 0x2029)

-- `/^(.+)\.(\d+)$/`: the window and the pane with its dot; else all of it, and no pane.
abbrev pub pane_of : (win : Text) → Option (Text × Text) → Text × Text
pane_of win none = (win, [])
pane_of win (some (w, p)) =
    if not (is_empty w) && all is_dot_char w && is_digits p then (w, b'.' ∷ p) else (win, [])

unfoldable pub split_pane : Text → Text × Text
unfolding split_last_dot
split_pane win = pane_of win (split_last_dot win)

unfoldable pub target_of : Session → Window → (pane : Text) → Text
unfolding show_nat
target_of s w pane = s.name ++ (b':' ∷ (show_nat w.index ++ pane))

abbrev pub first_window : Session → List Window → Option Text
first_window s [] = none
first_window s (w ∷ _) = some (target_of s w [])

abbrev pub window_in : Session → (pane : Text) → Option Window → Option Text
window_in s pane none = none
window_in s pane (some w) = some (target_of s w pane)

abbrev pub in_session : (win pane : Text) → Option Session → Option Text
in_session win pane none = none
in_session win pane (some s) =
    if is_empty win
    then first_window s s.windows
    else window_in s pane (find (λ w. includes (lower_case w.name) win) s.windows)

-- The `session:window` syntax.
unfoldable pub semantic_match : List Session → (q : Text) → Option Text
unfolding match_session split_pane until_colon past_colon
semantic_match sessions q =
    let parts = split_pane (window_part q) in
    in_session parts.0 parts.1 (match_session sessions (session_part q) true)

abbrev pub list_of : Option Text → List Text
list_of none = []
list_of (some t) = t ∷ []

unfoldable pub exact_sessions : List Session → (q : Text) → List Text
unfolding strip_number
exact_sessions [] q = []
exact_sessions (s ∷ rest) q =
    let more = exact_sessions rest q in
    let sn = lower_case s.name in
    if sn === q || strip_number sn === q then list_of (first_window s s.windows) ++ more else more

unfoldable pub windows_where : (Window → Bool) → Session → List Window → List Text
windows_where p s [] = []
windows_where p s (w ∷ ws) =
    let more = windows_where p s ws in if p w then target_of s w [] ∷ more else more

unfoldable pub exact_windows : List Session → (q : Text) → List Text
unfolding windows_where
exact_windows [] q = []
exact_windows (s ∷ rest) q =
    windows_where (λ w. lower_case w.name === q) s s.windows ++ exact_windows rest q

unfoldable pub substring_matches : List Session → (q : Text) → List Text
unfolding windows_where includes
substring_matches [] q = []
substring_matches (s ∷ rest) q =
    windows_where (λ w. includes (lower_case w.name) q) s s.windows
    ++ ((if includes (lower_case s.name) q then list_of (first_window s s.windows) else [])
        ++ substring_matches rest q)

-- The set of a pass: one candidate is the answer, several are an error, none hands over.
abbrev pub decide_pass : List Text → Found → Found
decide_pass [] next = next
decide_pass (t ∷ []) next = window t
decide_pass (t ∷ u ∷ more) next = throws (t ∷ u ∷ more)

abbrev pub is_pane_number : Option (Text × Text) → Bool
is_pane_number none = false
is_pane_number (some (w, p)) = is_digits w && is_digits p

-- `/^\d+(?:\.\d+)?$/`
unfoldable pub is_window_number : Text → Bool
unfolding split_last_dot
is_window_number win = is_digits win || is_pane_number (split_last_dot win)

abbrev pub raw_if : (query win : Text) → Option Session → Found
raw_if query win none = no_window
raw_if query win (some _) =
    if is_empty win
    then window query
    else (if is_window_number win then window query else no_window)

-- The end of `findWindow`: a literal window of a session that exists.
unfoldable pub raw_target : List Session → (query : Text) → Found
unfolding has_char match_session until_colon past_colon is_window_number
raw_target sessions query =
    let q = lower_case query in
    if has_char b':' query
    then raw_if query (window_part q) (match_session sessions (session_part q) true)
    else no_window

unfoldable pub bare_passes : List Session → (query : Text) → Found
unfolding exact_sessions exact_windows substring_matches raw_target
bare_passes sessions query =
    let q = lower_case query in
    decide_pass (unique_strings (exact_sessions sessions q)) (
      decide_pass (unique_strings (exact_windows sessions q))
        (decide_pass (unique_strings (substring_matches sessions q)) (raw_target sessions query)))

abbrev pub found_or : Option Text → Found → Found
found_or (some t) next = window t
found_or none next = next

unfoldable pub find_window : List Session → (query : Text) → Found
unfolding semantic_match bare_passes has_char
find_window sessions query =
    found_or (if has_char b':' query then semantic_match sessions (lower_case query) else none)
      (bare_passes sessions query)
