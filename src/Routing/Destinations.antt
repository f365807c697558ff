-- ===== src/Routing/Destinations.antt =====
-- core/routing.ts: what each destination that the resolver gives is.
use maw_js.Prelude.{
  ◌≡◌, ◌≢◌, ◌⊎◌, inl, inr, refl, ap, subst, Bool, true, false, Option, none, some, List, [], ◌∷◌,
  Text, text, ◌===◌, ===_iff, is_empty, lower_case, ends_with, find, filter, if◌then◌else◌, arith,
  Option-cases, trim, Memᴰ, head, mem-filter,
}
use maw_js.Names.{strip_number, is_oracle_name}
use maw_js.Windows.{
  Window, Session, session_part, Found, window, no_window, throws, until_colon, past_colon,
  target_of, find_window,
}
use maw_js.Windows.Passes.{
  IsPane, IsNamed, IsNumbered, window_of, IsTarget, of_window, literal, mem_of_find,
}
use maw_js.Windows.Targets.{find_window-IsTarget}
use maw_js.Consent.Gate.{Resolved, unresolved, local, peer, self_node, error}
use maw_js.Routing.{
  Config, FleetSession, Outcome, resolved, ambiguous, RouteType, to_local, to_self, routed,
  is_writable, is_local_source, self_name, find_peer_url, find_named_in, find_named_fleet_window,
  fleet_window_candidate_names, named_or_only, fleet_target, resolve_fleet_window_target,
  fleet_step, agent_node, fleet_session_of, alias_matches, prefer, narrow, alias_target,
  resolve_session_alias_window_target, resolved_or, found_as,
}

abbrev pub writable_of : List Session → List Session
writable_of sessions = filter is_writable sessions

-- A session that a message can be typed into.
abbrev pub IsWritable : List Session → Session → Type 0
IsWritable sessions s =
    Memᴰ s sessions
    × (ends_with s.name (text "-view") ≡ false)
    × ((s.source ≡ none) ⊎ (s.source ≡ some (text "local")))

-- A window, or a pane of one by its number, of a session of this node that is no view; or the query as it was typed,
-- whose part before the colon names such a session, with no window or with one by its number.
pub data IsDelivery (sessions : List Session) (query t : Text) : Type 0 where
  to_window :
      {s : Session} {w : Window}
      → IsWritable sessions s
      → Memᴰ w s.windows
      → {pane : Text} → IsPane pane
      → t ≡ target_of s w pane
      → IsDelivery sessions query t
  as_typed :
      {s : Session}
      → IsWritable sessions s
      → IsNamed s (session_part (lower_case query))
      → IsNumbered query
      → t ≡ query
      → IsDelivery sessions query t

-- A peer whose address the configuration has for the node, whose name is not this one's: the node is the one that the
-- query names, or it is another's for the whole query, and can be called `local` only by the agents map.
pub data IsPeer (config : Config) (query url target node : Text) : Type 0 where
  named :
      find_peer_url node config ≡ some url
      → is_empty url ≡ false
      → node ≢ self_name config
      → node ≢ text "local"
      → node ≡ until_colon query
      → target ≡ past_colon query
      → IsPeer config query url target node
  mapped :
      find_peer_url node config ≡ some url
      → is_empty url ≡ false
      → node ≢ self_name config
      → (node ≢ text "local") ⊎ (agent_node config query ≡ some node)
      → target ≡ query
      → IsPeer config query url target node

abbrev pub IsSelf : Config → (query : Text) → Type 0
IsSelf config query = (until_colon query ≡ self_name config) ⊎ (until_colon query ≡ text "local")

abbrev pub Justified : Config → List Session → (query : Text) → Resolved → Type 0
Justified config sessions query unresolved = ⊥
Justified config sessions query (local t) = IsDelivery sessions query t
Justified config sessions query (self_node t) =
    IsSelf config query × IsDelivery sessions (past_colon query) t
Justified config sessions query (peer url target node) = IsPeer config query url target node
Justified config sessions query (error reason) = Unit

abbrev pub Holds : (Resolved → Type 0) → Outcome → Type 0
Holds P (resolved r) = P r
Holds P (ambiguous candidates) = Unit

source_cases : (o : Option Text) → is_local_source o ≡ true → (o ≡ none) ⊎ (o ≡ some (text "local"))
source_cases none h = inl refl
source_cases (some s) h = inr (ap some ((===_iff s (text "local")).0 h))

writable_lem :
    (sessions : List Session) (s : Session) → Memᴰ s (writable_of sessions) → IsWritable sessions s
unfolding is_writable
writable_lem sessions s m =
    let (there, ok) = (mem-filter is_writable sessions s).0 m in
    (there, ground (arith, ok), source_cases s.source (ground (arith, ok)))

delivery :
    (sessions : List Session) (query t : Text)
    → IsTarget (writable_of sessions) query t
    → IsDelivery sessions query t
delivery sessions query t (of_window (window_of m n pane e)) =
    to_window (writable_lem sessions _ m) n pane e
delivery sessions query t (literal m is _ numbered e) =
    as_typed (writable_lem sessions _ m) is numbered e

find_named_in-window :
    (s : Session) (names : List Text) (t : Text)
    → find_named_in s names ≡ some t
    → (w : Window) × Memᴰ w s.windows × (t ≡ target_of s w [])
unfolding find_named_in
find_named_in-window s [] t e = cc
find_named_in-window s (n ∷ names) t e =
    let p = λ (w : Window). lower_case w.name === lower_case n in
    elim (Option-cases (find p s.windows)) [
      | inl f ↦ find_named_in-window s names t (rw (f, find_named_in) at e)
      | inr (w, f) ↦ (w, mem_of_find p s.windows w f, cc (rw (f, find_named_in) at e))
    ]

pub some_of_if :
    (b : Bool) (o : Option Resolved) (r : Resolved) → (if b then none else o) ≡ some r → o ≡ some r
some_of_if true o r e = cc
some_of_if false o r e = e

-- What a route type asks of its target.
module _ (config : Config) (sessions : List Session) (query agent : Text) where
  abbrev Fits : RouteType → Type 0
  Fits to_local = agent ≡ query
  Fits to_self = IsSelf config query × (agent ≡ past_colon query)

  routed-Justified :
      (route : RouteType) (t : Text)
      → Fits route
      → IsDelivery sessions agent t
      → Justified config sessions query (routed route t)
  routed-Justified to_local t e d = subst (λ q. IsDelivery sessions q t) e d
  routed-Justified to_self t (self, e) d = (self, subst (λ q. IsDelivery sessions q t) e d)

  named_or_only-Justified :
      (route : RouteType) (s : Session) (reason : Text) (windows : List Window) (o : Option Text)
      → Fits route
      → IsWritable sessions s
      → ((w : Window) → Memᴰ w windows → Memᴰ w s.windows)
      → ((t : Text) → o ≡ some t → (w : Window) × Memᴰ w s.windows × (t ≡ target_of s w []))
      → Justified config sessions query (named_or_only route s reason windows o)
  named_or_only-Justified route s reason [] (some t) fits ok sub by_name =
      let (w, m, e) = by_name t refl in routed-Justified route t fits (to_window ok m (inl refl) e)
  named_or_only-Justified route s reason (_ ∷ _) (some t) fits ok sub by_name =
      let (w, m, e) = by_name t refl in routed-Justified route t fits (to_window ok m (inl refl) e)
  named_or_only-Justified route s reason (w ∷ []) none fits ok sub by_name =
      routed-Justified route (target_of s w []) fits (to_window ok (sub w head) (inl refl) refl)
  named_or_only-Justified route s reason [] none fits ok sub by_name = tt
  named_or_only-Justified route s reason (_ ∷ _ ∷ _) none fits ok sub by_name = tt

  named-window :
      (s : Session) (t : Text)
      → find_named_fleet_window s agent ≡ some t
      → (w : Window) × Memᴰ w s.windows × (t ≡ target_of s w [])
  unfolding find_named_fleet_window
  named-window s t e = find_named_in-window s (fleet_window_candidate_names agent) t e

  fleet_target-Justified :
      (route : RouteType) (o : Option Session) (r : Resolved)
      → Fits route
      → ((s : Session) → o ≡ some s → IsWritable sessions s)
      → fleet_target route agent o ≡ some r
      → Justified config sessions query r
  fleet_target-Justified route none r fits ok e = cc
  fleet_target-Justified route (some s) r fits ok e = in_windows s.windows (λ w m. m) e
    where
      in_windows :
          (ws : List Window)
          → ((w : Window) → Memᴰ w ws → Memᴰ w s.windows)
          → (elim ws [
            | [] ↦ none
            | w ∷ more ↦ some (
                named_or_only route s
                  (text "fleet_window_not_found")
                  (w ∷ more)
                  (find_named_fleet_window s agent))
          ])
            ≡ some r
          → Justified config sessions query r
      in_windows [] sub e = cc
      in_windows (w ∷ more) sub e =
          subst (λ q. Justified config sessions query q) (cc e)
            (named_or_only-Justified route s (text "fleet_window_not_found") (w ∷ more)
              (find_named_fleet_window s agent) fits (ok s refl) sub (named-window s))

  pub fleet_step-Justified :
      (fleet : List FleetSession) (route : RouteType) (r : Resolved)
      → Fits route
      → fleet_step fleet agent (writable_of sessions) route ≡ some r
      → Justified config sessions query r
  unfolding fleet_step resolve_fleet_window_target
  fleet_step-Justified fleet route r fits e = elim (Option-cases (fleet_session_of fleet agent)) [
    | inl h ↦ absurd (ground (arith, h, e))
    | inr (name, h) ↦
        let p = λ (s : Session). s.name === name in
        fleet_target-Justified route (find p (writable_of sessions)) r fits
          (λ s f. writable_lem sessions s (mem_of_find p (writable_of sessions) s f))
          (rw (h, fleet_step) at e)
  ]

  alias_target-Justified :
      (route : RouteType) (found : List Session) (r : Resolved)
      → Fits route
      → ((s : Session) → Memᴰ s found → IsWritable sessions s)
      → alias_target route agent found ≡ some r
      → Justified config sessions query r
  alias_target-Justified route [] r fits ok e = cc
  alias_target-Justified route (s ∷ []) r fits ok e =
      subst (λ q. Justified config sessions query q) (cc e)
        (named_or_only-Justified route s (text "session_window_not_found") s.windows
          (find_named_fleet_window s agent) fits (ok s head) (λ w m. m) (named-window s))
  alias_target-Justified route (_ ∷ _ ∷ _) r fits ok e =
      let same : error (text "session_alias_ambiguous") ≡ r = cc e in
      subst (λ q. Justified config sessions query q) same tt

  prefer-mem :
      (matches exact : List Session) (s : Session)
      → ((x : Session) → Memᴰ x exact → Memᴰ x matches)
      → Memᴰ s (prefer matches exact)
      → Memᴰ s matches
  prefer-mem matches [] s sub m = m
  prefer-mem matches (x ∷ []) s sub m = sub s m
  prefer-mem matches (_ ∷ _ ∷ _) s sub m = m

  narrow-IsWritable :
      (s : Session)
      → Memᴰ s (narrow agent (alias_matches agent (writable_of sessions)))
      → IsWritable sessions s
  unfolding narrow alias_matches
  narrow-IsWritable s m =
      let matches = alias_matches agent (writable_of sessions) in
      let p =
        λ (s : Session). lower_case (strip_number (trim s.name)) === lower_case (trim agent) in
      let n = prefer-mem matches (filter p matches) s (λ x n. ((mem-filter p matches x).0 n).0) m in
      writable_lem sessions s ((mem-filter _ (writable_of sessions) s).0 n).0

  pub alias_step-Justified :
      (route : RouteType) (r : Resolved)
      → Fits route
      → resolve_session_alias_window_target agent (writable_of sessions) route ≡ some r
      → Justified config sessions query r
  unfolding resolve_session_alias_window_target
  alias_step-Justified route r fits e =
      let found = narrow agent (alias_matches agent (writable_of sessions)) in
      alias_target-Justified route found r fits narrow-IsWritable
        (some_of_if (is_oracle_name (trim agent)) (alias_target route agent found) r e)

  pub resolved_or-Holds :
      (P : Resolved → Type 0) (o : Option Resolved) (next : Outcome)
      → ((r : Resolved) → o ≡ some r → P r)
      → Holds P next
      → Holds P (resolved_or o next)
  resolved_or-Holds P (some r) next h n = h r refl
  resolved_or-Holds P none next h n = n

  found_as-Holds :
      (route : RouteType) (f : Found) (next : Outcome)
      → Fits route
      → ((t : Text) → f ≡ window t → IsDelivery sessions agent t)
      → Holds (Justified config sessions query) next
      → Holds (Justified config sessions query) (found_as route f next)
  found_as-Holds route (window t) next fits h n = routed-Justified route t fits (h t refl)
  found_as-Holds route no_window next fits h n = n
  found_as-Holds route (throws _) next fits h n = tt

  pub windows-Holds :
      (route : RouteType) (next : Outcome)
      → Fits route
      → Holds (Justified config sessions query) next
      → Holds
          (Justified config sessions query)
          (found_as route (find_window (writable_of sessions) agent) next)
  windows-Holds route next fits n =
      found_as-Holds route (find_window (writable_of sessions) agent) next fits
        (λ t e. delivery sessions agent t (find_window-IsTarget (writable_of sessions) agent t e)) n
