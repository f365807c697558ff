-- ===== src/Routing.antt =====
-- core/routing.ts: where a message to a query goes. The sessions, the fleet's metadata and the manifest are
-- arguments: what tmux lists, and what the loaders give (nothing where they throw). Of an error the reason
-- is kept, and its texts are left out.
pub mod Destinations
pub mod Resolution
mod Examples
use maw_js.Prelude.{
  ℕ, Bool, true, false, not, ◌&&◌, ◌||◌, Option, none, some, List, [], ◌∷◌, ◌++◌, Text, text, ◌===◌,
  ◌==◌, is_empty, trim, lower_case, includes, ends_with, has_char, find, filter, any, if◌then◌else◌,
  first_some, length,
}
use maw_js.Prelude.Dict.{Dict, lookup}
use maw_js.Names.{
  strip_number, strip_oracle, strip_oracle_any_case, is_oracle_name, oracle_suffix, includes_text,
  unique_strings, non_empty,
}
use maw_js.Matcher.Resolve.{
  ResolveResult, exact, fuzzy, FleetWindow, resolve_fleet_window_session_target,
}
use maw_js.Windows.{
  Window, Session, Found, window, no_window, throws, until_colon, past_colon, target_of,
  find_window,
}
use maw_js.Consent.Gate.{Resolved, local, peer, self_node, error}

-- config: what the resolver reads; an absent list is empty.
pub record NamedPeer : Type 0 where
  pub name : Text
  pub url : Text

pub record Config : Type 0 where
  pub node : Option Text
  pub named_peers : List NamedPeer
  pub peers : List Text
  pub agents : Dict Text

pub record FleetSession : Type 0 where
  pub name : Text
  pub windows : List FleetWindow

pub record ManifestEntry : Type 0 where
  pub name : Text
  pub node : Option Text

-- A result, or the error of `findWindow` passed through.
pub data Outcome : Type 0 where
  resolved : Resolved → Outcome
  ambiguous : (candidates : List Text) → Outcome

pub data RouteType : Type 0 where
  to_local to_self : RouteType

abbrev pub routed : RouteType → (target : Text) → Resolved
routed to_local target = local target
routed to_self target = self_node target

-- An empty string is absent, as for `||` and `if`.
abbrev pub non_empty_text : Option Text → Option Text
non_empty_text none = none
non_empty_text (some t) = if is_empty t then none else some t

abbrev pub is_local_source : Option Text → Bool
is_local_source none = true
is_local_source (some s) = s === text "local"

unfoldable pub is_writable : Session → Bool
unfolding ends_with
is_writable s = not (ends_with s.name (text "-view")) && is_local_source s.source

abbrev pub self_name : Config → Text
self_name config = elim config.node [ some n ↦ n | none ↦ text "local" ]

abbrev pub url_of : Option NamedPeer → Option Text → Option Text
url_of (some p) legacy = some p.url
url_of none legacy = legacy

unfoldable pub find_peer_url : (node : Text) → Config → Option Text
unfolding includes
find_peer_url node config =
    url_of (find (λ p. p.name === node) config.named_peers)
      (find (λ p. includes p node) config.peers)

-- commands/shared/wake-resolve-impl.ts
abbrev pub session_name : ResolveResult FleetSession → Option Text
session_name (exact s) = some s.name
session_name (fuzzy s) = some s.name
session_name _ = none

unfoldable pub resolve_fleet_session : List FleetSession → (oracle : Text) → Option Text
unfolding resolve_fleet_window_session_target
resolve_fleet_session fleet oracle =
    session_name (resolve_fleet_window_session_target (λ s. s.windows) oracle fleet)

-- `resolveFleetSession(query) || resolveFleetSession(query.replace(/-oracle$/, ""))`
unfoldable pub fleet_session_of : List FleetSession → (query : Text) → Option Text
unfolding resolve_fleet_session strip_oracle
fleet_session_of fleet query =
    first_some (non_empty_text (resolve_fleet_session fleet query))
      (non_empty_text (resolve_fleet_session fleet (strip_oracle query)))

-- `cond ? value : ""`, and the templates that are empty for an empty name.
abbrev pub if_other : (a b : Text) → Text
if_other a b = if a === b then [] else a

abbrev pub as_oracle : Text → Text
as_oracle t = if is_empty t then [] else t ++ oracle_suffix

unfoldable pub fleet_window_candidate_names : (query : Text) → List Text
unfolding strip_oracle_any_case strip_number is_oracle_name trim
fleet_window_candidate_names query =
    let raw = trim query in
    let stripped = strip_oracle_any_case raw in
    let unnumbered = strip_number raw in
    let stripped_unnumbered = strip_oracle_any_case unnumbered in
    unique_strings (
      non_empty (
        raw
        ∷ if_other stripped raw
        ∷ if_other unnumbered raw
        ∷ if_other stripped_unnumbered unnumbered
        ∷ as_oracle stripped
        ∷ (if is_oracle_name raw then [] else as_oracle raw)
        ∷ as_oracle stripped_unnumbered
        ∷ []))

unfoldable pub session_alias_names : (name : Text) → List Text
unfolding strip_oracle_any_case strip_number trim
session_alias_names name =
    let raw = trim name in
    let unnumbered = strip_number raw in
    unique_strings (
      non_empty
        (raw ∷ strip_oracle_any_case raw ∷ unnumbered ∷ strip_oracle_any_case unnumbered ∷ []))

abbrev pub window_named : Session → Option Window → Option Text → Option Text
window_named s (some w) next = some (target_of s w [])
window_named s none next = next

unfoldable pub find_named_in : Session → (names : List Text) → Option Text
find_named_in s [] = none
find_named_in s (n ∷ names) =
    window_named s (find (λ w. lower_case w.name === lower_case n) s.windows)
      (find_named_in s names)

unfoldable pub find_named_fleet_window : Session → (query : Text) → Option Text
unfolding find_named_in fleet_window_candidate_names
find_named_fleet_window s query = find_named_in s (fleet_window_candidate_names query)

-- The named window; the only one; or an error for the reason given.
abbrev pub named_or_only :
    RouteType → Session → (reason : Text) → List Window → Option Text → Resolved
named_or_only route s reason windows (some t) = routed route t
named_or_only route s reason (w ∷ []) none = routed route (target_of s w [])
named_or_only route s reason _ none = error reason

abbrev pub fleet_target : RouteType → (query : Text) → Option Session → Option Resolved
fleet_target route query none = none
fleet_target route query (some s) = elim s.windows [
  | [] ↦ none
  | w ∷ ws ↦ some (
      named_or_only route s (text "fleet_window_not_found") (w ∷ ws)
        (find_named_fleet_window s query))
]

unfoldable pub resolve_fleet_window_target :
    (fleet_session query : Text) → List Session → RouteType → Option Resolved
unfolding find_named_fleet_window
resolve_fleet_window_target fleet_session query writable route =
    fleet_target route query (find (λ s. s.name === fleet_session) writable)

unfoldable pub fleet_step :
    List FleetSession → (query : Text) → List Session → RouteType → Option Resolved
unfolding fleet_session_of resolve_fleet_window_target
fleet_step fleet query writable route = elim (fleet_session_of fleet query) [
  | none ↦ none
  | some name ↦ resolve_fleet_window_target name query writable route
]

-- The sessions of which a spelling is one of the query's.
unfoldable pub alias_matches : (query : Text) → List Session → List Session
unfolding session_alias_names
alias_matches query writable =
    let wanted = session_alias_names query in
    filter
      (λ s. any (λ n. any (λ m. lower_case m === lower_case n) wanted) (session_alias_names s.name))
      writable

-- The one whose unnumbered name is the query, where there are several matches and one such.
abbrev pub prefer : (matches exact : List Session) → List Session
prefer matches (s ∷ []) = s ∷ []
prefer matches _ = matches

unfoldable pub narrow : (query : Text) → List Session → List Session
unfolding strip_number trim
narrow query matches =
    prefer matches
      (filter (λ s. lower_case (strip_number (trim s.name)) === lower_case (trim query)) matches)

abbrev pub alias_target : RouteType → (query : Text) → List Session → Option Resolved
alias_target route query [] = none
alias_target route query (s ∷ []) = some (
    named_or_only route s (text "session_window_not_found") s.windows
      (find_named_fleet_window s query))
alias_target route query (_ ∷ _ ∷ _) = some (error (text "session_alias_ambiguous"))

-- With no spelling wanted there are no matches. A single match is its own narrowing, since the list that
-- `prefer` may choose holds only matches.
unfoldable pub resolve_session_alias_window_target :
    (query : Text) → List Session → RouteType → Option Resolved
unfolding is_oracle_name alias_matches narrow find_named_fleet_window trim
resolve_session_alias_window_target query writable route =
    if is_oracle_name (trim query)
    then none
    else alias_target route query (narrow query (alias_matches query writable))

abbrev pub resolved_or : Option Resolved → Outcome → Outcome
resolved_or (some r) next = resolved r
resolved_or none next = next

abbrev pub found_as : RouteType → Found → Outcome → Outcome
found_as route (window t) next = resolved (routed route t)
found_as route (throws candidates) next = ambiguous candidates
found_as route no_window next = next

unfoldable pub resolve_self : List FleetSession → (agent : Text) → List Session → Outcome
unfolding fleet_step resolve_session_alias_window_target find_window
resolve_self fleet agent writable = resolved_or (fleet_step fleet agent writable to_self) (
    resolved_or (resolve_session_alias_window_target agent writable to_self)
      (found_as to_self (find_window writable agent) (resolved (error (text "self_not_running")))))

abbrev pub peer_or : (target node : Text) → Option Text → Outcome → Outcome
peer_or target node (some url) next = resolved (peer url target node)
peer_or target node none next = next

unfoldable pub resolve_node :
    Config → List FleetSession → (node agent : Text) → List Session → Outcome
unfolding resolve_self find_peer_url
resolve_node config fleet node agent writable =
    if is_empty node || is_empty agent
    then resolved (error (text "empty_node_or_agent"))
    else (if node === self_name config || node === text "local"
        then resolve_self fleet agent writable
        else peer_or agent node (non_empty_text (find_peer_url node config))
            (resolved (error (text "unknown_node"))))

-- `lookupManifestEntry`; the names with a colon do not come here.
unfoldable pub lookup_manifest_entry : List ManifestEntry → (query : Text) → Option ManifestEntry
unfolding has_char strip_oracle
lookup_manifest_entry manifest query =
    if has_char b':' query || has_char b'/' query
    then none
    else first_some (find (λ e. e.name === query) manifest) (
        if strip_oracle query === query
        then none
        else find (λ e. e.name === strip_oracle query) manifest)

abbrev pub remote_node : Config → Option ManifestEntry → Option Text
remote_node config none = none
remote_node config (some e) = elim (non_empty_text e.node) [
  | none ↦ none
  | some n ↦ if n === self_name config || n === text "local" then none else some n
]

abbrev pub manifest_or : Config → (query : Text) → Option Text → Outcome → Outcome
manifest_or config query none next = next
manifest_or config query (some node) next =
    peer_or query node (non_empty_text (find_peer_url node config)) next

unfoldable pub agent_node : Config → (query : Text) → Option Text
unfolding lookup strip_oracle
agent_node config query =
    first_some (non_empty_text (lookup query config.agents))
      (non_empty_text (lookup (strip_oracle query) config.agents))

abbrev pub agent_target : Config → (query : Text) → Option Text → Outcome
agent_target config query none = resolved (error (text "not_found"))
agent_target config query (some node) =
    if node === self_name config
    then resolved (error (text "self_not_running"))
    else peer_or query node (non_empty_text (find_peer_url node config))
        (resolved (error (text "no_peer_url")))

-- What follows the local steps.
unfoldable pub resolve_remote :
    Config → List FleetSession → List ManifestEntry → (query : Text) → List Session → Outcome
unfolding has_char until_colon past_colon resolve_node lookup_manifest_entry find_peer_url
    agent_node
resolve_remote config fleet manifest query writable =
    if has_char b':' query && not (has_char b'/' query)
    then resolve_node config fleet (until_colon query) (past_colon query) writable
    else manifest_or config query (remote_node config (lookup_manifest_entry manifest query))
        (agent_target config query (agent_node config query))

unfoldable pub resolve_target :
    (query : Text) → Config → List Session → List FleetSession → List ManifestEntry → Outcome
unfolding is_writable fleet_step has_char resolve_session_alias_window_target find_window
    resolve_remote
resolve_target query config sessions fleet manifest =
    let writable = filter is_writable sessions in
    if is_empty query
    then resolved (error (text "empty_query"))
    else resolved_or (fleet_step fleet query writable to_local) (
        resolved_or
          (if has_char b':' query
            then none
            else resolve_session_alias_window_target query writable to_local)
          (found_as to_local (find_window writable query)
            (resolve_remote config fleet manifest query writable)))
