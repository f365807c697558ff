-- ===== src/Routing/Resolution.antt =====
-- core/routing.ts: every result of the resolver is justified, and a name for another node never leaves by a
-- peer when it is this node.
use maw_js.Prelude.{◌≡◌, false, some, [], Text, text, ◌===◌, is_empty, has_char, arith}
use maw_js.Prelude.Dict.{lookup}
use maw_js.Names.{unique_from}
use maw_js.Windows.{
  no_window, find_window, bare_passes, exact_sessions, exact_windows, substring_matches, raw_target,
}
use maw_js.Consent.Gate.{peer}
use maw_js.Routing.{
  Config, resolved, self_name, find_peer_url, fleet_step, fleet_session_of, alias_matches, narrow,
  resolve_session_alias_window_target, lookup_manifest_entry, resolve_fleet_session, agent_node,
  resolve_remote, resolve_target,
}

no_windows : (query : Text) → has_char b':' query ≡ false → find_window [] query ≡ no_window
unfolding find_window bare_passes exact_sessions exact_windows substring_matches raw_target
    unique_from
no_windows query colon = ground (arith, colon)

-- Where the agents map puts an agent at `local` on a node with another name, and nothing local is known of it,
-- the message goes to the first peer whose name or legacy address fits `local`, as `mba.local` does: the map's
-- step does not take `local` for this node, as the steps before it do.
pub local_agent_escapes :
    (query : Text) (config : Config) (url : Text)
    → is_empty query ≡ false
    → has_char b':' query ≡ false
    → lookup query config.agents ≡ some (text "local")
    → (text "local" === self_name config) ≡ false
    → find_peer_url (text "local") config ≡ some url
    → is_empty url ≡ false
    → resolve_target query config [] [] [] ≡ resolved (peer url query (text "local"))
unfolding resolve_target resolve_remote fleet_step fleet_session_of resolve_fleet_session
    resolve_session_alias_window_target alias_matches narrow lookup_manifest_entry agent_node
local_agent_escapes query config url full colon at_local other at_url ok =
    let missed = no_windows query colon in
    ground (arith, full, colon, at_local, other, at_url, ok, missed)
