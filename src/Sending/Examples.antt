-- ===== src/Sending/Examples.antt =====
-- commands/shared/comm-send.ts: a message from the node `m5` to the oracle `hojo` of the node `mba`.
use maw_js.Prelude.{◌≡◌, ◌⊎◌, refl, true, false, none, some, [], ◌∷◌, Text, text}
use maw_js.Prelude.Dict.{lookup}
use maw_js.Consent.Store.{is_trusted, load_trust}
use maw_js.Consent.Request.{response}
use maw_js.Consent.Gate.{peer}
use maw_js.Routing.{Config}
use maw_js.Sending.{Call, World, acl_queues, trust_target, send_resolved, cmd_send}
use maw_js.Sending.Whole.{Sends, WakesAndSends, cmd_send-Sends}
use maw_js.Sending.Bypass.{PostedAsFailed, fan_out_ignores_denial}

abbrev config : Config
config = record {
  node = some (text "m5");
  named_peers = record { name = text "mba"; url = text "http://mba.local:3456" } ∷ [];
  peers = [];
  agents = [];
}

abbrev call : Call
call = record {
  query = text "mba:hojo";
  message = text "hi";
  config = config;
  oracle = some (text "neo");
  sessions = [];
  woken_sessions = [];
  wake_ok = true;
  oracles = [];
  fleet = [];
  manifest = [];
  approve = false;
  trust = false;
  inbox_only = false;
  consent_on = true;
  acl_bypass = false;
  acl_reads = true;
  queue_saves = true;
  trust_saves = true;
  before = λ a b. true;
  scopes = none;
  pane = λ t. t;
  inbox_ok = false;
  peer_ok = λ url target. true;
  discovered = some (text "http://white.local:3456");
  sha256 = λ s. s;
  consent_post = λ url request. response 201;
  queue_id = text "q1";
  consent_id = text "c1";
  bytes = 0 ∷ 1 ∷ 2 ∷ 3 ∷ 4 ∷ 5 ∷ [];
  now = 10;
}

abbrev world : World
world = record {
  disk = record { trust = none; legacy_trust = none; pending_files = []; legacy_pending = [] };
  messages = record { files = []; legacy = [] };
  sent = [];
  exit_called = false;
}

abbrev mba : Text
mba = text "http://mba.local:3456"

fan_out_ignores_denial_example :
    ((send_resolved true call (peer mba (text "hojo") (text "mba")) world).0.sent ≡ [])
    × PostedAsFailed mba
        (text "hojo")
        world
        (send_resolved false call (peer mba (text "hojo") (text "mba")) world)
unfolding acl_queues is_trusted lookup load_trust trust_target
fan_out_ignores_denial_example =
    fan_out_ignores_denial call mba (text "hojo") (text "mba") world refl refl refl refl refl

cmd_send-Sends_example :
    Sends call world (cmd_send true call world)
    ⊎ WakesAndSends call world (cmd_send true call world)
cmd_send-Sends_example = cmd_send-Sends call world
