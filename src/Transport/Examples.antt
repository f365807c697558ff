-- ===== src/Transport/Examples.antt =====
-- core/transport/transport.ts: tmux is not connected, MQTT times out and HTTP delivers.
use maw_js.Prelude.{
  ◌≡◌, ◌⊎◌, refl, true, false, none, some, List, [], ◌∷◌, text, starts_with, includes, to_lower,
}
use maw_js.Transport.{
  TransportTarget, answered, threw, Transport, classify_error, has_rate_limit, rate_limit, timeout,
  auth, send,
}
use maw_js.Transport.Failover.{DecidedBy, NoneDecides, send_lem}

abbrev target : TransportTarget
target = record { oracle = text "neo"; host = some (text "white.local"); tmux_target = none }

abbrev transports : List Transport
transports =
    record {
      name = text "tmux";
      connected = false;
      can_reach = λ t. true;
      send = λ t m. answered true;
    }
    ∷ record {
      name = text "mqtt";
      connected = true;
      can_reach = λ t. true;
      send = λ t m. threw (some (text "Timeout"));
    }
    ∷ record {
      name = text "http";
      connected = true;
      can_reach = λ t. true;
      send = λ t m. answered true;
    }
    ∷ []

classes :
    (classify_error (some (text "Rate-Limit hit")) ≡ (rate_limit, true))
    × (classify_error (some (text "read ETIMEDOUT")) ≡ (timeout, true))
    × (classify_error (some (text "unknown author")) ≡ (auth, false))
unfolding classify_error includes starts_with has_rate_limit to_lower
classes = (refl, refl, refl)

delivered : (send transports target (text "hi")).0.via ≡ text "http"
unfolding send classify_error includes starts_with has_rate_limit to_lower
delivered = refl

send_lem_example :
    DecidedBy target (text "hi") transports (send transports target (text "hi"))
    ⊎ NoneDecides target (text "hi") transports (send transports target (text "hi"))
send_lem_example = send_lem target (text "hi") transports
