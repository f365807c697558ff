-- ===== src/Routing/Examples.antt =====
-- core/routing.ts: the theorems at concrete configurations.
use maw_js.Prelude.{true, none, some, List, [], ◌∷◌, text}
use maw_js.Windows.{Session}
use maw_js.Routing.{Config}

abbrev config : Config
config = record {
  node = some (text "m5");
  named_peers = record { name = text "mba"; url = text "http://mba.local:3456" } ∷ [];
  peers = text "http://white.local:3456" ∷ [];
  agents = (text "pulse", text "local") ∷ (text "hojo", text "mba") ∷ [];
}

abbrev sessions : List Session
sessions =
    record {
      name = text "08-neo-view";
      windows = record { index = 0; name = text "neo-oracle"; active = true } ∷ [];
      source = none;
    }
    ∷ []
