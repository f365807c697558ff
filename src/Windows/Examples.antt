-- ===== src/Windows/Examples.antt =====
-- core/runtime/find-window.ts: a query with a pane at concrete sessions.
use maw_js.Prelude.{true, none, List, [], ◌∷◌, text}
use maw_js.Windows.{Window, Session}

abbrev oracle_window : Window
oracle_window = record { index = 3; name = text "neo-oracle"; active = true }

abbrev sessions : List Session
sessions = record { name = text "08-neo"; windows = oracle_window ∷ []; source = none } ∷ []
