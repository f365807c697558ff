-- ===== src/Plugins/Dispatch/Ladder.antt =====
-- cli/dispatch.ts: which plugin a command line runs, and with what.
use maw_js.Prelude.{
  ◌≢◌, ◌∙◌, ap, ◌≡◌, ◌⊎◌, inl, inr, refl, Bool, true, false, Option, none, some, List, [], ◌∷◌,
  Text, lower_case, find, map, Bool-cases, Option-cases, arith, Memᴰ, head,
}
use maw_js.Names.{unique_strings}
use maw_js.Plugins.{LoadedPlugin}
use maw_js.Plugins.Commands.{CommandMatch}
use maw_js.Plugins.Matching.{DispatchMatch, matched, ambiguous, unmatched, resolve_plugin_match}
use maw_js.Plugins.Dispatch.{
  Installed, DispatchOutcome, invoked, join_spaces, prefix_matches, retry_route, retry_plugin,
  retry_with, retry, unknown_or_agent, shorthand, is_oracle, near_commands, by_prefix, by_known,
  guess, is_headless, or_guess, by_disabled, by_enabled, dispatch_plugin_registry,
}
use maw_js.Plugins.Dispatch.Runs.{Runs, IsMet, invoke_matched-Runs, dispatch_matched-Runs}

-- How a plugin is run by a retry.
abbrev IsRetried : List LoadedPlugin → List Text → Option DispatchOutcome → Type 0
IsRetried plugins args o =
    (q : LoadedPlugin) (remaining : List Text) (n : Text)
    → o ≡ some (invoked q remaining n)
    → Runs plugins args q remaining n

retry_route-IsRetried :
    (plugins : List LoadedPlugin) (resolved : Text) (rest : List Text)
    → IsRetried plugins (resolved ∷ rest) (retry_route resolved rest)
retry_route-IsRetried plugins resolved rest q remaining n e = ground arith

retry_plugin-IsRetried :
    (plugins : List LoadedPlugin) (resolved : Text) (rest : List Text) (r : DispatchMatch)
    → resolve_plugin_match plugins (lower_case (join_spaces (resolved ∷ rest))) false ≡ r
    → IsRetried plugins (resolved ∷ rest) (retry_plugin resolved rest r)
retry_plugin-IsRetried plugins resolved rest (matched p name) found q remaining n e =
    invoke_matched-Runs plugins (resolved ∷ rest) p q name n remaining found cc
retry_plugin-IsRetried plugins resolved rest (ambiguous _) found q remaining n e =
    retry_route-IsRetried plugins resolved rest q remaining n e
retry_plugin-IsRetried plugins resolved rest unmatched found q remaining n e =
    retry_route-IsRetried plugins resolved rest q remaining n e

retry_with-IsRetried :
    (plugins : List LoadedPlugin) (resolved : Text) (rest : List Text) (r : Option CommandMatch)
    → IsRetried plugins (resolved ∷ rest) (retry_with plugins resolved rest r)
retry_with-IsRetried plugins resolved rest (some found) q remaining n e = cc
retry_with-IsRetried plugins resolved rest none q remaining n e =
    retry_plugin-IsRetried plugins resolved rest _ refl q remaining n e

shorthand_runs_none :
    (arg : Text) (rest : List Text) (q : LoadedPlugin) (remaining : List Text) (n : Text)
    → shorthand arg rest ≢ invoked q remaining n
shorthand_runs_none arg [] q remaining n = λ e. cc
shorthand_runs_none arg (x ∷ rest) q remaining n = λ e. cc

unknown_or_agent_runs_none :
    (m : Installed) (arg : Text) (rest close : List Text) (q : LoadedPlugin) (remaining : List Text)
    (n : Text)
    → unknown_or_agent m arg rest close ≢ invoked q remaining n
unknown_or_agent_runs_none m arg rest (name ∷ close) q remaining n = λ e. cc
unknown_or_agent_runs_none m arg rest [] q remaining n = λ e. elim (Bool-cases (is_oracle m arg)) [
  | inl agent ↦ shorthand_runs_none arg rest q remaining n (rw agent at e)
  | inr other ↦ ground (arith, other)
]

-- Run by way of the one command that the typed word begins.
abbrev pub RunsCompleted :
    Installed → (cmd : Text) → List Text → LoadedPlugin → List Text → Text → Type 0
RunsCompleted m cmd rest q remaining n =
    (resolved : Text) × Memᴰ resolved (prefix_matches cmd m)
    × Runs m.plugins (resolved ∷ rest) q remaining n

by_prefix_lem :
    (m : Installed) (cmd arg : Text) (rest found unique : List Text) (q : LoadedPlugin)
    (remaining : List Text) (n : Text)
    → ((x : Text) → Memᴰ x found → Memᴰ x (prefix_matches cmd m))
    → by_prefix m arg rest found unique ≡ invoked q remaining n
    → RunsCompleted m cmd rest q remaining n
unfolding retry
by_prefix_lem m cmd arg rest [] [] q remaining n into e =
    elim (unknown_or_agent_runs_none m arg rest _ q remaining n e) [ ]
by_prefix_lem m cmd arg rest [] (name ∷ []) q remaining n into e =
    elim (unknown_or_agent_runs_none m arg rest _ q remaining n e) [ ]
by_prefix_lem m cmd arg rest [] (name ∷ other ∷ unique) q remaining n into e =
    elim (unknown_or_agent_runs_none m arg rest (name ∷ other ∷ unique) q remaining n e) [ ]
by_prefix_lem m cmd arg rest (resolved ∷ found) [] q remaining n into e =
    elim (unknown_or_agent_runs_none m arg rest _ q remaining n e) [ ]
by_prefix_lem m cmd arg rest (resolved ∷ found) (name ∷ other ∷ unique) q remaining n into e =
    elim (unknown_or_agent_runs_none m arg rest (name ∷ other ∷ unique) q remaining n e) [ ]
by_prefix_lem m cmd arg rest (resolved ∷ found) (name ∷ []) q remaining n into e =
    elim (Option-cases (retry m resolved rest)) [
      | inl gone ↦
          elim (unknown_or_agent_runs_none m resolved rest (near_commands m resolved) q remaining n
            (simp (gone) at e)) [ ]
      | inr (outcome, there) ↦ (
        resolved,
        into resolved head,
        retry_with-IsRetried m.plugins resolved rest _ q remaining n
            (there ∙ ap some (simp (there) at e)),
      )
    ]

by_known_lem :
    (m : Installed) (cmd arg : Text) (rest : List Text) (known : Bool) (q : LoadedPlugin)
    (remaining : List Text) (n : Text)
    → by_known m arg rest known (prefix_matches cmd m) ≡ invoked q remaining n
    → RunsCompleted m cmd rest q remaining n
by_known_lem m cmd arg rest true q remaining n e =
    elim (shorthand_runs_none arg rest q remaining n e) [ ]
by_known_lem m cmd arg rest false q remaining n e =
    by_prefix_lem m cmd arg rest (prefix_matches cmd m)
      (unique_strings (map lower_case (prefix_matches cmd m))) q remaining n (λ x h. h) e

guess_lem :
    (m : Installed) (cmd arg : Text) (rest : List Text) (q : LoadedPlugin) (remaining : List Text)
    (n : Text)
    → guess m cmd arg rest ≡ invoked q remaining n
    → RunsCompleted m cmd rest q remaining n
unfolding guess
guess_lem m cmd arg rest q remaining n e = by_known_lem m cmd arg rest _ q remaining n e

-- What a plugin that is run has: the command line names it and what it needs is there, or the typed word was completed.
abbrev pub Chosen :
    Installed → (cmd : Text) → Text → List Text → LoadedPlugin → List Text → Text → Type 0
Chosen m cmd arg rest q remaining n =
    (Runs m.plugins (arg ∷ rest) q remaining n × IsMet m.plugins q)
    ⊎ RunsCompleted m cmd rest q remaining n

or_guess_lem :
    (m : Installed) (cmd arg : Text) (rest : List Text) (found : Option LoadedPlugin)
    (q : LoadedPlugin) (remaining : List Text) (n : Text)
    → or_guess m cmd arg rest found ≡ invoked q remaining n
    → RunsCompleted m cmd rest q remaining n
or_guess_lem m cmd arg rest (some p) q remaining n e = cc
or_guess_lem m cmd arg rest none q remaining n e = guess_lem m cmd arg rest q remaining n e

by_disabled_lem :
    (m : Installed) (cmd arg : Text) (rest : List Text) (r : DispatchMatch) (q : LoadedPlugin)
    (remaining : List Text) (n : Text)
    → by_disabled m cmd arg rest r ≡ invoked q remaining n
    → RunsCompleted m cmd rest q remaining n
by_disabled_lem m cmd arg rest (matched p name) q remaining n e = cc
by_disabled_lem m cmd arg rest (ambiguous candidates) q remaining n e = cc
by_disabled_lem m cmd arg rest unmatched q remaining n e =
    or_guess_lem m cmd arg rest (find (is_headless arg) m.plugins) q remaining n e

by_enabled_lem :
    (m : Installed) (cmd arg : Text) (rest : List Text) (r : DispatchMatch) (q : LoadedPlugin)
    (remaining : List Text) (n : Text)
    → resolve_plugin_match m.plugins (lower_case (join_spaces (arg ∷ rest))) false ≡ r
    → by_enabled m cmd arg rest r ≡ invoked q remaining n
    → Chosen m cmd arg rest q remaining n
by_enabled_lem m cmd arg rest (matched p name) q remaining n found e =
    inl (dispatch_matched-Runs m.plugins (arg ∷ rest) p q name n remaining found e)
by_enabled_lem m cmd arg rest (ambiguous candidates) q remaining n found e = cc
by_enabled_lem m cmd arg rest unmatched q remaining n found e =
    inr (by_disabled_lem m cmd arg rest _ q remaining n e)

-- A plugin that a command line runs is enabled, and the line names it at a word's end. Where it declares flags, each
-- argument that it gets and that is read as a flag is a declared flag or a universal one; an argument is not read as a
-- flag behind a `--`, or right behind a flag that takes it as its value. All that the plugin needs through any number
-- of others is installed and enabled, or the typed word begins the name of a command, in whose place the line names it.
pub dispatch_plugin_registry_lem :
    (m : Installed) (cmd arg : Text) (rest : List Text) (q : LoadedPlugin) (remaining : List Text)
    (n : Text)
    → dispatch_plugin_registry m cmd arg rest ≡ invoked q remaining n
    → Chosen m cmd arg rest q remaining n
unfolding dispatch_plugin_registry
dispatch_plugin_registry_lem m cmd arg rest q remaining n e =
    by_enabled_lem m cmd arg rest _ q remaining n refl e
