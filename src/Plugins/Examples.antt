-- ===== src/Plugins/Examples.antt =====
-- Tests of the choice of a plugin, and its theorems at concrete inputs.
use maw_js.Prelude.{
  ◌≡◌, ◌≤◌, ◌↔◌, refl, Bool, true, false, none, some, List, [], ◌∷◌, Text, text, ◌===◌, to_lower,
  is_space, length, Memᴰ, head,
}
use maw_js.Prelude.Dict.{lookup}
use maw_js.Plugins.{LoadedPlugin, ts}
use maw_js.Plugins.Dependencies.{
  by_name, plugin_dependency_names, dependency_status, enable_plan_for,
}
use maw_js.Plugins.Dependencies.Sound.{Needsᴰ, root, IsDisabled}
use maw_js.Plugins.Dependencies.Closure.{dependency_status_lem}
use maw_js.Plugins.Commands.{
  CommandDescriptor, Commands, register_command, split_from, split_spaces, CommandMatch,
  match_command,
}
use maw_js.Plugins.Commands.Longest.{Names, match_command_longest}
use maw_js.Plugins.Dispatch.{Installed, invoked, missing_dependency, dispatch_plugin_registry}
use maw_js.Plugins.Dispatch.Ladder.{Chosen, dispatch_plugin_registry_lem}
use maw_js.Plugins.Dispatch.Completion.{completion_skips_dependencies}

abbrev plugin : Text → List Text → Bool → LoadedPlugin
plugin name needs off = record {
  manifest = record {
    name = name;
    cli = some (record { command = name; aliases = none; flags = none });
    dependencies = some needs;
    has_api = false;
    has_hooks = false;
    has_cron = false;
    has_module = false;
    has_transport = false;
    capabilities = none;
  };
  wasm_path = [];
  entry_path = some (text "index.ts");
  kind = ts;
  disabled = off;
}

-- Three plugins that need one another in a circle, of which the last is disabled and needs one that is not there.
abbrev team : LoadedPlugin
team = plugin (text "team") (text "tile" ∷ []) false

abbrev tile : LoadedPlugin
tile = plugin (text "tile") (text "tmux" ∷ []) false

abbrev tmux : LoadedPlugin
tmux = plugin (text "tmux") (text "pane" ∷ text "team" ∷ []) true

abbrev bud : LoadedPlugin
bud = plugin (text "bud") [] false

abbrev all_plugins : List LoadedPlugin
all_plugins = team ∷ tile ∷ tmux ∷ bud ∷ []

status_test :
    dependency_status team all_plugins
    ≡ record { disabled = text "tmux" ∷ []; missing = text "pane" ∷ [] }
unfolding dependency_status ◌===◌
status_test = refl

plan_test : enable_plan_for tmux all_plugins true ≡ text "tmux" ∷ []
unfolding enable_plan_for ◌===◌
plan_test = refl

dependency_status_lem_example :
    (Memᴰ (text "tmux") (dependency_status team all_plugins).disabled ↔ (
      Needsᴰ (by_name all_plugins) (plugin_dependency_names team) (text "tmux")
      × IsDisabled (by_name all_plugins) (text "tmux")))
    × (Memᴰ (text "tmux") (dependency_status team all_plugins).missing ↔ (
        Needsᴰ (by_name all_plugins) (plugin_dependency_names team) (text "tmux")
        × (lookup (text "tmux") (by_name all_plugins) ≡ none)))
dependency_status_lem_example = dependency_status_lem team all_plugins (text "tmux")

abbrev described : Text → CommandDescriptor
described name = record { names = name ∷ []; path = name; is_builtin = false }

abbrev commands : Commands
commands =
    (text "fleet", described (text "fleet"))
    ∷ (text "fleet doctor", described (text "fleet doctor"))
    ∷ []

abbrev fleet_line : List Text
fleet_line = text "Fleet" ∷ text "doctor" ∷ text "--fix" ∷ []

register_test :
    register_command
      (described (text "fleet doctor"))
      (register_command (described (text "fleet")) [])
    ≡ commands
unfolding register_command ◌===◌ to_lower is_space
register_test = refl

match_command_test :
    match_command fleet_line commands
    ≡ some (record {
      desc = described (text "fleet doctor");
      remaining = text "--fix" ∷ [];
      key = text "fleet doctor";
      len = 2;
    })
unfolding match_command ◌===◌ to_lower
match_command_test = refl

match_command_longest_example :
    (m : CommandMatch) × (match_command fleet_line commands ≡ some m)
    × Names fleet_line commands m
    × (length (split_spaces (text "fleet")) ≤ m.len)
unfolding split_from ◌===◌ to_lower is_space
match_command_longest_example =
    match_command_longest fleet_line commands (text "fleet") (described (text "fleet")) head refl

abbrev installed : Installed
installed = record {
  plugins = all_plugins;
  commands = commands;
  sessions = [];
  locale_before = λ _ _. false;
}

-- In full the plugin is refused for what it needs.
whole_test :
    dispatch_plugin_registry installed (text "team") (text "team") []
    ≡ missing_dependency (text "pane" ∷ [])
unfolding dispatch_plugin_registry ◌===◌ to_lower
whole_test = refl

bud_runs :
    dispatch_plugin_registry installed (text "bud") (text "Bud") (text "-n" ∷ [])
    ≡ invoked bud (text "-n" ∷ []) (text "bud")
unfolding dispatch_plugin_registry ◌===◌ to_lower is_space
bud_runs = refl

dispatch_plugin_registry_lem_example :
    Chosen installed (text "bud") (text "Bud") (text "-n" ∷ []) bud (text "-n" ∷ []) (text "bud")
dispatch_plugin_registry_lem_example =
    dispatch_plugin_registry_lem installed (text "bud") (text "Bud") (text "-n" ∷ []) bud
      (text "-n" ∷ []) (text "bud") bud_runs

-- A plugin that needs one that is not there, and the word that begins its command.
abbrev zoom : LoadedPlugin
zoom = plugin (text "zoom") (text "lens" ∷ []) false

abbrev alone : Installed
alone = record { plugins = zoom ∷ []; commands = []; sessions = []; locale_before = λ _ _. false }

completion_skips_dependencies_example :
    ((missing : List Text) × (dispatch_plugin_registry alone (text "zoom") (text "zoom") []
        ≡ missing_dependency missing)
      × Memᴰ (text "lens") missing)
    × (dispatch_plugin_registry alone (text "zo") (text "zo") [] ≡ invoked zoom [] (text "zoom"))
unfolding dispatch_plugin_registry ◌===◌ to_lower is_space
completion_skips_dependencies_example =
    completion_skips_dependencies zoom (text "zoom") (text "zo") [] (λ _ _. false) refl refl refl
      refl refl refl refl (text "lens") (root head) refl
