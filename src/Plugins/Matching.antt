-- ===== src/Plugins/Matching.antt =====
-- cli/dispatch-match.ts: the plugin that a command line names, and the flags that it declares.
pub mod Collected
pub mod Boundary
use maw_js.Prelude.{
  ℕ, Bool, true, false, not, ◌&&◌, ◌||◌, Option, none, some, List, [], ◌∷◌, ◌++◌, map, Text, text,
  is_empty, starts_with, lower_case, has_char, drop, any, leb, ◌==◌, ◌===◌, if◌then◌else◌,
}
use maw_js.Prelude.Dict.{Dict, lookup}
use maw_js.Prelude.Decimal.{is_digit}
use maw_js.Names.{includes_text}
use maw_js.Plugins.{PluginCli, PluginManifest, LoadedPlugin, wasm, ts}
use maw_js.Plugins.Dependencies.{or_none}
use maw_js.Peers.Store.{truthy}

pub record CliNames : Type 0 where
  pub command : Text
  pub aliases : List Text

abbrev pub has_executable_surface : LoadedPlugin → Bool
has_executable_surface p = elim p.kind [
  | ts ↦ truthy p.entry_path
  | wasm ↦ not (is_empty p.wasm_path)
]

abbrev pub has_any : Option (List Text) → Bool
has_any none = false
has_any (some []) = false
has_any (some (_ ∷ _)) = true

abbrev pub has_non_cli_surface : PluginManifest → Bool
has_non_cli_surface m =
    m.has_api
    || m.has_hooks
    || m.has_cron
    || m.has_module
    || m.has_transport
    || has_any m.capabilities

abbrev pub is_implicit_cli_dispatchable : LoadedPlugin → Bool
is_implicit_cli_dispatchable p = has_executable_surface p && not (has_non_cli_surface p.manifest)

-- The names by the manifest's `cli`, when it has one.
abbrev pub names_by : LoadedPlugin → Option PluginCli → Option CliNames
names_by p (some cli) = some (record { command = cli.command; aliases = or_none cli.aliases })
names_by p none =
    if is_implicit_cli_dispatchable p
    then some (record { command = p.manifest.name; aliases = [] })
    else none

unfoldable pub plugin_cli_names : LoadedPlugin → Option CliNames
plugin_cli_names p = names_by p p.manifest.cli

pub record Hit : Type 0 where
  pub plugin : LoadedPlugin
  pub matched_name : Text

pub record Hits : Type 0 where
  pub exact_command : List Hit
  pub exact_alias : List Hit
  pub prefix_command : List Hit
  pub prefix_alias : List Hit

abbrev pub no_hits : Hits
no_hits = record { exact_command = []; exact_alias = []; prefix_command = []; prefix_alias = [] }

-- The command line goes on after the name and a space.
abbrev pub goes_on_after : Text → Text → Bool
goes_on_after cmd_name name = starts_with cmd_name (name ++ text " ")

-- The loop over the aliases: the exact hit, and the first prefix hit before it.
abbrev pub alias_hits : Text → List Text → (prefix_hit : Option Text) → Option Text × Option Text
alias_hits cmd_name [] prefix_hit = (none, prefix_hit)
alias_hits cmd_name (alias ∷ aliases) prefix_hit =
    let lower = lower_case alias in
    let later = alias_hits cmd_name aliases (
      if not (truthy prefix_hit) && goes_on_after cmd_name lower then some lower else prefix_hit) in
    if cmd_name === lower then (some lower, prefix_hit) else later

-- What a non-empty hit adds.
abbrev pub hit_of : LoadedPlugin → Option Text → List Hit
hit_of p none = []
hit_of p (some name) = if is_empty name then [] else record { plugin = p; matched_name = name } ∷ []

abbrev pub push_alias : LoadedPlugin → Option Text × Option Text → Hits → Hits
push_alias p (exact, prefix) hits =
    if truthy exact
    then record hits { exact_alias = hits.exact_alias ++ hit_of p exact }
    else record hits { prefix_alias = hits.prefix_alias ++ hit_of p prefix }

-- One round of the loop over the plugins, from the plugin's names on.
abbrev pub push_names : Text → LoadedPlugin → Option CliNames → Hits → Hits
push_names cmd_name p none hits = hits
push_names cmd_name p (some names) hits =
    let command = lower_case names.command in
    let hit : Hit = record { plugin = p; matched_name = command } in
    if cmd_name === command
    then record hits { exact_command = hits.exact_command ++ (hit ∷ []) }
    else (if goes_on_after cmd_name command
        then record hits { prefix_command = hits.prefix_command ++ (hit ∷ []) }
        else push_alias p (alias_hits cmd_name names.aliases none) hits)

abbrev pub push_hits : Text → (include_disabled : Bool) → LoadedPlugin → Hits → Hits
push_hits cmd_name include_disabled p hits =
    if p.disabled && not include_disabled
    then hits
    else push_names cmd_name p (plugin_cli_names p) hits

abbrev pub collect_hits : Text → (include_disabled : Bool) → List LoadedPlugin → Hits → Hits
collect_hits cmd_name include_disabled [] hits = hits
collect_hits cmd_name include_disabled (p ∷ plugins) hits =
    collect_hits cmd_name include_disabled plugins (push_hits cmd_name include_disabled p hits)

-- The first of the lists with a hit.
abbrev pub or_hits : List Hit → List Hit → List Hit
or_hits [] later = later
or_hits (hit ∷ hits) later = hit ∷ hits

abbrev pub winners_of : Hits → List Hit
winners_of hits =
    or_hits hits.exact_command
      (or_hits hits.exact_alias (or_hits hits.prefix_command hits.prefix_alias))

pub data DispatchMatch : Type 0 where
  matched : (plugin : LoadedPlugin) (matched_name : Text) → DispatchMatch
  ambiguous : (candidates : List (Text × Text)) → DispatchMatch
  unmatched : DispatchMatch

abbrev pub candidate_of : Hit → Text × Text
candidate_of hit = (hit.plugin.manifest.name, hit.matched_name)

abbrev pub decide_match : List Hit → DispatchMatch
decide_match [] = unmatched
decide_match (hit ∷ []) = matched hit.plugin hit.matched_name
decide_match (hit ∷ other ∷ more) = ambiguous (map candidate_of (hit ∷ other ∷ more))

unfoldable pub resolve_plugin_match :
    List LoadedPlugin → Text → (include_disabled : Bool) → DispatchMatch
unfolding plugin_cli_names starts_with ◌===◌
resolve_plugin_match plugins cmd_name include_disabled =
    decide_match (winners_of (collect_hits cmd_name include_disabled plugins no_hits))

abbrev pub universal_plugin_flags : List Text
universal_plugin_flags =
    text "-h" ∷ text "--help" ∷ text "-help" ∷ text "-v" ∷ text "--version" ∷ text "-version" ∷ []

-- `arg.slice(0, arg.indexOf("="))`, or all of it.
abbrev pub before_equals : Text → Text
before_equals [] = []
before_equals (c ∷ s) = let rest = before_equals s in if c == b'=' then [] else c ∷ rest

-- `/^-\d/.test(arg)`
abbrev pub is_negative_number : Text → Bool
is_negative_number (_ ∷ c ∷ _) = is_digit c
is_negative_number _ = false

unfoldable pub flag_name : Text → Option Text
unfolding starts_with ◌===◌
flag_name arg =
    if (arg === text "--")
      || not (starts_with arg (text "-"))
      || is_negative_number arg
      || arg === text "-"
    then none
    else some (before_equals arg)

pub data FlagValidation : Type 0 where
  valid : FlagValidation
  unknown_flag : (flag : Text) → FlagValidation

-- The flag of that type takes the next argument.
abbrev pub takes_next : Option Text → (arg : Text) → Bool
takes_next none arg = false
takes_next (some type) arg =
    not (is_empty type) && not (type === text "boolean") && not (has_char b'=' arg)

abbrev pub allowed : Dict Text → Text → Bool
allowed declared name =
    any (λ f. f.0 === name) declared || includes_text name universal_plugin_flags

-- The loop over the arguments; `skip` says that the one before takes this one.
unfoldable pub check_flags : Dict Text → (skip : Bool) → List Text → FlagValidation
unfolding flag_name lookup has_char
check_flags declared skip [] = valid
check_flags declared true (arg ∷ argv) = check_flags declared false argv
check_flags declared false (arg ∷ argv) = elim (arg === text "--") [
  | true ↦ valid
  | false ↦ elim (flag_name arg) [
    | none ↦ check_flags declared false argv
    | some name ↦ elim (allowed declared name) [
      | true ↦ check_flags declared (takes_next (lookup name declared) arg) argv
      | false ↦ unknown_flag name
    ]
  ]
]

abbrev pub declared_flags : Option PluginCli → Option (Dict Text)
declared_flags none = none
declared_flags (some cli) = cli.flags

abbrev pub validate_declared : Option (Dict Text) → List Text → FlagValidation
validate_declared none argv = valid
validate_declared (some declared) argv = check_flags declared false argv

unfoldable pub validate_plugin_cli_flags : LoadedPlugin → List Text → FlagValidation
unfolding check_flags
validate_plugin_cli_flags plugin argv = validate_declared (declared_flags plugin.manifest.cli) argv
