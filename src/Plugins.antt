-- ===== src/Plugins.antt =====
-- plugin/types.ts: an installed plugin, as far as choosing the plugin for a command line reads it. Of the surfaces other
-- than the command line only their presence is kept.
pub mod Dependencies
pub mod Commands
pub mod Matching
pub mod Dispatch
mod Examples
use maw_js.Prelude.{Bool, Option, List, Text}
use maw_js.Prelude.Dict.{Dict}

pub record PluginCli : Type 0 where
  pub command : Text
  pub aliases : Option (List Text)
  -- Each flag with its type.
  pub flags : Option (Dict Text)

pub record PluginManifest : Type 0 where
  pub name : Text
  pub cli : Option PluginCli
  -- `dependencies.plugins`
  pub dependencies : Option (List Text)
  pub has_api : Bool
  pub has_hooks : Bool
  pub has_cron : Bool
  pub has_module : Bool
  pub has_transport : Bool
  pub capabilities : Option (List Text)

pub data PluginKind : Type 0 where
  wasm ts : PluginKind

pub record LoadedPlugin : Type 0 where
  pub manifest : PluginManifest
  pub wasm_path : Text
  pub entry_path : Option Text
  pub kind : PluginKind
  pub disabled : Bool
