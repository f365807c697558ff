-- ===== src/Plugins/Dependencies.antt =====
-- plugin/dependencies.ts: the plugins that a plugin needs, through any number of others. The recursion of `visit` is on
-- fuel.
mod Unseen
pub mod Sound
pub mod Closure
use maw_js.Prelude.{
  ℕ, zero, suc, Bool, true, false, ◌&&◌, Option, none, some, List, [], ◌∷◌, ◌++◌, Text, ◌===◌, any,
  length, if◌then◌else◌,
}
use maw_js.Prelude.Dict.{Dict, lookup, insert}
use maw_js.Names.{includes_text, unique_from, unique_strings}
use maw_js.Plugins.{LoadedPlugin}

pub record PluginDependencyStatus : Type 0 where
  pub disabled : List Text
  pub missing : List Text

abbrev pub or_none {ℓ} : {A : Type ℓ} → Option (List A) → List A
or_none (some xs) = xs
or_none none = []

abbrev pub plugin_dependency_names : LoadedPlugin → List Text
plugin_dependency_names plugin = or_none plugin.manifest.dependencies

-- `new Map(plugins.map(...))`: of two plugins with one name, the later counts.
abbrev index_from : Dict LoadedPlugin → List LoadedPlugin → Dict LoadedPlugin
index_from index [] = index
index_from index (p ∷ rest) = index_from (insert p.manifest.name p index) rest

unfoldable pub by_name : List LoadedPlugin → Dict LoadedPlugin
unfolding insert
by_name = index_from []

-- What `visit` shares with its calls.
pub record Search : Type 0 where
  pub seen : List Text
  pub disabled : List Text
  pub missing : List Text

abbrev pub blank : Search
blank = record { seen = []; disabled = []; missing = [] }

abbrev pub for_each : (Text → Search → Search) → List Text → Search → Search
for_each go [] s = s
for_each go (name ∷ rest) s = for_each go rest (go name s)

-- After the children of a plugin.
abbrev pub leave : Text → Bool → Search → Search
leave name true s = record s { disabled = s.disabled ++ (name ∷ []) }
leave name false s = s

abbrev pub mark : Text → Search → Search
mark name s = record s { seen = name ∷ s.seen }

-- The body of `visit`, whose recursive calls are `go`.
abbrev pub visit_with :
    (Text → Search → Search) → Text → Bool → Option LoadedPlugin → Search → Search
visit_with go name true found s = s
visit_with go name false none s =
    let marked = mark name s in record marked { missing = marked.missing ++ (name ∷ []) }
visit_with go name false (some dep) s =
    leave name dep.disabled (for_each go (plugin_dependency_names dep) (mark name s))

unfoldable pub visit : (fuel : ℕ) → Dict LoadedPlugin → Text → Search → Search
unfolding lookup
visit zero index name s = s
visit (suc fuel) index name s =
    visit_with (visit fuel index) name (includes_text name s.seen) (lookup name index) s

unfoldable pub dependency_status : LoadedPlugin → List LoadedPlugin → PluginDependencyStatus
unfolding by_name visit
dependency_status plugin plugins =
    let index = by_name plugins in
    let s = for_each (visit (suc (length index)) index) (plugin_dependency_names plugin) blank in
    record { disabled = s.disabled; missing = s.missing }

unfoldable pub enable_plan_for :
    LoadedPlugin → List LoadedPlugin → (include_self : Bool) → List Text
unfolding dependency_status unique_from
enable_plan_for plugin plugins include_self =
    let plan = (dependency_status plugin plugins).disabled in
    unique_strings
      (if include_self && plugin.disabled then plan ++ (plugin.manifest.name ∷ []) else plan)
