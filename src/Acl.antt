-- ===== src/Acl.antt =====
-- commands/shared/scope-acl.ts: whether a message between two oracles is delivered or queued. The order
-- of `localeCompare` is a parameter, as a test that one name stands strictly before another.
pub mod Rules
mod Examples
use maw_js.Prelude.{
  Bool, true, false, ◌&&◌, ◌||◌, Option, none, some, List, [], ◌∷◌, map, Text, text, ◌===◌, any,
  ends_with, filter, if◌then◌else◌,
}
use maw_js.Disk.{Stamp, TrustEntryOnDisk, Disk}
use maw_js.TrustFiles.{load_trust}

-- lib/schemas.ts; `ttl` is null where it is `none`.
pub record Scope : Type 0 where
  pub name : Text
  pub members : List Text
  pub lead : Option Text
  pub created : Text
  pub ttl : Option Text

pub record TrustPair : Type 0 where
  pub sender : Text
  pub target : Text

pub data AclDecision : Type 0 where
  allow queue : AclDecision

abbrev pub includes_name : Text → List Text → Bool
includes_name name members = any (λ m. m === name) members

abbrev pub shares : (sender target : Text) → Scope → Bool
shares sender target s = includes_name sender s.members && includes_name target s.members

abbrev pub trusts : (sender target : Text) → TrustPair → Bool
trusts sender target t =
    (t.sender === sender && t.target === target) || (t.sender === target && t.target === sender)

-- An absent trust list is the empty one.
unfoldable pub evaluate_acl : (sender target : Text) → List Scope → List TrustPair → AclDecision
evaluate_acl sender target scopes trust =
    if sender === target
    then allow
    else (if any (shares sender target) scopes
        then allow
        else (if any (trusts sender target) trust then allow else queue))

-- A file of the scopes directory: text that is no scope (it does not parse, or has no name or no list of
-- members), or a scope.
pub data ScopeJson : Type 0 where
  corrupt : ScopeJson
  scope : Scope → ScopeJson

-- The scopes directory, with the names of its files; `none` is a missing directory.
abbrev pub ScopesDir : Type 0
ScopesDir = Option (List (Text × ScopeJson))

abbrev pub scopes_of : List (Text × ScopeJson) → List Scope
scopes_of [] = []
scopes_of ((_, corrupt) ∷ files) = scopes_of files
scopes_of ((_, scope s) ∷ files) = s ∷ scopes_of files

-- `out.sort`: a stable sort, here by insertion.
unfoldable pub insert_by : (Text → Text → Bool) → Scope → List Scope → List Scope
insert_by before s [] = s ∷ []
insert_by before s (t ∷ rest) =
    let after = insert_by before s rest in if before t.name s.name then t ∷ after else s ∷ t ∷ rest

unfoldable pub sort_by_name : (Text → Text → Bool) → List Scope → List Scope
unfolding insert_by
sort_by_name before [] = []
sort_by_name before (s ∷ rest) = insert_by before s (sort_by_name before rest)

unfoldable pub load_all_scopes : (Text → Text → Bool) → ScopesDir → List Scope
unfolding sort_by_name ends_with
load_all_scopes before none = []
load_all_scopes before (some files) =
    sort_by_name before (scopes_of (filter (λ f. ends_with f.0 (text ".json")) files))

unfoldable pub load_trust_from_disk : Disk → List TrustPair
unfolding load_trust
load_trust_from_disk d = map (λ e. record { sender = e.sender; target = e.target }) (load_trust d)

unfoldable pub evaluate_acl_from_disk :
    (Text → Text → Bool) → (sender target : Text) → ScopesDir → Disk → AclDecision
unfolding evaluate_acl load_all_scopes load_trust_from_disk
evaluate_acl_from_disk before sender target dir d =
    evaluate_acl sender target (load_all_scopes before dir) (load_trust_from_disk d)
