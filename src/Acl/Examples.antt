-- ===== src/Acl/Examples.antt =====
-- commands/shared/scope-acl.ts: the theorems at concrete scopes and pairs.
use maw_js.Prelude.{◌≡◌, ◌↔◌, refl, Bool, none, some, [], ◌∷◌, Text, text, ltb, length}
use maw_js.Disk.{Disk}
use maw_js.TrustFiles.Shared.{IsPair}
use maw_js.Acl.{Scope, corrupt, scope, ScopesDir, allow, evaluate_acl}
use maw_js.Acl.Rules.{IsAllowed, evaluate_acl_iff}

abbrev family : Scope
family = record {
  name = text "family";
  members = text "neo" ∷ text "hojo" ∷ [];
  lead = none;
  created = text "2026-01-01";
  ttl = none;
}

abbrev dir : ScopesDir
dir = some (
    (text "family.json", scope family)
    ∷ (text "x.json", corrupt)
    ∷ (text "README.md", corrupt)
    ∷ [])

abbrev disk : Disk
disk = record { trust = none; legacy_trust = none; pending_files = []; legacy_pending = [] }

abbrev shorter : Text → Text → Bool
shorter a b = ltb (length a) (length b)

neo-IsPair : IsPair (text "neo") (text "pulse")
neo-IsPair = (refl, refl, λ e. cc)

evaluate_acl_iff_example :
    (evaluate_acl (text "neo") (text "hojo") (family ∷ []) [] ≡ allow)
    ↔ IsAllowed (text "neo") (text "hojo") (family ∷ []) []
evaluate_acl_iff_example = evaluate_acl_iff (text "neo") (text "hojo") (family ∷ []) []
