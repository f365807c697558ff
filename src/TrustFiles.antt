-- ===== src/TrustFiles.antt =====
-- lib/trust-store.ts: the pairwise trust list, kept in the same `trust.json` as core/consent.
pub mod Shared
mod Examples
use maw_js.Prelude.{
  ℕ, Bool, true, false, ◌&&◌, ◌||◌, Option, none, some, List, [], ◌∷◌, ◌++◌, Text, ◌===◌, is_empty,
  find, if◌then◌else◌,
}
use maw_js.Disk.{Stamp, at, TrustEntryOnDisk, TrustJson, array, Disk}
use maw_js.Consent.Store.{readable_trust}

-- The file is chosen as in core/consent. Elements of the array that are no entries are left out of
-- the model: `filter` drops them when the file is read.
unfoldable pub load_trust : Disk → List TrustEntryOnDisk
unfolding readable_trust
load_trust d = elim (readable_trust d) [ some (array list) ↦ list | _ ↦ [] ]

unfoldable pub save_trust : List TrustEntryOnDisk → Disk → Disk
save_trust list d = record d { trust = some (array list) }

unfoldable pub same_pair : (a b : Text × Text) → Bool
same_pair (s, t) (s', t') = (s === s' && t === t') || (s === t' && t === s')

pub data AddError : Type 0 where
  empty_sender empty_target self_pair : AddError

pub data AddResult : Type 0 where
  added : TrustEntryOnDisk → AddResult
  present : TrustEntryOnDisk → AddResult
  thrown : AddError → AddResult

unfoldable pub cmd_add : (sender target : Text) → (now : ℕ) → Disk → Disk × AddResult
unfolding save_trust
cmd_add sender target now d =
    if is_empty sender
    then (d, thrown empty_sender)
    else (if is_empty target
        then (d, thrown empty_target)
        else (if sender === target
            then (d, thrown self_pair)
            else elim (find (λ e. same_pair (e.sender, e.target) (sender, target)) (load_trust d)) [
              | some existing ↦ (d, present existing)
              | none ↦
                  let entry : TrustEntryOnDisk = record {
                    sender = sender;
                    target = target;
                    added_at = at now;
                  } in
                  (save_trust (load_trust d ++ (entry ∷ [])) d, added entry)
            ]))
