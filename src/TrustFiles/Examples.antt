-- ===== src/TrustFiles/Examples.antt =====
-- The trust list at concrete inputs.
use maw_js.Prelude.{◌≡◌, refl, false, [], ◌∷◌, none, some, Text, text}
use maw_js.Disk.{ConsentAction, hey, at, human, TrustEntry, TrustEntryOnDisk, array, Disk}
use maw_js.Consent.Store.{record_trust, is_trusted}
use maw_js.TrustFiles.{load_trust, cmd_add}
use maw_js.TrustFiles.Shared.{pairs, IsPair, stores_clobber}

abbrev neo_pulse : TrustEntryOnDisk
neo_pulse = record { sender = text "neo"; target = text "pulse"; added_at = at 1 }

abbrev disk : Disk
disk = record {
  trust = some (array (neo_pulse ∷ []));
  legacy_trust = none;
  pending_files = [];
  legacy_pending = [];
}

abbrev entry : TrustEntry
entry = record {
  from = text "m5";
  to = text "mba";
  action = hey;
  approved_at = at 5;
  approved_by = human;
  request_id = none;
}

neo-IsPair : IsPair (text "neo") (text "hojo")
neo-IsPair = (refl, refl, λ e. cc)

stores_clobber_example :
    (load_trust (record_trust entry disk) ≡ [])
    × (IsPair (text "neo") (text "hojo")
        → pairs (text "neo") (text "hojo") (load_trust disk) ≡ false
        → (f g : Text) (a : ConsentAction)
        → is_trusted (cmd_add (text "neo") (text "hojo") 3 disk).0 f g a ≡ false)
stores_clobber_example = stores_clobber entry (text "neo") (text "hojo") 3 disk
