-- ===== src/PairCodes.antt =====
-- lib/pair-codes.ts: one-time pairing codes. The clock and the random bytes are arguments, and the
-- module's `store` is an explicit dictionary.
pub mod Shape
pub mod SingleUse
mod Examples
use maw_js.Prelude.{
  ℕ, ◌+◌, ◌%◌, Bool, true, false, not, ◌&&◌, ◌||◌, List, [], ◌∷◌, ◌++◌, map, if◌then◌else◌, ltb,
  leb, ◌==◌, length, get_or, take, drop, filter, all, Text, text, is_space, upper_case, has_char,
  Option, none, some,
}
use maw_js.Prelude.Dict.{Dict, lookup as dict_lookup, insert}

abbrev pub alphabet : Text
alphabet = text "ABCDEFGHJKLMNPQRSTUVWXYZ23456789"

pub record PairEntry : Type 0 where
  pub code : Text
  pub expires_at : ℕ
  pub consumed : Bool
  pub created_at : ℕ

-- The class `[-\s]`.
abbrev pub is_separator : ℕ → Bool
is_separator c = c == b'-' || is_space c

-- `raw.replace(/[-\s]/g, "").toUpperCase()`
unfoldable pub normalize : Text → Text
normalize raw = upper_case (filter (λ c. not (is_separator c)) raw)

unfoldable pub is_valid_shape : Text → Bool
is_valid_shape code = let c = normalize code in length c == 6 && all (λ ch. has_char ch alphabet) c

unfoldable pub pretty : Text → Text
pretty code = let c = normalize code in if length c == 6 then take 3 c ++ (b'-' ∷ drop 3 c) else c

unfoldable pub redact : Text → Text
redact code =
    let c = normalize code in if leb 3 (length c) then take 3 c ++ text "-***" else text "***"

-- One round of the loop of `generateCode`, on one random byte.
abbrev pub code_char : ℕ → ℕ
code_char byte = get_or alphabet (byte % 32) 0

-- `generateCode`, with the six random bytes as its argument.
unfoldable pub generate_code : List ℕ → Text
generate_code bytes = map code_char bytes

abbrev pub Store : Type 0
Store = Dict PairEntry

unfoldable pub register : (now : ℕ) → Text → (ttl_ms : ℕ) → Store → PairEntry × Store
register now code ttl_ms store =
    let entry : PairEntry = record {
      code = normalize code;
      expires_at = now + ttl_ms;
      consumed = false;
      created_at = now;
    } in
    (entry, insert entry.code entry store)

pub data Reason : Type 0 where
  not_found expired consumed : Reason

pub data LookupResult : Type 0 where
  found : PairEntry → LookupResult
  failed : Reason → LookupResult

-- What `lookup` does with the entry that the map gives.
unfoldable pub check_entry : (now : ℕ) → Option PairEntry → LookupResult
check_entry now none = failed not_found
check_entry now (some entry) =
    if entry.consumed
    then failed consumed
    else (if ltb entry.expires_at now then failed expired else found entry)

unfoldable pub lookup : (now : ℕ) → Text → Store → LookupResult
unfolding check_entry
lookup now code store = check_entry now (dict_lookup (normalize code) store)

-- The entry is shared with the map: setting its field changes the map.
abbrev pub mark_consumed : (key : Text) → LookupResult → Store → LookupResult × Store
mark_consumed key (failed reason) store = (failed reason, store)
mark_consumed key (found entry) store =
    let used = record entry { consumed = true } in (found used, insert key used store)

unfoldable pub consume : (now : ℕ) → Text → Store → LookupResult × Store
consume now code store = mark_consumed (normalize code) (lookup now code store) store
