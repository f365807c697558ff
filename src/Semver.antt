-- ===== src/Semver.antt =====
-- plugin/registry-semver.ts: whether a version satisfies a plugin's range.
pub mod Ranges
mod Examples
use maw_js.Prelude.{
  ℕ, ◌+◌, ◌*◌, ◌-◌, Bool, true, false, not, ◌&&◌, ◌||◌, Option, none, some, List, [], ◌∷◌, Text,
  text, is_empty, starts_with, drop, length, trim, leb, ltb, ◌==◌, ◌===◌, if◌then◌else◌, any,
  is_line_end,
}
use maw_js.Prelude.Decimal.{is_digit}

-- `[number, number, number]`, where a number is exact.
pub record Core : Type 0 where
  pub major : ℕ
  pub minor : ℕ
  pub patch : ℕ

-- `\w` or a point.
abbrev pub is_label_char : ℕ → Bool
is_label_char c =
    (leb b'a' c && leb c b'z') || (leb b'A' c && leb c b'Z') || is_digit c || c == b'_' || c == b'.'

-- The digits in front as a number, and the rest; none without a digit.
unfoldable pub number_from : (seen : Bool) → (value : ℕ) → Text → Option (ℕ × Text)
number_from seen value [] = if seen then some (value, []) else none
number_from seen value (c ∷ s) =
    let rest = number_from true (value * 10 + (c - b'0')) s in
    if is_digit c then rest else (if seen then some (value, c ∷ s) else none)

abbrev pub after_point : Text → Option Text
after_point [] = none
after_point (c ∷ s) = if c == b'.' then some s else none

-- A label `[\w.]+` up to the end or, where one can follow, up to a `+`.
unfoldable pub is_label : (plus seen : Bool) → Text → Bool
is_label plus seen [] = seen
is_label plus seen (c ∷ s) =
    let rest = is_label plus true s in
    let build = is_label false false s in
    if is_label_char c then rest else plus && seen && c == b'+' && build

-- `(?:-[\w.]+)?(?:\+[\w.]+)?$`
unfoldable pub is_suffix_text : Text → Bool
unfolding is_label
is_suffix_text [] = true
is_suffix_text (c ∷ s) =
    (c == b'-' && is_label true false s) || (c == b'+' && is_label false false s)

infixl 1 ◌>>=◌
abbrev ◌>>=◌ : {A B : Type 0} → Option A → (A → Option B) → Option B
none >>= f = none
some a >>= f = f a

unfoldable pub parse_core : Text → Option Core
unfolding number_from is_suffix_text trim
parse_core v = do
  (major, rest₁) ← number_from false 0 (trim v)
  s₁ ← after_point rest₁
  (minor, rest₂) ← number_from false 0 s₁
  s₂ ← after_point rest₂
  (patch, suffix) ← number_from false 0 s₂
  if is_suffix_text suffix
      then some (record { major = major; minor = minor; patch = patch })
      else none

-- The sign of the number that `cmp` gives.
pub data Sign : Type 0 where
  negative nil positive : Sign

abbrev pub sign_of : (a b : ℕ) → Sign
sign_of a b = if ltb a b then negative else (if a == b then nil else positive)

abbrev pub or_else : Sign → Sign → Sign
or_else nil next = next
or_else sign next = sign

unfoldable pub cmp : (a b : Core) → Sign
cmp a b =
    or_else (sign_of a.major b.major) (or_else (sign_of a.minor b.minor) (sign_of a.patch b.patch))

pub data Op : Type 0 where
  caret tilde at_least at_most above below exact : Op

abbrev pub is_negative : Sign → Bool
is_negative negative = true
is_negative _ = false

abbrev pub is_positive : Sign → Bool
is_positive positive = true
is_positive _ = false

abbrev pub is_nil : Sign → Bool
is_nil nil = true
is_nil _ = false

-- The `switch`.
unfoldable pub holds : Op → (v target : Core) → Bool
unfolding cmp
holds caret v target =
    not (is_negative (cmp v target))
    && (if ltb 0 target.major
        then v.major == target.major
        else (if ltb 0 target.minor
            then v.major == 0 && v.minor == target.minor
            else v.major == 0 && v.minor == 0 && v.patch == target.patch))
holds tilde v target =
    not (is_negative (cmp v target)) && v.major == target.major && v.minor == target.minor
holds at_least v target = not (is_negative (cmp v target))
holds at_most v target = not (is_positive (cmp v target))
holds above v target = is_positive (cmp v target)
holds below v target = is_negative (cmp v target)
holds exact v target = is_nil (cmp v target)

abbrev pub operators : List (Text × Op)
operators =
    (text "^", caret)
    ∷ (text "~", tilde)
    ∷ (text ">=", at_least)
    ∷ (text "<=", at_most)
    ∷ (text ">", above)
    ∷ (text "<", below)
    ∷ []

-- The first operator that stands in front of something (in one line), and what it stands in front of.
unfoldable pub split_op : List (Text × Op) → (r : Text) → Op × Text
unfolding starts_with
split_op [] r = (exact, r)
split_op ((sign, op) ∷ ops) r =
    let rest = split_op ops r in
    let version = drop (length sign) r in
    if starts_with r sign && not (is_empty version) && not (any is_line_end version)
    then (op, version)
    else rest

abbrev pub meets : Op → Option Core → Option Core → Bool
meets op (some v) (some target) = holds op v target
meets op _ _ = false

abbrev pub is_some_core : Option Core → Bool
is_some_core none = false
is_some_core (some _) = true

unfoldable pub satisfies : (version range : Text) → Bool
unfolding parse_core holds split_op ◌===◌ trim
satisfies version range =
    let r = trim range in
    let (op, rest) = split_op operators r in
    if r === text "*"
    then is_some_core (parse_core version)
    else meets op (parse_core version) (parse_core rest)
