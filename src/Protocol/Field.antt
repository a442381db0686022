-- ===== src/Protocol/Field.antt =====
-- server/src/protocol/field.cpp: the fields of a request, and the parser of one field line.
pub mod RoundTrip
pub mod Sound
use tin_dox.Prelude.{
  ℕ, ◌+◌, ◌^◌, Bool, true, false, ◌&&◌, ◌||◌, List, [], ◌∷◌, ◌++◌, reverse, Option, none, some,
  ◌==◌, ltb, leb, if◌then◌else◌, all, drop_while, take_while, Bytes, codes, equal, ok,
}
use tin_dox.Prelude.Decimal.{is_digit, digits_value}
use tin_dox.Protocol.Error.{ProtocolCode, Outcome, throw}

pub data FieldValue : Type 0 where
  none_value : FieldValue
  boolean : Bool → FieldValue
  integer : ℕ → FieldValue
  string : Bytes → FieldValue

pub record Field : Type 0 where
  pub name : Bytes
  pub value : FieldValue

unfoldable pub get_boolean : FieldValue → Option Bool
get_boolean (boolean b) = some b
get_boolean _ = none

unfoldable pub get_integer : FieldValue → Option ℕ
get_integer (integer n) = some n
get_integer _ = none

unfoldable pub get_string : FieldValue → Option Bytes
get_string (string s) = some s
get_string _ = none

abbrev pub is_whitespace : ℕ → Bool
is_whitespace c = c == b' ' || c == b'\t'

abbrev pub is_name_char : ℕ → Bool
is_name_char c = leb b'a' c && leb c b'z'

abbrev pub uintmax_modulus : ℕ
uintmax_modulus = 2 ^ 64

-- `str` up to its last character that is no whitespace (`find_last_not_of`).
unfoldable pub trim_end : Bytes → Bytes
trim_end s = reverse (drop_while is_whitespace (reverse s))

-- `std::from_chars` on a run of digits: it fails where the value does not fit.
parse_integer : Bytes → Bytes → Outcome Field
parse_integer name digits =
    let value = digits_value 0 digits in
    if ltb value uintmax_modulus
    then ok (record { name = name; value = integer value })
    else throw ProtocolCode.bad_field
        (codes "invalid integer value in field '" ++ digits ++ codes "'")

tail : Bytes → Bytes
tail [] = []
tail (c ∷ cs) = cs

-- `pop_back()`, then `erase(0, 1)`, which does nothing to an empty string.
strip_quotes : Bytes → Bytes
unfolding tail
strip_quotes s = tail (reverse (tail (reverse s)))

starts_quoted : Bytes → Bool
starts_quoted [] = false
starts_quoted (c ∷ cs) = c == b'\''

-- The end of `field_from_string`: the type of a value is read off its text.
typed_value : Bytes → Bytes → Outcome Field
unfolding parse_integer strip_quotes starts_quoted
typed_value name [] = throw ProtocolCode.bad_field (codes "field value cannot be empty")
typed_value name (c ∷ cs) =
    let text = c ∷ cs in
    if equal text (codes "true")
    then ok (record { name = name; value = boolean true })
    else if equal text (codes "false")
    then ok (record { name = name; value = boolean false })
    else if all is_digit text
    then parse_integer name text
    else if starts_quoted text && starts_quoted (reverse text)
    then ok (record { name = name; value = string (strip_quotes text) })
    else ok (record { name = name; value = string text })

-- From the first character behind the separator that is no whitespace.
value_stage : Bytes → Bytes → Outcome Field
unfolding typed_value trim_end
value_stage name [] = throw ProtocolCode.bad_field (codes "unexpected end of field value")
value_stage name (c ∷ cs) = typed_value name (trim_end (c ∷ cs))

-- From the first character behind the name that is no whitespace.
separator_stage : Bytes → Bytes → Outcome Field
unfolding value_stage
separator_stage name [] = throw ProtocolCode.bad_field (codes "expected ':' field separator")
separator_stage name (c ∷ rest) =
    if c == b':'
    then value_stage name (drop_while is_whitespace rest)
    else throw ProtocolCode.bad_field (codes "expected ':' field separator")

-- From the first character that is no whitespace. The name may be empty: the source's test for that
-- compares an iterator difference with `npos`, which never holds.
name_stage : Bytes → Outcome Field
unfolding separator_stage
name_stage [] = throw ProtocolCode.bad_field (codes "field name not found")
name_stage (c ∷ cs) =
    separator_stage (take_while is_name_char (c ∷ cs))
      (drop_while is_whitespace (drop_while is_name_char (c ∷ cs)))

unfoldable pub field_from_string : Bytes → Outcome Field
unfolding name_stage
field_from_string str = name_stage (drop_while is_whitespace str)
