-- ===== src/Protocol/Field/Sound.antt =====
-- field.cpp: what holds of every result of `field_from_string`, values and errors alike.
use tin_dox.Prelude.{
  ℕ, ◌<◌, Bool, true, [], ◌∷◌, ◌≡◌, refl, arith, all, take_while, Bytes, ok, err, Bool-cases,
  drop_while, inl, inr, ◌==◌,
}
use tin_dox.Protocol.Error.{ProtocolCode, Outcome, protocol, fatal, running}
use tin_dox.Protocol.Field.{
  Field, FieldValue, none_value, boolean, integer, string, is_name_char, is_whitespace,
  uintmax_modulus, typed_value, value_stage, separator_stage, name_stage, field_from_string,
  parse_integer,
}

-- A value has a type, and an integer fits 64 bits.
abbrev pub IsValue : FieldValue → Type 0
IsValue none_value = ⊥
IsValue (boolean b) = Unit
IsValue (integer n) = n < uintmax_modulus
IsValue (string s) = Unit

-- A field has a name of lower case letters and a value; an error has the code `bad_field`.
abbrev pub IsParsed : Outcome Field → Type 0
IsParsed (ok f) = (all is_name_char f.name ≡ true) × IsValue f.value
IsParsed (err (protocol e)) = e.code ≡ ProtocolCode.bad_field
IsParsed (err (fatal m)) = ⊥
IsParsed (err running) = ⊥

all-take_while : (p : ℕ → Bool) (xs : Bytes) → all p (take_while p xs) ≡ true
unfolding take_while
all-take_while p [] = refl
all-take_while p (x ∷ xs) = ground (arith, all-take_while p xs)

parse_integer-IsParsed :
    (name digits : Bytes) → all is_name_char name ≡ true → IsParsed (parse_integer name digits)
unfolding parse_integer
parse_integer-IsParsed name digits h = ground arith

typed_value-IsParsed :
    (name text : Bytes) → all is_name_char name ≡ true → IsParsed (typed_value name text)
unfolding typed_value
typed_value-IsParsed name [] h = refl
typed_value-IsParsed name (c ∷ cs) h = ground (arith, parse_integer-IsParsed name (c ∷ cs))

value_stage-IsParsed :
    (name rest : Bytes) → all is_name_char name ≡ true → IsParsed (value_stage name rest)
unfolding value_stage
value_stage-IsParsed name [] h = refl
value_stage-IsParsed name (c ∷ cs) h = typed_value-IsParsed name _ h

separator_stage-IsParsed :
    (name rest : Bytes) → all is_name_char name ≡ true → IsParsed (separator_stage name rest)
unfolding separator_stage
separator_stage-IsParsed name [] h = refl
separator_stage-IsParsed name (c ∷ cs) h = elim (Bool-cases (c == b':')) [
  | inl found ↦ rw found (value_stage-IsParsed name (drop_while is_whitespace cs) h)
  | inr other ↦ rw other refl
]

name_stage-IsParsed : (rest : Bytes) → IsParsed (name_stage rest)
unfolding name_stage
name_stage-IsParsed [] = refl
name_stage-IsParsed (c ∷ cs) =
    separator_stage-IsParsed (take_while is_name_char (c ∷ cs))
      (drop_while is_whitespace (drop_while is_name_char (c ∷ cs)))
      (all-take_while is_name_char (c ∷ cs))

-- A parsed field has a name of lower case letters only and a value of one of the three types, an
-- integer below 2 ^ 64; and whatever is refused is refused with `bad_field`.
pub field_from_string-IsParsed : (str : Bytes) → IsParsed (field_from_string str)
unfolding field_from_string
field_from_string-IsParsed str = name_stage-IsParsed (drop_while is_whitespace str)
