-- ===== src/Protocol/Field/RoundTrip.antt =====
-- field.cpp: what `field_from_string` reads back.
use mathlib.Core.List.{reverse-append, reverse-reverse, reverse-cons}
use tin_dox.Prelude.{
  ℕ, ◌<◌, Bool, true, false, [], ◌∷◌, ◌++◌, reverse, ◌≡◌, refl, sym, ap, ◌∙◌, ◌≢◌, arith, all,
  drop_while, take_while, drop_while-append, take_while-append, all-append, Bytes, codes, equal, ok,
  lt→ltb,
}
use tin_dox.Prelude.Decimal.{
  is_digit, to_decimal, digits_value-to_decimal, all-to_decimal, to_decimal-ne-nil,
}
use tin_dox.Protocol.Field.{
  FieldValue, none_value, boolean, integer, string, is_whitespace, is_name_char, uintmax_modulus,
  trim_end, typed_value, starts_quoted, value_stage, separator_stage, name_stage, field_from_string,
  parse_integer, tail,
}

all-reverse : (p : ℕ → Bool) (xs : Bytes) → all p xs ≡ true → all p (reverse xs) ≡ true
all-reverse p [] h = refl
all-reverse p (x ∷ xs) h =
    rw (reverse-cons x xs, all-append p (reverse xs) (x ∷ [])) (ground (arith, all-reverse p xs))

-- A text that ends in a character that is no whitespace.
pub record IsTrimmed (text : Bytes) : Type 0 where
  pub start : Bytes
  pub last : ℕ
  pub splits : text ≡ start ++ last ∷ []
  pub solid : is_whitespace last ≡ false

IsTrimmed-reverse : (text : Bytes) (t : IsTrimmed text) → reverse text ≡ t.last ∷ reverse t.start
IsTrimmed-reverse text t = ap reverse t.splits ∙ reverse-append t.start (t.last ∷ [])

trim_end-append :
    (text pad : Bytes)
    → IsTrimmed text
    → all is_whitespace pad ≡ true
    → trim_end (text ++ pad) ≡ text
unfolding trim_end
trim_end-append text pad t h =
    ap (λ r. reverse (drop_while is_whitespace r))
      (reverse-append text pad ∙ ap (◌++◌ (reverse pad)) (IsTrimmed-reverse text t))
    ∙ ap reverse (
        drop_while-append is_whitespace (reverse pad) t.last (reverse t.start)
          (all-reverse is_whitespace pad h) t.solid
        ∙ sym (IsTrimmed-reverse text t))
    ∙ reverse-reverse text

-- A name, a separator and a value, each with white space round it.
pub record IsSpaced (before after before_value after_value : Bytes) : Type 0 where
  pub before_blank : all is_whitespace before ≡ true
  pub after_blank : all is_whitespace after ≡ true
  pub before_value_blank : all is_whitespace before_value ≡ true
  pub after_value_blank : all is_whitespace after_value ≡ true

-- The text of a value starts in a character that is no whitespace, and ends in one.
pub data IsToken : Bytes → Type 0 where
  token :
      {text : Bytes} (c : ℕ) (cs : Bytes)
      → text ≡ c ∷ cs
      → is_whitespace c ≡ false
      → IsTrimmed text
      → IsToken text

value_stage-token :
    (name pad text rest : Bytes)
    → all is_whitespace pad ≡ true
    → all is_whitespace rest ≡ true
    → IsToken text
    → value_stage name (drop_while is_whitespace (pad ++ (text ++ rest))) ≡ typed_value name text
unfolding value_stage
value_stage-token name pad text rest h k (token c cs e f t) =
    ap (λ r. value_stage name (drop_while is_whitespace (pad ++ (r ++ rest)))) e
    ∙ ap (value_stage name) (drop_while-append is_whitespace pad c (cs ++ rest) h f)
    ∙ ap (λ r. typed_value name (trim_end (r ++ rest))) (sym e)
    ∙ ap (typed_value name) (trim_end-append text rest t k)

module _ (name after rest : Bytes) (h : all is_name_char name ≡ true) where
  take_while-name :
      all is_whitespace after ≡ true
      → take_while is_name_char (name ++ (after ++ b':' ∷ rest)) ≡ name
  take_while-name = end_of after
    where
      end_of :
          (after : Bytes)
          → all is_whitespace after ≡ true
          → take_while is_name_char (name ++ (after ++ b':' ∷ rest)) ≡ name
      end_of [] k = take_while-append is_name_char name b':' rest h refl
      end_of (a ∷ more) k =
          take_while-append is_name_char name a (more ++ b':' ∷ rest) h (ground arith)

  drop_while-name :
      all is_whitespace after ≡ true
      → drop_while is_whitespace (drop_while is_name_char (name ++ (after ++ b':' ∷ rest)))
        ≡ b':' ∷ rest
  drop_while-name k =
      ap (drop_while is_whitespace) (end_of after k)
      ∙ drop_while-append is_whitespace after b':' rest k refl
    where
      end_of :
          (after : Bytes)
          → all is_whitespace after ≡ true
          → drop_while is_name_char (name ++ (after ++ b':' ∷ rest)) ≡ after ++ b':' ∷ rest
      end_of [] k = drop_while-append is_name_char name b':' rest h refl
      end_of (a ∷ more) k =
          drop_while-append is_name_char name a (more ++ b':' ∷ rest) h (ground arith)

-- The parser finds the name and the text of the value, whatever white space stands round them.
field_from_string-spaced :
    (c : ℕ) (cs before after before_value text after_value : Bytes)
    → all is_name_char (c ∷ cs) ≡ true
    → IsSpaced before after before_value after_value
    → IsToken text
    → field_from_string
        (before ++ (c ∷ (cs ++ (after ++ b':' ∷ (before_value ++ (text ++ after_value))))))
      ≡ typed_value (c ∷ cs) text
unfolding field_from_string
field_from_string-spaced c cs before after before_value text after_value n s t =
    let tail : Bytes = before_value ++ (text ++ after_value) in
    let line : Bytes = c ∷ (cs ++ (after ++ b':' ∷ tail)) in
    ap name_stage (
      drop_while-append is_whitespace before c (cs ++ (after ++ b':' ∷ tail)) s.before_blank
        (ground arith))
    ∙ ap (λ name. separator_stage name (drop_while is_whitespace (drop_while is_name_char line)))
        (take_while-name (c ∷ cs) after tail n s.after_blank)
    ∙ ap (separator_stage (c ∷ cs)) (drop_while-name (c ∷ cs) after tail n s.after_blank)
    ∙ value_stage-token (c ∷ cs) before_value text after_value s.before_value_blank
        s.after_value_blank t

-- The text of a value, as a client writes it.
unfoldable pub encode_value : FieldValue → Bytes
encode_value none_value = []
encode_value (boolean true) = codes "true"
encode_value (boolean false) = codes "false"
encode_value (integer n) = to_decimal n
encode_value (string s) = b'\'' ∷ (s ++ b'\'' ∷ [])

-- The values that have a text: all but the empty one, and the integers that fit 64 bits.
abbrev pub IsEncodable : FieldValue → Type 0
IsEncodable none_value = ⊥
IsEncodable (boolean b) = Unit
IsEncodable (integer n) = n < uintmax_modulus
IsEncodable (string s) = Unit

IsTrimmed-digits : (text : Bytes) → text ≢ [] → all is_digit text ≡ true → IsTrimmed text
IsTrimmed-digits [] h k = absurd (h refl)
IsTrimmed-digits (c ∷ []) h k = record { start = []; last = c; splits = refl; solid = ground arith }
IsTrimmed-digits (c ∷ d ∷ cs) h k =
    let t = IsTrimmed-digits (d ∷ cs) (λ e. cc) (ground arith) in
    record { start = c ∷ t.start; last = t.last; splits = ap (◌∷◌ c) t.splits; solid = t.solid }

IsToken-digits : (text : Bytes) → text ≢ [] → all is_digit text ≡ true → IsToken text
IsToken-digits [] h k = absurd (h refl)
IsToken-digits (c ∷ cs) h k = token c cs refl (ground arith) (IsTrimmed-digits (c ∷ cs) h k)

IsToken-encode_value : (v : FieldValue) → IsEncodable v → IsToken (encode_value v)
unfolding encode_value
IsToken-encode_value none_value h = absurd h
IsToken-encode_value (boolean true) h =
    token b't' (codes "rue") refl refl
      (record { start = codes "tru"; last = b'e'; splits = refl; solid = refl })
IsToken-encode_value (boolean false) h =
    token b'f' (codes "alse") refl refl
      (record { start = codes "fals"; last = b'e'; splits = refl; solid = refl })
IsToken-encode_value (integer n) h =
    IsToken-digits (to_decimal n) (to_decimal-ne-nil n) (all-to_decimal n)
IsToken-encode_value (string s) h =
    token b'\'' (s ++ b'\'' ∷ []) refl refl
      (record { start = b'\'' ∷ s; last = b'\''; splits = refl; solid = refl })

typed_value-digits :
    (name text : Bytes)
    → text ≢ []
    → all is_digit text ≡ true
    → typed_value name text ≡ parse_integer name text
unfolding typed_value equal
typed_value-digits name [] h k = absurd (h refl)
typed_value-digits name (c ∷ cs) h k = ground arith

module _ (s : Bytes) where
  reverse-quoted : reverse (b'\'' ∷ (s ++ b'\'' ∷ [])) ≡ b'\'' ∷ (reverse s ++ b'\'' ∷ [])
  reverse-quoted =
      reverse-cons b'\'' (s ++ b'\'' ∷ [])
      ∙ ap (λ r. r ++ b'\'' ∷ []) (reverse-append s (b'\'' ∷ []))

  tail-reverse-quoted : tail (reverse (reverse s ++ b'\'' ∷ [])) ≡ s
  unfolding tail
  tail-reverse-quoted = ap tail (reverse-append (reverse s) (b'\'' ∷ [])) ∙ reverse-reverse s

typed_value-encode_value :
    (name : Bytes) (v : FieldValue)
    → IsEncodable v
    → typed_value name (encode_value v) ≡ ok (record { name = name; value = v })
unfolding encode_value equal
typed_value-encode_value name none_value h = absurd h
typed_value-encode_value name (boolean true) h = unfold typed_value in refl
typed_value-encode_value name (boolean false) h = unfold typed_value in refl
typed_value-encode_value name (integer n) h =
    typed_value-digits name (to_decimal n) (to_decimal-ne-nil n) (all-to_decimal n)
    ∙ (unfold parse_integer in rw (digits_value-to_decimal n, lt→ltb n uintmax_modulus h))
typed_value-encode_value name (string s) h =
    unfold typed_value starts_quoted in
    rw (reverse-quoted s)
      (ap (λ t. ok (record { name = name; value = string t })) (tail-reverse-quoted s))

-- `field_from_string` reads back a name and a value of any type, with white space round both: the
-- value that was written, whether a truth value, an integer of 64 bits, or any text in quotes.
pub field_from_string-encode_value :
    (c : ℕ) (cs before after before_value after_value : Bytes) (v : FieldValue)
    → all is_name_char (c ∷ cs) ≡ true
    → IsSpaced before after before_value after_value
    → IsEncodable v
    → field_from_string (
        before ++ (c ∷ (cs ++ (after ++ b':' ∷ (before_value ++ (encode_value v ++ after_value))))))
      ≡ ok (record { name = c ∷ cs; value = v })
field_from_string-encode_value c cs before after before_value after_value v n s e =
    field_from_string-spaced c cs before after before_value (encode_value v) after_value n s
      (IsToken-encode_value v e)
    ∙ typed_value-encode_value (c ∷ cs) v e

-- The text that the terminal client sends for an empty name or password.
pub field_from_string-dot :
    (c : ℕ) (cs : Bytes)
    → all is_name_char (c ∷ cs) ≡ true
    → field_from_string ((c ∷ cs) ++ b':' ∷ codes ".")
      ≡ ok (record { name = c ∷ cs; value = string (codes ".") })
unfolding typed_value equal starts_quoted
field_from_string-dot c cs n =
    field_from_string-spaced c cs [] [] [] (codes ".") [] n
      (record {
        before_blank = refl;
        after_blank = refl;
        before_value_blank = refl;
        after_value_blank = refl;
      })
      (token b'.' [] refl refl (record { start = []; last = b'.'; splits = refl; solid = refl }))
