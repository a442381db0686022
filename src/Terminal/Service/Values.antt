-- ===== src/Terminal/Service/Values.antt =====
-- cli/src/tdpservice/tdpservice.cpp: the values of a request, as the server reads them.
use tin_dox.Prelude.{
  ℕ, ◌<◌, Bool, true, false, List, [], ◌∷◌, ◌≡◌, refl, arith, all, all-append, Bytes, codes, equal,
}
use tin_dox.Prelude.Decimal.{is_digit, to_decimal, all-to_decimal}
use tin_dox.Protocol.Field.RoundTrip.{encode_value, field_from_string-dot}
use tin_dox.Protocol.Field.{
  Field, FieldValue, boolean, integer, string, is_name_char, uintmax_modulus,
}
use tin_dox.Protocol.Interpreter.Requests.{is_line_char}
use tin_dox.Terminal.Service.{is_too_long, name_unless_empty, credential, quoted, flag}
use tin_dox.Terminal.Service.Lines.{
  IsCarried, IsCarried-empty, IsCarried-line, IsCarried-value, all_line_chars,
}

-- A text that fits a line.
abbrev pub IsText : Bytes → Type 0
IsText text = all is_line_char text ≡ true

all_line_chars-quoted : (text : Bytes) → IsText text → IsText (quoted text)
all_line_chars-quoted text h = rw (all-append is_line_char text (b'\'' ∷ [])) (ground arith)

all_line_chars-digits : (text : Bytes) → all is_digit text ≡ true → IsText text
all_line_chars-digits [] h = refl
all_line_chars-digits (c ∷ cs) h = ground (arith, all_line_chars-digits cs)

unfoldable pub field : Bytes → FieldValue → Field
field field_name value = record { name = field_name; value = value }

module _ (c : ℕ) (cs : Bytes) (named : all is_name_char (c ∷ cs) ≡ true) where
  pub IsCarried-quoted :
      (text : Bytes)
      → IsText text
      → is_too_long (c ∷ cs) (quoted text) ≡ false
      → IsCarried (c ∷ cs) (quoted text) (field (c ∷ cs) (string text) ∷ [])
  unfolding field encode_value
  IsCarried-quoted text h short =
      IsCarried-value c cs (string text) named tt (all_line_chars-quoted text h) short

  pub IsCarried-decimal :
      (n : ℕ)
      → n < uintmax_modulus
      → is_too_long (c ∷ cs) (to_decimal n) ≡ false
      → IsCarried (c ∷ cs) (to_decimal n) (field (c ∷ cs) (integer n) ∷ [])
  unfolding field encode_value
  IsCarried-decimal n h short =
      IsCarried-value c cs (integer n) named h
        (all_line_chars-digits (to_decimal n) (all-to_decimal n)) short

  pub IsCarried-flag :
      (b : Bool)
      → is_too_long (c ∷ cs) (flag b) ≡ false
      → IsCarried (c ∷ cs) (flag b) (field (c ∷ cs) (boolean b) ∷ [])
  unfolding field encode_value
  IsCarried-flag true short = IsCarried-value c cs (boolean true) named tt refl short
  IsCarried-flag false short = IsCarried-value c cs (boolean false) named tt refl short

-- Whether a text is one of the two that stand for a truth value, or none.
pub data IsFlag : Bytes → Type 0 where
  unset : IsFlag []
  yes : IsFlag (codes "true")
  no : IsFlag (codes "false")

unfoldable pub text_or_dot : Bytes → Bytes
text_or_dot [] = codes "."
text_or_dot (c ∷ cs) = c ∷ cs

unfoldable pub unless_empty : Bytes → Field → List Field
unless_empty [] f = []
unless_empty (c ∷ cs) f = f ∷ []

module _ (c : ℕ) (cs : Bytes) (named : all is_name_char (c ∷ cs) ≡ true) where
  pub IsCarried-credential :
      (text : Bytes)
      → IsText text
      → is_too_long (c ∷ cs) (credential text) ≡ false
      → IsCarried (c ∷ cs) (credential text) (field (c ∷ cs) (string (text_or_dot text)) ∷ [])
  unfolding text_or_dot field
  IsCarried-credential [] h short =
      IsCarried-line c cs (codes ".") (field (c ∷ cs) (string (codes ".")))
        (all_line_chars (c ∷ cs) named) refl short (field_from_string-dot c cs named)
  IsCarried-credential (d ∷ ds) h short = IsCarried-quoted c cs named (d ∷ ds) h short

  pub IsCarried-optional :
      (text : Bytes)
      → IsText text
      → is_too_long (name_unless_empty text (c ∷ cs)) (quoted text) ≡ false
      → IsCarried
          (name_unless_empty text (c ∷ cs))
          (quoted text)
          (unless_empty text (field (c ∷ cs) (string text)))
  unfolding unless_empty
  IsCarried-optional [] h short = IsCarried-empty (quoted [])
  IsCarried-optional (d ∷ ds) h short = IsCarried-quoted c cs named (d ∷ ds) h short

  pub IsCarried-switch :
      (text : Bytes)
      → IsFlag text
      → is_too_long (name_unless_empty text (c ∷ cs)) text ≡ false
      → IsCarried
          (name_unless_empty text (c ∷ cs))
          text
          (unless_empty text (field (c ∷ cs) (boolean (equal text (codes "true")))))
  unfolding unless_empty equal
  IsCarried-switch _ unset short = IsCarried-empty []
  IsCarried-switch _ yes short = IsCarried-flag c cs named true short
  IsCarried-switch _ no short = IsCarried-flag c cs named false short
