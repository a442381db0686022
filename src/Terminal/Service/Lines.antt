-- ===== src/Terminal/Service/Lines.antt =====
-- cli/src/tdpservice/tdpservice.cpp against server/src/protocol/protocol_interpreter.cpp: the lines
-- of a request, and what the server reads from each.
use mathlib.Core.List.{append_assoc, append-nil}
use tin_dox.Prelude.{
  ℕ, ◌+◌, ◌<◌, true, false, List, [], ◌∷◌, ◌++◌, ◌≡◌, refl, sym, ap, ◌∙◌, arith, length,
  length-append, all, all-append, All, Bytes, ok,
}
use tin_dox.Protocol.Field.RoundTrip.{encode_value, IsEncodable, field_from_string-encode_value}
use tin_dox.Protocol.Field.{Field, FieldValue, is_name_char, field_from_string}
use tin_dox.Protocol.Interpreter.Requests.{
  is_line_char, IsLine, encode_lines, available, commit_bytes-request,
}
use tin_dox.Protocol.Interpreter.{initial, fields_from_lines, commit_bytes}
use tin_dox.Terminal.Service.{Arguments, is_too_long, field_line, request_text}

-- The line of a field, where there is one.
pub field_lines : Bytes → Bytes → List Bytes
field_lines [] value = []
field_lines (c ∷ cs) value = ((c ∷ cs) ++ b':' ∷ value) ∷ []

-- What the server reads from the line of a field, in front of any others.
pub record IsCarried (field_name value : Bytes) (fields : List Field) : Type 0 where
  pub whole :
      (more : List Bytes) → All IsLine more → All IsLine (field_lines field_name value ++ more)
  pub reads :
      (more : List Bytes) (gs : List Field)
      → fields_from_lines more ≡ ok gs
      → fields_from_lines (field_lines field_name value ++ more) ≡ ok (fields ++ gs)
  pub single : length (field_lines field_name value) < 2

field_line-encode_lines :
    (field_name value : Bytes) (lines : List Bytes) (rest : Bytes)
    → field_line field_name value ++ encode_lines lines rest
      ≡ encode_lines (field_lines field_name value ++ lines) rest
unfolding encode_lines field_lines
field_line-encode_lines [] value lines rest = refl
field_line-encode_lines (c ∷ cs) value lines rest = ap (◌∷◌ c) (
    append_assoc cs (b':' ∷ (value ++ b'\n' ∷ [])) (encode_lines lines rest)
    ∙ ap (λ t. cs ++ b':' ∷ t) (append_assoc value (b'\n' ∷ []) (encode_lines lines rest))
    ∙ sym (append_assoc cs (b':' ∷ value) (b'\n' ∷ encode_lines lines rest)))

all_lines : Arguments → List Bytes
all_lines a =
    field_lines a.field_name1 a.field_value1
    ++ (field_lines a.field_name2 a.field_value2
        ++ (field_lines a.field_name3 a.field_value3 ++ []))

request_text-lines :
    (a : Arguments) → request_text a ≡ encode_lines (a.command_name ∷ all_lines a) []
unfolding request_text encode_lines all_lines
request_text-lines a =
    ap (λ t. a.command_name ++ b'\n' ∷ t)
      (ap
          (λ t.
            field_line a.field_name1 a.field_value1
            ++ (field_line a.field_name2 a.field_value2 ++ t))
          (field_line-encode_lines a.field_name3 a.field_value3 [] [])
        ∙ ap (λ t. field_line a.field_name1 a.field_value1 ++ t)
            (field_line-encode_lines a.field_name2 a.field_value2
              (field_lines a.field_name3 a.field_value3 ++ []) [])
        ∙ field_line-encode_lines a.field_name1 a.field_value1
            (field_lines a.field_name2 a.field_value2
              ++ (field_lines a.field_name3 a.field_value3 ++ []))
            [])

pub IsCarried-empty : (value : Bytes) → IsCarried [] value []
unfolding field_lines
IsCarried-empty value = record { whole = λ more h. h; reads = λ more gs h. h; single = omega arith }

is_short :
    (field_name value : Bytes)
    → is_too_long field_name value ≡ false
    → length field_name + length value < 2047
is_short field_name value h = ground arith

-- A field whose line the server reads.
pub all_line_chars : (text : Bytes) → all is_name_char text ≡ true → all is_line_char text ≡ true
all_line_chars [] h = refl
all_line_chars (c ∷ cs) h = ground (arith, all_line_chars cs)

module _ (c : ℕ) (cs : Bytes) where
  pub IsCarried-line :
      (value : Bytes) (f : Field)
      → all is_line_char (c ∷ cs) ≡ true
      → all is_line_char value ≡ true
      → is_too_long (c ∷ cs) value ≡ false
      → field_from_string ((c ∷ cs) ++ b':' ∷ value) ≡ ok f
      → IsCarried (c ∷ cs) value (f ∷ [])
  unfolding field_lines fields_from_lines
  IsCarried-line value f h k short e = record {
    whole = λ more m. (
      record {
        solid = omega arith;
        plain = rw (all-append is_line_char cs (b':' ∷ value)) (ground arith);
        short = omega (arith, length-append cs (b':' ∷ value), is_short (c ∷ cs) value short);
      },
      m,
    );
    reads = λ more gs m. rw (e, m);
    single = omega arith;
  }

  pub IsCarried-value :
      (v : FieldValue)
      → all is_name_char (c ∷ cs) ≡ true
      → IsEncodable v
      → all is_line_char (encode_value v) ≡ true
      → is_too_long (c ∷ cs) (encode_value v) ≡ false
      → IsCarried (c ∷ cs) (encode_value v) (record { name = c ∷ cs; value = v } ∷ [])
  IsCarried-value v h e k short =
      IsCarried-line (encode_value v) (record { name = c ∷ cs; value = v })
        (all_line_chars (c ∷ cs) h) k short
        (ap (λ t. field_from_string ((c ∷ cs) ++ b':' ∷ t)) (sym (append-nil (encode_value v)))
          ∙ field_from_string-encode_value c cs [] [] [] [] v h
              (record {
                before_blank = refl;
                after_blank = refl;
                before_value_blank = refl;
                after_value_blank = refl;
              })
              e)

pub commit_bytes-arguments :
    {fs gs hs : List Field} (stale_size : ℕ) (a : Arguments)
    → IsLine a.command_name
    → IsCarried a.field_name1 a.field_value1 fs
    → IsCarried a.field_name2 a.field_value2 gs
    → IsCarried a.field_name3 a.field_value3 hs
    → commit_bytes stale_size initial (request_text a) ≡ record {
      interpreter = available (record { name = a.command_name; fields = fs ++ (gs ++ (hs ++ [])) });
      rest = [];
      outcome = ok tt;
    }
unfolding all_lines
commit_bytes-arguments {fs} {gs} {hs} stale_size a l first second third =
    ap (commit_bytes stale_size initial) (request_text-lines a)
    ∙ commit_bytes-request stale_size a.command_name (all_lines a) (fs ++ (gs ++ (hs ++ []))) [] l
        (first.whole
          (field_lines a.field_name2 a.field_value2
            ++ (field_lines a.field_name3 a.field_value3 ++ []))
          (second.whole (field_lines a.field_name3 a.field_value3 ++ []) (third.whole [] tt)))
        (omega (
          arith,
          first.single,
          second.single,
          third.single,
          length-append (field_lines a.field_name1 a.field_value1) (
              field_lines a.field_name2 a.field_value2
              ++ (field_lines a.field_name3 a.field_value3 ++ [])),
          length-append (field_lines a.field_name2 a.field_value2)
              (field_lines a.field_name3 a.field_value3 ++ []),
          length-append (field_lines a.field_name3 a.field_value3) [],
        ))
        (first.reads
          (field_lines a.field_name2 a.field_value2
            ++ (field_lines a.field_name3 a.field_value3 ++ []))
          (gs ++ (hs ++ []))
          (second.reads (field_lines a.field_name3 a.field_value3 ++ []) (hs ++ [])
            (third.reads [] [] (unfold fields_from_lines in refl))))
