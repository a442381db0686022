-- ===== src/Protocol/Interpreter/RoundTrip.antt =====
-- protocol_interpreter.cpp with field.cpp: a request with typed fields, written and read back.
use mathlib.Core.List.{append-nil}
use tin_dox.Prelude.{
  ℕ, ◌+◌, ◌<◌, true, List, [], ◌∷◌, ◌++◌, map, ◌≡◌, refl, ap, sym, ◌∙◌, arith, length, length-map,
  all, All, Bytes, ok,
}
use tin_dox.Protocol.Field.RoundTrip.{encode_value, IsEncodable, field_from_string-encode_value}
use tin_dox.Protocol.Field.{Field, is_name_char, field_from_string}
use tin_dox.Protocol.Interpreter.Requests.{IsLine, encode_lines, available, commit_bytes-request}
use tin_dox.Protocol.Interpreter.{Request, max_line_count, initial, fields_from_lines, commit_bytes}

-- `name: value`, as the clients write it.
unfoldable pub encode_field : Field → Bytes
encode_field f = f.name ++ b':' ∷ b' ' ∷ encode_value f.value

pub encode_request : Request → Bytes → Bytes
unfolding encode_field
encode_request r rest = encode_lines (r.name ∷ map encode_field r.fields) rest

-- A field that a line can carry.
pub record IsWritable (f : Field) : Type 0 where
  pub named : 0 < length f.name
  pub lower_case : all is_name_char f.name ≡ true
  pub encodable : IsEncodable f.value
  pub fits : IsLine (encode_field f)

field_from_string-encode_field :
    (f : Field) → IsWritable f → field_from_string (encode_field f) ≡ ok f
unfolding encode_field
field_from_string-encode_field f w = go f.name w.named w.lower_case
  where
    go :
        (name : Bytes)
        → 0 < length name
        → all is_name_char name ≡ true
        → field_from_string (name ++ b':' ∷ b' ' ∷ encode_value f.value)
          ≡ ok (record f { name = name })
    go [] h k = absurd (omega arith)
    go (c ∷ cs) h k =
        ap (λ v. field_from_string (c ∷ (cs ++ b':' ∷ b' ' ∷ v)))
          (sym (append-nil (encode_value f.value)))
        ∙ field_from_string-encode_value c cs [] [] (b' ' ∷ []) [] f.value k
            (record {
              before_blank = refl;
              after_blank = refl;
              before_value_blank = refl;
              after_value_blank = refl;
            })
            w.encodable

fields_from_lines-encode_field :
    (fs : List Field) → All IsWritable fs → fields_from_lines (map encode_field fs) ≡ ok fs
unfolding fields_from_lines
fields_from_lines-encode_field [] h = refl
fields_from_lines-encode_field (f ∷ fs) (w, ws) =
    rw (field_from_string-encode_field f w, fields_from_lines-encode_field fs ws)

All-encode_field : (fs : List Field) → All IsWritable fs → All IsLine (map encode_field fs)
All-encode_field [] h = tt
All-encode_field (f ∷ fs) (w, ws) = (w.fits, All-encode_field fs ws)

-- The interpreter reads back every request of at most 14 fields, whose name and fields each fit a
-- line, name, field names and typed values alike, from one call over its text, and leaves what stands
-- behind it.
pub commit_bytes-encode_request :
    (stale_size : ℕ) (r : Request) (rest : Bytes)
    → IsLine r.name
    → All IsWritable r.fields
    → length r.fields + 1 < max_line_count
    → commit_bytes stale_size initial (encode_request r rest)
      ≡ record { interpreter = available r; rest = rest; outcome = ok tt }
unfolding encode_request
commit_bytes-encode_request stale_size r rest h hs k =
    commit_bytes-request stale_size r.name (map encode_field r.fields) r.fields rest h
      (All-encode_field r.fields hs) (omega (arith, length-map r.fields encode_field))
      (fields_from_lines-encode_field r.fields hs)
