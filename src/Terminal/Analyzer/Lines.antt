-- ===== src/Terminal/Analyzer/Lines.antt =====
-- responseanalyzer.cpp against response_builder.cpp: answers of any number of lines.
use mathlib.Core.List.{append_assoc, append-nil}
use tin_dox.Prelude.{
  ℕ, ◌<◌, Bool, true, false, List, [], ◌∷◌, ◌++◌, some, none, Option, ◌≡◌, refl, ap, ◌∙◌, sym,
  arith, ◌==◌, if◌then◌else◌, length, all, All, Bytes,
}
use tin_dox.Prelude.Decimal.{to_decimal}
use tin_dox.Protocol.Error.{ProtocolCode, code_number}
use tin_dox.Protocol.Interpreter.Requests.{is_line_char}
use tin_dox.Protocol.Response.{ResponseBuilder, get_response, add_line, new_builder}
use tin_dox.Terminal.Analyzer.{
  is_known_code, read_lines, get_multiple_line_response, with_body, unreadable,
  after_multiline_header, multiline_body, get_response_header, analyse_multiline_response, put_char,
  body_of,
}
use tin_dox.Terminal.Analyzer.RoundTrip.{get_response_header-code}

-- A line that an answer may hold.
pub record IsBodyLine (line : Bytes) : Type 0 where
  pub solid : 0 < length line
  pub plain : all is_line_char line ≡ true

-- The builder behind `add_line` for each line.
abbrev pub add_lines : ResponseBuilder → List Bytes → ResponseBuilder
add_lines b [] = b
add_lines b (line ∷ lines) = add_lines (add_line b line) lines

abbrev pub join_lines : List Bytes → Bytes
join_lines [] = []
join_lines (line ∷ lines) = line ++ b'\n' ∷ join_lines lines

add_lines-join_lines :
    (b : ResponseBuilder) (lines : List Bytes)
    → add_lines b lines ≡ record b { lines = b.lines ++ join_lines lines }
add_lines-join_lines b [] = ap (λ (l : Bytes). record b { lines = l }) (sym (append-nil b.lines))
add_lines-join_lines b (line ∷ lines) =
    add_lines-join_lines (add_line b line) lines
    ∙ ap (λ (l : Bytes). record b { lines = l })
        (append_assoc b.lines (line ++ b'\n' ∷ []) (join_lines lines)
          ∙ ap (◌++◌ b.lines) (append_assoc line (b'\n' ∷ []) (join_lines lines)))

abbrev put_text : Bytes → Option (Bytes × Bytes) → Option (Bytes × Bytes)
put_text [] r = r
put_text (c ∷ cs) r = put_char c (put_text cs r)

put_text-some :
    (line body iter : Bytes) → put_text line (some (body, iter)) ≡ some (line ++ body, iter)
put_text-some [] body iter = refl
put_text-some (c ∷ cs) body iter = ap (put_char c) (put_text-some cs body iter)

-- Within a line nothing stops the loops.
read_lines-line :
    (line : Bytes) (d : ℕ) (ds : Bytes)
    → all is_line_char line ≡ true
    → read_lines (line ++ b'\n' ∷ d ∷ ds) ≡ put_text line (read_lines (b'\n' ∷ d ∷ ds))
unfolding read_lines
read_lines-line [] d ds plain = refl
read_lines-line (c ∷ []) d ds plain = ground arith
read_lines-line (c ∷ e ∷ es) d ds plain = ground (arith, read_lines-line (e ∷ es) d ds)

read_lines-separator :
    (x : ℕ) (xs : Bytes)
    → is_line_char x ≡ true
    → read_lines (b'\n' ∷ x ∷ xs) ≡ put_char b'\n' (read_lines (x ∷ xs))
unfolding read_lines
read_lines-separator x xs plain = ground arith

read_lines-end : read_lines (b'\n' ∷ b'\n' ∷ []) ≡ some (b'\n' ∷ [], b'\n' ∷ [])
unfolding read_lines
read_lines-end = refl

read_lines-join_lines :
    (line : Bytes) (lines : List Bytes)
    → All IsBodyLine (line ∷ lines)
    → read_lines (line ++ b'\n' ∷ (join_lines lines ++ b'\n' ∷ []))
      ≡ some (join_lines (line ∷ lines), b'\n' ∷ [])
read_lines-join_lines line [] (is_line, _) =
    read_lines-line line b'\n' [] is_line.plain
    ∙ ap (put_text line) read_lines-end
    ∙ put_text-some line (b'\n' ∷ []) (b'\n' ∷ [])
read_lines-join_lines line ([] ∷ lines) (is_line, (empty, more)) =
    absurd (omega (arith, empty.solid))
read_lines-join_lines line ((x ∷ xs) ∷ lines) (is_line, (next, more)) =
    let rest = (xs ++ b'\n' ∷ join_lines lines) ++ b'\n' ∷ [] in
    let same = append_assoc (x ∷ xs) (b'\n' ∷ join_lines lines) (b'\n' ∷ []) in
    read_lines-line line x rest is_line.plain
    ∙ ap (put_text line) (
        read_lines-separator x rest (ground (arith, next.plain))
        ∙ ap (put_char b'\n')
            (ap read_lines same ∙ read_lines-join_lines (x ∷ xs) lines (next, more)))
    ∙ put_text-some line (b'\n' ∷ join_lines ((x ∷ xs) ∷ lines)) (b'\n' ∷ [])

get_multiple_line_response-join_lines :
    (lines : List Bytes)
    → All IsBodyLine lines
    → get_multiple_line_response (join_lines lines ++ b'\n' ∷ [])
      ≡ some (join_lines lines ++ b'\n' ∷ [])
unfolding get_multiple_line_response
get_multiple_line_response-join_lines [] h = refl
get_multiple_line_response-join_lines ([] ∷ lines) (empty, more) =
    absurd (omega (arith, empty.solid))
get_multiple_line_response-join_lines ((x ∷ xs) ∷ lines) (is_line, more) =
    let no_end : (x == b'\n') ≡ false = ground (arith, is_line.plain) in
    rw no_end (
      ap body_of (
        ap read_lines (append_assoc (x ∷ xs) (b'\n' ∷ join_lines lines) (b'\n' ∷ []))
        ∙ read_lines-join_lines (x ∷ xs) lines (is_line, more)))

-- The terminal client reads an answer of any number of lines, none of them empty, as the server has
-- written it: its code, and the lines as its body. Where the code is one of those above 409, the
-- answer is unreadable to it.
pub analyse_multiline_response-lines :
    (c : ProtocolCode) (name body : Bytes) (lines : List Bytes)
    → All IsBodyLine lines
    → analyse_multiline_response name
        (get_response (add_lines (new_builder c name) lines)).content
        body
      ≡ (if is_known_code (code_number c)
          then with_body (code_number c) name (join_lines lines ++ b'\n' ∷ [])
          else unreadable body)
unfolding analyse_multiline_response get_response
analyse_multiline_response-lines c name body lines h =
    ap (λ (b : ResponseBuilder). analyse_multiline_response name (get_response b).content body)
      (add_lines-join_lines (new_builder c name) lines)
    ∙ text_lem (join_lines lines ++ b'\n' ∷ []) (starts lines)
        (get_multiple_line_response-join_lines lines h)
  where
    starts :
        (lines : List Bytes) → (d : ℕ) × (ds : Bytes) × (join_lines lines ++ b'\n' ∷ [] ≡ d ∷ ds)
    starts [] = (b'\n', [], refl)
    starts ([] ∷ more) = (b'\n', join_lines more ++ b'\n' ∷ [], refl)
    starts ((x ∷ xs) ∷ more) = (x, (xs ++ b'\n' ∷ join_lines more) ++ b'\n' ∷ [], refl)

    text_lem :
        (text : Bytes)
        → (d : ℕ) × (ds : Bytes) × (text ≡ d ∷ ds)
        → get_multiple_line_response text ≡ some text
        → analyse_multiline_response name
            (to_decimal (code_number c) ++ (b' ' ∷ (name ++ b'\n' ∷ text)))
            body
          ≡ (if is_known_code (code_number c)
              then with_body (code_number c) name text
              else unreadable body)
    text_lem text (d, ds, e) read =
        ap
          (λ (t : Bytes).
            after_multiline_header name body (
              get_response_header name
                (to_decimal (code_number c) ++ (b' ' ∷ (name ++ b'\n' ∷ t)))))
          e
        ∙ ap (after_multiline_header name body) (get_response_header-code c name d ds)
        ∙ ap
            (λ (t : Bytes).
              after_multiline_header name body
                (if is_known_code (code_number c) then some (code_number c, t) else none))
            (sym e)
        ∙ go (is_known_code (code_number c))
      where
        go :
            (test : Bool)
            → after_multiline_header name body (if test then some (code_number c, text) else none)
              ≡ (if test then with_body (code_number c) name text else unreadable body)
        go true = ap (multiline_body (code_number c) name text) read
        go false = refl
