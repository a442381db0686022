-- ===== src/Terminal/Analyzer/RoundTrip.antt =====
-- responseanalyzer.cpp against response_builder.cpp: the client reads what the server writes.
use mathlib.Core.List.{append_assoc}
use tin_dox.Prelude.{
  ℕ, ◌<◌, Bool, true, false, not, ◌&&◌, [], ◌∷◌, ◌++◌, some, none, ◌≡◌, ◌≢◌, refl, ap, ◌∙◌, sym,
  ◌⊎◌, arith, ◌==◌, if◌then◌else◌, length, all, Bytes,
}
use tin_dox.Prelude.Decimal.{to_decimal}
use tin_dox.Protocol.Error.{ProtocolCode, code_number}
use tin_dox.Protocol.Interpreter.Requests.{is_line_char}
use tin_dox.Protocol.Response.{new_builder, add_line, get_response}
use tin_dox.Terminal.Analyzer.{
  after_simple_header, after_code, ok_code, is_known_code, known, get_error_code, skip_text,
  check_rest_of_response_header, get_response_header, read_line, get_response_line, with_body,
  unreadable, simple_answer, analyse_simple_response, header_text,
}

-- The code that the server writes, in front of a blank.
get_error_code-code :
    (c : ProtocolCode) (rest : Bytes)
    → get_error_code (to_decimal (code_number c) ++ b' ' ∷ rest)
      ≡ known (some (code_number c, b' ' ∷ rest))
unfolding get_error_code to_decimal code_number
get_error_code-code ProtocolCode.ok rest = refl
get_error_code-code ProtocolCode.too_long_line rest = refl
get_error_code-code ProtocolCode.too_many_fields rest = refl
get_error_code-code ProtocolCode.bad_field rest = refl
get_error_code-code ProtocolCode.bad_command rest = refl
get_error_code-code ProtocolCode.unknown rest = refl
get_error_code-code ProtocolCode.not_logged_in rest = refl
get_error_code-code ProtocolCode.invalid_field_value rest = refl
get_error_code-code ProtocolCode.not_found rest = refl
get_error_code-code ProtocolCode.no_upload_to_resume rest = refl
get_error_code-code ProtocolCode.not_enough_perms rest = refl
get_error_code-code ProtocolCode.user_already_logged rest = refl
get_error_code-code ProtocolCode.invalid_credentials rest = refl
get_error_code-code ProtocolCode.file_already_exists rest = refl
get_error_code-code ProtocolCode.invalid_file_type rest = refl
get_error_code-code ProtocolCode.dls_without_dl rest = refl
get_error_code-code ProtocolCode.in_use rest = refl
get_error_code-code ProtocolCode.wrong_upload_path rest = refl
get_error_code-code ProtocolCode.not_a_directory rest = refl
get_error_code-code ProtocolCode.too_large_file rest = refl

skip_text-append :
    (text : Bytes) (d : ℕ) (ds : Bytes) → skip_text text (text ++ d ∷ ds) ≡ some (d ∷ ds)
unfolding skip_text
skip_text-append [] d ds = refl
skip_text-append (t ∷ []) d ds = ground arith
skip_text-append (t ∷ u ∷ us) d ds = ground (arith, skip_text-append (u ∷ us) d ds)

read_line-line :
    (line : Bytes) (d : ℕ) (ds : Bytes)
    → all is_line_char line ≡ true
    → read_line (line ++ b'\n' ∷ d ∷ ds) ≡ some (line ++ b'\n' ∷ [], d ∷ ds)
unfolding read_line
read_line-line [] d ds h = refl
read_line-line (c ∷ []) d ds h = ground arith
read_line-line (c ∷ e ∷ es) d ds h = ground (arith, read_line-line (e ∷ es) d ds)

check_rest_of_response_header-name :
    (name : Bytes) (d : ℕ) (ds : Bytes)
    → check_rest_of_response_header name (b' ' ∷ (name ++ b'\n' ∷ d ∷ ds)) ≡ some (d ∷ ds)
unfolding check_rest_of_response_header
check_rest_of_response_header-name name d ds =
    ap (λ iter. skip_text (b' ' ∷ (name ++ b'\n' ∷ [])) (b' ' ∷ iter))
      (sym (append_assoc name (b'\n' ∷ []) (d ∷ ds)))
    ∙ skip_text-append (b' ' ∷ (name ++ b'\n' ∷ [])) d ds

-- The head of an answer of the server, in front of what follows it.
pub get_response_header-code :
    (c : ProtocolCode) (name : Bytes) (d : ℕ) (ds : Bytes)
    → get_response_header name (to_decimal (code_number c) ++ (b' ' ∷ (name ++ b'\n' ∷ d ∷ ds)))
      ≡ (if is_known_code (code_number c) then some (code_number c, d ∷ ds) else none)
unfolding get_response_header
get_response_header-code c name d ds =
    rw (get_error_code-code c (name ++ b'\n' ∷ d ∷ ds)) (go (is_known_code (code_number c)))
  where
    go :
        (test : Bool)
        → after_code name
            (if test then some (code_number c, b' ' ∷ (name ++ b'\n' ∷ d ∷ ds)) else none)
          ≡ (if test then some (code_number c, d ∷ ds) else none)
    go true = rw (check_rest_of_response_header-name name d ds) refl
    go false = refl

-- A line is read unless the answer is a success that needs none.
reads_line :
    (c : ProtocolCode) (specific : Bool)
    → (specific ≡ true) ⊎ (c ≢ ProtocolCode.ok)
    → (code_number c == ok_code && not specific) ≡ false
unfolding code_number
reads_line c true h = ground arith
reads_line ProtocolCode.ok false h = ground arith
reads_line ProtocolCode.too_long_line false h = refl
reads_line _ false h = refl

get_response_line-line :
    (line : Bytes)
    → 0 < length line
    → all is_line_char line ≡ true
    → get_response_line (line ++ b'\n' ∷ b'\n' ∷ []) ≡ some ((line ++ b'\n' ∷ []) ++ b'\n' ∷ [])
unfolding get_response_line
get_response_line-line [] solid plain = absurd (omega arith)
get_response_line-line (c ∷ cs) solid plain =
    let no_end : (c == b'\n') ≡ false = ground arith in
    rw (no_end, read_line-line (c ∷ cs) (b'\n') [] plain) refl

-- The body of an answer behind a head that was read, or not.
simple_answer-line :
    (c : ProtocolCode) (name body : Bytes) (line : Bytes) (specific : Bool)
    → 0 < length line
    → all is_line_char line ≡ true
    → (specific ≡ true) ⊎ (c ≢ ProtocolCode.ok)
    → simple_answer name specific body (code_number c) (line ++ b'\n' ∷ b'\n' ∷ [])
      ≡ with_body (code_number c) name ((line ++ b'\n' ∷ []) ++ b'\n' ∷ [])
simple_answer-line c name body line specific solid plain use_line =
    rw (reads_line c specific use_line, get_response_line-line line solid plain) refl

module _ (c : ProtocolCode) (name body : Bytes) where
  -- The terminal client reads an answer of one line, of whatever command, as the server has written
  -- it: its code, and the line as its body. Where the code is one of those above 409, which the
  -- server has and the client does not know, the answer is unreadable to it.
  pub analyse_simple_response-line :
      (line : Bytes) (specific : Bool)
      → 0 < length line
      → all is_line_char line ≡ true
      → (specific ≡ true) ⊎ (c ≢ ProtocolCode.ok)
      → analyse_simple_response name specific
          (get_response (add_line (new_builder c name) line)).content
          body
        ≡ (if is_known_code (code_number c)
            then with_body (code_number c) name ((line ++ b'\n' ∷ []) ++ b'\n' ∷ [])
            else unreadable body)
  unfolding analyse_simple_response get_response
  analyse_simple_response-line [] specific solid plain use_line = absurd (omega arith)
  analyse_simple_response-line (x ∷ xs) specific solid plain use_line =
      ap (after_simple_header name specific body)
        (get_response_header-code c name x ((xs ++ b'\n' ∷ []) ++ b'\n' ∷ []))
      ∙ go (is_known_code (code_number c))
    where
      go :
          (test : Bool)
          → after_simple_header name specific body
              (if test then some (code_number c, x ∷ ((xs ++ b'\n' ∷ []) ++ b'\n' ∷ [])) else none)
            ≡ (if test
                then with_body (code_number c) name (((x ∷ xs) ++ b'\n' ∷ []) ++ b'\n' ∷ [])
                else unreadable body)
      go false = refl
      go true =
          ap (simple_answer name specific body (code_number c))
            (append_assoc (x ∷ xs) (b'\n' ∷ []) (b'\n' ∷ []))
          ∙ simple_answer-line c name body (x ∷ xs) specific solid plain use_line

  -- Where no answer is expected, an answer without lines is read as success.
  pub analyse_simple_response-empty :
      analyse_simple_response name false
        (get_response (new_builder ProtocolCode.ok name)).content
        body
      ≡ record {
        code = ok_code;
        received_response = header_text ok_code name ++ b'\n' ∷ [];
        response_body = [];
      }
  unfolding analyse_simple_response get_response code_number
  analyse_simple_response-empty =
      ap (after_simple_header name false body)
        (get_response_header-code ProtocolCode.ok name b'\n' [])
