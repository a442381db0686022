-- ===== src/Terminal/Analyzer.antt =====
-- cli/src/tdpservice/responseanalyzer.cpp: what the terminal client makes of an answer.
pub mod RoundTrip
pub mod Lines
use tin_dox.Prelude.{
  ℕ, zero, suc, ◌+◌, ◌-◌, ◌*◌, Bool, true, false, not, ◌&&◌, ◌||◌, [], ◌∷◌, ◌++◌, Option, none,
  some, ◌==◌, leb, if◌then◌else◌, Bytes, codes,
}
use tin_dox.Prelude.Decimal.{to_decimal, is_digit}

-- `ConnectionError`, by its numbers.
abbrev pub ConnectionError : Type 0
ConnectionError = ℕ

abbrev pub no_error : ConnectionError
no_error = 0

abbrev pub e_read_message : ConnectionError
e_read_message = 5

abbrev pub e_nothing_read : ConnectionError
e_nothing_read = 6

abbrev pub e_response : ConnectionError
e_response = 7

abbrev pub ok_code : ConnectionError
ok_code = 100

-- The iterator is what of `read_buf` stands behind it. Where it is at the end, `*iter` is the
-- terminator of the string.
abbrev pub current : Bytes → ℕ
current [] = 0
current (c ∷ cs) = c

-- `nextReadChar`: `none` is `E_RESPONSE`.
abbrev pub next_read_char : Bytes → Option Bytes
next_read_char (c ∷ d ∷ cs) = some (d ∷ cs)
next_read_char _ = none

-- A function of the analyser that moves the iterator, or answers `E_RESPONSE`.
abbrev pub Reader : Type 0 → Type 0
Reader A = Bytes → Option (A × Bytes)

abbrev pub is_known_code : ℕ → Bool
is_known_code code =
    code == 100 || ((leb 300 code && leb code 303) || (leb 401 code && leb code 409))

-- The loop of `getErrorCode`, by the digits that are left to read.
pub read_digits : ℕ → ℕ → Reader ℕ
read_digits zero code iter = some (code, iter)
read_digits (suc n) code iter = elim (next_read_char iter) [
  | none ↦ none
  | some rest ↦
      let more = read_digits n (10 * code + (current iter - b'0')) rest in
      if is_digit (current iter) then more else none
]

abbrev pub known : Option (ℕ × Bytes) → Option (ℕ × Bytes)
known none = none
known (some (code, iter)) = if is_known_code code then some (code, iter) else none

unfoldable pub get_error_code : Reader ConnectionError
unfolding read_digits
get_error_code iter = known (read_digits 3 0 iter)

-- The loop of `checkRestOfResponseHeader`. Its callers do not tell its errors apart.
pub skip_text : Bytes → Bytes → Option Bytes
skip_text [] iter = some iter
skip_text (i ∷ more) iter = elim (next_read_char iter) [
  | none ↦ none
  | some rest ↦ let later = skip_text more rest in if current iter == i then later else none
]

unfoldable pub check_rest_of_response_header : Bytes → Bytes → Option Bytes
unfolding skip_text
check_rest_of_response_header command_name iter =
    skip_text (b' ' ∷ (command_name ++ b'\n' ∷ [])) iter

abbrev pub with_code : ConnectionError → Option Bytes → Option (ConnectionError × Bytes)
with_code code none = none
with_code code (some iter) = some (code, iter)

abbrev pub after_code : Bytes → Option (ConnectionError × Bytes) → Option (ConnectionError × Bytes)
after_code command_name none = none
after_code command_name (some (code, iter)) =
    with_code code (check_rest_of_response_header command_name iter)

unfoldable pub get_response_header : Bytes → Reader ConnectionError
unfolding get_error_code check_rest_of_response_header
get_response_header command_name iter = after_code command_name (get_error_code iter)

abbrev pub put_char : ℕ → Option (Bytes × Bytes) → Option (Bytes × Bytes)
put_char c none = none
put_char c (some (body, iter)) = some (c ∷ body, iter)

-- The loop of `getResponseLine`: up to a separator, which belongs to the body.
pub read_line : Reader Bytes
read_line [] = none
read_line (c ∷ []) = none
read_line (c ∷ d ∷ cs) =
    let more = put_char c (read_line (d ∷ cs)) in if c == b'\n' then some (c ∷ [], d ∷ cs) else more

-- The line must be the last one.
abbrev pub closed : Option (Bytes × Bytes) → Option Bytes
closed none = none
closed (some (body, iter)) = if current iter == b'\n' then some (body ++ b'\n' ∷ []) else none

unfoldable pub get_response_line : Bytes → Option Bytes
unfolding read_line
get_response_line iter = if current iter == b'\n' then none else closed (read_line iter)

-- The two loops of `getMultipleLineResponse`: lines up to an empty one.
pub read_lines : Reader Bytes
read_lines [] = none
read_lines (c ∷ []) = none
read_lines (c ∷ d ∷ cs) =
    let more = put_char c (read_lines (d ∷ cs)) in
    if c == b'\n' && d == b'\n' then some (c ∷ [], d ∷ cs) else more

abbrev pub body_of : Option (Bytes × Bytes) → Option Bytes
body_of none = none
body_of (some (body, iter)) = some (body ++ b'\n' ∷ [])

unfoldable pub get_multiple_line_response : Bytes → Option Bytes
unfolding read_lines
get_multiple_line_response iter =
    if current iter == b'\n' then some (b'\n' ∷ []) else body_of (read_lines iter)

-- The code that is returned, and the two strings that are passed by reference.
pub record Analysis : Type 0 where
  pub code : ConnectionError
  pub received_response : Bytes
  pub response_body : Bytes

abbrev pub header_text : ConnectionError → Bytes → Bytes
header_text code command_name = to_decimal code ++ (b' ' ∷ (command_name ++ b'\n' ∷ []))

-- What both analyses answer with a body, and without one. An answer that cannot be read leaves the
-- received response empty.
abbrev pub with_body : ConnectionError → Bytes → Bytes → Analysis
with_body code command_name body = record {
  code = code;
  received_response = header_text code command_name ++ body;
  response_body = body;
}

abbrev pub unreadable : Bytes → Analysis
unreadable body = record { code = e_response; received_response = []; response_body = body }

abbrev pub simple_body : ConnectionError → Bytes → Option Bytes → Analysis
simple_body code command_name none = unreadable []
simple_body code command_name (some body) = with_body code command_name body

abbrev pub simple_answer : Bytes → Bool → Bytes → ConnectionError → Bytes → Analysis
simple_answer command_name is_specific_answer_expected body code iter =
    if code == ok_code && not is_specific_answer_expected
    then if current iter == b'\n'
      then record {
        code = code;
        received_response = header_text code command_name ++ b'\n' ∷ [];
        response_body = [];
      }
      else unreadable body
    else simple_body code command_name (get_response_line iter)

abbrev pub after_simple_header : Bytes → Bool → Bytes → Option (ConnectionError × Bytes) → Analysis
after_simple_header command_name is_specific_answer_expected body none = unreadable body
after_simple_header command_name is_specific_answer_expected body (some (code, iter)) =
    simple_answer command_name is_specific_answer_expected body code iter

-- The third argument is the response that was received, the last the body of the answer before.
unfoldable pub analyse_simple_response : Bytes → Bool → Bytes → Bytes → Analysis
unfolding get_response_header get_response_line
analyse_simple_response command_name is_specific_answer_expected received body =
    after_simple_header command_name is_specific_answer_expected body
      (get_response_header command_name received)

-- Where the end of a body does not come, all that was read of it stays.
abbrev pub multiline_body : ConnectionError → Bytes → Bytes → Option Bytes → Analysis
multiline_body code command_name iter none = unreadable iter
multiline_body code command_name iter (some body) = with_body code command_name body

abbrev pub after_multiline_header : Bytes → Bytes → Option (ConnectionError × Bytes) → Analysis
after_multiline_header command_name body none = unreadable body
after_multiline_header command_name body (some (code, iter)) =
    multiline_body code command_name iter (get_multiple_line_response iter)

unfoldable pub analyse_multiline_response : Bytes → Bytes → Bytes → Analysis
unfolding get_response_header get_multiple_line_response
analyse_multiline_response command_name received body =
    after_multiline_header command_name body (get_response_header command_name received)
