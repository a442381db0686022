-- ===== src/Protocol/Interpreter.antt =====
-- server/src/protocol/protocol_interpreter.cpp and request.cpp: requests out of a byte stream.
pub mod Bounds
pub mod Chunks
pub mod Loop
pub mod Pieces
pub mod Requests
pub mod RoundTrip
use tin_dox.Prelude.{
  ℕ, zero, suc, Bool, true, false, not, ◌&&◌, ◌||◌, List, [], ◌∷◌, ◌++◌, reverse, Option, none,
  some, ◌==◌, ltb, if◌then◌else◌, length, Bytes, codes, ok, err, Result, ◌>>=◌,
}
use tin_dox.Prelude.Decimal.{to_decimal}
use tin_dox.Protocol.Error.{ProtocolCode, Error, Outcome, fail_with, fatal}
use tin_dox.Protocol.Field.{Field, field_from_string}

pub record Request : Type 0 where
  pub name : Bytes
  pub fields : List Field

abbrev pub max_line_length : ℕ
max_line_length = 2048

abbrev pub max_line_count : ℕ
max_line_count = 16

abbrev pub line_separator : ℕ
line_separator = b'\n'

-- The newest line of `m_lines` stands first: the head is `back()`.
pub record Interpreter : Type 0 where
  pub lines : List Bytes
  pub request : Option Request
  pub last_line_complete : Bool

-- A call that may throw leaves the state that it had reached.
abbrev pub Step : Type 0
Step = Interpreter × Outcome (Unit {0})

-- The next part of a call, unless the first has thrown.
infixl 5 ◌and_then◌
abbrev pub ◌and_then◌ : Step → (Interpreter → Step) → Step
(i, ok _) and_then f = f i
(i, err e) and_then f = (i, err e)

unfoldable pub initial : Interpreter
initial = record { lines = []; request = none; last_line_complete = true }

unfoldable pub restart : Interpreter → Interpreter
restart i = record { lines = []; request = none; last_line_complete = true }

abbrev pub has_available_request : Interpreter → Bool
has_available_request i = elim i.request [ none ↦ false | some r ↦ true ]

-- `m_lines.emplace_back(line)`, or `m_lines.back().append(line)`.
pub add_bytes : Bool → Bytes → List Bytes → List Bytes
add_bytes true line lines = line ∷ lines
add_bytes false line [] = []
add_bytes false line (last ∷ lines) = (last ++ line) ∷ lines

pub back : List Bytes → Bytes
back [] = []
back (last ∷ lines) = last

-- The source clears `m_lines` before it reads `m_lines.back().size()` for the message, which has no
-- defined value: it is the parameter `stale_size`. `m_lines.size()` is 0 by then.
abbrev pub long_line_error : ℕ → Error
long_line_error stale_size =
    fail_with ProtocolCode.too_long_line
      (codes "Too long line (" ++ (to_decimal stale_size ++ codes " bytes)"))

abbrev pub many_lines_error : Error
many_lines_error =
    fail_with ProtocolCode.too_many_fields
      (codes "Too many fields (" ++ (to_decimal 0 ++ codes ")"))

pub check_for_protocol_errors : ℕ → Interpreter → Step
check_for_protocol_errors stale_size i =
    let too_long_line = ltb max_line_length (length (back i.lines)) in
    let too_many_lines = ltb max_line_count (length i.lines) in
    if too_long_line
    then (restart i, err (long_line_error stale_size))
    else if too_many_lines
    then (restart i, err many_lines_error)
    else (i, ok tt)

-- `field_from_string` on each line; the first error stops.
unfoldable pub fields_from_lines : List Bytes → Outcome (List Field)
fields_from_lines [] = ok []
fields_from_lines (line ∷ lines) =
    field_from_string line >>= λ f. fields_from_lines lines >>= λ fs. ok (f ∷ fs)

-- The request of the lines, oldest first.
pub request_from_lines : List Bytes → Outcome Request
unfolding fields_from_lines
request_from_lines [] = ok (record { name = []; fields = [] })
request_from_lines (name ∷ lines) =
    fields_from_lines lines >>= λ fs. ok (record { name = name; fields = fs })

-- The name has been moved out of the oldest line, which is empty from then on.
pub moved_out : List Bytes → List Bytes
moved_out [] = []
moved_out (line ∷ []) = [] ∷ []
moved_out (last ∷ line ∷ lines) = last ∷ moved_out (line ∷ lines)

pub set_request : Interpreter → Outcome Request → Step
set_request i (ok r) = (record i { lines = moved_out i.lines; request = some r }, ok tt)
set_request i (err e) = (record i { lines = moved_out i.lines }, err e)

pub commit_request : Interpreter → Step
commit_request i = elim i.request [
  | some r ↦ (
    i,
    err (
        fatal (
          codes "ProtocolInterpreter: last request '"
          ++ (r.name ++ codes "' was not properly handled"))),
  )
  | none ↦ set_request i (request_from_lines (reverse i.lines))
]

-- `line.back() == '\n'`.
pub ends_line : Bytes → Bool
ends_line [] = false
ends_line (c ∷ []) = c == line_separator
ends_line (c ∷ d ∷ cs) = ends_line (d ∷ cs)

-- `line.pop_back()`.
pub drop_last : Bytes → Bytes
drop_last [] = []
drop_last (c ∷ []) = []
drop_last (c ∷ d ∷ cs) = c ∷ drop_last (d ∷ cs)

pub clear_lines : Interpreter → Interpreter
clear_lines i = record i { lines = [] }

-- The end of `commit_line`: an empty line ends the request, if there is one.
pub close_line : Interpreter → List Bytes → Step
close_line i ([] ∷ line ∷ lines) =
    commit_request (record i { lines = line ∷ lines }) and_then λ j. (clear_lines j, ok tt)
close_line i ([] ∷ []) = (clear_lines i, ok tt)
close_line i lines = (record i { lines = lines }, ok tt)

pub pop_separator : Bool → List Bytes → List Bytes
unfolding drop_last
pop_separator true (last ∷ lines) = drop_last last ∷ lines
pop_separator _ lines = lines

-- `commit_line` behind the check.
pub settle_line : Interpreter → Step
settle_line i =
    let complete = ends_line (back i.lines) in
    close_line (record i { last_line_complete = complete }) (pop_separator complete i.lines)

pub commit_line : ℕ → Interpreter → Bytes → Step
commit_line stale_size i line =
    check_for_protocol_errors stale_size
      (record i { lines = add_bytes i.last_line_complete line i.lines })
    and_then settle_line

-- Up to the first separator, which belongs to the line, and what follows it.
pub take_line : Bytes → Bytes
take_line [] = []
take_line (c ∷ cs) = if c == line_separator then c ∷ [] else c ∷ take_line cs

pub drop_line : Bytes → Bytes
drop_line [] = []
drop_line (c ∷ cs) = if c == line_separator then cs else drop_line cs

-- The state, the bytes that are left, and what was thrown.
pub record Fed : Type 0 where
  pub interpreter : Interpreter
  pub rest : Bytes
  pub outcome : Outcome (Unit {0})

-- The loop goes on behind a line that was taken, and stops at an error.
pub after_line : Step → Bytes → (Interpreter → Fed) → Fed
after_line (j, ok _) rest more = more j
after_line (j, err e) rest more = record { interpreter = j; rest = rest; outcome = err e }

-- The loop of `commit_bytes`; a round takes at least one byte.
pub feed : ℕ → ℕ → Interpreter → Bytes → Fed
feed zero stale_size i bytes = record { interpreter = i; rest = bytes; outcome = ok tt }
feed (suc f) stale_size i [] = record { interpreter = i; rest = []; outcome = ok tt }
feed (suc f) stale_size i (c ∷ cs) =
    let next =
      after_line (commit_line stale_size i (take_line (c ∷ cs))) (drop_line (c ∷ cs))
        (λ j. feed f stale_size j (drop_line (c ∷ cs))) in
    if has_available_request i
    then record { interpreter = i; rest = c ∷ cs; outcome = ok tt }
    else next

unfoldable pub commit_bytes : ℕ → Interpreter → Bytes → Fed
unfolding feed after_line take_line drop_line commit_line add_bytes check_for_protocol_errors
    settle_line back restart ends_line pop_separator close_line clear_lines commit_request
    set_request request_from_lines moved_out
commit_bytes stale_size i bytes = feed (length bytes) stale_size i bytes

-- `std::move(m_request).value()`, then `restart()`.
unfoldable pub get_request : Interpreter → Option (Request × Interpreter)
unfolding restart
get_request i = elim i.request [ none ↦ none | some r ↦ some (r, restart i) ]
