-- ===== src/Terminal/Conversation.antt =====
-- cli/src/tdpservice: a command of the terminal client, over the exchange of its connection.
use mathlib.Core.List.{append_assoc}
use tin_dox.Prelude.{
  ℕ, ◌<◌, Bool, true, false, List, [], ◌∷◌, ◌++◌, map, ◌≡◌, refl, ap, ◌∙◌, ◌≢◌, ◌⊎◌, arith, length,
  length-append, all, All, Bytes, if◌then◌else◌,
}
use tin_dox.Prelude.Decimal.{to_decimal, is_digit, all-to_decimal}
use tin_dox.Protocol.Error.{ProtocolCode, code_number}
use tin_dox.Protocol.Interpreter.Requests.{is_line_char}
use tin_dox.Protocol.Response.{new_builder, add_line, get_response}
use tin_dox.Terminal.Connection.Arrivals.{whole, all_of, ends_once, IsPiece, arrival}
use tin_dox.Terminal.Connection.Departures.{departure}
use tin_dox.Terminal.Connection.Whole.{exchange_with_server_lem}
use tin_dox.Terminal.Connection.{Connection, Progress, going, refused, failed, exchange_with_server}
use tin_dox.Terminal.Service
use tin_dox.Terminal.Analyzer.{is_known_code, with_body, unreadable}
use tin_dox.Terminal.Service.Answers.{sent, run_call-answered}
use tin_dox.Terminal.Service.{
  TdpService, Exchanged, answered, closed, Call, dl, arguments, is_refused, request_text, simple,
  reading, take_analysis, run_call,
}

ends_once-char :
    (c : ℕ) (text : Bytes)
    → is_line_char c ≡ true
    → 1 < length text
    → ends_once (c ∷ text) ≡ ends_once text
unfolding ends_once
ends_once-char c [] h k = absurd (omega arith)
ends_once-char c (d ∷ []) h k = absurd (omega arith)
ends_once-char c (d ∷ e ∷ es) h k = ground arith

ends_once-line :
    (line text : Bytes)
    → all is_line_char line ≡ true
    → 1 < length text
    → ends_once (line ++ text) ≡ ends_once text
ends_once-line [] text h k = refl
ends_once-line (c ∷ cs) text h k =
    ends_once-char c (cs ++ text) (ground arith) (omega (arith, length-append cs text))
    ∙ ends_once-line cs text (ground arith) k

ends_once-separator :
    (d : ℕ) (text : Bytes)
    → is_line_char d ≡ true
    → 0 < length text
    → ends_once (b'\n' ∷ d ∷ text) ≡ ends_once (d ∷ text)
unfolding ends_once
ends_once-separator d [] h k = absurd (omega arith)
ends_once-separator d (e ∷ es) h k = ground arith

pub all_line_chars-digits : (text : Bytes) → all is_digit text ≡ true → all is_line_char text ≡ true
all_line_chars-digits [] h = refl
all_line_chars-digits (c ∷ cs) h = ground (arith, all_line_chars-digits cs)

-- An answer of the server with one line ends once.
pub ends_once-answer :
    (code : ProtocolCode) (name line : Bytes)
    → all is_line_char name ≡ true
    → 0 < length line
    → all is_line_char line ≡ true
    → ends_once (get_response (add_line (new_builder code name) line)).content ≡ true
unfolding get_response
ends_once-answer code name [] h solid plain = absurd (omega arith)
ends_once-answer code name (d ∷ ds) h solid plain =
    let tail = (ds ++ b'\n' ∷ []) ++ b'\n' ∷ [] in
    ends_once-line (to_decimal (code_number code)) (b' ' ∷ (name ++ b'\n' ∷ d ∷ tail))
      (all_line_chars-digits (to_decimal (code_number code)) (all-to_decimal (code_number code)))
      (omega (arith, length-append name (b'\n' ∷ d ∷ tail)))
    ∙ ends_once-line (b' ' ∷ name) (b'\n' ∷ d ∷ tail) (ground (arith, h)) (omega arith)
    ∙ ends_once-separator d tail (ground (arith, plain))
        (omega (arith, length-append (ds ++ b'\n' ∷ []) (b'\n' ∷ [])))
    ∙ ap ends_once (append_assoc (d ∷ ds) (b'\n' ∷ []) (b'\n' ∷ []))
    ∙ ends_once-line (d ∷ ds) (b'\n' ∷ b'\n' ∷ []) plain (omega arith)
    ∙ (unfold ends_once in refl)

pub all_line_chars-command_name : (c : Call) → all is_line_char (arguments c).command_name ≡ true
unfolding arguments
all_line_chars-command_name (dl file size true) = refl
all_line_chars-command_name (dl file size false) = refl
all_line_chars-command_name c = refl

-- What `exchangeWithServer` has come back with. One that still waits has not, and counts as failed.
abbrev pub come_back : Progress → Exchanged
come_back (going e) = if e.got_whole_response then answered e.message else Service.failed e.message
come_back (refused e) = closed e.message
come_back (failed e) = Service.failed e.message

-- A command that reads one line, over a connection that is open, whose request goes out in any pieces
-- and whose answer, a code and a line as the server writes them, comes in any pieces that are not empty
-- and hold no byte 0: the service keeps the request, and the answer as it came with the line as its
-- body and the code as its error; it succeeds where the code is that of success. Where the code is one
-- that the client does not know, the answer is dropped and the error says so.
pub run_call_lem :
    (conn : Connection) (early : List (List Bytes)) (last : List Bytes) (pieces : List (List Bytes))
    (c : Call) (specific : Bool) (s : TdpService) (code : ProtocolCode) (line : Bytes)
    → conn.is_connection_open ≡ true
    → request_text (arguments c) ≡ all_of early ++ whole last
    → 0 < length (whole last)
    → All (All IsPiece) pieces
    → all_of pieces
      ≡ (get_response (add_line (new_builder code (arguments c).command_name) line)).content
    → is_refused (arguments c) ≡ false
    → reading c ≡ simple specific
    → 0 < length line
    → all is_line_char line ≡ true
    → (specific ≡ true) ⊎ (code ≢ ProtocolCode.ok)
    → run_call
        (λ request. come_back (
          exchange_with_server false
            (map departure early ++ departure last ∷ map arrival pieces)
            conn
            request
            0))
        c
        s
      ≡ take_analysis
          (sent c s
            (get_response (add_line (new_builder code (arguments c).command_name) line)).content)
          (if is_known_code (code_number code)
            then with_body
                (code_number code)
                (arguments c).command_name
                ((line ++ b'\n' ∷ []) ++ b'\n' ∷ [])
            else unreadable s.response_body)
run_call_lem conn early last pieces c specific s code line is_open e h ps f short how solid plain
      use_line =
    let waits = map departure early ++ departure last ∷ map arrival pieces in
    let exchange =
      λ (request : Bytes). come_back (exchange_with_server false waits conn request 0) in
    let name = (arguments c).command_name in
    run_call-answered exchange c specific s code line short how solid plain use_line (
      ap exchange e
      ∙ ap come_back (
          exchange_with_server_lem conn early last pieces is_open h ps (
            ap ends_once f
            ∙ ends_once-answer code name line (all_line_chars-command_name c) solid plain))
      ∙ ap answered f)
