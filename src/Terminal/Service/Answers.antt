-- ===== src/Terminal/Service/Answers.antt =====
-- cli/src/tdpservice/tdpservice.cpp: what a command of the terminal client makes of the answer of the
-- server.
use tin_dox.Prelude.{
  ◌<◌, Bool, true, false, [], ◌∷◌, ◌++◌, ◌≡◌, ◌≢◌, ◌⊎◌, ap, ◌∙◌, length, all, Bytes, if◌then◌else◌,
}
use tin_dox.Protocol.Error.{ProtocolCode, code_number}
use tin_dox.Protocol.Interpreter.Requests.{is_line_char}
use tin_dox.Protocol.Response.{new_builder, add_line, get_response}
use tin_dox.Terminal.Analyzer.RoundTrip.{analyse_simple_response-line}
use tin_dox.Terminal.Analyzer.{no_error, is_known_code, with_body, unreadable}
use tin_dox.Terminal.Service.{
  TdpService, Exchanged, answered, Call, arguments, is_refused, request_text, simple, reading,
  take_analysis, run_call, send_and_get_response, analyse,
}

-- A service whose command has been sent and answered.
abbrev pub sent : Call → TdpService → Bytes → TdpService
sent c s text = record s {
  error_code = no_error;
  last_sent_command = request_text (arguments c);
  received_response = text;
}

send_and_get_response-answered :
    (exchange : Bytes → Exchanged) (c : Call) (s : TdpService) (text : Bytes)
    → is_refused (arguments c) ≡ false
    → exchange (request_text (arguments c)) ≡ answered text
    → send_and_get_response exchange (arguments c) s ≡ (sent c s text, true)
unfolding send_and_get_response
send_and_get_response-answered exchange c s text short e = rw (short, e)

-- A command that reads one line, whose request is not too long, and that the server answers by a code
-- and a line: the service keeps the request, and the answer as it came with the line as its body and
-- the code as its error; it succeeds where the code is that of success. Where the code is one that the
-- client does not know, the answer is dropped and the error says so.
pub run_call-answered :
    (exchange : Bytes → Exchanged) (c : Call) (specific : Bool) (s : TdpService)
    (code : ProtocolCode) (line : Bytes)
    → is_refused (arguments c) ≡ false
    → reading c ≡ simple specific
    → 0 < length line
    → all is_line_char line ≡ true
    → (specific ≡ true) ⊎ (code ≢ ProtocolCode.ok)
    → exchange (request_text (arguments c))
      ≡ answered
          (get_response (add_line (new_builder code (arguments c).command_name) line)).content
    → run_call exchange c s
      ≡ take_analysis
          (sent c s
            (get_response (add_line (new_builder code (arguments c).command_name) line)).content)
          (if is_known_code (code_number code)
            then with_body
                (code_number code)
                (arguments c).command_name
                ((line ++ b'\n' ∷ []) ++ b'\n' ∷ [])
            else unreadable s.response_body)
unfolding run_call
run_call-answered exchange c specific s code line short how solid plain use_line e =
    let name = (arguments c).command_name in
    let text = (get_response (add_line (new_builder code name) line)).content in
    ap (analyse name (reading c)) (send_and_get_response-answered exchange c s text short e)
    ∙ ap (λ r. analyse name r (sent c s text, true)) how
    ∙ ap (take_analysis (sent c s text))
        (analyse_simple_response-line code name s.response_body line specific solid plain use_line)
