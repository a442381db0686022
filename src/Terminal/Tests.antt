-- ===== src/Terminal/Tests.antt =====
-- The terminal client at concrete answers and commands.
use tin_dox.Prelude.{none, [], ◌∷◌, true, false, Bytes, inl, ◌≡◌, refl, arith, codes, ok}
use tin_dox.Protocol.Error.{ProtocolCode, code_number}
use tin_dox.Protocol.Field.{boolean, integer, string}
use tin_dox.Protocol.Interpreter.Requests.{available}
use tin_dox.Protocol.Interpreter.{initial, commit_bytes}
use tin_dox.Protocol.Response.{new_builder, add_line, get_response}
use tin_dox.Terminal.Analyzer.Lines.{add_lines, analyse_multiline_response-lines}
use tin_dox.Terminal.Connection.{Connection, going, exchange_with_server}
use tin_dox.Terminal.Connection.Arrivals.{whole, all_of, ends_once, arrival}
use tin_dox.Terminal.Connection.Departures.{departure}
use tin_dox.Terminal.Connection.Whole.{exchange_with_server_lem}
use tin_dox.Terminal.Conversation.{come_back, run_call_lem}
use tin_dox.Terminal.Transfer.{send_file}
use tin_dox.Terminal.Service.Answers.{run_call-answered}
use tin_dox.Terminal.Analyzer.{with_body, analyse_multiline_response}
use tin_dox.Prelude.Decimal.{to_decimal}
use tin_dox.Terminal.Service.Meaning.{IsSendable, request_fields}
use tin_dox.Terminal.Service.Requests.{commit_bytes-request_text}
use tin_dox.Terminal.Service.Values.{field}
use tin_dox.Terminal.Service.{
  TdpService, Exchanged, answered, ul, rm, pwd, arguments, request_text, run_call,
}

abbrev before : TdpService
before = record {
  response_body = codes "before";
  received_response = [];
  last_sent_command = [];
  error_code = 0;
}

-- A server that answers every request by one text.
abbrev answers : ProtocolCode → Bytes → Bytes → Bytes → Exchanged
answers code command line request =
    answered (get_response (add_line (new_builder code command) line)).content

pwd_is_read : run_call (answers ProtocolCode.ok (codes "pwd") (codes "/home")) pwd before ≡ (
  record {
    response_body = codes "/home\n\n";
    received_response = codes "100 pwd\n/home\n\n";
    last_sent_command = codes "pwd\n\n";
    error_code = 100;
  },
  true,
)
unfolding code_number request_text arguments to_decimal
pwd_is_read =
    run_call-answered (answers ProtocolCode.ok (codes "pwd") (codes "/home")) pwd true before
      ProtocolCode.ok (codes "/home") refl refl (omega arith) refl (inl refl) refl

in_use_is_unreadable :
    run_call (answers ProtocolCode.in_use (codes "rm") (codes "in use")) (rm (codes "a")) before ≡ (
      record {
        response_body = codes "before";
        received_response = [];
        last_sent_command = codes "rm\nname:'a'\n\n";
        error_code = 7;
      },
      false,
    )
unfolding code_number request_text arguments
in_use_is_unreadable =
    run_call-answered (answers ProtocolCode.in_use (codes "rm") (codes "in use")) (rm (codes "a"))
      true before ProtocolCode.in_use (codes "in use") refl refl (omega arith) refl (inl refl) refl

analyse_multiline_response-lines_example :
    analyse_multiline_response
      (codes "ls")
      (get_response
        (add_lines (new_builder ProtocolCode.ok (codes "ls")) (codes "a" ∷ codes "b" ∷ []))).content
      []
    ≡ with_body 100 (codes "ls") (codes "a\nb\n\n")
unfolding code_number
analyse_multiline_response-lines_example =
    analyse_multiline_response-lines ProtocolCode.ok (codes "ls") [] (codes "a" ∷ codes "b" ∷ []) (
      record { solid = omega arith; plain = refl },
      (record { solid = omega arith; plain = refl }, tt),
    )

commit_bytes-request_text_example :
    commit_bytes 0 initial (request_text (arguments (ul (codes "notes") 12 true))) ≡ record {
      interpreter = available (record {
        name = codes "ul";
        fields =
            field (codes "name") (string (codes "notes"))
            ∷ field (codes "size") (integer 12)
            ∷ field (codes "retry") (boolean true)
            ∷ [];
      });
      rest = [];
      outcome = ok tt;
    }
unfolding IsSendable arguments to_decimal request_fields
commit_bytes-request_text_example =
    commit_bytes-request_text 0 (ul (codes "notes") 12 true) (refl, omega arith) refl

abbrev idle : Connection
idle = record { is_connection_open = true; wire = codes "exit\n\n"; file = [] }

exchange_with_server_lem_example :
    exchange_with_server false
      (departure (codes "p" ∷ [])
        ∷ departure (codes "wd\n" ∷ codes "\n" ∷ [])
        ∷ arrival (codes "100 pwd\n" ∷ codes "/h\n" ∷ [])
        ∷ arrival (codes "\n" ∷ [])
        ∷ [])
      idle
      (codes "pwd\n\n")
      0
    ≡ going (record {
      connection = record idle { wire = codes "exit\n\npwd\n\n" };
      message = codes "100 pwd\n/h\n\n";
      sent_buf_pos = 5;
      ready_for_reading = false;
      got_whole_response = true;
      bytes_to_read = 0;
    })
unfolding all_of whole
exchange_with_server_lem_example =
    exchange_with_server_lem idle ((codes "p" ∷ []) ∷ []) (codes "wd\n" ∷ codes "\n" ∷ [])
      ((codes "100 pwd\n" ∷ codes "/h\n" ∷ []) ∷ (codes "\n" ∷ []) ∷ []) refl (omega arith)
      (
        (
          record { filled = omega arith; solid = refl },
          (record { filled = omega arith; solid = refl }, tt),
        ),
        ((record { filled = omega arith; solid = refl }, tt), tt),
      )
      (unfold ends_once in refl)

run_call_lem_example :
    run_call
      (λ request. come_back (
        exchange_with_server false
          (departure (codes "pwd\n" ∷ [])
            ∷ departure (codes "\n" ∷ [])
            ∷ arrival (codes "100 pw" ∷ codes "d\n/home\n" ∷ [])
            ∷ arrival (codes "\n" ∷ [])
            ∷ [])
          idle
          request
          0))
      pwd
      before
    ≡ (
      record {
        response_body = codes "/home\n\n";
        received_response = codes "100 pwd\n/home\n\n";
        last_sent_command = codes "pwd\n\n";
        error_code = 100;
      },
      true,
    )
unfolding all_of whole code_number to_decimal get_response request_text arguments
run_call_lem_example =
    run_call_lem idle ((codes "pwd\n" ∷ []) ∷ []) (codes "\n" ∷ [])
      ((codes "100 pw" ∷ codes "d\n/home\n" ∷ []) ∷ (codes "\n" ∷ []) ∷ []) pwd true before
      ProtocolCode.ok (codes "/home") refl refl (omega arith)
      (
        (
          record { filled = omega arith; solid = refl },
          (record { filled = omega arith; solid = refl }, tt),
        ),
        ((record { filled = omega arith; solid = refl }, tt), tt),
      )
      refl refl refl (omega arith) refl (inl refl)

-- An error of `sendfile` is taken for 2 ^ 64 - 1 bytes: one more byte is left.
an_error_is_not_seen :
    send_file
      (codes "ab")
      (none ∷ [])
      (record { is_connection_open = true; wire = []; offset = 0; remaining_size = 2 })
    ≡ record { is_connection_open = true; wire = []; offset = 0; remaining_size = 3 }
unfolding send_file
an_error_is_not_seen = refl
