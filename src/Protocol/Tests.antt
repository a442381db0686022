-- ===== src/Protocol/Tests.antt =====
-- server/tests/unit/protocol: runs of the protocol's parsers, and the theorems at concrete inputs.
use tin_dox.Prelude.{
  drop, [], ◌∷◌, ◌≡◌, refl, false, some, none, codes, ok, drop_while, take_while, equal, ◌++◌,
  arith,
}
use tin_dox.Prelude.Decimal.{digits_value}
use tin_dox.Protocol.Field.{integer, string, field_from_string}
use tin_dox.Protocol.Field.RoundTrip.{encode_value, field_from_string-encode_value}
use tin_dox.Protocol.Field.Sound.{IsParsed, field_from_string-IsParsed}
use tin_dox.Protocol.Interpreter.Bounds.{IsBounded, initial-IsBounded, commit_bytes-IsBounded}
use tin_dox.Protocol.Interpreter.Loop.{IsFinished, IsSuffix, commit_bytes_ends}
use tin_dox.Protocol.Interpreter.Requests.{IsLine, available}
use tin_dox.Protocol.Interpreter.RoundTrip.{
  encode_field, encode_request, commit_bytes-encode_request,
}
use tin_dox.Protocol.Interpreter.Chunks.{absorbed, commit_bytes-append}
use tin_dox.Protocol.Response.{Response, response, pending}
use tin_dox.Protocol.Socket.{Sender, add_response, send, wrote, write_failed, other_errno}
use tin_dox.Protocol.Download.{DownloadManager, send_files, send_files_lem}
use tin_dox.Protocol.Socket.Order.{queued, send_keeps_stream}
use tin_dox.Protocol.Interpreter.{Interpreter, Request, Fed, initial, feed, commit_bytes}

field_runs :
    field_from_string (codes "    path  : 'My Documents/Doc with trailing space '    ")
    ≡ ok (record {
      name = codes "path";
      value = string (codes "My Documents/Doc with trailing space ");
    })
unfolding field_from_string drop_while take_while equal
field_runs = refl

auth_fed : Fed
unfolding commit_bytes initial field_from_string drop_while take_while equal
auth_fed = commit_bytes 0 initial (codes "auth\nlogin: admin\npasswd: 12\n\npwd")

auth_runs :
    (auth_fed.interpreter.request
      ≡ some (record {
        name = codes "auth";
        fields =
            record { name = codes "login"; value = string (codes "admin") }
            ∷ record { name = codes "passwd"; value = integer 12 }
            ∷ [];
      }))
    × (auth_fed.rest ≡ codes "pwd")
unfolding auth_fed digits_value
auth_runs = (refl, refl)

field_from_string-encode_value_example :
    field_from_string (codes " ab : 'c'\t")
    ≡ ok (record { name = codes "ab"; value = string (codes "c") })
unfolding encode_value
field_from_string-encode_value_example =
    field_from_string-encode_value b'a' (codes "b") (codes " ") (codes " ") (codes " ") (codes "\t")
      (string (codes "c")) refl
      (record {
        before_blank = refl;
        after_blank = refl;
        before_value_blank = refl;
        after_value_blank = refl;
      })
      tt

field_from_string-IsParsed_example : IsParsed (field_from_string (codes "size: 12"))
field_from_string-IsParsed_example = field_from_string-IsParsed (codes "size: 12")

commit_bytes-IsBounded_example :
    IsBounded (commit_bytes 0 initial (codes "pwd\n\nls\n")).interpreter
commit_bytes-IsBounded_example =
    commit_bytes-IsBounded 0 initial (codes "pwd\n\nls\n") initial-IsBounded

commit_bytes_ends_example :
    let r = commit_bytes 0 initial (codes "pwd\n\nls") in
    IsFinished r × IsSuffix r.rest (codes "pwd\n\nls") × (feed 20 0 initial (codes "pwd\n\nls") ≡ r)
commit_bytes_ends_example = commit_bytes_ends 0 initial (codes "pwd\n\nls") 20 (omega arith)

abbrev make_request : Request
make_request = record {
  name = codes "mkdir";
  fields = record { name = codes "name"; value = string (codes "x") } ∷ [];
}

mkdir-IsLine : IsLine (codes "mkdir")
mkdir-IsLine = record { solid = omega arith; plain = refl; short = omega arith }

commit_bytes-encode_request_example :
    commit_bytes 0 initial (encode_request make_request (codes "ls"))
    ≡ record { interpreter = available make_request; rest = codes "ls"; outcome = ok tt }
unfolding encode_field encode_value
commit_bytes-encode_request_example =
    commit_bytes-encode_request 0 make_request (codes "ls") mkdir-IsLine
      (
        record {
          named = omega arith;
          lower_case = refl;
          encodable = tt;
          fits = record { solid = omega arith; plain = refl; short = omega arith };
        },
        tt,
      )
      (omega arith)

abbrev half_read : Interpreter
half_read = record { lines = codes "mk" ∷ []; request = none; last_line_complete = false }

half_read_runs : commit_bytes 0 initial (codes "mk") ≡ absorbed half_read
unfolding commit_bytes initial
half_read_runs = refl

commit_bytes-append_example :
    commit_bytes 0 initial (codes "mk" ++ codes "dir\n\n")
    ≡ commit_bytes 0 half_read (codes "dir\n\n")
commit_bytes-append_example =
    commit_bytes-append 0 initial half_read (codes "mk") (codes "dir\n\n") (unfold initial in refl)
      refl half_read_runs

abbrev old_answer : Response
old_answer = record { content = codes "100 pwd\n/\n\n"; offset = 4 }

abbrev sending : Sender
sending = record {
  responses = old_answer ∷ [];
  errc = none;
  sent_byte_count = 4;
  wire = codes "100 ";
}

send_keeps_stream_example :
    let stream = λ (t : Sender). t.wire ++ queued t.responses in
    (stream (add_response sending (response (codes "100 ls\n\n\n")))
      ≡ stream sending ++ pending (response (codes "100 ls\n\n\n")))
    × (stream (send (wrote 3 ∷ write_failed (other_errno 104) ∷ []) sending).0 ≡ stream sending)
send_keeps_stream_example =
    send_keeps_stream sending (response (codes "100 ls\n\n\n"))
      (wrote 3 ∷ write_failed (other_errno 104) ∷ [])

-- Six bytes, of which two are skipped.
abbrev downloading_six : DownloadManager
downloading_six = record { token = some 4; offset = 2; file_size = 6; wire = codes "go " }

send_files_lem_example :
    send_files (codes "abcdef") (1 ∷ 3 ∷ []) downloading_six ≡ record downloading_six {
      token = none;
      offset = 6;
      wire = codes "go " ++ drop 2 (codes "abcdef");
    }
send_files_lem_example =
    send_files_lem (codes "abcdef") 1 (3 ∷ []) downloading_six
      (record { p = 4; owner = refl; sized = refl; small = omega arith })
      (omega arith, (omega arith, tt)) refl
