-- ===== src/Terminal/Storage.antt =====
-- cli/src/tdpservice/tdpservice.cpp: `dl` and `ul` as a whole, with the file on the side of the client.
pub mod Numbers
pub mod Asking
pub mod Fetch
pub mod Send
mod Tests
use tin_dox.Prelude.{
  ℕ, ◌-◌, ◌^◌, ◌%◌, Bool, true, false, not, ◌&&◌, List, [], ◌∷◌, Option, none, some, ◌==◌, ltb, leb,
  length, drop_while, take_while, if◌then◌else◌, Bytes, codes,
}
use tin_dox.Prelude.Decimal.{is_digit, digits_value}
use tin_dox.Terminal.Connection.{
  Connection, Progress, going, refused, failed, Wait, exchange_with_server,
}
use tin_dox.Terminal.Conversation.{come_back}
use tin_dox.Terminal.Files.{is_space}
use tin_dox.Terminal.Analyzer.{no_error}
use tin_dox.Terminal.Service.{
  TdpService, Call, dl, ul, arguments, is_refused, request_text, settle, run_call,
}
use tin_dox.Terminal.Transfer
use tin_dox.Terminal.Transfer.{UploadEvent, Uploaded, returned, upload_file}

-- What `std::stol` and `std::stoul` find at the start of a text: a sign, and digits.
pub data Number : Type 0 where
  number : (is_negative : Bool) (size : ℕ) → Number
  no_number : Number

abbrev digits_of : Bool → Bytes → Number
digits_of is_negative [] = no_number
digits_of is_negative (c ∷ cs) = number is_negative (digits_value 0 (c ∷ cs))

abbrev signed : Bytes → Number
signed [] = no_number
signed (c ∷ cs) =
    if c == b'-'
    then digits_of true (take_while is_digit cs)
    else if c == b'+'
    then digits_of false (take_while is_digit cs)
    else digits_of false (take_while is_digit (c ∷ cs))

unfoldable pub read_number : Bytes → Number
read_number text = signed (drop_while is_space text)

-- The 64 bits of the result, or an exception, which is no `runtime_error`.
abbrev pub to_unsigned : Number → Option ℕ
to_unsigned no_number = none
to_unsigned (number is_negative n) =
    if ltb n (2 ^ 64) then some (if is_negative then (2 ^ 64 - n) % 2 ^ 64 else n) else none

abbrev pub to_signed : Number → Option ℕ
to_signed no_number = none
to_signed (number true n) = if leb n (2 ^ 63) then some ((2 ^ 64 - n) % 2 ^ 64) else none
to_signed (number false n) = if ltb n (2 ^ 63) then some n else none

unfoldable pub stoul : Bytes → Option ℕ
unfolding read_number
stoul text = to_unsigned (read_number text)

unfoldable pub stol : Bytes → Option ℕ
unfolding read_number
stol text = to_signed (read_number text)

-- The method returns, an exception leaves it, or it waits for the socket.
pub data Ended : Type 0 where
  answer : Bool → Ended
  escaped waiting : Ended

-- What a transfer comes to. The file is that of the connection.
pub record Stored : Type 0 where
  pub service : TdpService
  pub connection : Connection
  pub is_fd_open : Bool
  pub ended : Ended

abbrev pub connection_of : Progress → Connection
connection_of (going e) = e.connection
connection_of (refused e) = e.connection
connection_of (failed e) = e.connection

abbrev pub is_going_on : Progress → Bool
is_going_on (going e) = not e.got_whole_response
is_going_on (refused e) = false
is_going_on (failed e) = false

-- `sendAndGetResponse` and the analysis of the answer, with the connection.
pub data Asked : Type 0 where
  still_waiting : Connection → TdpService → Asked
  asked : Connection → TdpService × Bool → Asked

-- A request that is too long does not reach the connection.
abbrev pub ask_with : Bool → Progress → Connection → TdpService → TdpService × Bool → Asked
ask_with true p conn s r = asked conn r
ask_with false p conn s r =
    if is_going_on p then still_waiting (connection_of p) s else asked (connection_of p) r

unfoldable pub ask : List Wait → Call → Connection → TdpService → Asked
ask waits call conn s =
    ask_with (is_refused (arguments call))
      (exchange_with_server false waits conn (request_text (arguments call)) 0) conn s
      (run_call (λ request. come_back (exchange_with_server false waits conn request 0)) call s)

-- `downloadFileData`, and the end of `dl`.
abbrev pub after_data : TdpService → Progress → Stored
after_data s p =
    let r = settle s (come_back p) in
    record {
      service = r.0;
      connection = connection_of p;
      is_fd_open = is_going_on p;
      ended = if is_going_on p then waiting else answer r.1;
    }

unfoldable pub download_file_data : List Wait → Connection → TdpService → ℕ → Stored
download_file_data waits conn s bytes_to_download =
    after_data
      (record s {
        error_code = no_error;
        last_sent_command = codes "dls\n\n";
        received_response = codes "dls\n\n";
      })
      (exchange_with_server true waits conn (codes "dls\n\n") bytes_to_download)

abbrev pub download : List Wait → Connection → TdpService → Option ℕ → Stored
download waits conn s none = record {
  service = s;
  connection = conn;
  is_fd_open = true;
  ended = escaped;
}
download waits conn s (some n) = download_file_data waits conn s n

-- Where the server refuses, the descriptor is not closed.
abbrev pub after_dl : List Wait → Asked → Stored
after_dl waits (still_waiting conn s) = record {
  service = s;
  connection = conn;
  is_fd_open = true;
  ended = waiting;
}
after_dl waits (asked conn (s, false)) = record {
  service = s;
  connection = conn;
  is_fd_open = true;
  ended = answer false;
}
after_dl waits (asked conn (s, true)) = download waits conn s (stoul s.response_body)

-- `open` fails, or gives the file as it was: it is emptied at once, but to go on with a download.
-- `fstat` may fail. The waits are those for the answer, and those for the file.
unfoldable pub fetch_file :
    List Wait → List Wait → Option Bytes → Bool → Bytes → Bool → Connection → TdpService → Stored
unfolding ask download_file_data stoul
fetch_file waits file_waits none has_stat name retry conn s = record {
  service = s;
  connection = conn;
  is_fd_open = false;
  ended = answer false;
}
fetch_file waits file_waits (some old) has_stat name retry conn s =
    let content = if retry then old else [] in
    let here = record conn { file = content } in
    if has_stat
    then after_dl file_waits (ask waits (dl name (length content) retry) here s)
    else record { service = s; connection = here; is_fd_open = false; ended = answer false }

-- `uploadFile`, and the end of `ul`.
abbrev pub after_upload : Connection → TdpService → Uploaded → Stored
after_upload conn s (returned result u) = record {
  service = s;
  connection = record conn { is_connection_open = u.is_connection_open; wire = u.wire };
  is_fd_open = false;
  ended = answer result;
}
after_upload conn s (Transfer.failed u) = record {
  service = s;
  connection = record conn { is_connection_open = u.is_connection_open; wire = u.wire };
  is_fd_open = false;
  ended = answer false;
}
after_upload conn s (Transfer.waiting u) = record {
  service = s;
  connection = record conn { wire = u.wire };
  is_fd_open = true;
  ended = waiting;
}

module _ (content : Bytes) (upload_waits : List (Option (List UploadEvent))) (armed : Bool) where
  abbrev pub upload : Connection → TdpService → Option ℕ → Stored
  upload conn s none = record { service = s; connection = conn; is_fd_open = true; ended = escaped }
  upload conn s (some offset) = after_upload conn s (
      upload_file content upload_waits armed conn.is_connection_open conn.wire offset
        (length content))

  abbrev pub after_ul : Asked → Stored
  after_ul (still_waiting conn s) = record {
    service = s;
    connection = conn;
    is_fd_open = true;
    ended = waiting;
  }
  after_ul (asked conn (s, false)) = record {
    service = s;
    connection = conn;
    is_fd_open = true;
    ended = answer false;
  }
  after_ul (asked conn (s, true)) = upload conn s (stol s.response_body)

unfoldable pub send_stored_file :
    List Wait
    → List (Option (List UploadEvent))
    → Bool
    → Option Bytes
    → Bool
    → Bytes
    → Bool
    → Connection
    → TdpService
    → Stored
unfolding ask stol
send_stored_file waits upload_waits armed none has_stat name retry conn s = record {
  service = s;
  connection = conn;
  is_fd_open = false;
  ended = answer false;
}
send_stored_file waits upload_waits armed (some content) has_stat name retry conn s =
    if has_stat
    then after_ul content upload_waits armed (ask waits (ul name (length content) retry) conn s)
    else record { service = s; connection = conn; is_fd_open = false; ended = answer false }
