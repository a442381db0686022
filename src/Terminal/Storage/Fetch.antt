-- ===== src/Terminal/Storage/Fetch.antt =====
-- cli/src/tdpservice: a file that the client fetches.
use tin_dox.Prelude.{
  ℕ, ◌^◌, ◌<◌, Bool, true, false, List, [], ◌∷◌, ◌++◌, some, map, ◌≡◌, refl, ap, ◌∙◌, sym, length,
  All, Bytes, codes, if◌then◌else◌,
}
use mathlib.Core.List.{append_assoc}
use tin_dox.Prelude.Decimal.{to_decimal}
use tin_dox.Protocol.Error.{ProtocolCode}
use tin_dox.Protocol.Response.{new_builder, add_line, get_response}
use tin_dox.Terminal.Analyzer.{no_error}
use tin_dox.Terminal.Connection.{Connection, exchange_with_server}
use tin_dox.Terminal.Connection.Arrivals.{whole, all_of, IsPiece, arrival}
use tin_dox.Terminal.Connection.Departures.{departure}
use tin_dox.Terminal.Connection.Download.{
  IsFilled, file_arrival, all_strings, exchange_with_server-file,
}
use tin_dox.Terminal.Service.{TdpService, Call, dl, arguments, is_refused, request_text}
use tin_dox.Terminal.Storage.Numbers.{stoul-to_decimal}
use tin_dox.Terminal.Storage.{
  Stored, asked, ask, after_dl, after_data, download, fetch_file, download_file_data, answer, stoul,
}
use tin_dox.Terminal.Storage.Asking.{granted, ask_lem}

dl-name :
    (name : Bytes) (size : ℕ) (retry : Bool)
    → (arguments (dl name size retry)).command_name ≡ codes "dl"
unfolding arguments
dl-name name size true = refl
dl-name name size false = refl

-- Where the data has come.
abbrev fetched : Connection → TdpService → Bytes → Bytes → Bytes → Stored
fetched conn s request bytes text = record {
  service = record s {
    error_code = no_error;
    last_sent_command = codes "dls\n\n";
    received_response = text;
  };
  connection = record conn { wire = conn.wire ++ request; file = conn.file ++ bytes };
  is_fd_open = false;
  ended = answer true;
}

download_file_data_lem :
    (conn : Connection) (s : TdpService) (early : List (List Bytes)) (last : List Bytes)
    (file_pieces : List (List Bytes))
    → conn.is_connection_open ≡ true
    → codes "dls\n\n" ≡ all_of early ++ whole last
    → 0 < length (whole last)
    → All (All IsFilled) file_pieces
    → 0 < length (all_of file_pieces)
    → length (all_of file_pieces) < 2 ^ 64
    → download_file_data
        (map departure early ++ departure last ∷ map file_arrival file_pieces)
        conn
        s
        (length (all_of file_pieces))
      ≡ fetched conn s (all_of early ++ whole last) (all_of file_pieces) (all_strings file_pieces)
unfolding download_file_data
download_file_data_lem conn s early last file_pieces is_open e h filled some_bytes small =
    let waits = map departure early ++ departure last ∷ map file_arrival file_pieces in
    ap
      (after_data (record s {
        error_code = no_error;
        last_sent_command = codes "dls\n\n";
        received_response = codes "dls\n\n";
      }))
      (ap (λ t. exchange_with_server true waits conn t (length (all_of file_pieces))) e
        ∙ exchange_with_server-file conn early last file_pieces is_open h filled some_bytes small)

-- What `dl` keeps of the file, and its command.
abbrev pub kept : Bool → Bytes → Bytes
kept retry old = if retry then old else []

abbrev pub dl_of : Bytes → Bool → Bytes → Call
dl_of name retry old = dl name (length (kept retry old)) retry

-- dl, over a connection that is open, where the local file can be opened: the request goes out in any
-- pieces, and so does the one for the data; the answer of the server, with a size, comes in any pieces
-- that are not empty and hold no byte 0, and then so many bytes, more than none and fewer than 2 ^ 64,
-- of any kind and in any pieces that are not empty, each of which the disk takes. It returns true and
-- has closed the file, which is what dl has kept of it, all for a retry and else nothing, with exactly
-- those bytes behind; the connection is open and has sent both requests and nothing else.
pub fetch_file_lem :
    (conn : Connection) (s : TdpService) (name old : Bytes) (retry : Bool)
    (early : List (List Bytes)) (last : List Bytes) (pieces : List (List Bytes))
    (data_early : List (List Bytes)) (data_last : List Bytes) (file_pieces : List (List Bytes))
    → conn.is_connection_open ≡ true
    → is_refused (arguments (dl_of name retry old)) ≡ false
    → request_text (arguments (dl_of name retry old)) ≡ all_of early ++ whole last
    → 0 < length (whole last)
    → All (All IsPiece) pieces
    → all_of pieces
      ≡ (get_response (
          add_line
            (new_builder ProtocolCode.ok (codes "dl"))
            (to_decimal (length (all_of file_pieces))))).content
    → codes "dls\n\n" ≡ all_of data_early ++ whole data_last
    → 0 < length (whole data_last)
    → All (All IsFilled) file_pieces
    → 0 < length (all_of file_pieces)
    → length (all_of file_pieces) < 2 ^ 64
    → let t =
        fetch_file
          (map departure early ++ departure last ∷ map arrival pieces)
          (map departure data_early ++ departure data_last ∷ map file_arrival file_pieces)
          (some old)
          true
          name
          retry
          conn
          s in
      (t.ended ≡ answer true)
      × (t.is_fd_open ≡ false)
      × (t.connection ≡ record conn {
        wire = conn.wire ++ (request_text (arguments (dl_of name retry old)) ++ codes "dls\n\n");
        file = kept retry old ++ all_of file_pieces;
      })
unfolding fetch_file
fetch_file_lem conn s name old retry early last pieces data_early data_last file_pieces is_open
      short e h ps f data_e data_h filled some_bytes small =
    let content = kept retry old in
    let c = dl_of name retry old in
    let bytes = all_of file_pieces in
    let here = record conn { file = content } in
    let there = record here { wire = conn.wire ++ request_text (arguments c) } in
    let data_waits =
      map departure data_early ++ departure data_last ∷ map file_arrival file_pieces in
    let g = granted c s (length bytes) in
    let command : (arguments c).command_name ≡ codes "dl" = dl-name name (length content) retry in
    let e1 : ask (map departure early ++ departure last ∷ map arrival pieces) c here s
        ≡ asked there (g, true) =
      ask_lem here early last pieces c s (length bytes) is_open e h ps
        (f
          ∙ ap
              (λ t.
                (get_response
                  (add_line (new_builder ProtocolCode.ok t) (to_decimal (length bytes)))).content)
              (sym command))
        short refl in
    let e2 : stoul g.response_body ≡ some (length bytes) =
      ap stoul (append_assoc (to_decimal (length bytes)) (b'\n' ∷ []) (b'\n' ∷ []))
      ∙ stoul-to_decimal (length bytes) (b'\n' ∷ []) small in
    let e3 : download_file_data data_waits there g (length bytes)
        ≡ fetched there g (all_of data_early ++ whole data_last) bytes (all_strings file_pieces) =
      download_file_data_lem there g data_early data_last file_pieces is_open data_e data_h filled
        some_bytes small in
    let all : after_dl data_waits
          (ask (map departure early ++ departure last ∷ map arrival pieces) c here s)
        ≡ fetched there g (all_of data_early ++ whole data_last) bytes (all_strings file_pieces) =
      ap (after_dl data_waits) e1 ∙ ap (download data_waits there g) e2 ∙ e3 in
    (
      ap (λ (t : Stored). t.ended) all,
      ap (λ (t : Stored). t.is_fd_open) all,
      ap (λ (t : Stored). t.connection) all
          ∙ ap (λ w. record conn { wire = w; file = content ++ bytes })
              (append_assoc conn.wire (request_text (arguments c))
                  (all_of data_early ++ whole data_last)
                ∙ ap (λ t. conn.wire ++ (request_text (arguments c) ++ t)) (sym data_e)),
    )
