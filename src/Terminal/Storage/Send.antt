-- ===== src/Terminal/Storage/Send.antt =====
-- cli/src/tdpservice: a file that the client sends.
use tin_dox.Prelude.{
  ◌^◌, ◌<◌, Bool, true, false, List, [], ◌∷◌, ◌++◌, some, map, ◌≡◌, refl, ap, ◌∙◌, sym, arith,
  length, length-append, All, Bytes, codes,
}
use mathlib.Core.List.{append_assoc}
use tin_dox.Prelude.Decimal.{to_decimal}
use tin_dox.Protocol.Error.{ProtocolCode}
use tin_dox.Protocol.Response.{new_builder, add_line, get_response}
use tin_dox.Terminal.Connection.{Connection}
use tin_dox.Terminal.Connection.Arrivals.{whole, all_of, IsPiece, arrival}
use tin_dox.Terminal.Connection.Departures.{departure}
use tin_dox.Terminal.Service.{TdpService, ul, arguments, is_refused, request_text}
use tin_dox.Terminal.Transfer.{UploadEvent, upload_file}
use tin_dox.Terminal.Transfer.Whole.{taken, upload_file_lem}
use tin_dox.Terminal.Storage.Numbers.{stol-to_decimal}
use tin_dox.Terminal.Storage.{
  Stored, asked, ask, answer, stol, after_ul, upload, after_upload, send_stored_file,
}
use tin_dox.Terminal.Storage.Asking.{granted, ask_lem}

-- ul of a file below 2 ^ 63 bytes, over a connection that is open, where the file can be opened: the
-- request goes out in any pieces, and the answer of the server, with the size of what it has of the
-- file, comes in any pieces that are not empty and hold no byte 0; then the socket takes the rest in any
-- pieces without an error, and is armed again. It returns true and has closed the file; the connection is
-- open, and has sent the request and the rest of the file behind it, all of it and nothing else.
pub send_stored_file_lem :
    (conn : Connection) (s : TdpService) (name front : Bytes) (retry : Bool)
    (early : List (List Bytes)) (last : List Bytes) (pieces : List (List Bytes)) (ps : List Bytes)
    → conn.is_connection_open ≡ true
    → is_refused (arguments (ul name (length (front ++ whole ps)) retry)) ≡ false
    → request_text (arguments (ul name (length (front ++ whole ps)) retry))
      ≡ all_of early ++ whole last
    → 0 < length (whole last)
    → All (All IsPiece) pieces
    → all_of pieces
      ≡ (get_response
          (add_line (new_builder ProtocolCode.ok (codes "ul")) (to_decimal (length front)))).content
    → length (front ++ whole ps) < 2 ^ 63
    → let t =
        send_stored_file
          (map departure early ++ departure last ∷ map arrival pieces)
          (some (UploadEvent.writable (taken ps) ∷ []) ∷ [])
          true
          (some (front ++ whole ps))
          true
          name
          retry
          conn
          s in
      (t.ended ≡ answer true)
      × (t.is_fd_open ≡ false)
      × (t.connection ≡ record conn {
        wire =
            conn.wire
            ++ (request_text (arguments (ul name (length (front ++ whole ps)) retry)) ++ whole ps);
      })
unfolding send_stored_file arguments
send_stored_file_lem conn s name front retry early last pieces ps is_open short e h answers f
      small =
    let content = front ++ whole ps in
    let c = ul name (length content) retry in
    let there = record conn { wire = conn.wire ++ request_text (arguments c) } in
    let waits = map departure early ++ departure last ∷ map arrival pieces in
    let upload_waits = some (UploadEvent.writable (taken ps) ∷ []) ∷ [] in
    let n = length front in
    let g = granted c s n in
    let fits : n < 2 ^ 63 = omega (arith, length-append front (whole ps)) in
    let e1 : ask waits c conn s ≡ asked there (g, true) =
      ask_lem conn early last pieces c s n is_open e h answers f short refl in
    let e2 : stol g.response_body ≡ some n =
      ap stol (append_assoc (to_decimal n) (b'\n' ∷ []) (b'\n' ∷ []))
      ∙ stol-to_decimal n (b'\n' ∷ []) fits in
    let all =
      ap (after_ul content upload_waits true) e1
      ∙ ap (upload content upload_waits true there g) e2
      ∙ ap
          (λ b.
            after_upload there g
              (upload_file content upload_waits true b there.wire n (length content)))
          is_open
      ∙ ap (after_upload there g) (upload_file_lem front ps there.wire (omega arith)) in
    (
      ap (λ (t : Stored). t.ended) all,
      ap (λ (t : Stored). t.is_fd_open) all,
      ap (λ (t : Stored). t.connection) all ∙ (λ i. record conn {
        is_connection_open = sym is_open i;
        wire = append_assoc conn.wire (request_text (arguments c)) (whole ps) i;
      }),
    )
