-- ===== src/Terminal/Connection/Whole.antt =====
-- cli/src/tdpservice/connection.cpp: an exchange, in whatever pieces.
use tin_dox.Prelude.{
  ◌<◌, true, false, List, [], ◌∷◌, ◌++◌, map, ◌≡◌, refl, ap, ◌∙◌, length, if◌then◌else◌, All, Bytes,
}
use tin_dox.Terminal.Connection.{
  Connection, going, refused, ends_answer, exchange_loop, exchange_with_server, start,
}
use tin_dox.Terminal.Connection.Arrivals.{
  whole, all_of, ends_once, IsPiece, arrival, exchange_loop-arrivals,
}
use tin_dox.Terminal.Connection.Departures.{departure, exchange_loop-departures}

-- In whatever pieces the socket takes a request, over any number of events, and in whatever pieces the
-- answer arrives, none of them empty or with a byte 0 in it: where the answer ends in an empty line and
-- has none before, exchangeWithServer returns true, the whole request has gone out behind what was on
-- the wire, and the message is the answer, all of it and nothing else.
pub exchange_with_server_lem :
    (c : Connection) (early : List (List Bytes)) (last : List Bytes) (pieces : List (List Bytes))
    → c.is_connection_open ≡ true
    → 0 < length (whole last)
    → All (All IsPiece) pieces
    → ends_once (all_of pieces) ≡ true
    → exchange_with_server false
        (map departure early ++ departure last ∷ map arrival pieces)
        c
        (all_of early ++ whole last)
        0
      ≡ going (record {
        connection = record c { wire = c.wire ++ (all_of early ++ whole last) };
        message = all_of pieces;
        sent_buf_pos = length (all_of early ++ whole last);
        ready_for_reading = false;
        got_whole_response = true;
        bytes_to_read = 0;
      })
unfolding exchange_with_server
exchange_with_server_lem c early last pieces is_open h all_pieces once =
    let request = all_of early ++ whole last in
    let waits = map departure early ++ departure last ∷ map arrival pieces in
    ap
      (λ test.
        if test
        then exchange_loop false waits (going (start c request 0))
        else refused (start c request 0))
      is_open
    ∙ exchange_loop-departures false c 0 early last [] c.wire request (map arrival pieces) refl h
    ∙ exchange_loop-arrivals (record c { wire = c.wire ++ request }) (length request) [] pieces
        all_pieces once (unfold ends_answer in refl)
