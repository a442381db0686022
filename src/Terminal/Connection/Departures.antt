-- ===== src/Terminal/Connection/Departures.antt =====
-- cli/src/tdpservice/connection.cpp: how a request goes out.
use mathlib.Core.List.{append_assoc, append-nil}
use tin_dox.Prelude.{
  ℕ, suc, ◌+◌, ◌<◌, Bool, true, false, List, [], ◌∷◌, ◌++◌, some, map, ◌≡◌, refl, ap, ◌∙◌, sym,
  arith, ◌==◌, length, length-append, take, drop, take-append, drop-append, if◌then◌else◌, Bytes,
}
use tin_dox.Protocol.Socket.{wrote}
use tin_dox.Terminal.Connection.{
  Connection, Exchange, going, Sent, sent_all, sent_part, Sent, sent_all, sent_part, send_to_server,
  after_send, writable, handle_event, handle_events, Wait, exchange_loop,
}
use tin_dox.Terminal.Connection.Arrivals.{whole, all_of, receiving}

-- What `sendToServer` has come to, by what is left of the message.
abbrev pub sent_but : Bytes → ℕ → Bytes → Sent
sent_but [] pos wire = sent_all pos wire
sent_but (c ∷ cs) pos wire = sent_part pos wire

pub suc_is_not_zero : (n : ℕ) → (suc n == 0) ≡ false
suc_is_not_zero n = ground arith

sent_but-test :
    (rest : Bytes) (pos : ℕ) (wire : Bytes)
    → (if length rest == 0 then sent_all pos wire else sent_part pos wire) ≡ sent_but rest pos wire
sent_but-test [] pos wire = refl
sent_but-test (c ∷ cs) pos wire = rw (suc_is_not_zero (length cs))

-- Where nothing is left, what else `write` would take changes nothing.
sent_but-later :
    (front wire u rest : Bytes) (later : Sent)
    → later ≡ sent_but rest (length (front ++ u)) (wire ++ u)
    → (if length (u ++ rest) == 0 then sent_all (length front) wire else later)
      ≡ sent_but rest (length (front ++ u)) (wire ++ u)
sent_but-later front wire [] [] later h = rw (append-nil front, append-nil wire)
sent_but-later front wire [] (c ∷ cs) later h = rw (suc_is_not_zero (length cs)) h
sent_but-later front wire (c ∷ cs) rest later h = rw (suc_is_not_zero (length (cs ++ rest))) h

pub drop-front : (front text : Bytes) → drop (length front) (front ++ text) ≡ text
drop-front front text = drop-append (length front) 0 front text (omega arith)

pub take-front : (front text : Bytes) → take (length front) (front ++ text) ≡ front
take-front front text = take-append (length front) 0 front text (omega arith) ∙ append-nil front

send_to_server-pieces :
    (ps : List Bytes) (front rest wire message : Bytes)
    → message ≡ front ++ (whole ps ++ rest)
    → send_to_server (map (λ p. wrote (length p)) ps) message (length front) wire
      ≡ sent_but rest (length (front ++ whole ps)) (wire ++ whole ps)
unfolding send_to_server whole
send_to_server-pieces [] front rest wire message e =
    rw (ap (drop (length front)) e ∙ drop-front front rest, append-nil front, append-nil wire)
      (sent_but-test rest (length front) wire)
send_to_server-pieces (p ∷ ps) front rest wire message e =
    let left : drop (length front) message ≡ (p ++ whole ps) ++ rest =
      ap (drop (length front)) e ∙ drop-front front ((p ++ whole ps) ++ rest) in
    let taken : take (length p) ((p ++ whole ps) ++ rest) ≡ p =
      ap (take (length p)) (append_assoc p (whole ps) rest) ∙ take-front p (whole ps ++ rest) in
    let split : message ≡ (front ++ p) ++ (whole ps ++ rest) =
      e
      ∙ ap (λ t. front ++ t) (append_assoc p (whole ps) rest)
      ∙ sym (append_assoc front p (whole ps ++ rest)) in
    rw (left, taken)
      (sent_but-later front wire (p ++ whole ps) rest
        (send_to_server (map (λ q. wrote (length q)) ps) message (length front + length p)
          (wire ++ p))
        (ap (λ n. send_to_server (map (λ q. wrote (length q)) ps) message n (wire ++ p))
            (sym (length-append front p))
          ∙ send_to_server-pieces ps (front ++ p) rest (wire ++ p) message split
          ∙ ap (λ t. sent_but rest (length t) ((wire ++ p) ++ whole ps))
              (append_assoc front p (whole ps))
          ∙ ap (sent_but rest (length (front ++ (p ++ whole ps))))
              (append_assoc wire p (whole ps))))

-- One event, in which the socket takes pieces of the message.
abbrev pub departure : List Bytes → Wait
departure ps = some ((writable (map (λ p. wrote (length p)) ps), true) ∷ [])

-- An exchange that sends its request.
abbrev pub sending : Connection → ℕ → Bytes → ℕ → Bytes → Exchange
sending c bytes_to_read message pos wire = record {
  connection = record c { wire = wire };
  message = message;
  sent_buf_pos = pos;
  ready_for_reading = false;
  got_whole_response = false;
  bytes_to_read = bytes_to_read;
}

handle_events-departure :
    (downloading_file : Bool) (c : Connection) (n : ℕ) (ps : List Bytes)
    (front rest wire message : Bytes)
    → message ≡ front ++ (whole ps ++ rest)
    → handle_events downloading_file
        ((writable (map (λ p. wrote (length p)) ps), true) ∷ [])
        (going (sending c n message (length front) wire))
      ≡ after_send
          (sending c n message (length front) wire)
          (sent_but rest (length (front ++ whole ps)) (wire ++ whole ps))
unfolding handle_events handle_event
handle_events-departure downloading_file c n ps front rest wire message e =
    ap (after_send (sending c n message (length front) wire))
      (send_to_server-pieces ps front rest wire message e)

sent_but-part :
    (rest : Bytes) (pos : ℕ) (wire : Bytes)
    → 0 < length rest
    → sent_but rest pos wire ≡ sent_part pos wire
sent_but-part [] pos wire h = absurd (omega arith)
sent_but-part (c ∷ cs) pos wire h = refl

-- The events before the one that takes the rest of the message.
pub exchange_loop-departures :
    (downloading_file : Bool) (c : Connection) (n : ℕ) (early : List (List Bytes))
    (last : List Bytes) (front wire message : Bytes) (waits : List Wait)
    → message ≡ front ++ (all_of early ++ whole last)
    → 0 < length (whole last)
    → exchange_loop downloading_file
        (map departure early ++ departure last ∷ waits)
        (going (sending c n message (length front) wire))
      ≡ exchange_loop downloading_file waits (
          going (
            receiving
              (record c { wire = wire ++ (all_of early ++ whole last) })
              n
              (length message)
              []
              false))
unfolding exchange_loop all_of
exchange_loop-departures downloading_file c n [] last front wire message waits e h =
    ap (exchange_loop downloading_file waits) (
      handle_events-departure downloading_file c n last front [] wire message
        (e ∙ ap (λ t. front ++ t) (sym (append-nil (whole last)))))
    ∙ ap
        (λ k.
          exchange_loop downloading_file waits
            (going (receiving (record c { wire = wire ++ whole last }) n k [] false)))
        (ap length (sym e))
exchange_loop-departures downloading_file c n (ps ∷ early) last front wire message waits e h =
    let rest = all_of early ++ whole last in
    let same = append_assoc (whole ps) (all_of early) (whole last) in
    let split : message ≡ front ++ (whole ps ++ rest) = e ∙ ap (λ t. front ++ t) same in
    ap (exchange_loop downloading_file (map departure early ++ departure last ∷ waits)) (
      handle_events-departure downloading_file c n ps front rest wire message split
      ∙ ap (after_send (sending c n message (length front) wire)) (
          sent_but-part rest (length (front ++ whole ps)) (wire ++ whole ps)
            (omega (arith, h, length-append (all_of early) (whole last)))))
    ∙ exchange_loop-departures downloading_file c n early last (front ++ whole ps)
        (wire ++ whole ps) message waits (split ∙ sym (append_assoc front (whole ps) rest)) h
    ∙ ap
        (λ w.
          exchange_loop downloading_file waits
            (going (receiving (record c { wire = w }) n (length message) [] false)))
        (append_assoc wire (whole ps) rest ∙ ap (λ t. wire ++ t) (sym same))
