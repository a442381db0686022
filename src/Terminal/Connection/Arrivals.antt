-- ===== src/Terminal/Connection/Arrivals.antt =====
-- cli/src/tdpservice/connection.cpp: how an answer comes in.
use mathlib.Core.List.{append_assoc, append-nil}
use tin_dox.Prelude.{
  ℕ, ◌<◌, Bool, true, false, not, ◌&&◌, List, [], ◌∷◌, ◌++◌, none, some, map, ◌≡◌, refl, ap, ◌∙◌,
  sym, arith, ◌==◌, length, take_while, all, All, Bytes,
}
use tin_dox.Protocol.Socket.{got}
use tin_dox.Terminal.Connection.{
  Connection, Exchange, going, ends_answer, c_string, append, ready, receive_all_ready, readable,
  after_receive, handle_event, handle_events, Wait, exchange_loop,
}

-- What pieces make together.
unfoldable pub whole : List Bytes → Bytes
whole [] = []
whole (p ∷ ps) = p ++ whole ps

unfoldable pub all_of : List (List Bytes) → Bytes
unfolding whole
all_of [] = []
all_of (ps ∷ more) = whole ps ++ all_of more

-- The empty line of an answer stands at its end, and nowhere before.
unfoldable pub ends_once : Bytes → Bool
ends_once [] = false
ends_once (a ∷ []) = false
ends_once (a ∷ b ∷ []) = a == b'\n' && b == b'\n'
ends_once (a ∷ b ∷ c ∷ cs) = not (a == b'\n' && b == b'\n') && ends_once (b ∷ c ∷ cs)

ends_answer-ends_once : (text : Bytes) → ends_once text ≡ true → ends_answer text ≡ true
unfolding ends_once ends_answer
ends_answer-ends_once [] h = absurd (ground arith)
ends_answer-ends_once (a ∷ []) h = absurd (ground arith)
ends_answer-ends_once (a ∷ b ∷ []) h = h
ends_answer-ends_once (a ∷ b ∷ c ∷ cs) h = ends_answer-ends_once (b ∷ c ∷ cs) (ground arith)

ends_once-front :
    (front back : Bytes) → ends_once (front ++ back) ≡ true → ends_answer front ≡ true → back ≡ []
unfolding ends_once ends_answer
ends_once-front [] back h k = absurd (ground arith)
ends_once-front (a ∷ []) back h k = absurd (ground arith)
ends_once-front (a ∷ b ∷ []) [] h k = refl
ends_once-front (a ∷ b ∷ []) (c ∷ cs) h k = absurd (ground arith)
ends_once-front (a ∷ b ∷ c ∷ cs) back h k = ends_once-front (b ∷ c ∷ cs) back (ground arith) k

-- A piece that `read` brings: not empty, and without a byte 0.
abbrev pub is_solid : ℕ → Bool
is_solid c = not (c == 0)

pub record IsPiece (p : Bytes) : Type 0 where
  pub filled : 0 < length p
  pub solid : all is_solid p ≡ true

c_string-solid : (p : Bytes) → all is_solid p ≡ true → c_string p ≡ p
unfolding take_while
c_string-solid [] h = refl
c_string-solid (c ∷ cs) h = ground (arith, c_string-solid cs)

abbrev pub received : List Bytes → Exchange → Exchange
received ps e = record e { message = e.message ++ whole ps }

receive_all_ready-pieces :
    (ps : List Bytes) (e : Exchange)
    → All IsPiece ps
    → receive_all_ready false (map (λ p. (got p, none)) ps) e ≡ ready false (received ps e)
unfolding receive_all_ready whole
receive_all_ready-pieces [] e h =
    ap (λ m. ready false (record e { message = m })) (sym (append-nil e.message))
receive_all_ready-pieces ([] ∷ ps) e (h, hs) = absurd (omega (arith, h.filled))
receive_all_ready-pieces ((c ∷ cs) ∷ ps) e (h, hs) =
    receive_all_ready-pieces ps (append e (c ∷ cs)) hs
    ∙ ap (λ m. ready false (record e { message = m }))
        (ap (λ t. (e.message ++ t) ++ whole ps) (c_string-solid (c ∷ cs) h.solid)
          ∙ append_assoc e.message (c ∷ cs) (whole ps))

-- One event, by which pieces arrive.
abbrev pub arrival : List Bytes → Wait
arrival ps = some ((readable (map (λ p. (got p, none)) ps), true) ∷ [])

-- An exchange that has sent its request and reads.
abbrev pub receiving : Connection → ℕ → ℕ → Bytes → Bool → Exchange
receiving c bytes_to_read pos message got_whole_response = record {
  connection = c;
  message = message;
  sent_buf_pos = pos;
  ready_for_reading = not got_whole_response;
  got_whole_response = got_whole_response;
  bytes_to_read = bytes_to_read;
}

handle_events-arrival :
    (c : Connection) (pos : ℕ) (front : Bytes) (ps : List Bytes)
    → All IsPiece ps
    → handle_events false
        ((readable (map (λ p. (got p, none)) ps), true) ∷ [])
        (going (receiving c 0 pos front false))
      ≡ going (receiving c 0 pos (front ++ whole ps) (ends_answer (front ++ whole ps)))
unfolding handle_events handle_event
handle_events-arrival c pos front ps h =
    ap after_receive (receive_all_ready-pieces ps (receiving c 0 pos front false) h)

-- A response that is there ends the loop.
pub exchange_loop-got :
    (downloading_file : Bool) (c : Connection) (n pos : ℕ) (answer : Bytes) (waits : List Wait)
    → exchange_loop downloading_file waits (going (receiving c n pos answer true))
      ≡ going (receiving c n pos answer true)
unfolding exchange_loop
exchange_loop-got downloading_file c n pos answer [] = refl
exchange_loop-got downloading_file c n pos answer (wait ∷ waits) = refl

pub exchange_loop-arrivals :
    (c : Connection) (pos : ℕ) (front : Bytes) (pieces : List (List Bytes))
    → All (All IsPiece) pieces
    → ends_once (front ++ all_of pieces) ≡ true
    → ends_answer front ≡ false
    → exchange_loop false (map arrival pieces) (going (receiving c 0 pos front false))
      ≡ going (receiving c 0 pos (front ++ all_of pieces) true)
unfolding all_of exchange_loop
exchange_loop-arrivals c pos front [] h once k =
    absurd
      (ground (arith, ends_answer-ends_once front (ap ends_once (sym (append-nil front)) ∙ once)))
exchange_loop-arrivals c pos front (ps ∷ more) (h, hs) once k =
    ap (exchange_loop false (map arrival more)) (handle_events-arrival c pos front ps h)
    ∙ go (exchange_loop-arrivals c pos (front ++ whole ps) more hs)
        (ends_answer (front ++ whole ps)) refl
  where
    go :
        (ends_once ((front ++ whole ps) ++ all_of more) ≡ true
          → ends_answer (front ++ whole ps) ≡ false
          → exchange_loop false
              (map arrival more)
              (going (receiving c 0 pos (front ++ whole ps) false))
            ≡ going (receiving c 0 pos ((front ++ whole ps) ++ all_of more) true))
        → (test : Bool) → ends_answer (front ++ whole ps) ≡ test
        → exchange_loop false
            (map arrival more)
            (going (receiving c 0 pos (front ++ whole ps) (ends_answer (front ++ whole ps))))
          ≡ going (receiving c 0 pos (front ++ (whole ps ++ all_of more)) true)
    go later true e =
        let text = front ++ whole ps in
        let same = append_assoc front (whole ps) (all_of more) in
        let done = ends_once-front text (all_of more) (ap ends_once same ∙ once) e in
        ap (λ g. exchange_loop false (map arrival more) (going (receiving c 0 pos text g))) e
        ∙ exchange_loop-got false c 0 pos text (map arrival more)
        ∙ ap (λ m. going (receiving c 0 pos m true))
            (sym (append-nil text) ∙ ap (λ t. text ++ t) (sym done) ∙ same)
    go later false e =
        let text = front ++ whole ps in
        let same = append_assoc front (whole ps) (all_of more) in
        ap (λ g. exchange_loop false (map arrival more) (going (receiving c 0 pos text g))) e
        ∙ later (ap ends_once same ∙ once) e
        ∙ ap (λ m. going (receiving c 0 pos m true)) same
