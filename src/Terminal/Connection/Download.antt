-- ===== src/Terminal/Connection/Download.antt =====
-- cli/src/tdpservice/connection.cpp: how a file comes in.
use mathlib.Core.List.{append_assoc, append-nil}
use tin_dox.Prelude.{
  ℕ, ◌+◌, ◌-◌, ◌^◌, ◌%◌, ◌≤◌, ◌<◌, true, false, List, [], ◌∷◌, ◌++◌, some, map, ◌≡◌, refl, ap, ◌∙◌,
  sym, arith, ◌==◌, ==_iff, length, length-append, take, take-all, take_while, All, Bytes,
  Bool-cases, inl, inr, if◌then◌else◌,
}
use tin_dox.Protocol.Socket.{got}
use tin_dox.Terminal.Connection.{
  Connection, Exchange, going, refused, c_string, ready, receive_all_ready, readable, start,
  after_receive, handle_event, handle_events, Wait, exchange_loop, exchange_with_server,
}
use tin_dox.Terminal.Connection.Arrivals.{whole, all_of, receiving, exchange_loop-got}
use tin_dox.Terminal.Connection.Departures.{departure, exchange_loop-departures}

-- The text that `append` makes of pieces.
abbrev pub strings : List Bytes → Bytes
strings [] = []
strings (p ∷ ps) = c_string p ++ strings ps

abbrev pub all_strings : List (List Bytes) → Bytes
all_strings [] = []
all_strings (ps ∷ more) = strings ps ++ all_strings more

-- A piece that `read` brings is not empty, and goes to the file whole.
abbrev pub IsFilled : Bytes → Type 0
IsFilled p = 0 < length p

-- One event, by which pieces arrive.
abbrev pub file_arrival : List Bytes → Wait
file_arrival ps = some ((readable (map (λ p. (got p, some (length p))) ps), true) ∷ [])

-- A connection that has written so much to its file.
abbrev pub with_file : Connection → Bytes → Connection
with_file c content = record c { file = content }

-- An exchange that has got so far.
abbrev got_so_far : Exchange → Bytes → Bytes → ℕ → Exchange
got_so_far e content message n = record e {
  connection = with_file e.connection content;
  message = message;
  bytes_to_read = n;
}

counted_down : (n k : ℕ) → n < 2 ^ 64 → k ≤ n → (n + (2 ^ 64 - k)) % 2 ^ 64 ≡ n - k
counted_down n k h l = ground arith

equal_lengths : (n : ℕ) → (n == n) ≡ true
equal_lengths n = ground arith

receive_all_ready-file :
    (ps : List Bytes) (e : Exchange) (n : ℕ)
    → All IsFilled ps
    → e.bytes_to_read < 2 ^ 64
    → e.bytes_to_read ≡ length (whole ps) + n
    → receive_all_ready true (map (λ p. (got p, some (length p))) ps) e
      ≡ ready true (got_so_far e (e.connection.file ++ whole ps) (e.message ++ strings ps) n)
unfolding receive_all_ready whole
receive_all_ready-file [] e n h small all_of_it =
    let count : e.bytes_to_read ≡ n = omega arith in
    λ i.
      ready true (
        got_so_far e (sym (append-nil e.connection.file) i) (sym (append-nil e.message) i)
          (count i))
receive_all_ready-file ([] ∷ ps) e n (h, hs) small all_of_it = absurd (omega arith)
receive_all_ready-file ((c ∷ cs) ∷ ps) e n (h, hs) small all_of_it =
    let p = c ∷ cs in
    let more : e.bytes_to_read ≡ length p + (length (whole ps) + n) =
      omega (arith, length-append cs (whole ps)) in
    let left : (e.bytes_to_read + (2 ^ 64 - length p)) % 2 ^ 64 ≡ length (whole ps) + n =
      counted_down e.bytes_to_read (length p) small (omega arith) ∙ omega arith in
    let stored_one : take (length p) p ≡ p = take-all (length p) p refl in
    rw (equal_lengths (length p)) (
      (λ i.
        receive_all_ready true (map (λ q. (got q, some (length q))) ps)
          (got_so_far e (e.connection.file ++ stored_one i) (e.message ++ c_string p) (left i)))
      ∙ receive_all_ready-file ps
          (got_so_far e (e.connection.file ++ p) (e.message ++ c_string p) (length (whole ps) + n))
          n hs (omega arith) refl
      ∙ (λ i. ready true (
          got_so_far e (append_assoc e.connection.file p (whole ps) i)
            (append_assoc e.message (c_string p) (strings ps) i) n)))

handle_events-file :
    (c : Connection) (m n pos : ℕ) (front content : Bytes) (ps : List Bytes)
    → All IsFilled ps
    → m < 2 ^ 64
    → m ≡ length (whole ps) + n
    → handle_events true
        ((readable (map (λ p. (got p, some (length p))) ps), true) ∷ [])
        (going (receiving (with_file c content) m pos front false))
      ≡ going (receiving (with_file c (content ++ whole ps)) n pos (front ++ strings ps) (n == 0))
unfolding handle_events handle_event
handle_events-file c m n pos front content ps h small e =
    ap after_receive
      (receive_all_ready-file ps (receiving (with_file c content) m pos front false) n h small e)

nil_of_length : (text : Bytes) → length text ≡ 0 → text ≡ []
nil_of_length [] h = refl
nil_of_length (c ∷ cs) h = absurd (omega arith)

strings_of_nothing : (ps : List Bytes) → length (whole ps) ≡ 0 → strings ps ≡ []
unfolding whole take_while
strings_of_nothing [] h = refl
strings_of_nothing ([] ∷ ps) h = strings_of_nothing ps h
strings_of_nothing ((c ∷ cs) ∷ ps) h = absurd (omega arith)

all_strings_of_nothing :
    (pieces : List (List Bytes)) → length (all_of pieces) ≡ 0 → all_strings pieces ≡ []
unfolding all_of
all_strings_of_nothing [] h = refl
all_strings_of_nothing (ps ∷ more) h =
    rw (strings_of_nothing ps (omega (arith, length-append (whole ps) (all_of more))))
      (all_strings_of_nothing more (omega (arith, length-append (whole ps) (all_of more))))

pub exchange_loop-file :
    (c : Connection) (m pos : ℕ) (front content : Bytes) (pieces : List (List Bytes))
    → All (All IsFilled) pieces
    → 0 < m
    → m < 2 ^ 64
    → m ≡ length (all_of pieces)
    → exchange_loop true
        (map file_arrival pieces)
        (going (receiving (with_file c content) m pos front false))
      ≡ going (
          receiving
            (with_file c (content ++ all_of pieces))
            0
            pos
            (front ++ all_strings pieces)
            true)
unfolding all_of exchange_loop
exchange_loop-file c m pos front content [] h some_bytes small e = absurd (omega arith)
exchange_loop-file c m pos front content (ps ∷ more) (h, hs) some_bytes small e =
    let n = length (all_of more) in
    let both = length-append (whole ps) (all_of more) in
    let now = with_file c (content ++ whole ps) in
    let text = front ++ strings ps in
    ap (exchange_loop true (map file_arrival more))
      (handle_events-file c m n pos front content ps h small (e ∙ both))
    ∙ elim (Bool-cases (n == 0)) [
      | inl done ↦
          let nothing : n ≡ 0 = (==_iff n 0).0 done in
          let no_more = nil_of_length (all_of more) nothing in
          let no_text = all_strings_of_nothing more nothing in
          ap (λ g. exchange_loop true (map file_arrival more) (going (receiving now n pos text g)))
            done
          ∙ exchange_loop-got true now n pos text (map file_arrival more)
          ∙ (λ i. going (
              receiving
                (with_file c (
                  content
                  ++ (sym (append-nil (whole ps)) ∙ ap (λ t. whole ps ++ t) (sym no_more)) i))
                (nothing i) pos
                (front
                  ++ (sym (append-nil (strings ps)) ∙ ap (λ t. strings ps ++ t) (sym no_text)) i)
                true))
      | inr later ↦
          ap (λ g. exchange_loop true (map file_arrival more) (going (receiving now n pos text g)))
            later
          ∙ exchange_loop-file c n pos text (content ++ whole ps) more hs (ground arith)
              (omega (arith, both)) refl
          ∙ (λ i. going (
              receiving (with_file c (append_assoc content (whole ps) (all_of more) i)) 0 pos
                (append_assoc front (strings ps) (all_strings more) i) true))
    ]

-- A request, in whatever pieces, and a file behind it.
pub exchange_with_server-file :
    (c : Connection) (early : List (List Bytes)) (last : List Bytes) (pieces : List (List Bytes))
    → c.is_connection_open ≡ true
    → 0 < length (whole last)
    → All (All IsFilled) pieces
    → 0 < length (all_of pieces)
    → length (all_of pieces) < 2 ^ 64
    → exchange_with_server true
        (map departure early ++ departure last ∷ map file_arrival pieces)
        c
        (all_of early ++ whole last)
        (length (all_of pieces))
      ≡ going (
          receiving
            (record c {
              wire = c.wire ++ (all_of early ++ whole last);
              file = c.file ++ all_of pieces;
            })
            0
            (length (all_of early ++ whole last))
            (all_strings pieces)
            true)
unfolding exchange_with_server
exchange_with_server-file c early last pieces is_open h filled some_bytes small =
    let request = all_of early ++ whole last in
    let n = length (all_of pieces) in
    let waits = map departure early ++ departure last ∷ map file_arrival pieces in
    ap
      (λ test.
        if test
        then exchange_loop true waits (going (start c request n))
        else refused (start c request n))
      is_open
    ∙ exchange_loop-departures true c n early last [] c.wire request (map file_arrival pieces) refl
        h
    ∙ exchange_loop-file (record c { wire = c.wire ++ request }) n (length request) [] c.file pieces
        filled some_bytes small refl
