-- ===== src/Protocol/Socket.antt =====
-- server/src/protocol/sender.cpp and receiver.cpp: the queue of answers, and what is read.
pub mod Order
use tin_dox.Prelude.{
  ℕ, zero, suc, ◌+◌, Bool, true, false, ◌&&◌, ◌||◌, not, List, [], ◌∷◌, ◌++◌, Option, none, some,
  take, if◌then◌else◌, ◌==◌, Bytes, codes, ok, err,
}
use tin_dox.Protocol.Error.{Outcome, fatal}
use tin_dox.Protocol.Response.{
  Response, pending, add_read_byte_count, is_fully_sent, get_remaining_byte_count,
}

-- The errors of `read(2)` and `write(2)` that the code tells apart.
pub data Errno : Type 0 where
  resource_unavailable_try_again operation_would_block : Errno
  other_errno : ℕ → Errno

abbrev pub is_retry : Errno → Bool
is_retry resource_unavailable_try_again = true
is_retry operation_would_block = true
is_retry (other_errno e) = false

-- What one call of `write(2)` answers: a count, or an error.
pub data Written : Type 0 where
  wrote : ℕ → Written
  write_failed : Errno → Written

-- `m_responses` with its front first, `m_errc` and `m_sent_byte_count`, and the bytes that have gone
-- to the socket.
pub record Sender : Type 0 where
  pub responses : List Response
  pub errc : Option Errno
  pub sent_byte_count : ℕ
  pub wire : Bytes

abbrev pub new_sender : Sender
new_sender = record { responses = []; errc = none; sent_byte_count = 0; wire = [] }

-- `m_responses.push(response)`.
abbrev pub push : {A : Type 0} → List A → A → List A
push [] r = r ∷ []
push (x ∷ xs) r = x ∷ push xs r

unfoldable pub add_response : Sender → Response → Sender
add_response s r = record s { responses = push s.responses r }

abbrev pub has_responses : Sender → Bool
has_responses s = elim s.responses [ [] ↦ false | r ∷ rs ↦ true ]

-- `pop()` once all of the front is sent.
settle_front : Response → List Response → List Response
settle_front r rs = if is_fully_sent r then rs else r ∷ rs

-- The loop of `write`, over the answers of the kernel. Where they end, the socket takes no more.
pub write : List Written → Sender → List Response → Sender
unfolding settle_front
write answers s [] = record s { responses = [] }
write [] s (r ∷ rs) = record s { responses = r ∷ rs; errc = some operation_would_block }
write (write_failed e ∷ answers) s (r ∷ rs) = record s { responses = r ∷ rs; errc = some e }
write (wrote zero ∷ answers) s (r ∷ rs) = record s { responses = r ∷ rs }
write (wrote (suc n) ∷ answers) s (r ∷ rs) =
    let count = suc n in
    let later = record s {
      sent_byte_count = s.sent_byte_count + count;
      wire = s.wire ++ take count (pending r);
    } in
    write answers later (settle_front (add_read_byte_count r count) rs)

check_sent : Sender → Option Errno → Outcome ℕ
check_sent s none = ok s.sent_byte_count
check_sent s (some e) =
    if is_retry e then ok s.sent_byte_count else err (fatal (codes "Sender::write(2)"))

unfoldable pub send : List Written → Sender → Sender × Outcome ℕ
unfolding write check_sent
send answers s =
    let after = write answers (record s { errc = none; sent_byte_count = 0 }) s.responses in
    (after, check_sent after after.errc)

-- What one call of `read(2)` answers: bytes, none at the end of the stream, or an error.
pub data Read : Type 0 where
  got : Bytes → Read
  read_failed : Errno → Read

-- `m_data` and `m_errc` behind the loop of `read`. Where the answers end, nothing has arrived yet.
unfoldable pub read : List Read → Bytes → Bytes × Option Errno
read [] content = (content, some operation_would_block)
read (read_failed e ∷ answers) content = (content, some e)
read (got [] ∷ answers) content = (content, none)
read (got (c ∷ cs) ∷ answers) content = read answers (content ++ (c ∷ cs))

check_received : Bytes → Option Errno → Outcome Bytes
check_received content (some e) =
    if is_retry e then ok content else err (fatal (codes "Receiver::read(2)"))
check_received [] none = err (fatal (codes "Receiver::read(2)"))
check_received (c ∷ cs) none = ok (c ∷ cs)

unfoldable pub receive : List Read → Outcome Bytes
unfolding read check_received
receive answers = let (content, errc) = read answers [] in check_received content errc
