-- ===== src/Terminal/Connection.antt =====
-- cli/src/tdpservice/connection.cpp: how the terminal client exchanges a request for an answer, over
-- what epoll_wait(2), read(2) and write(2) answer.
pub mod Arrivals
pub mod Departures
pub mod Download
pub mod Whole
use tin_dox.Prelude.{
  ℕ, ◌+◌, ◌-◌, ◌^◌, ◌%◌, Bool, true, false, not, ◌&&◌, List, [], ◌∷◌, ◌++◌, Option, none, some,
  ◌==◌, length, take, drop, take_while, if◌then◌else◌, Bytes,
}
use tin_dox.Protocol.Socket.{Errno, Written, wrote, write_failed, Read, got, read_failed, is_retry}

-- `Connection`, with what has gone to its socket, and the file that a download goes to.
pub record Connection : Type 0 where
  pub is_connection_open : Bool
  pub wire : Bytes
  pub file : Bytes

-- The variables of `exchangeWithServer`.
pub record Exchange : Type 0 where
  pub connection : Connection
  pub message : Bytes
  pub sent_buf_pos : ℕ
  pub ready_for_reading : Bool
  pub got_whole_response : Bool
  pub bytes_to_read : ℕ

-- It goes on, returns false, or throws.
pub data Progress : Type 0 where
  going refused failed : Exchange → Progress

abbrev pub close_connection : Exchange → Exchange
close_connection e = record e { connection = record e.connection { is_connection_open = false } }

abbrev pub start : Connection → Bytes → ℕ → Exchange
start connection message bytes_to_read = record {
  connection = connection;
  message = message;
  sent_buf_pos = 0;
  ready_for_reading = false;
  got_whole_response = false;
  bytes_to_read = bytes_to_read;
}

-- The message has gone out, or the socket takes no more, or `write` has failed; with the position and
-- what is on the wire.
pub data Sent : Type 0 where
  sent_all sent_part send_failed : ℕ → Bytes → Sent

-- The loop of `sendToServer`, over the answers of `write`. Where they end, the socket takes no more. It
-- is called while the socket is armed for writing, before the message has gone out, so that `len` does
-- not wrap.
unfoldable pub send_to_server : List Written → Bytes → ℕ → Bytes → Sent
send_to_server [] message pos wire =
    if length (drop pos message) == 0 then sent_all pos wire else sent_part pos wire
send_to_server (write_failed e ∷ answers) message pos wire =
    if length (drop pos message) == 0
    then sent_all pos wire
    else if is_retry e
    then sent_part pos wire
    else send_failed pos wire
send_to_server (wrote n ∷ answers) message pos wire =
    let later = send_to_server answers message (pos + n) (wire ++ take n (drop pos message)) in
    if length (drop pos message) == 0 then sent_all pos wire else later

abbrev pub after_send : Exchange → Sent → Progress
after_send e (sent_all pos wire) = going (record e {
  connection = record e.connection { wire = wire };
  message = [];
  sent_buf_pos = pos;
  ready_for_reading = true;
})
after_send e (sent_part pos wire) =
    going (record e { connection = record e.connection { wire = wire }; sent_buf_pos = pos })
after_send e (send_failed pos wire) =
    failed (record e { connection = record e.connection { wire = wire }; sent_buf_pos = pos })

-- `message.ends_with("\n\n")`.
unfoldable pub ends_answer : Bytes → Bool
ends_answer [] = false
ends_answer (a ∷ []) = false
ends_answer (a ∷ b ∷ []) = a == b'\n' && b == b'\n'
ends_answer (a ∷ b ∷ c ∷ cs) = ends_answer (b ∷ c ∷ cs)

-- `message.append(buf)` takes the buffer for a C string.
abbrev pub c_string : Bytes → Bytes
c_string buf = take_while (λ c. not (c == 0)) buf

abbrev pub append : Exchange → Bytes → Exchange
append e buf = record e { message = e.message ++ c_string buf }

-- A piece of a file: `size_t` wraps, and `write` to the file answers how much it took, or none.
abbrev pub stored : Option ℕ → Bytes → Bytes
stored none buf = []
stored (some n) buf = take n buf

abbrev pub is_stored : Option ℕ → Bytes → Bool
is_stored none buf = false
is_stored (some n) buf = n == length buf

abbrev pub store : Exchange → Option ℕ → Bytes → Exchange
store e n buf = record e {
  connection = record e.connection { file = e.connection.file ++ stored n buf };
  bytes_to_read = (e.bytes_to_read + (2 ^ 64 - length buf)) % 2 ^ 64;
}

-- What `got_whole_response` becomes where nothing more is ready, by whether a file is read.
abbrev pub ready : Bool → Exchange → Progress
ready true e = going (record e { got_whole_response = e.bytes_to_read == 0 })
ready false e = going (record e { got_whole_response = ends_answer e.message })

-- The loop of `receiveAllReadyFromServer`, over the answers of `read` and of `write` to the file.
-- Where they end, nothing more has arrived.
unfoldable pub receive_all_ready : Bool → List (Read × Option ℕ) → Exchange → Progress
receive_all_ready read_file [] e = ready read_file e
receive_all_ready read_file ((read_failed errno, _) ∷ answers) e =
    if is_retry errno then ready read_file e else failed (close_connection e)
receive_all_ready read_file ((got [], _) ∷ answers) e = refused (close_connection e)
receive_all_ready false ((got (c ∷ cs), _) ∷ answers) e =
    receive_all_ready false answers (append e (c ∷ cs))
receive_all_ready true ((got (c ∷ cs), n) ∷ answers) e =
    let later = receive_all_ready true answers (append (store e n (c ∷ cs)) (c ∷ cs)) in
    if is_stored n (c ∷ cs) then later else refused (store e n (c ∷ cs))

-- An event of the socket, by its flags, or of another descriptor.
pub data SocketEvent : Type 0 where
  writable : List Written → SocketEvent
  readable : List (Read × Option ℕ) → SocketEvent
  neither foreign : SocketEvent

abbrev pub after_receive : Progress → Progress
after_receive (going e) = going (record e { ready_for_reading = not e.got_whole_response })
after_receive p = p

-- `changeEpollEvents`, by whether epoll_ctl(2) succeeds.
abbrev pub change_epoll_events : Bool → Progress → Progress
change_epoll_events true p = p
change_epoll_events false (going e) = failed (close_connection e)
change_epoll_events false p = p

-- What one event of `epoll_wait` does.
unfoldable pub handle_event : Bool → SocketEvent → Exchange → Progress
unfolding send_to_server receive_all_ready
handle_event downloading_file (writable answers) e =
    after_send e (send_to_server answers e.message e.sent_buf_pos e.connection.wire)
handle_event downloading_file (readable answers) e =
    after_receive (receive_all_ready downloading_file answers e)
handle_event downloading_file neither e = going e
handle_event downloading_file foreign e = failed (close_connection e)

-- The events of one `epoll_wait`, each with whether the socket is armed again behind it.
unfoldable pub handle_events : Bool → List (SocketEvent × Bool) → Progress → Progress
unfolding handle_event
handle_events downloading_file [] p = p
handle_events downloading_file ((event, armed) ∷ events) (going e) =
    handle_events downloading_file events
      (change_epoll_events armed (handle_event downloading_file event e))
handle_events downloading_file (event ∷ events) p = p

-- What `epoll_wait` answers: none where it fails.
abbrev pub Wait : Type 0
Wait = Option (List (SocketEvent × Bool))

-- The loop, as long as `epoll_wait` answers: what still goes on with a whole response has returned
-- true.
unfoldable pub exchange_loop : Bool → List Wait → Progress → Progress
unfolding handle_events
exchange_loop downloading_file [] p = p
exchange_loop downloading_file (wait ∷ waits) (going e) =
    let now : Progress = elim wait [
      | none ↦ failed (close_connection e)
      | some events ↦ handle_events downloading_file events (going e)
    ] in
    let later = exchange_loop downloading_file waits now in
    if e.got_whole_response then going e else later
exchange_loop downloading_file (wait ∷ waits) p = p

unfoldable pub exchange_with_server : Bool → List Wait → Connection → Bytes → ℕ → Progress
unfolding exchange_loop
exchange_with_server downloading_file waits c message bytes_to_read =
    let e = start c message bytes_to_read in
    if c.is_connection_open then exchange_loop downloading_file waits (going e) else refused e
