-- ===== src/Service/Main.antt =====
-- server.cpp with tcp_listener.cpp, signal_device.cpp and epoll_device.cpp: a server from its
-- configuration to its end, over what the kernel answers.
pub mod Closes
pub mod Ends
use tin_dox.Prelude.{
  ℕ, List, [], ◌∷◌, Bool, true, false, Result, ok, err, ◌>>=◌, ◌>>◌, if◌then◌else◌, Option, none,
  some, leb,
}
use tin_dox.Config.{ServerConfig}
use tin_dox.System.{System}
use tin_dox.Session.Client.Events.{EventType, Answers}
use tin_dox.Session.Unique.{contains}
use tin_dox.Service.Pool
use tin_dox.Service.Pool.{Supervisor, close_all}
use tin_dox.Service.Server.{handle_connection, serve_event}

-- The exceptions, by what their handlers tell apart.
pub data Thrown : Type 0 where
  system_error runtime_error logic_error : Thrown

-- `throw LinuxError` where a call of the kernel fails.
abbrev pub check : Bool → Result Thrown (Unit {0})
check true = ok tt
check false = err system_error

-- `m_handlers`, by the signals, and the members of the listener.
pub record Devices : Type 0 where
  pub handlers : List ℕ
  pub backlog : ℕ
  pub listen_backlog : Option ℕ

abbrev pub new_devices : Devices
new_devices = record { handlers = []; backlog = 32; listen_backlog = none }

-- `SIGINT`, `SIGQUIT` and `SIGTERM`.
abbrev pub sigint : ℕ
sigint = 2

abbrev pub sigquit : ℕ
sigquit = 3

abbrev pub sigterm : ℕ
sigterm = 15

unfoldable pub add_handler : ℕ → Devices → Result Thrown Devices
add_handler signal d =
    if contains signal d.handlers
    then err runtime_error
    else ok (record d { handlers = signal ∷ d.handlers })

-- Which calls of `configure` and `launch` succeed.
pub record Setup : Type 0 where
  pub signals_blocked : Bool
  pub signal_fd_made : Bool
  pub bound : Bool
  pub listening : Bool
  pub signals_added : Bool
  pub listener_added : Bool
  pub threads_started : Bool
  pub echo_is_off : Bool

unfoldable pub configure_signals : Setup → Devices → Result Thrown Devices
unfolding add_handler
configure_signals k d = do
  d1 ← add_handler sigint d
  d2 ← add_handler sigquit d1
  d3 ← add_handler sigterm d2
  check k.signals_blocked
  check k.signal_fd_made
  ok d3

unfoldable pub listen : Setup → Devices → Result Thrown Devices
listen k d = do check k.bound; check k.listening; ok (record d { listen_backlog = some d.backlog })

unfoldable pub set_backlog : ℕ → Devices → Result Thrown Devices
set_backlog n d = if leb n 0 then err logic_error else ok (record d { backlog = n })

unfoldable pub configure_listener : Setup → ServerConfig → Devices → Result Thrown Devices
unfolding listen set_backlog
configure_listener k config d = do d1 ← listen k d; set_backlog config.backlog d1

abbrev pub configure_main_epoll : Setup → Result Thrown (Unit {0})
configure_main_epoll k = do check k.signals_added; check k.listener_added

-- `configure` answers false where a `system_error` is thrown, and lets others pass.
abbrev pub catch_system_error : Result Thrown Devices → Result Thrown (Option Devices)
catch_system_error (ok d) = ok (some d)
catch_system_error (err system_error) = ok none
catch_system_error (err e) = err e

unfoldable pub configure : Setup → ServerConfig → Result Thrown (Option Devices)
unfolding configure_signals configure_listener
configure k config = catch_system_error (do
  d1 ← configure_signals k new_devices
  d2 ← configure_listener k config d1
  configure_main_epoll k
  check k.threads_started
  ok d2)

-- `Server`, but for its devices and configuration.
pub record Server (Disk : Type 0) : Type 0 where
  pub supervisor : Supervisor Disk
  pub running : Bool

-- What `accept4` gives: a failure, an address of a wrong length, or a socket, with whether setsockopt(2)
-- and epoll_ctl(2) take it.
pub data Accepted : Type 0 where
  not_accepted odd_address : Accepted
  socket : (fd : ℕ) (no_delay added : Bool) → Accepted

-- What reading a `signalfd_siginfo` gives.
pub data SignalRead : Type 0 where
  not_read short_read : SignalRead
  signal : ℕ → SignalRead

-- An event of the main epoll device.
pub data MainEvent : Type 0 where
  on_signal : SignalRead → MainEvent
  on_listener : Accepted → MainEvent
  on_unknown : MainEvent

-- What the services have handled before an event of the main thread, in order.
abbrev pub Handled : Type 0
Handled = List (ℕ × EventType × Answers × Bool)

-- What `epoll_wait` gives, or none where it fails.
abbrev pub MainWait : Type 0
MainWait = Option (List (Handled × MainEvent))

-- The main loop waits, or has ended, or an exception has left it.
pub data Running (Disk : Type 0) : Type 0 where
  waiting : Server Disk → Running Disk
  finished : Server Disk → Running Disk
  thrown : Thrown → Server Disk → Running Disk

abbrev pub server_of : {Disk : Type 0} → Running Disk → Server Disk
server_of (waiting s) = s
server_of (finished s) = s
server_of (thrown e s) = s

module _ {Disk : Type 0} (sys : System Disk) (copy_fuel stale_size max_user_count : ℕ) where
  -- A stop has joined the threads of the services.
  unfoldable pub serve_all : Handled → Supervisor Disk → Supervisor Disk
  serve_all [] s = s
  serve_all ((fd, events, a, rearmed) ∷ more) s = serve_all more (
      if s.running
      then (serve_event sys copy_fuel stale_size max_user_count fd events a rearmed s).0
      else s)

  -- `Server::stop`.
  unfoldable pub stop_server : Server Disk → Server Disk
  stop_server s =
      if s.running then record { supervisor = Pool.stop sys s.supervisor; running = false } else s

  unfoldable pub handle_signal :
      Devices → SignalRead → Server Disk → Server Disk × Result Thrown (Unit {0})
  unfolding stop_server
  handle_signal d not_read s = (s, err system_error)
  handle_signal d short_read s = (s, err runtime_error)
  handle_signal d (signal n) s =
      if contains n d.handlers then (stop_server s, ok tt) else (s, err runtime_error)

  -- `TcpListener::handle_connection`.
  unfoldable pub accept_one : Accepted → Server Disk → Server Disk × Result Thrown (Unit {0})
  accept_one not_accepted s = (s, err system_error)
  accept_one odd_address s = (s, err runtime_error)
  accept_one (socket fd false added) s = (s, err system_error)
  accept_one (socket fd true added) s = (
    record s {
      supervisor = handle_connection sys copy_fuel stale_size max_user_count added fd s.supervisor;
    },
    ok tt,
  )

  unfoldable pub handle_main_event :
      Devices → MainEvent → Server Disk → Server Disk × Result Thrown (Unit {0})
  unfolding handle_signal accept_one
  handle_main_event d (on_signal read) s = handle_signal d read s
  handle_main_event d (on_listener accepted) s = accept_one accepted s
  handle_main_event d on_unknown s = (s, ok tt)

  abbrev pub at_server : Handled → Server Disk → Server Disk
  at_server handled s = record s { supervisor = serve_all handled s.supervisor }

  -- The events of one wait: also behind a stop.
  unfoldable pub handle_batch :
      Devices
      → List (Handled × MainEvent)
      → Server Disk × Result Thrown (Unit {0})
      → Server Disk × Result Thrown (Unit {0})
  unfolding serve_all handle_main_event
  handle_batch d [] r = r
  handle_batch d ((handled, event) ∷ more) (s, err e) = (s, err e)
  handle_batch d ((handled, event) ∷ more) (s, ok done) =
      handle_batch d more (handle_main_event d event (at_server handled s))

  abbrev pub next_wait :
      (Server Disk → Running Disk) → Server Disk × Result Thrown (Unit {0}) → Running Disk
  next_wait later (s, ok done) = later s
  next_wait later (s, err e) = thrown e s

  unfoldable pub main_loop : Devices → List MainWait → Server Disk → Running Disk
  unfolding handle_batch
  main_loop d [] s = if s.running then waiting s else finished s
  main_loop d (none ∷ waits) s = if s.running then thrown system_error s else finished s
  main_loop d (some batch ∷ waits) s =
      let later = next_wait (main_loop d waits) (handle_batch d batch (s, ok tt)) in
      if s.running then later else finished s

  -- Where `configure` answers false, `launch` returns at once.
  abbrev pub launch_with :
      Setup → List MainWait → Server Disk → Result Thrown (Option Devices) → Running Disk
  launch_with k waits s (err e) = thrown e s
  launch_with k waits s (ok none) = finished s
  launch_with k waits s (ok (some d)) =
      if k.echo_is_off then main_loop d waits s else thrown system_error s

  unfoldable pub launch : Setup → ServerConfig → List MainWait → Server Disk → Running Disk
  unfolding configure main_loop
  launch k config waits s = launch_with k waits s (configure k config)

  -- `~Server`, `~ClientServiceSupervisor`, and the end of the pool.
  unfoldable pub destroy_server : Server Disk → Supervisor Disk
  unfolding stop_server
  destroy_server s = close_all sys (Pool.stop sys (stop_server s).supervisor)
