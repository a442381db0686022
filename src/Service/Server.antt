-- ===== src/Service/Server.antt =====
-- client_service.cpp and server.cpp: new connections, events on the sockets, and the end.
use tin_dox.Prelude.{ℕ, Bool, none, some, ltb, ok, if◌then◌else◌}
use tin_dox.System.{System}
use tin_dox.Session.Client.Events.{EventType, Answers, handle}
use tin_dox.Session.Connection.{Client}
use tin_dox.Session.State.{World, deref}
use tin_dox.Service.Pool.{
  Connection, Supervisor, Served, enter, leave, put_back, get_client_count, accept_connection,
  rearm_device, stop,
}

module _ {Disk : Type 0} (sys : System Disk) (copy_fuel stale_size max_user_count : ℕ) where
  -- `Server::handle_connection`; its handlers take whatever is thrown.
  unfoldable pub handle_connection : Bool → ℕ → Supervisor Disk → Supervisor Disk
  handle_connection added fd s =
      if ltb (get_client_count s) max_user_count then (accept_connection sys added fd s).0 else s

  abbrev pub after_handle :
      Bool → ℕ → Connection → Supervisor Disk → World Disk × Client → Served Disk
  after_handle rearmed fd conn s (v, d) =
      rearm_device sys rearmed fd (
        put_back fd (record conn { client = d; context = v.client }) (record s { world = leave v }))

  unfoldable pub process_client_input :
      ℕ → Connection → EventType → Answers → Bool → Supervisor Disk → Served Disk
  process_client_input fd conn events a rearmed s =
      after_handle rearmed fd conn s
        (handle sys copy_fuel stale_size events a (enter conn.context s.world) conn.client)

  -- An event in `main_loop`, with whether the kernel arms the socket again behind it. The pipe and
  -- unknown devices leave the clients alone.
  unfoldable pub serve_event : ℕ → EventType → Answers → Bool → Supervisor Disk → Served Disk
  serve_event fd events a rearmed s = elim (deref fd s.pool) [
    | none ↦ (s, ok tt)
    | some conn ↦ process_client_input fd conn events a rearmed s
  ]

  -- What may happen next: a new connection, an event on a socket, a stop signal. One event is handled
  -- at a time.
  pub data Step : Supervisor Disk → Supervisor Disk → Type 0 where
    connect : (s : Supervisor Disk) (added : Bool) (fd : ℕ) → Step s (handle_connection added fd s)
    event :
        (s : Supervisor Disk) (fd : ℕ) (events : EventType) (a : Answers) (rearmed : Bool)
        → Step s (serve_event fd events a rearmed s).0
    stopped : (s : Supervisor Disk) → Step s (stop sys s)

  pub data Reach (s : Supervisor Disk) : Supervisor Disk → Type 0 where
    here : Reach s s
    later : {t u : Supervisor Disk} → Reach s t → Step t u → Reach s u
