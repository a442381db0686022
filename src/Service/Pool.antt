-- ===== src/Service/Pool.antt =====
-- client_pool.cpp and client_service_supervisor.cpp: the connections, by the descriptors of their
-- sockets, and the server context that they share.
use tin_dox.Prelude.{
  ℕ, List, [], ◌∷◌, Bool, false, none, some, codes, ok, err, if◌then◌else◌, length,
}
use tin_dox.Protocol.Error.{Outcome, fatal}
use tin_dox.System.{System}
use tin_dox.Session.Client.Events.{EventType, in_event, get_required_events}
use tin_dox.Session.Closing.{destroy}
use tin_dox.Session.Connection.{Client, accepted}
use tin_dox.Session.Context.{new_client, is_some}
use tin_dox.Session.State.{ClientContext, World, deref, release, assign}

-- A client with its context, and the events that its socket is armed for.
pub record Connection : Type 0 where
  pub client : Client
  pub context : ClientContext
  pub armed : EventType

abbrev pub Pool : Type 0
Pool = List (ℕ × Connection)

-- `ClientServiceSupervisor` with its pool and the context of the server. While no client is handled,
-- the world stands without one.
pub record Supervisor (Disk : Type 0) : Type 0 where
  pub world : World Disk
  pub pool : Pool
  pub running : Bool

abbrev pub get_client_count : {Disk : Type 0} → Supervisor Disk → ℕ
get_client_count s = length s.pool

abbrev pub has_client : {Disk : Type 0} → ℕ → Supervisor Disk → Bool
has_client fd s = is_some (deref fd s.pool)

-- A client's context goes into the world for a call, and comes out behind it.
abbrev pub enter : {Disk : Type 0} → ClientContext → World Disk → World Disk
enter k w = record w { client = k }

abbrev pub leave : {Disk : Type 0} → World Disk → World Disk
leave w = record w { client = new_client }

abbrev pub new_connection : Connection
new_connection = record { client = accepted; context = new_client; armed = in_event }

-- What a call answers beside the supervisor that it leaves.
abbrev pub Served : Type 0 → Type 0
Served Disk = Supervisor Disk × Outcome (Unit {0})

module _ {Disk : Type 0} where
  unfoldable pub spawn_client : ℕ → Supervisor Disk → Served Disk
  spawn_client fd s =
      if has_client fd s
      then (s, err (fatal (codes "ClientPool: failed to accept new connection")))
      else (record s { pool = (fd, new_connection) ∷ s.pool }, ok tt)

  -- `process_client_input` leaves the client in the pool as the call has left it.
  abbrev pub put_back : ℕ → Connection → Supervisor Disk → Supervisor Disk
  put_back fd conn s = record s { pool = assign fd conn s.pool }

-- The `LinuxError` of `EpollDevice`.
abbrev pub not_rearmed : Outcome (Unit {0})
not_rearmed = err (fatal (codes "epoll_ctl(2)"))

module _ {Disk : Type 0} (sys : System Disk) where
  -- A connection that leaves the pool is destroyed.
  unfoldable pub erase : Connection → World Disk → World Disk
  erase conn w = leave (destroy sys conn.client (enter conn.context w)).0

  unfoldable pub close_one : ℕ → Supervisor Disk → Served Disk
  close_one fd s = elim (deref fd s.pool) [
    | none ↦ (s, err (fatal (codes "ClientPool: could not close connection with client")))
    | some conn ↦ (record s { world = erase conn s.world; pool = release fd s.pool }, ok tt)
  ]

  unfoldable pub erase_all : Pool → World Disk → World Disk
  erase_all [] w = w
  erase_all ((fd, conn) ∷ more) w = erase_all more (erase conn w)

  unfoldable pub close_all : Supervisor Disk → Supervisor Disk
  unfolding erase_all
  close_all s = record s { world = erase_all s.pool s.world; pool = [] }

  -- `added` is whether `epoll_ctl(2)` has taken the socket.
  unfoldable pub accept_connection : Bool → ℕ → Supervisor Disk → Served Disk
  accept_connection added fd s = if added then spawn_client fd s else close_one fd s

  -- `EpollDevice::rearm_device`, by whether `epoll_ctl(2)` has armed the socket again: where it has
  -- not, the client stays in the pool, and its socket gives no more events.
  abbrev pub arm : Bool → ℕ → Connection → Supervisor Disk → Outcome EventType → Served Disk
  arm rearmed fd conn s (ok events) =
      if rearmed then (put_back fd (record conn { armed = events }) s, ok tt) else (s, not_rearmed)
  arm rearmed fd conn s (err e) = (s, err e)

  unfoldable pub rearm_client : Bool → ℕ → Connection → Supervisor Disk → Served Disk
  rearm_client rearmed fd conn s =
      if conn.context.alive
      then arm rearmed fd conn s (get_required_events conn.context conn.client)
      else close_one fd s

  unfoldable pub rearm_device : Bool → ℕ → Supervisor Disk → Served Disk
  rearm_device rearmed fd s = elim (deref fd s.pool) [
    | none ↦ (s, err (fatal (codes "ClientPool: could not find client")))
    | some conn ↦ rearm_client rearmed fd conn s
  ]

  unfoldable pub stop : Supervisor Disk → Supervisor Disk
  stop s = if s.running then record (close_all s) { running = false } else s
