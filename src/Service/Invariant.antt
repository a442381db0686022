-- ===== src/Service/Invariant.antt =====
-- client_service_supervisor.cpp, client_service.cpp and server.cpp: what holds of all clients of a
-- server, in whatever order connections and events arrive.
use tin_dox.Prelude.{
  ℕ, ◌+◌, ◌≤◌, Bool, true, false, some, ◌≡◌, refl, sym, ◌∙◌, ◌⊎◌, inl, inr, arith, length, All, ok,
  err, codes, if◌then◌else◌,
}
use tin_dox.Protocol.Interpreter.Bounds.{IsBounded}
use tin_dox.Protocol.Error.{Outcome, fatal}
use tin_dox.System.{System}
use tin_dox.Session.Client.Events.{EventType, in_event, out_event, get_required_events}
use tin_dox.Session.Client.Events.Sound.{get_required_events_lem}
use tin_dox.Session.Closing.{destroy-IsOwned}
use tin_dox.Session.Connection.{Client}
use tin_dox.Session.Owned.{stored, points}
use tin_dox.Session.State.{ClientContext, deref, release}
use tin_dox.Session.Unique.{IsUnique}
use tin_dox.Service.Owners.{
  owners, AreDistinct, AreDistinct-release, length-release, All-release, All-deref, All-found,
  AreDistinct-assign, All-assign, length-assign, owners-assign, owners-release,
}
use tin_dox.Service.Pool.{
  Connection, Supervisor, enter, put_back, erase, close_one, arm, rearm_client, rearm_device,
}

abbrev pub IsWell : ℕ × Connection → Type 0
IsWell (fd, conn) = (conn.context.alive ≡ true) × IsBounded conn.client.interpreter

-- A server and its clients: the live sessions are those of distinct users, and each belongs to one of
-- the connections; every connection in the pool is alive, has a descriptor of its own, and an
-- interpreter within its bounds; and there are no more of them than the configuration allows.
pub record IsServing {Disk : Type 0} (limit : ℕ) (s : Supervisor Disk) : Type 0 where
  pub unique : IsUnique s.world.sessions
  pub owned : (p : ℕ) → stored p s.world.sessions.objects ≡ owners p s.pool
  pub distinct : AreDistinct s.pool
  pub well : All IsWell s.pool
  pub few : length s.pool ≤ limit

-- The same while the client of one descriptor is handled: it may be dead.
pub record IsHandling {Disk : Type 0} (limit fd : ℕ) (conn : Connection) (s : Supervisor Disk)
    : Type 0 where
  pub unique : IsUnique s.world.sessions
  pub owned :
      (p : ℕ)
      → stored p s.world.sessions.objects
        ≡ points p conn.context.auth_token + owners p (release fd s.pool)
  pub distinct : AreDistinct s.pool
  pub others_well : All IsWell (release fd s.pool)
  pub bounded : IsBounded conn.client.interpreter
  pub few : length s.pool ≤ limit
  pub found : deref fd s.pool ≡ some conn

-- Nothing is thrown but what a failure of epoll_ctl(2) throws.
abbrev pub HasServed : Bool → Outcome (Unit {0}) → Type 0
HasServed rearmed r = (r ≡ ok tt) ⊎ ((rearmed ≡ false) × (r ≡ err (fatal (codes "epoll_ctl(2)"))))

requires_some :
    (k : ClientContext) (c : Client) → (events : EventType) × (get_required_events k c ≡ ok events)
requires_some k c = elim (get_required_events_lem k c) [
  | inl out ↦ (out_event, out.0)
  | inr inward ↦ (in_event, inward.0)
]

module _ {Disk : Type 0} (sys : System Disk) (limit : ℕ) where
  pub close_one-IsServing :
      (fd : ℕ) (conn : Connection) (s : Supervisor Disk)
      → IsHandling limit fd conn s
      → IsServing limit (close_one sys fd s).0
  unfolding close_one erase
  close_one-IsServing fd conn s h =
      let (unique, owned) =
        destroy-IsOwned sys conn.client (λ p. owners p (release fd s.pool))
          (enter conn.context s.world) h.unique h.owned in
      rw (h.found, close_one)
        (record {
          unique = unique;
          owned = λ p. omega (arith, owned p);
          distinct = AreDistinct-release fd s.pool h.distinct;
          well = h.others_well;
          few = omega (arith, h.few, length-release fd s.pool);
        })

  pub IsServing-IsHandling :
      (fd : ℕ) (conn : Connection) (s : Supervisor Disk)
      → deref fd s.pool ≡ some conn
      → IsServing limit s
      → IsHandling limit fd conn s
  IsServing-IsHandling fd conn s found h = record {
    unique = h.unique;
    owned = λ p. h.owned p ∙ owners-release fd p s.pool conn found h.distinct;
    distinct = h.distinct;
    others_well = All-release fd IsWell s.pool h.well;
    bounded = (All-deref fd IsWell s.pool conn h.well found).1;
    few = h.few;
    found = found;
  }

  put_back-IsServing :
      (fd : ℕ) (conn : Connection) (s : Supervisor Disk) (armed : EventType)
      → IsHandling limit fd conn s
      → conn.context.alive ≡ true
      → IsServing limit (put_back fd (record conn { armed = armed }) s)
  put_back-IsServing fd conn s armed h alive =
      let conn' : Connection = record conn { armed = armed } in
      record {
        unique = h.unique;
        owned = λ p. h.owned p ∙ sym (owners-assign fd conn' p s.pool conn h.found h.distinct);
        distinct = AreDistinct-assign fd conn' s.pool h.distinct;
        well = All-assign fd conn' IsWell s.pool h.distinct (alive, h.bounded) h.others_well;
        few = omega (arith, h.few, length-assign fd conn' s.pool);
      }

  close_one-ok :
      (fd : ℕ) (conn : Connection) (s : Supervisor Disk)
      → deref fd s.pool ≡ some conn
      → (close_one sys fd s).1 ≡ ok tt
  unfolding close_one
  close_one-ok fd conn s found = rw (found, close_one) refl

  -- A socket that is not armed again leaves the client as it is.
  arm-IsServing :
      (rearmed : Bool) (fd : ℕ) (conn : Connection) (s : Supervisor Disk) (events : EventType)
      → IsHandling limit fd conn s
      → conn.context.alive ≡ true
      → let r = arm sys rearmed fd conn s (ok events) in IsServing limit r.0 × HasServed rearmed r.1
  arm-IsServing true fd conn s events h alive =
      (put_back-IsServing fd conn s events h alive, inl refl)
  arm-IsServing false fd conn s events h alive = (
    record {
      unique = h.unique;
      owned = λ p. h.owned p ∙ sym (owners-release fd p s.pool conn h.found h.distinct);
      distinct = h.distinct;
      well = All-found fd IsWell s.pool conn h.found h.distinct (alive, h.bounded) h.others_well;
      few = h.few;
    },
    inr (refl, refl),
  )

  rearm_client-IsServing :
      (rearmed : Bool) (fd : ℕ) (conn : Connection) (s : Supervisor Disk)
      → IsHandling limit fd conn s
      → let r = rearm_client sys rearmed fd conn s in IsServing limit r.0 × HasServed rearmed r.1
  unfolding rearm_client
  rearm_client-IsServing rearmed fd conn s h =
      go conn.context.alive (get_required_events conn.context conn.client) refl
        (requires_some conn.context conn.client)
    where
      go :
          (alive : Bool) (required : Outcome EventType)
          → conn.context.alive ≡ alive
          → (events : EventType) × (required ≡ ok events)
          → let r = if alive then arm sys rearmed fd conn s required else close_one sys fd s in
            IsServing limit r.0 × HasServed rearmed r.1
      go false required dead e =
          (close_one-IsServing fd conn s h, inl (close_one-ok fd conn s h.found))
      go true required alive (events, e) = rw e (arm-IsServing rearmed fd conn s events h alive)

  -- The client of a descriptor as a call has left it, and the pool behind `rearm_device`.
  pub rearm_device-IsServing :
      (rearmed : Bool) (fd : ℕ) (conn : Connection) (s : Supervisor Disk)
      → IsHandling limit fd conn s
      → let r = rearm_device sys rearmed fd s in IsServing limit r.0 × HasServed rearmed r.1
  unfolding rearm_device
  rearm_device-IsServing rearmed fd conn s h =
      rw (h.found, rearm_device) (rearm_client-IsServing rearmed fd conn s h)
