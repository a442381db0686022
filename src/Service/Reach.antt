-- ===== src/Service/Reach.antt =====
-- client_service.cpp and server.cpp: the invariant of a server, over every step and every run.
use tin_dox.Prelude.{
  ℕ, ◌+◌, ◌<◌, [], ◌∷◌, Bool, true, false, some, ◌≡◌, refl, sym, ◌∙◌, subst, ◌⊎◌, inl, inr, arith,
  err, codes, length, All, ltb, ok, Bool-cases, Option-cases, ltb→lt,
}
use tin_dox.Protocol.Interpreter.Bounds.{initial-IsBounded}
use tin_dox.Protocol.Error.{fatal}
use tin_dox.System.{System}
use tin_dox.Session.Client.Events.{EventType, Answers, handle}
use tin_dox.Session.Client.Events.Sound.{handle-IsSound}
use tin_dox.Session.Client.Invariant.{IsSound}
use tin_dox.Session.Closing.{destroy, destroy-IsOwned}
use tin_dox.Session.Connection.{Client, accepted}
use tin_dox.Session.Owned.{stored, points}
use tin_dox.Session.State.{World, deref, release}
use tin_dox.Session.Unique.{IsUnique}
use tin_dox.Service.Owners.{
  owners, AreDistinct-assign, length-assign, deref-assign_self, release-assign_self,
}
use tin_dox.Service.Pool.{
  Connection, Pool, Supervisor, enter, leave, put_back, spawn_client, erase, close_one, erase_all,
  close_all, accept_connection, stop,
}
use tin_dox.Service.Server.{
  handle_connection, process_client_input, serve_event, Step, connect, event, stopped, Reach, here,
  later,
}
use tin_dox.Service.Invariant.{
  IsWell, IsServing, IsHandling, HasServed, close_one-IsServing, IsServing-IsHandling,
  rearm_device-IsServing,
}

module _ {Disk : Type 0} (sys : System Disk) (copy_fuel stale_size limit : ℕ) where
  handled-IsHandling :
      (fd : ℕ) (conn : Connection) (s : Supervisor Disk) (v : World Disk) (d : Client)
      → IsHandling limit fd conn s
      → IsSound (λ p. owners p (release fd s.pool)) v d
      → let conn' = record conn { client = d; context = v.client } in
        IsHandling limit fd conn' (put_back fd conn' (record s { world = leave v }))
  handled-IsHandling fd conn s v d h sound =
      let conn' : Connection = record conn { client = d; context = v.client } in
      let same = sym (release-assign_self fd conn' s.pool) in
      record {
        unique = sound.unique;
        owned = λ p.
            subst
              (λ (pool : Pool).
                stored p v.sessions.objects ≡ points p v.client.auth_token + owners p pool)
              same (sound.owned p);
        distinct = AreDistinct-assign fd conn' s.pool h.distinct;
        others_well = subst (λ (pool : Pool). All IsWell pool) same h.others_well;
        bounded = sound.bounded;
        few = omega (arith, h.few, length-assign fd conn' s.pool);
        found = deref-assign_self fd conn' s.pool conn h.found;
      }

  process_client_input-IsServing :
      (fd : ℕ) (conn : Connection) (events : EventType) (a : Answers) (rearmed : Bool)
      (s : Supervisor Disk)
      → deref fd s.pool ≡ some conn
      → IsServing limit s
      → let r = process_client_input sys copy_fuel stale_size limit fd conn events a rearmed s in
        IsServing limit r.0 × HasServed rearmed r.1
  unfolding process_client_input
  process_client_input-IsServing fd conn events a rearmed s found h =
      let handling = IsServing-IsHandling sys limit fd conn s found h in
      let (v, d) =
        handle sys copy_fuel stale_size events a (enter conn.context s.world) conn.client in
      rearm_device-IsServing sys limit rearmed fd (record conn { client = d; context = v.client }) _
        (handled-IsHandling fd conn s v d handling (
          handle-IsSound sys copy_fuel stale_size (λ p. owners p (release fd s.pool)) events a
            (enter conn.context s.world) conn.client
            (record { unique = h.unique; owned = handling.owned; bounded = handling.bounded })))

  -- An event on a socket, for a client of the pool or for none, whatever the client does: the server
  -- keeps its invariant, and the loop of the service goes on, but where epoll_ctl(2) fails to arm the
  -- socket again: that exception, and no other, reaches the loop.
  pub serve_event-IsServing :
      (fd : ℕ) (events : EventType) (a : Answers) (rearmed : Bool) (s : Supervisor Disk)
      → IsServing limit s
      → let r = serve_event sys copy_fuel stale_size limit fd events a rearmed s in
        IsServing limit r.0
        × ((r.1 ≡ ok tt) ⊎ ((rearmed ≡ false) × (r.1 ≡ err (fatal (codes "epoll_ctl(2)")))))
  unfolding serve_event
  serve_event-IsServing fd events a rearmed s h = elim (Option-cases (deref fd s.pool)) [
    | inl absent ↦ rw (absent, serve_event) (h, inl refl)
    | inr (conn, found) ↦
        rw (found, serve_event) (process_client_input-IsServing fd conn events a rearmed s found h)
  ]

  spawn_client-IsServing :
      (fd : ℕ) (s : Supervisor Disk)
      → length s.pool < limit
      → IsServing limit s
      → IsServing limit (spawn_client fd s).0
  unfolding spawn_client accepted
  spawn_client-IsServing fd s room h = elim (Option-cases (deref fd s.pool)) [
    | inr (conn, found) ↦ rw (found, spawn_client) h
    | inl absent ↦
        rw (absent, spawn_client)
          (record {
            unique = h.unique;
            owned = λ p. omega (arith, h.owned p);
            distinct = (absent, h.distinct);
            well = ((refl, initial-IsBounded), h.well);
            few = omega arith;
          })
  ]

  accept_connection-IsServing :
      (added : Bool) (fd : ℕ) (s : Supervisor Disk)
      → length s.pool < limit
      → IsServing limit s
      → IsServing limit (accept_connection sys added fd s).0
  unfolding accept_connection close_one
  accept_connection-IsServing true fd s room h = spawn_client-IsServing fd s room h
  accept_connection-IsServing false fd s room h = elim (Option-cases (deref fd s.pool)) [
    | inl absent ↦ rw (absent, close_one) h
    | inr (conn, found) ↦
        close_one-IsServing sys limit fd conn s (IsServing-IsHandling sys limit fd conn s found h)
  ]

  pub handle_connection-IsServing :
      (added : Bool) (fd : ℕ) (s : Supervisor Disk)
      → IsServing limit s
      → IsServing limit (handle_connection sys copy_fuel stale_size limit added fd s)
  unfolding handle_connection
  handle_connection-IsServing added fd s h = elim (Bool-cases (ltb (length s.pool) limit)) [
    | inl room ↦
        rw room (accept_connection-IsServing added fd s (ltb→lt (length s.pool) limit room) h)
    | inr full ↦ rw full h
  ]

module _ {Disk : Type 0} (sys : System Disk) where
  -- Each connection takes its own session along.
  pub erase_all_none :
      (pool : Pool) (w : World Disk)
      → IsUnique w.sessions
      → ((p : ℕ) → stored p w.sessions.objects ≡ owners p pool)
      → IsUnique (erase_all sys pool w).sessions
        × ((p : ℕ) → stored p (erase_all sys pool w).sessions.objects ≡ 0)
  unfolding erase_all erase
  erase_all_none [] w u o = (u, o)
  erase_all_none ((fd, conn) ∷ more) w u o =
      let (unique, owned) =
        destroy-IsOwned sys conn.client (λ p. owners p more) (enter conn.context w) u o in
      erase_all_none more (leave (destroy sys conn.client (enter conn.context w)).0) unique
        (λ p. owned p ∙ omega arith)

  -- A stop of a server that runs closes every connection, and no session stays alive.
  pub stop_lem :
      (limit : ℕ) (s : Supervisor Disk)
      → IsServing limit s
      → s.running ≡ true
      → let t = stop sys s in
        IsServing limit t
        × (t.pool ≡ [])
        × (t.running ≡ false)
        × ((p : ℕ) → stored p t.world.sessions.objects ≡ 0)
  unfolding stop close_all
  stop_lem limit s h runs =
      let (unique, none_left) = erase_all_none s.pool s.world h.unique h.owned in
      rw (runs, stop)
        (
          record {
            unique = unique;
            owned = none_left;
            distinct = tt;
            well = tt;
            few = omega arith;
          },
          refl,
          refl,
          none_left,
        )

  pub stop-IsServing :
      (limit : ℕ) (s : Supervisor Disk) → IsServing limit s → IsServing limit (stop sys s)
  stop-IsServing limit s h = elim (Bool-cases s.running) [
    | inl runs ↦ (stop_lem limit s h runs).0
    | inr ended ↦
        unfold stop in
        rw (ended, stop)
          (record {
            unique = h.unique;
            owned = h.owned;
            distinct = h.distinct;
            well = h.well;
            few = h.few;
          })
  ]

module _ {Disk : Type 0} (sys : System Disk) (copy_fuel stale_size limit : ℕ) where
  Step-IsServing :
      {s t : Supervisor Disk}
      → Step sys copy_fuel stale_size limit s t
      → IsServing limit s
      → IsServing limit t
  Step-IsServing (connect s added fd) h =
      handle_connection-IsServing sys copy_fuel stale_size limit added fd s h
  Step-IsServing (event s fd events a rearmed) h =
      (serve_event-IsServing sys copy_fuel stale_size limit fd events a rearmed s h).0
  Step-IsServing (stopped s) h = stop-IsServing sys limit s h

  -- In whatever order connections arrive, sockets become ready, and a stop is asked for, and whatever
  -- the clients send: the server keeps its invariant.
  pub Reach-IsServing :
      {s t : Supervisor Disk}
      → IsServing limit s
      → Reach sys copy_fuel stale_size limit s t
      → IsServing limit t
  Reach-IsServing h here = h
  Reach-IsServing h (later r step) = Step-IsServing step (Reach-IsServing h r)
