-- ===== src/Service/Main/Closes.antt =====
-- server.cpp: what a run of the server leaves, however it comes to its end.
use tin_dox.Prelude.{
  ℕ, List, [], ◌∷◌, Bool, true, false, Result, ok, err, if◌then◌else◌, Option, none, some, ◌≡◌,
  refl,
}
use tin_dox.Config.{ServerConfig}
use tin_dox.System.{System}
use tin_dox.Session.Owned.{stored}
use tin_dox.Session.Unique.{contains}
use tin_dox.Service.Invariant.{IsServing}
use tin_dox.Service.Main.{
  Thrown, Devices, Setup, Server, not_accepted, odd_address, socket, not_read, short_read, signal,
  MainEvent, on_signal, on_listener, on_unknown, Handled, MainWait, Running, server_of, serve_all,
  stop_server, handle_main_event, handle_batch, main_loop, next_wait, launch_with, launch,
  at_server, destroy_server, configure,
}
use tin_dox.Service.Pool.{Supervisor, close_all}
use tin_dox.Service.Reach.{
  serve_event-IsServing, stop-IsServing, erase_all_none, handle_connection-IsServing,
}

-- What holds of both branches.
pub if_both {ℓ κ} :
    {A : Type ℓ} (P : A → Type κ) (test : Bool) (x y : A) → P x → P y → P (if test then x else y)
if_both P true x y p q = p
if_both P false x y p q = q

module _ {Disk : Type 0} (sys : System Disk) (copy_fuel stale_size limit : ℕ) where
  abbrev Serves : Server Disk → Type 0
  Serves s = IsServing limit s.supervisor

  serve_all-IsServing :
      (handled : Handled) (s : Supervisor Disk)
      → IsServing limit s
      → IsServing limit (serve_all sys copy_fuel stale_size limit handled s)
  unfolding serve_all
  serve_all-IsServing [] s h = h
  serve_all-IsServing ((fd, events, a, rearmed) ∷ more) s h = serve_all-IsServing more _ (
      if_both (IsServing limit) s.running _ s
        (serve_event-IsServing sys copy_fuel stale_size limit fd events a rearmed s h).0 h)

  stop_server-Serves :
      (s : Server Disk) → Serves s → Serves (stop_server sys copy_fuel stale_size limit s)
  unfolding stop_server
  stop_server-Serves s h = if_both Serves s.running _ s (stop-IsServing sys limit s.supervisor h) h

  handle_main_event-Serves :
      (d : Devices) (event : MainEvent) (s : Server Disk)
      → Serves s
      → Serves (handle_main_event sys copy_fuel stale_size limit d event s).0
  unfolding handle_main_event
  handle_main_event-Serves d (on_signal not_read) s h = h
  handle_main_event-Serves d (on_signal short_read) s h = h
  handle_main_event-Serves d (on_signal (signal n)) s h =
      if_both (λ (r : Server Disk × Result Thrown (Unit {0})). Serves r.0) (contains n d.handlers) _
        _ (stop_server-Serves s h) h
  handle_main_event-Serves d (on_listener not_accepted) s h = h
  handle_main_event-Serves d (on_listener odd_address) s h = h
  handle_main_event-Serves d (on_listener (socket fd false added)) s h = h
  handle_main_event-Serves d (on_listener (socket fd true added)) s h =
      handle_connection-IsServing sys copy_fuel stale_size limit added fd s.supervisor h
  handle_main_event-Serves d on_unknown s h = h

  handle_batch-Serves :
      (d : Devices) (batch : List (Handled × MainEvent))
      (r : Server Disk × Result Thrown (Unit {0}))
      → Serves r.0
      → Serves (handle_batch sys copy_fuel stale_size limit d batch r).0
  unfolding handle_batch
  handle_batch-Serves d [] r h = h
  handle_batch-Serves d ((handled, event) ∷ more) (s, err e) h = h
  handle_batch-Serves d ((handled, event) ∷ more) (s, ok done) h = handle_batch-Serves d more _ (
      handle_main_event-Serves d event (at_server sys copy_fuel stale_size limit handled s)
        (serve_all-IsServing handled s.supervisor h))

  next_wait-Serves :
      (later : Server Disk → Running Disk) (r : Server Disk × Result Thrown (Unit {0}))
      → ((s : Server Disk) → Serves s → Serves (server_of (later s)))
      → Serves r.0
      → Serves (server_of (next_wait sys copy_fuel stale_size limit later r))
  next_wait-Serves later (s, ok done) keeps h = keeps s h
  next_wait-Serves later (s, err e) keeps h = h

  main_loop-Serves :
      (d : Devices) (waits : List MainWait) (s : Server Disk)
      → Serves s
      → Serves (server_of (main_loop sys copy_fuel stale_size limit d waits s))
  unfolding main_loop
  main_loop-Serves d [] s h = if_both (λ (r : Running Disk). Serves (server_of r)) s.running _ _ h h
  main_loop-Serves d (none ∷ waits) s h =
      if_both (λ (r : Running Disk). Serves (server_of r)) s.running _ _ h h
  main_loop-Serves d (some batch ∷ waits) s h =
      if_both (λ (r : Running Disk). Serves (server_of r)) s.running _ _
        (next_wait-Serves (main_loop sys copy_fuel stale_size limit d waits)
          (handle_batch sys copy_fuel stale_size limit d batch (s, ok tt))
          (λ t k. main_loop-Serves d waits t k) (handle_batch-Serves d batch (s, ok tt) h))
        h

  launch_with-Serves :
      (k : Setup) (waits : List MainWait) (s : Server Disk) (r : Result Thrown (Option Devices))
      → Serves s
      → Serves (server_of (launch_with sys copy_fuel stale_size limit k waits s r))
  launch_with-Serves k waits s (err e) h = h
  launch_with-Serves k waits s (ok none) h = h
  launch_with-Serves k waits s (ok (some d)) h =
      if_both (λ (r : Running Disk). Serves (server_of r)) k.echo_is_off _ _
        (main_loop-Serves d waits s h) h

  destroy_server_lem :
      (s : Server Disk)
      → Serves s
      → let t = destroy_server sys copy_fuel stale_size limit s in
        (t.pool ≡ []) × ((p : ℕ) → stored p t.world.sessions.objects ≡ 0)
  unfolding destroy_server close_all
  destroy_server_lem s h =
      let v = stop_server sys copy_fuel stale_size limit s in
      let k = stop-IsServing sys limit v.supervisor (stop_server-Serves s h) in
      (refl, (erase_all_none sys _ _ k.unique k.owned).1)

  -- Whatever of the set-up fails, whatever the kernel reports and the services handle, and whether the
  -- run still waits, has ended, or was left by an exception: the server is under its invariant, and its
  -- destructors leave no connection and no session that is alive.
  pub launch_closes :
      (k : Setup) (config : ServerConfig) (waits : List MainWait) (s : Server Disk)
      → IsServing limit s.supervisor
      → let v = server_of (launch sys copy_fuel stale_size limit k config waits s) in
        let t = destroy_server sys copy_fuel stale_size limit v in
        IsServing limit v.supervisor
        × (t.pool ≡ [])
        × ((p : ℕ) → stored p t.world.sessions.objects ≡ 0)
  unfolding launch
  launch_closes k config waits s h =
      let kept = launch_with-Serves k waits s (configure k config) h in
      (kept, (destroy_server_lem _ kept).0, (destroy_server_lem _ kept).1)
