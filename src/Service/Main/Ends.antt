-- ===== src/Service/Main/Ends.antt =====
-- server.cpp: when the main loop of the server ends.
use tin_dox.Prelude.{
  ℕ, ◌<◌, List, [], ◌∷◌, Bool, true, false, not, ◌&&◌, ◌||◌, ◌==◌, Result, ok, err, if◌then◌else◌,
  Option, none, some, ◌≡◌, refl, ap, ◌∙◌, arith, leb,
}
use tin_dox.Config.{ServerConfig}
use tin_dox.System.{System}
use tin_dox.Session.Unique.{contains}
use tin_dox.Service.Main.{
  Thrown, system_error, Devices, Setup, Server, not_accepted, odd_address, socket, not_read,
  short_read, signal, MainEvent, on_signal, on_listener, on_unknown, Handled, MainWait, Running,
  waiting, finished, thrown, stop_server, handle_main_event, handle_batch, main_loop, next_wait,
  launch_with, launch, at_server, configure, configure_signals, configure_listener, listen,
  set_backlog, add_handler,
}

-- A signal that the server has a handler for.
abbrev pub is_stop : ℕ → Bool
is_stop n = n == 2 || (n == 3 || n == 15)

-- An event that asks for a stop, and one of which no exception comes.
abbrev pub asks : MainEvent → Bool
asks (on_signal (signal n)) = is_stop n
asks event = false

abbrev pub is_good : MainEvent → Bool
is_good (on_signal (signal n)) = is_stop n
is_good (on_signal read) = false
is_good (on_listener (socket fd no_delay added)) = no_delay
is_good (on_listener accepted) = false
is_good on_unknown = true

unfoldable pub batch_asks : List (Handled × MainEvent) → Bool
batch_asks [] = false
batch_asks ((handled, event) ∷ more) = asks event || batch_asks more

unfoldable pub batch_is_good : List (Handled × MainEvent) → Bool
batch_is_good [] = true
batch_is_good ((handled, event) ∷ more) = is_good event && batch_is_good more

unfoldable pub any_asks : List MainWait → Bool
any_asks [] = false
any_asks (none ∷ waits) = any_asks waits
any_asks (some batch ∷ waits) = batch_asks batch || any_asks waits

unfoldable pub all_good : List MainWait → Bool
all_good [] = true
all_good (none ∷ waits) = false
all_good (some batch ∷ waits) = batch_is_good batch && all_good waits

-- Whether a run has ended, and none where an exception has left it.
abbrev pub has_ended : {Disk : Type 0} → Running Disk → Option Bool
has_ended (waiting s) = some false
has_ended (finished s) = some true
has_ended (thrown e s) = none

-- Every call of the set-up succeeds.
pub record IsSetUp (k : Setup) : Type 0 where
  pub signals_blocked : k.signals_blocked ≡ true
  pub signal_fd_made : k.signal_fd_made ≡ true
  pub bound : k.bound ≡ true
  pub listening : k.listening ≡ true
  pub signals_added : k.signals_added ≡ true
  pub listener_added : k.listener_added ≡ true
  pub threads_started : k.threads_started ≡ true
  pub echo_is_off : k.echo_is_off ≡ true

abbrev ready_devices : ℕ → Devices
ready_devices backlog = record {
  handlers = 15 ∷ 3 ∷ 2 ∷ [];
  backlog = backlog;
  listen_backlog = some 32;
}

-- The listener has been given the backlog of its constructor.
configure_lem :
    (k : Setup) (config : ServerConfig)
    → IsSetUp k
    → 0 < config.backlog
    → configure k config ≡ ok (some (ready_devices config.backlog))
unfolding configure configure_signals configure_listener listen set_backlog add_handler contains
configure_lem k config h some_backlog =
    let positive : leb config.backlog 0 ≡ false = ground arith in
    rw (
      h.signals_blocked, h.signal_fd_made, h.bound, h.listening, positive, h.signals_added,
      h.listener_added, h.threads_started,
    )

and-true : (b : Bool) → b ≡ (b && true)
and-true true = refl
and-true false = refl

and-false : (b : Bool) → false ≡ (b && false)
and-false true = refl
and-false false = refl

and-not-or : (runs a b : Bool) → ((runs && not a) && not b) ≡ (runs && not (a || b))
and-not-or false a b = refl
and-not-or true true b = refl
and-not-or true false b = refl

not-and-not : (a b : Bool) → (not (true && not a) || b) ≡ (a || b)
not-and-not true b = refl
not-and-not false b = refl

-- A stop, where the flag is the one of the server.
stopped_flag :
    {Disk : Type 0} (b : Bool) (s t : Server Disk)
    → s.running ≡ b
    → t.running ≡ false
    → (if b then t else s).running ≡ false
stopped_flag true s t h k = k
stopped_flag false s t h k = h

module _ {Disk : Type 0} (sys : System Disk) (copy_fuel stale_size limit : ℕ) (d : Devices)
    (known : (n : ℕ) → contains n d.handlers ≡ is_stop n) where
  -- What a call that throws nothing leaves.
  abbrev Goes : Bool → Server Disk × Result Thrown (Unit {0}) → Type 0
  Goes runs r = (r.1 ≡ ok tt) × (r.0.running ≡ runs)

  stop_server-running :
      (s : Server Disk) → (stop_server sys copy_fuel stale_size limit s).running ≡ false
  unfolding stop_server
  stop_server-running s = stopped_flag s.running s _ refl refl

  handle_main_event-Goes :
      (event : MainEvent) (s : Server Disk)
      → is_good event ≡ true
      → Goes
          (s.running && not (asks event))
          (handle_main_event sys copy_fuel stale_size limit d event s)
  unfolding handle_main_event
  handle_main_event-Goes (on_signal not_read) s good = cc
  handle_main_event-Goes (on_signal short_read) s good = cc
  handle_main_event-Goes (on_signal (signal n)) s good =
      rw (known n, good) (refl, stop_server-running s ∙ and-false s.running)
  handle_main_event-Goes (on_listener not_accepted) s good = cc
  handle_main_event-Goes (on_listener odd_address) s good = cc
  handle_main_event-Goes (on_listener (socket fd false added)) s good = cc
  handle_main_event-Goes (on_listener (socket fd true added)) s good = (refl, and-true s.running)
  handle_main_event-Goes on_unknown s good = (refl, and-true s.running)

  handle_batch-Goes :
      (batch : List (Handled × MainEvent)) (s : Server Disk)
      → batch_is_good batch ≡ true
      → Goes
          (s.running && not (batch_asks batch))
          (handle_batch sys copy_fuel stale_size limit d batch (s, ok tt))
  unfolding handle_batch batch_is_good batch_asks
  handle_batch-Goes [] s good = (refl, and-true s.running)
  handle_batch-Goes ((handled, event) ∷ more) s good =
      let first : is_good event ≡ true = ground arith in
      let others : batch_is_good more ≡ true = ground arith in
      go (λ t. handle_batch-Goes more t others) _
        (handle_main_event-Goes event (at_server sys copy_fuel stale_size limit handled s) first)
    where
      go :
          ((t : Server Disk)
            → Goes
                (t.running && not (batch_asks more))
                (handle_batch sys copy_fuel stale_size limit d more (t, ok tt)))
          → (r : Server Disk × Result Thrown (Unit {0})) → Goes (s.running && not (asks event)) r
          → Goes
              (s.running && not (asks event || batch_asks more))
              (handle_batch sys copy_fuel stale_size limit d more r)
      go later (t, err e) (h, k) = cc
      go later (t, ok done) (h, k) = (
        (later t).0,
        (later t).1
            ∙ ap (λ b. b && not (batch_asks more)) k
            ∙ and-not-or s.running (asks event) (batch_asks more),
      )

  next_wait-ended :
      (later : Server Disk → Running Disk) (runs asked : Bool)
      (r : Server Disk × Result Thrown (Unit {0}))
      → ((s : Server Disk) → has_ended (later s) ≡ some (not s.running || asked))
      → Goes runs r
      → has_ended (next_wait sys copy_fuel stale_size limit later r) ≡ some (not runs || asked)
  next_wait-ended later runs asked (s, ok done) h (o, k) = h s ∙ ap (λ b. some (not b || asked)) k
  next_wait-ended later runs asked (s, err e) h (o, k) = cc

  main_loop-ended :
      (waits : List MainWait) (s : Server Disk)
      → all_good waits ≡ true
      → has_ended (main_loop sys copy_fuel stale_size limit d waits s)
        ≡ some (not s.running || any_asks waits)
  unfolding main_loop all_good any_asks
  main_loop-ended [] s good = go s.running
    where
      go : (b : Bool) → has_ended (if b then waiting s else finished s) ≡ some (not b || false)
      go true = refl
      go false = refl
  main_loop-ended (none ∷ waits) s good = cc
  main_loop-ended (some batch ∷ waits) s good =
      let first : batch_is_good batch ≡ true = ground arith in
      let others : all_good waits ≡ true = ground arith in
      go _ s.running refl (
        next_wait-ended (main_loop sys copy_fuel stale_size limit d waits)
          (s.running && not (batch_asks batch)) (any_asks waits)
          (handle_batch sys copy_fuel stale_size limit d batch (s, ok tt))
          (λ t. main_loop-ended waits t others) (handle_batch-Goes batch s first))
    where
      go :
          (later : Running Disk) (b : Bool)
          → s.running ≡ b
          → has_ended later ≡ some (not (s.running && not (batch_asks batch)) || any_asks waits)
          → has_ended (if b then later else finished s)
            ≡ some (not b || (batch_asks batch || any_asks waits))
      go later true e h =
          h
          ∙ ap (λ c. some (not (c && not (batch_asks batch)) || any_asks waits)) e
          ∙ ap some (not-and-not (batch_asks batch) (any_asks waits))
      go later false e h = refl

known_signals : (backlog n : ℕ) → contains n (ready_devices backlog).handlers ≡ is_stop n
unfolding contains
known_signals backlog n = ground arith

module _ {Disk : Type 0} (sys : System Disk) (copy_fuel stale_size limit : ℕ) where
  -- A server whose set-up succeeds, with a configured backlog above 0, and to which the kernel reports no
  -- failure, but sockets for connections, and signals that it has a handler for: no exception leaves
  -- the run, and it has ended exactly if SIGINT, SIGQUIT or SIGTERM has come, whatever the clients do
  -- meanwhile.
  pub launch_ends :
      (k : Setup) (config : ServerConfig) (waits : List MainWait) (s : Server Disk)
      → IsSetUp k
      → 0 < config.backlog
      → s.running ≡ true
      → all_good waits ≡ true
      → has_ended (launch sys copy_fuel stale_size limit k config waits s) ≡ some (any_asks waits)
  unfolding launch
  launch_ends k config waits s set_up some_backlog runs good =
      ap (λ r. has_ended (launch_with sys copy_fuel stale_size limit k waits s r))
        (configure_lem k config set_up some_backlog)
      ∙ ap
          (λ b. has_ended (
            if b
            then main_loop sys copy_fuel stale_size limit (ready_devices config.backlog) waits s
            else thrown system_error s))
          set_up.echo_is_off
      ∙ main_loop-ended sys copy_fuel stale_size limit (ready_devices config.backlog)
          (known_signals config.backlog) waits s good
      ∙ ap (λ b. some (not b || any_asks waits)) runs
