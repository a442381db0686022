-- ===== src/Service/Tests.antt =====
-- A server with two clients, one logged in as ada and one as bob.
use tin_dox.Prelude.{
  ℕ, List, [], ◌∷◌, true, some, ◌≡◌, ◌≢◌, ◌⊎◌, false, refl, arith, codes, ok, err,
}
use tin_dox.Protocol.Error.{fatal}
use tin_dox.Protocol.Download.{transferred}
use tin_dox.Protocol.Interpreter.Bounds.{initial-IsBounded}
use tin_dox.Protocol.Socket.{got}
use tin_dox.Session.Client.Events.{Answers, in_event}
use tin_dox.Session.Connection.{accepted}
use tin_dox.Session.Context.{new_client}
use tin_dox.Session.Owned.{stored}
use tin_dox.Session.State.{AuthToken, deref}
use tin_dox.Session.Toy.{Toy, toy, ada_token, stranger}
use tin_dox.Session.Unique.{AreUnique, contains}
use tin_dox.Prelude.{equal}
use tin_dox.Service.Exclusive.{no_user_twice}
use tin_dox.Service.Invariant.{IsServing}
use tin_dox.Config.{default_config}
use tin_dox.Service.Main.{
  Server, Setup, MainWait, socket, signal, on_signal, on_listener, server_of, launch,
  destroy_server,
}
use tin_dox.Service.Main.Closes.{launch_closes}
use tin_dox.Service.Main.Ends.{
  has_ended, all_good, any_asks, batch_is_good, batch_asks, launch_ends,
}
use tin_dox.Service.Pool.{Connection, Supervisor, new_connection, spawn_client, accept_connection}
use tin_dox.Service.Reach.{serve_event-IsServing, Reach-IsServing}
use tin_dox.Service.Server.{handle_connection, serve_event, Reach, here, later, connect}

abbrev bob_token : AuthToken
bob_token = record { username = codes "bob"; perms = 2 }

abbrev ada : Connection
ada = record new_connection { context = record new_client { auth_token = some 0 } }

abbrev bob : Connection
bob = record new_connection { context = record new_client { auth_token = some 1 } }

abbrev serving : Supervisor Toy
serving = record {
  world = record stranger {
    sessions = record {
      auth_tokens = 0 ∷ 1 ∷ [];
      objects = (1, bob_token) ∷ (0, ada_token) ∷ [];
      next = 2;
    };
  };
  pool = (5, bob) ∷ (4, ada) ∷ [];
  running = true;
}

serving-IsServing : IsServing 3 serving
unfolding AreUnique contains equal deref accepted
serving-IsServing = record {
  unique = (omega arith, refl, (refl, tt), (omega arith, refl, tt, tt));
  owned = λ p. omega arith;
  distinct = (refl, (refl, tt));
  well = ((refl, initial-IsBounded), ((refl, initial-IsBounded), tt));
  few = omega arith;
}

abbrev joined : Supervisor Toy
joined = record serving { pool = (6, new_connection) ∷ serving.pool }

third_joins : Reach toy 5 0 3 serving joined
unfolding handle_connection accept_connection spawn_client deref
third_joins = later {t = serving} here (connect serving true 6)

Reach-IsServing_example : IsServing 3 joined
Reach-IsServing_example = Reach-IsServing toy 5 0 3 serving-IsServing third_joins

no_user_twice_example : ◌≢◌ {A = ℕ} 0 1 × (ada_token.username ≢ bob_token.username)
no_user_twice_example =
    no_user_twice toy 5 0 3 serving joined serving-IsServing third_joins 4 5 ada bob 0 1 ada_token
      bob_token (λ e. absurd (omega arith)) (unfold deref in refl) (unfold deref in refl) refl refl
      (unfold deref in refl) (unfold deref in refl)

abbrev hello : Answers
hello = record {
  reads = got (codes "name\n\n") ∷ [];
  writes = [];
  file = [];
  transfer = transferred 0;
}

serve_event-IsServing_example :
    let r = serve_event toy 5 0 3 4 in_event hello false serving in
    IsServing 3 r.0
    × ((r.1 ≡ ok tt) ⊎ ((false ≡ false) × (r.1 ≡ err (fatal (codes "epoll_ctl(2)")))))
serve_event-IsServing_example =
    serve_event-IsServing toy 5 0 3 4 in_event hello false serving serving-IsServing

abbrev server : Server Toy
server = record { supervisor = serving; running = true }

abbrev all_succeeds : Setup
all_succeeds = record {
  signals_blocked = true;
  signal_fd_made = true;
  bound = true;
  listening = true;
  signals_added = true;
  listener_added = true;
  threads_started = true;
  echo_is_off = true;
}

-- A connection, a request of a client, and a stop with a connection behind it.
abbrev waits : List MainWait
waits =
    some (([], on_listener (socket 6 true true)) ∷ [])
    ∷ some (
        ((4, in_event, hello, true) ∷ [], on_signal (signal 15))
        ∷ ([], on_listener (socket 7 true true))
        ∷ [])
    ∷ []

launch_closes_example :
    let v = server_of (launch toy 5 0 3 all_succeeds (default_config 4) waits server) in
    let t = destroy_server toy 5 0 3 v in
    IsServing 3 v.supervisor × (t.pool ≡ []) × ((p : ℕ) → stored p t.world.sessions.objects ≡ 0)
launch_closes_example =
    launch_closes toy 5 0 3 all_succeeds (default_config 4) waits server serving-IsServing

launch_ends_example :
    has_ended (launch toy 5 0 3 all_succeeds (default_config 4) waits server) ≡ some true
unfolding all_good any_asks batch_is_good batch_asks default_config
launch_ends_example =
    launch_ends toy 5 0 3 all_succeeds (default_config 4) waits server
      (record {
        signals_blocked = refl;
        signal_fd_made = refl;
        bound = refl;
        listening = refl;
        signals_added = refl;
        listener_added = refl;
        threads_started = refl;
        echo_is_off = refl;
      })
      (omega arith) refl refl
