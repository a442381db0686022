-- ===== src/Session/Executor/Sessions.antt =====
-- auth.cpp, logout.cpp and the other commands: no two clients are logged in as one user.
use tin_dox.Prelude.{
  ℕ, ◌+◌, ap, Option, true, false, some, ◌≡◌, refl, sym, subst, ◌⊎◌, inl, inr, arith, Bytes, ok,
  err, Bool-cases, Option-cases, Result-cases,
}
use tin_dox.Protocol.Error.{ProtocolCode, Error, Outcome, fail, protocol, fatal, running}
use tin_dox.System.{System}
use tin_dox.User.Permissions.{Permissions}
use tin_dox.User.Table.{has_user, verify_password_of_user, get_perms_of_user}
use tin_dox.Session.Commands.Account.{
  lock_root, log_in, count_attempt, handle_auth, execute_auth, execute_logout,
}
use tin_dox.Session.Executor.Frame.{KeepsSessions}
use tin_dox.Session.Context.{
  add_token, authorize_user, is_logged_in, set_auth_token, logout, kill, lock_path, set_path_lock,
  throw_on_invalid_path, insert_path_lock, release_lock,
}
use tin_dox.Session.Owned.{
  AreOwned, IsOwned, AreUnique-stored, logout-IsOwned, points, sessions_of, stored, stored-release,
}
use tin_dox.Session.State.{World, M, Sessions, remove_expired, continue_with, ◌>>=◌}
use tin_dox.Session.Unique.{IsUnique, AreUnique-release, remove_expired-IsUnique, add-IsUnique}

abbrev KeepsDistinct : {Disk A : Type 0} → M Disk A → Type 0
KeepsDistinct {Disk} m = (w : World Disk) → IsUnique w.sessions → IsUnique (m w).0.sessions

abbrev KeepsOwned : {Disk A : Type 0} → M Disk A → Type 0
KeepsOwned {Disk} m =
    (others : ℕ → ℕ) (w : World Disk)
    → IsUnique w.sessions
    → IsOwned others w
    → IsOwned others (m w).0

-- Sessions of distinct users, each owned by one connection.
abbrev pub KeepsUnique : {Disk A : Type 0} → M Disk A → Type 0
KeepsUnique m = KeepsDistinct m × KeepsOwned m

module _ {Disk : Type 0} (sys : System Disk) (username password : Bytes) (w : World Disk) where
  abbrev expired : Sessions
  expired = record w.sessions {
    auth_tokens = remove_expired w.sessions.objects w.sessions.auth_tokens;
  }

  -- Either no token is added, or one of a user who has none.
  authorize_user_cases :
      let result = authorize_user sys username password w in
      ((x : Error) × (result ≡ (record w { sessions = expired }, err x)))
      ⊎ ((perms : Permissions) × (is_logged_in username expired.objects expired.auth_tokens ≡ false)
          × (result ≡ (
            record w {
              sessions = add_token (record { username = username; perms = perms }) expired;
            },
            ok w.sessions.next,
          )))
  unfolding authorize_user
  authorize_user_cases =
      let unverified = fail ProtocolCode.invalid_credentials in
      elim (Bool-cases (has_user w.users username)) [
        | inr unknown ↦ inl (unverified, rw unknown refl)
        | inl known ↦
            elim (Result-cases (verify_password_of_user sys.crypt w.users username password)) [
              | inr (x, failed) ↦ inl (x, rw (known, failed) refl)
              | inl (false, wrong) ↦ inl (unverified, rw (known, wrong) refl)
              | inl (true, right) ↦
                  elim (Bool-cases (is_logged_in username expired.objects expired.auth_tokens)) [
                    | inl there ↦
                        inl (fail ProtocolCode.user_already_logged, rw (known, right, there) refl)
                    | inr free ↦ elim (Result-cases (get_perms_of_user w.users username)) [
                      | inr (x, failed) ↦ inl (x, rw (known, right, free, failed) refl)
                      | inl (perms, found) ↦ inr (perms, free, rw (known, right, free, found) refl)
                    ]
                  ]
            ]
      ]

  authorize_user-IsUnique :
      IsUnique w.sessions → IsUnique (authorize_user sys username password w).0.sessions
  authorize_user-IsUnique u =
      let v = remove_expired-IsUnique w.sessions u in
      elim authorize_user_cases [
        | inl (x, refused) ↦ rw refused v
        | inr (perms, free, added) ↦
            rw added (add-IsUnique expired v (record { username = username; perms = perms }) free)
      ]

module _ {Disk : Type 0} where
  pub KeepsSessions-unique : {A : Type 0} (m : M Disk A) → KeepsSessions m → KeepsUnique m
  KeepsSessions-unique m h = (
    λ w u. subst (λ (s : Sessions × Option ℕ). IsUnique s.0) (sym (h w)) u,
    λ others w u o. subst (AreOwned others) (sym (h w)) o,
  )

  -- What every bind needs.
  bind_distinct :
      {A B : Type 0} (m : M Disk A) (f : A → M Disk B)
      → KeepsDistinct m
      → ((a : A) → KeepsDistinct (f a))
      → KeepsDistinct (m >>= f)
  bind_distinct {A = A} m f h k w u = go (m w) (h w u)
    where
      go :
          (r : World Disk × Outcome A)
          → IsUnique r.0.sessions
          → IsUnique (continue_with r f).0.sessions
      go (v, ok a) e = k a v e
      go (v, err x) e = e

  bind-IsOwned :
      {A B : Type 0} (f : A → M Disk B) (others : ℕ → ℕ) (r : World Disk × Outcome A)
      → ((a : A) → KeepsOwned (f a))
      → IsUnique r.0.sessions
      → IsOwned others r.0
      → IsOwned others (continue_with r f).0
  bind-IsOwned f others (v, ok a) k u o = k a others v u o
  bind-IsOwned f others (v, err x) k u o = o

  pub bind_unique :
      {A B : Type 0} (m : M Disk A) (f : A → M Disk B)
      → KeepsUnique m
      → ((a : A) → KeepsUnique (f a))
      → KeepsUnique (m >>= f)
  bind_unique m f h k = (
    bind_distinct m f h.0 (λ a. (k a).0),
    λ others w u o. bind-IsOwned f others (m w) (λ a. (k a).1) (h.0 w u) (h.1 others w u o),
  )

  set_auth_token_distinct : (p : ℕ) → KeepsDistinct {Disk = Disk} (set_auth_token (some p))
  unfolding set_auth_token
  set_auth_token_distinct p w u = elim (Option-cases w.client.auth_token) [
    | inl out ↦ rw out u
    | inr (q, held) ↦ rw held (AreUnique-release _ _ p w.sessions.objects u)
  ]

  execute_logout_distinct : KeepsDistinct {Disk = Disk} execute_logout
  unfolding execute_logout logout
  execute_logout_distinct w u = elim (Option-cases w.client.auth_token) [
    | inl out ↦ rw out u
    | inr (q, held) ↦ rw held (AreUnique-release _ _ q w.sessions.objects u)
  ]

  -- A token that nobody else owns becomes the client's, or is let go of.
  set_auth_token-IsOwned :
      (others : ℕ → ℕ) (w : World Disk) (p : ℕ)
      → ((q : ℕ)
          → stored q w.sessions.objects
            ≡ points q (some p) + (points q w.client.auth_token + others q))
      → points p w.client.auth_token + others p ≡ 0
      → IsOwned others (set_auth_token (some p) w).0
  unfolding set_auth_token
  set_auth_token-IsOwned others w p one free = elim (Option-cases w.client.auth_token) [
    | inl out ↦ rw out (λ q. ground (arith, one q, ap (points q) out))
    | inr (r, held) ↦ rw held (λ q. ground (
      arith,
      one q,
      free,
      ap (points q) held,
      ap (points p) held,
      stored-release q p w.sessions.objects,
    ))
  ]

  pub execute_logout_unique : KeepsUnique {Disk = Disk} execute_logout
  unfolding execute_logout logout
  execute_logout_unique = (execute_logout_distinct, λ others w u o. logout-IsOwned others w u o)

  handle_auth_keeps :
      (r : World Disk × Outcome (Unit {0})) → sessions_of (handle_auth r).0 ≡ sessions_of r.0
  unfolding handle_auth count_attempt set_auth_token kill
  handle_auth_keeps (w, ok u) = refl
  handle_auth_keeps (w, err (fatal m)) = refl
  handle_auth_keeps (w, err running) = refl
  handle_auth_keeps (w, err (protocol e)) = ground arith

module _ {Disk : Type 0} (sys : System Disk) where
  lock_root_keeps : KeepsSessions (lock_root sys)
  unfolding lock_root lock_path throw_on_invalid_path insert_path_lock set_path_lock release_lock
  lock_root_keeps w = ground arith

  log_in_distinct : (username password : Bytes) → KeepsDistinct (log_in sys username password)
  unfolding log_in
  log_in_distinct username password =
      bind_distinct (authorize_user sys username password) _
        (authorize_user-IsUnique sys username password)
        λ p.
          bind_distinct (set_auth_token (some p)) _ (set_auth_token_distinct p)
            λ _. (KeepsSessions-unique (lock_root sys) lock_root_keeps).0

  -- The token that `authorize_user` makes is the client's own, or is let go of again.
  log_in-IsOwned : (username password : Bytes) → KeepsOwned (log_in sys username password)
  unfolding log_in
  log_in-IsOwned username password others w u o =
      elim (authorize_user_cases sys username password w) [
        | inl (x, refused) ↦ rw refused o
        | inr (perms, free, added) ↦
            let v : World Disk = record w {
              sessions =
                  add_token (record { username = username; perms = perms })
                    (expired sys username password w);
            } in
            let fresh =
              AreUnique-stored w.sessions.auth_tokens w.sessions.next w.sessions.next
                w.sessions.objects u in
            rw added (
              bind-IsOwned (λ _. lock_root sys) others (set_auth_token (some w.sessions.next) v)
                (λ _. (KeepsSessions-unique (lock_root sys) lock_root_keeps).1)
                (set_auth_token_distinct w.sessions.next v (
                  subst (λ (r : World Disk × Outcome ℕ). IsUnique r.0.sessions) added
                    (authorize_user-IsUnique sys username password w u)))
                (set_auth_token-IsOwned others v w.sessions.next (λ p. ground (arith, o p))
                  (ground (arith, o w.sessions.next, fresh))))
      ]

  pub execute_auth_unique :
      (username password : Bytes) → KeepsUnique (execute_auth sys username password)
  unfolding execute_auth
  execute_auth_unique username password =
      bind_unique (λ w. handle_auth (log_in sys username password w)) _
        (
          λ w u.
              subst (λ (s : Sessions × Option ℕ). IsUnique s.0)
                (sym (handle_auth_keeps (log_in sys username password w)))
                (log_in_distinct username password w u),
          λ others w u o.
              subst (AreOwned others) (sym (handle_auth_keeps (log_in sys username password w)))
                (log_in-IsOwned username password others w u o),
        )
        λ _. (λ w u. u, λ others w u o. o)
