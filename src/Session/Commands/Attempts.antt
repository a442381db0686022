-- ===== src/Session/Commands/Attempts.antt =====
-- auth.cpp: the third attempt that fails ends the connection.
use tin_dox.Prelude.{false, ◌≡◌, ap, ◌∙◌, ◌⊎◌, inl, inr, arith, Bytes, ok, err, ◌==◌, if◌then◌else◌}
use tin_dox.Protocol.Error.{ProtocolCode, Outcome, fail}
use tin_dox.System.{System}
use tin_dox.User.Hash.{Crypt}
use tin_dox.User.Table.{UserTable, has_user, verify_password_of_user}
use tin_dox.Session.Commands.Account.{
  log_in, handle_auth, count_attempt, is_invalid_credentials, execute_auth, max_try_count,
}
use tin_dox.Session.Context.{authorize_user, set_auth_token, kill, next_try_count}
use tin_dox.Session.State.{World, remove_expired}

-- No user has that name, or the password is another.
abbrev pub AreWrong : Crypt → UserTable → Bytes × Bytes → Type 0
AreWrong crypt users c =
    (has_user users c.0 ≡ false) ⊎ (verify_password_of_user crypt users c.0 c.1 ≡ ok false)

module _ {Disk : Type 0} (sys : System Disk) where
  -- The state behind an attempt that has failed.
  abbrev failed : World Disk → World Disk
  failed w =
      let count = next_try_count w.client.auth_try_count in
      record w {
        sessions = record w.sessions {
          auth_tokens = remove_expired w.sessions.objects w.sessions.auth_tokens;
        };
        client = record w.client {
          auth_try_count = count;
          alive = if count == max_try_count then false else w.client.alive;
        };
      }

  execute_auth-failed :
      (w : World Disk) (username password : Bytes)
      → AreWrong sys.crypt w.users (username, password)
      → execute_auth sys username password w
        ≡ (failed w, err (fail ProtocolCode.invalid_credentials))
  unfolding execute_auth log_in authorize_user handle_auth count_attempt is_invalid_credentials
      set_auth_token kill
  execute_auth-failed w username password (inl unknown) = ground arith
  execute_auth-failed w username password (inr wrong) = ground arith

  abbrev pub attempt : Bytes × Bytes → World Disk → World Disk
  attempt c w = (execute_auth sys c.0 c.1 w).0

  -- From a client that has not failed yet, two attempts with wrong credentials leave the connection
  -- as it is, and the third ends it. None of them opens a session.
  pub three_attempts :
      (w : World Disk) (a b c : Bytes × Bytes)
      → w.client.auth_try_count ≡ 0
      → AreWrong sys.crypt w.users a
      → AreWrong sys.crypt w.users b
      → AreWrong sys.crypt w.users c
      → let two = attempt b (attempt a w) in
        let three = attempt c two in
        (two.client.alive ≡ w.client.alive)
        × (three.client.alive ≡ false)
        × (three.client.auth_token ≡ w.client.auth_token)
        × (three.sessions.objects ≡ w.sessions.objects)
  three_attempts w a b c zero wa wb wc =
      let one = ap (λ (r : World Disk × Outcome Bytes). r.0) (execute_auth-failed w a.0 a.1 wa) in
      let two =
        ap (attempt b) one
        ∙ ap (λ (r : World Disk × Outcome Bytes). r.0)
            (execute_auth-failed (failed w) b.0 b.1 wb) in
      let three =
        ap (attempt c) two
        ∙ ap (λ (r : World Disk × Outcome Bytes). r.0)
            (execute_auth-failed (failed (failed w)) c.0 c.1 wc) in
      (
        ap (λ (v : World Disk). v.client.alive) two ∙ ground arith,
        ap (λ (v : World Disk). v.client.alive) three ∙ ground arith,
        ap (λ (v : World Disk). v.client.auth_token) three,
        ap (λ (v : World Disk). v.sessions.objects) three,
      )
