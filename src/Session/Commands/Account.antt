-- ===== src/Session/Commands/Account.antt =====
-- auth.cpp, exit.cpp, bye.hpp, logout.cpp, name.cpp and perms.cpp: who the client is.
use tin_dox.Prelude.{
  ℕ, List, [], ◌∷◌, ◌++◌, Bool, true, false, Option, none, some, if◌then◌else◌, ◌==◌, Bytes, codes,
  equal, ok, err,
}
use tin_dox.Protocol.Error.{ProtocolCode, ProtocolError, protocol, fatal, running, Outcome}
use tin_dox.Protocol.Field.{Field, FieldValue, get_string}
use tin_dox.System.{System}
use tin_dox.User.Permissions.{to_string}
use tin_dox.Session.Arguments.{bad_field, invalid_value}
use tin_dox.Session.Context.{
  is_some, kill, set_auth_token, get_auth_token, logout, set_path_lock, authorize_user, lock_path,
}
use tin_dox.Session.State.{
  World, M, ◌>>=◌, ◌>>◌, return, raise, get, done, refuse_if, optional, continue_with,
}

-- The lines of an answer, as the response builder holds them.
abbrev pub line : Bytes → Bytes
line text = text ++ b'\n' ∷ []

abbrev pub max_try_count : ℕ
max_try_count = 3

-- `exception.get_code() == ProtocolCode::invalid_credentials`.
unfoldable pub is_invalid_credentials : ProtocolCode → Bool
is_invalid_credentials ProtocolCode.invalid_credentials = true
is_invalid_credentials _ = false

module _ {Disk : Type 0} where
  -- `parse_username` and `parse_password`, with the name that their messages have.
  unfoldable pub parse_credential : Bytes → Option Bytes → FieldValue → M Disk Bytes
  parse_credential name seen value = do
    refuse_if (is_some seen) (bad_field (name ++ codes " was already set"))
    optional (get_string value)
        (raise (invalid_value (name ++ codes " field has invalid value type"))) return

  unfoldable pub parse_auth : List Field → Option Bytes → Option Bytes → M Disk (Bytes × Bytes)
  parse_auth [] username password =
      optional username (raise (bad_field (codes "login field is missing"))) λ u.
        optional password (raise (bad_field (codes "passwd field is missing"))) λ p. return (u, p)
  parse_auth (f ∷ fs) username password =
      let as_login = parse_credential (codes "login") username f.value >>= λ u.
      parse_auth fs (some u) password in
      let as_passwd = parse_credential (codes "passwd") password f.value >>= λ p.
      parse_auth fs username (some p) in
      let skipped = parse_auth fs username password in
      if equal f.name (codes "login")
      then as_login
      else if equal f.name (codes "passwd")
      then as_passwd
      else skipped

  -- The handler of `Auth::execute`: a failed attempt counts, and the third closes the connection.
  unfoldable pub count_attempt : ProtocolError → M Disk (Unit {0})
  count_attempt e =
      let counted =
        set_auth_token none
        >> (get >>= λ w. if w.client.auth_try_count == max_try_count then kill else done) in
      if is_invalid_credentials e.code then counted else done

  -- `catch(const ProtocolError& e) { ...; throw; }`.
  unfoldable pub handle_auth : World Disk × Outcome (Unit {0}) → World Disk × Outcome (Unit {0})
  handle_auth (w, ok u) = (w, ok u)
  handle_auth (w, err (fatal m)) = (w, err (fatal m))
  handle_auth (w, err running) = (w, err running)
  handle_auth (w, err (protocol e)) = continue_with (count_attempt e w) λ _. raise (protocol e)

  unfoldable pub execute_logout : M Disk Bytes
  execute_logout = do logout; return []

  unfoldable pub execute_exit : M Disk Bytes
  execute_exit = do kill; return []

  unfoldable pub execute_name : M Disk Bytes
  execute_name = do token ← get_auth_token; return (line token.username)

  unfoldable pub execute_perms : M Disk Bytes
  execute_perms = do token ← get_auth_token; return (line (to_string token.perms))

module _ {Disk : Type 0} (sys : System Disk) where
  -- The second statement of `Auth::execute`: the client stands in the root.
  unfoldable pub lock_root : M Disk (Unit {0})
  lock_root = do w ← get; lock ← lock_path sys w.root; set_path_lock lock

  unfoldable pub log_in : Bytes → Bytes → M Disk (Unit {0})
  log_in username password = do
    token ← authorize_user sys username password
    set_auth_token (some token)
    lock_root

  unfoldable pub execute_auth : Bytes → Bytes → M Disk Bytes
  execute_auth username password w =
      continue_with (handle_auth (log_in username password w)) λ _. return []
