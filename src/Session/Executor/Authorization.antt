-- ===== src/Session/Executor/Authorization.antt =====
-- command_executor.hpp: a request that its client may not make has no effect.
use tin_dox.Prelude.{
  ℕ, ◌++◌, Bool, false, not, Option, none, some, Bytes, codes, equal, err, ◌≡◌, refl, ap, ◌≢◌, ◌⊎◌,
  inl, inr, arith, Option-cases,
}
use tin_dox.Protocol.Error.{ProtocolCode, ProtocolError, protocol, category_message}
use tin_dox.Protocol.Interpreter.{Request}
use tin_dox.Protocol.Response.{error_response}
use tin_dox.System.{System}
use tin_dox.User.Permissions.{Permissions, are_granted}
use tin_dox.Session.Context.{get_auth_token}
use tin_dox.Session.Executor.{
  Command, command_list, command_name, required_perms, requires_authorization, find_command,
  check_authorization, check_permissions, set_command, run_request, Reply, answer, execute_command,
  catch_errors,
}
use tin_dox.Session.State.{World, deref}

-- The permissions of the client's session; `none` where the client is not logged in.
unfoldable pub held_perms : {Disk : Type 0} → World Disk → Option Permissions
held_perms w = elim w.client.auth_token [
  | none ↦ none
  | some p ↦ elim (deref p w.sessions.objects) [ none ↦ none | some token ↦ some token.perms ]
]

-- A client that has a token has one that is alive.
abbrev pub HasLiveToken : {Disk : Type 0} → World Disk → Type 0
HasLiveToken w = (w.client.auth_token ≡ none) ⊎ (held_perms w ≢ none)

-- A client without a session may use the commands that ask for none; one that is logged in may use
-- those whose permissions its session holds.
unfoldable pub may_use : Option Permissions → Option Command → Bool
may_use held none = false
may_use none (some c) = not (requires_authorization c)
may_use (some held) (some c) = are_granted (required_perms c) held

-- The codes of a refusal: no such command, no session, or not enough permissions.
abbrev pub IsRefusal : ProtocolCode → Type 0
IsRefusal code =
    (code ≡ ProtocolCode.bad_command)
    ⊎ (code ≡ ProtocolCode.not_logged_in)
    ⊎ (code ≡ ProtocolCode.not_enough_perms)

-- The error of a refusal, by what the client holds and what it asks for.
pub refusal : Bytes → Option Permissions → Option Command → ProtocolError
refusal wanted held none = record {
  code = ProtocolCode.bad_command;
  message = codes "No such command '" ++ (wanted ++ codes "'");
}
refusal wanted none (some c) = record {
  code = ProtocolCode.not_logged_in;
  message = codes "not logged in";
}
refusal wanted (some held) (some c) = record {
  code = ProtocolCode.not_enough_perms;
  message = codes "not enough permissions";
}

only_entry :
    (name : Bytes) (held : Option Permissions)
    → held ≡ none
    → equal (codes "auth") name ≡ false
    → equal (codes "bye") name ≡ false
    → equal (codes "exit") name ≡ false
    → may_use held (find_command name command_list) ≡ false
unfolding may_use find_command command_name requires_authorization
only_entry name held none_held a b e = ground arith

module _ {Disk : Type 0} where
  set_command_lem :
      (wanted : Bytes) (w : World Disk)
      → HasLiveToken w
      → let held = held_perms w in
        let found = find_command wanted command_list in
        may_use held found ≡ false
        → set_command wanted w ≡ (w, err (protocol (refusal wanted held found)))
  unfolding set_command check_authorization check_permissions get_auth_token held_perms may_use
      refusal category_message
  set_command_lem wanted w t h = elim (Option-cases (find_command wanted command_list)) [
    | inl missing ↦ rw missing refl
    | inr (c, found) ↦ elim (Option-cases w.client.auth_token) [
      | inl out ↦ ground arith
      | inr (p, holds) ↦ elim (Option-cases (deref p w.sessions.objects)) [
        | inl expired ↦ ground arith
        | inr (token, alive) ↦ ground arith
      ]
    ]
  ]

  -- A request that the client may not make changes nothing, not the disk, not a session, not a lock,
  -- and is answered by the error that says why. Whether it may make it is read off its own session
  -- and the command alone.
  pub execute_command-refused :
      (sys : System Disk) (copy_fuel : ℕ) (r : Request) (w : World Disk)
      → HasLiveToken w
      → let held = held_perms w in
        let found = find_command r.name command_list in
        may_use held found ≡ false
        → execute_command sys copy_fuel r w
          ≡ (w, answer (error_response r.name (refusal r.name held found)))
  unfolding execute_command run_request catch_errors
  execute_command-refused sys copy_fuel r w t h = rw (set_command_lem r.name w t h)

  -- Whoever is not logged in can log in or leave, and do nothing else.
  pub execute_command-logged_out :
      (sys : System Disk) (copy_fuel : ℕ) (r : Request) (w : World Disk)
      → w.client.auth_token ≡ none
      → equal (codes "auth") r.name ≡ false
      → equal (codes "bye") r.name ≡ false
      → equal (codes "exit") r.name ≡ false
      → (execute_command sys copy_fuel r w).0 ≡ w
  unfolding held_perms
  execute_command-logged_out sys copy_fuel r w out a b e =
      ap (λ (p : World Disk × Reply). p.0)
        (execute_command-refused sys copy_fuel r w (inl out)
          (only_entry r.name (held_perms w) (rw out) a b e))
