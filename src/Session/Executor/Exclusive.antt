-- ===== src/Session/Executor/Exclusive.antt =====
-- client.cpp and command_executor.hpp: the sessions of the server, over whole requests.
use tin_dox.Prelude.{ℕ, List, none, ◌≡◌, refl, arith, Bytes, ok, err, ap, subst, sym}
use tin_dox.Protocol.Error.{Outcome, protocol, fatal, running}
use tin_dox.Protocol.Field.{Field}
use tin_dox.Protocol.Interpreter.{Request}
use tin_dox.Protocol.Response.{Response}
use tin_dox.System.{System}
use tin_dox.Session.Arguments.{parse_path_field, parse_transport}
use tin_dox.Session.Commands.Account.{parse_auth, execute_exit, execute_name, execute_perms}
use tin_dox.Session.Commands.Browse.{parse_cd, parse_ls, execute_pwd}
use tin_dox.Session.Commands.Files.{parse_name_field, parse_rename}
use tin_dox.Session.Commands.Transfer.{parse_dl, parse_ul, execute_dls}
use tin_dox.Session.Context.{kill, get_auth_token, set_mode}
use tin_dox.Session.Executor.{
  Command, auth, bye, cd, cp, dl, dls, exit, logout, ls, mkdir, mv, name, perms, pwd, rename, rm,
  tree, ul, run_command, set_command, check_authorization, check_permissions, run_request,
  catch_errors, execute_command,
}
use tin_dox.Session.Executor.Frame.{
  KeepsSessions, continue_with_keeps, parse_name_field_keeps, execute_mkdir_keeps, execute_rm_keeps,
  execute_rename_keeps, execute_mv_keeps, execute_cp_keeps, parse_path_field_keeps,
  parse_transport_keeps, execute_pwd_keeps, execute_cd_keeps, execute_dl_keeps, execute_ls_keeps,
  execute_tree_keeps, execute_ul_keeps, parse_cd_keeps, parse_ls_keeps,
}
use tin_dox.Session.Executor.Parsers.{
  parse_rename_keeps, parse_auth_keeps, parse_ul_keeps, parse_dl_keeps,
}
use tin_dox.Session.Executor.Sessions.{
  KeepsUnique, KeepsSessions-unique, bind_unique, execute_logout_unique, execute_auth_unique,
}
use tin_dox.Session.State.{World, M, ◌>>=◌}
use tin_dox.Session.Owned.{IsOwned}
use tin_dox.Session.Unique.{IsUnique}

module _ {Disk : Type 0} where
  simple_keeps :
      KeepsSessions {Disk = Disk} execute_exit
      × KeepsSessions {Disk = Disk} execute_name
      × KeepsSessions {Disk = Disk} execute_perms
      × KeepsSessions {Disk = Disk} execute_dls
  unfolding execute_exit kill execute_name execute_perms get_auth_token execute_dls set_mode
  simple_keeps = (λ w. refl, λ w. ground arith, λ w. ground arith, λ w. ground arith)

  set_command_keeps : (wanted : Bytes) → KeepsSessions {Disk = Disk} (set_command wanted)
  unfolding set_command check_authorization check_permissions get_auth_token
  set_command_keeps wanted w = ground arith

module _ {Disk : Type 0} (sys : System Disk) (copy_fuel : ℕ) where
  parsed_keeps :
      {A : Type 0} (m : M Disk A) (f : A → M Disk Bytes)
      → KeepsSessions m
      → ((a : A) → KeepsSessions (f a))
      → KeepsUnique (m >>= f)
  parsed_keeps m f h k = KeepsSessions-unique (m >>= f) (continue_with_keeps m f h k)

  run_command_unique :
      (c : Command) (fs : List Field) → KeepsUnique (run_command sys copy_fuel c fs)
  unfolding run_command
  run_command_unique auth fs =
      bind_unique (parse_auth fs none none) _
        (KeepsSessions-unique (parse_auth fs none none) (parse_auth_keeps fs none none))
        λ (u, p). execute_auth_unique sys u p
  run_command_unique bye fs = KeepsSessions-unique execute_exit simple_keeps.0
  run_command_unique cd fs =
      parsed_keeps (parse_cd sys fs) _ (parse_cd_keeps sys fs) (execute_cd_keeps sys)
  run_command_unique cp fs =
      parsed_keeps (parse_transport sys fs) _ (parse_transport_keeps sys fs)
        λ (file, path). execute_cp_keeps sys copy_fuel file path
  run_command_unique dl fs =
      parsed_keeps (parse_dl sys fs none 0) _ (parse_dl_keeps sys fs none 0)
        λ (file, offset). execute_dl_keeps sys file offset
  run_command_unique dls fs = KeepsSessions-unique execute_dls simple_keeps.3
  run_command_unique exit fs = KeepsSessions-unique execute_exit simple_keeps.0
  run_command_unique logout fs = execute_logout_unique
  run_command_unique ls fs =
      parsed_keeps (parse_ls sys fs) _ (parse_ls_keeps sys fs)
        λ (path, flags). execute_ls_keeps sys path flags
  run_command_unique mkdir fs =
      parsed_keeps (parse_name_field fs none) _ (parse_name_field_keeps fs none)
        (execute_mkdir_keeps sys)
  run_command_unique mv fs =
      parsed_keeps (parse_transport sys fs) _ (parse_transport_keeps sys fs)
        λ (file, path). execute_mv_keeps sys file path
  run_command_unique name fs = KeepsSessions-unique execute_name simple_keeps.1
  run_command_unique perms fs = KeepsSessions-unique execute_perms simple_keeps.2
  run_command_unique pwd fs = KeepsSessions-unique (execute_pwd sys) (execute_pwd_keeps sys)
  run_command_unique rename fs =
      parsed_keeps (parse_rename fs none none) _ (parse_rename_keeps fs none none)
        λ (o, n). execute_rename_keeps sys o n
  run_command_unique rm fs =
      parsed_keeps (parse_name_field fs none) _ (parse_name_field_keeps fs none)
        (execute_rm_keeps sys)
  run_command_unique tree fs =
      parsed_keeps (parse_path_field sys fs) _ (parse_path_field_keeps sys fs)
        (execute_tree_keeps sys)
  run_command_unique ul fs =
      parsed_keeps (parse_ul fs _) _ (parse_ul_keeps fs _)
        λ (file, size, retry). execute_ul_keeps sys file size retry

  catch_errors_keeps :
      (request_name : Bytes) (r : World Disk × Outcome Response)
      → (catch_errors request_name r).0 ≡ r.0
  unfolding catch_errors
  catch_errors_keeps request_name (w, ok r) = refl
  catch_errors_keeps request_name (w, err (protocol e)) = refl
  catch_errors_keeps request_name (w, err (fatal m)) = refl
  catch_errors_keeps request_name (w, err running) = refl

  run_request_unique : (r : Request) → KeepsUnique (run_request sys copy_fuel r)
  unfolding run_request
  run_request_unique r =
      bind_unique (set_command r.name) _
        (KeepsSessions-unique (set_command r.name) (set_command_keeps r.name))
        λ c.
          bind_unique (run_command sys copy_fuel c r.fields) _ (run_command_unique c r.fields)
            λ lines. (λ w u. u, λ others w u o. o)

  -- Whatever a client asks for, logging in and out included, and however the request ends: of the
  -- sessions that are alive on the server, no two have the same user name, and every one of them is
  -- listed there.
  pub execute_command-IsUnique :
      (r : Request) (w : World Disk)
      → IsUnique w.sessions
      → IsUnique (execute_command sys copy_fuel r w).0.sessions
  unfolding execute_command
  execute_command-IsUnique r w u =
      subst IsUnique
        (sym (
          ap (λ (v : World Disk). v.sessions)
            (catch_errors_keeps r.name (run_request sys copy_fuel r w))))
        ((run_request_unique r).0 w u)

  -- Every live session keeps its one owner, whatever a client asks for and however the request ends:
  -- a login adds one for this client, a logout takes this client's away, and no other is touched.
  pub execute_command-IsOwned :
      (r : Request) (others : ℕ → ℕ) (w : World Disk)
      → IsUnique w.sessions
      → IsOwned others w
      → IsOwned others (execute_command sys copy_fuel r w).0
  unfolding execute_command
  execute_command-IsOwned r others w u o =
      subst (IsOwned others) (sym (catch_errors_keeps r.name (run_request sys copy_fuel r w)))
        ((run_request_unique r).1 others w u o)
