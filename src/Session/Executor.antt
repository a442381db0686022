-- ===== src/Session/Executor.antt =====
-- command_executor.hpp and default_command_executor.hpp, with `Client::execute_command` of client.cpp:
-- which command runs for a request, whether it may, and what the client is answered.
pub mod Authorization
pub mod Exclusive
pub mod Frame
pub mod Parsers
pub mod Sessions
use tin_dox.Prelude.{
  ℕ, List, [], ◌∷◌, ◌++◌, Bool, true, false, not, ◌&&◌, ◌||◌, Option, none, some, if◌then◌else◌,
  Bytes, codes, equal, ok, err,
}
use tin_dox.Protocol.Error.{
  ProtocolCode, ProtocolError, Error, protocol, fatal, running, Outcome, fail, fail_with,
}
use tin_dox.Protocol.Field.{Field}
use tin_dox.Protocol.Interpreter.{Request}
use tin_dox.Protocol.Response.{Response, new_builder, get_response, error_response}
use tin_dox.System.{System}
use tin_dox.User.Permissions.{
  Permissions, no_perms, write_perm, copy_perm, move_perm, download_perm, upload_perm, are_granted,
}
use tin_dox.Session.Arguments.{parse_path_field, parse_transport}
use tin_dox.Session.Commands.Account.{
  parse_auth, execute_auth, execute_exit, execute_logout, execute_name, execute_perms,
}
use tin_dox.Session.Commands.Browse.{
  parse_cd, execute_cd, parse_ls, execute_ls, execute_pwd, execute_tree,
}
use tin_dox.Session.Commands.Files.{
  parse_name_field, parse_rename, execute_mkdir, execute_rm, execute_rename, execute_cp, execute_mv,
}
use tin_dox.Session.Commands.Transfer.{parse_dl, parse_ul, execute_dl, execute_dls, execute_ul}
use tin_dox.Session.Context.{is_authorized, get_auth_token}
use tin_dox.Session.State.{
  ProtocolMode, command, download, upload, World, M, ◌>>=◌, ◌>>◌, return, raise, get, done,
  refuse_if, optional,
}

-- The commands of `DefaultCommandExecutor`, by their classes.
pub data Command : Type 0 where
  auth bye cd cp dl dls exit logout ls mkdir mv name perms pwd rename rm tree ul : Command

abbrev pub command_list : List Command
command_list =
    Command.auth ∷ bye ∷ cd ∷ cp ∷ dl ∷ dls ∷ exit ∷ logout ∷ ls ∷ mkdir ∷ mv ∷ Command.name ∷ perms
    ∷ pwd ∷ rename ∷ rm ∷ tree ∷ ul ∷ []

-- `T::name`.
unfoldable pub command_name : Command → Bytes
command_name auth = codes "auth"
command_name bye = codes "bye"
command_name cd = codes "cd"
command_name cp = codes "cp"
command_name dl = codes "dl"
command_name dls = codes "dls"
command_name exit = codes "exit"
command_name logout = codes "logout"
command_name ls = codes "ls"
command_name mkdir = codes "mkdir"
command_name mv = codes "mv"
command_name name = codes "name"
command_name perms = codes "perms"
command_name pwd = codes "pwd"
command_name rename = codes "rename"
command_name rm = codes "rm"
command_name tree = codes "tree"
command_name ul = codes "ul"

-- `T::required_perms`.
unfoldable pub required_perms : Command → Permissions
required_perms cp = copy_perm
required_perms dl = download_perm
required_perms dls = download_perm
required_perms mkdir = write_perm
required_perms mv = move_perm
required_perms rename = write_perm
required_perms rm = write_perm
required_perms ul = upload_perm
required_perms _ = no_perms

-- `T::requires_authorization`.
unfoldable pub requires_authorization : Command → Bool
requires_authorization auth = false
requires_authorization bye = false
requires_authorization exit = false
requires_authorization _ = true

-- `construct_command`: the first alternative of that name.
unfoldable pub find_command : Bytes → List Command → Option Command
find_command wanted [] = none
find_command wanted (c ∷ cs) =
    if equal (command_name c) wanted then some c else find_command wanted cs

module _ {Disk : Type 0} where
  unfoldable pub check_authorization : Command → M Disk (Unit {0})
  check_authorization c = do
    w ← get
    refuse_if (requires_authorization c && not (is_authorized w.client))
        (fail ProtocolCode.not_logged_in)

  unfoldable pub check_permissions : Command → M Disk (Unit {0})
  check_permissions c = do
    w ← get
    if is_authorized w.client
        then (get_auth_token >>= λ token.
            refuse_if (not (are_granted (required_perms c) token.perms))
              (fail ProtocolCode.not_enough_perms))
        else done

  unfoldable pub set_command : Bytes → M Disk Command
  set_command wanted =
      optional (find_command wanted command_list)
        (raise
          (fail_with ProtocolCode.bad_command (codes "No such command '" ++ (wanted ++ codes "'"))))
        λ c. check_authorization c >> (check_permissions c >> return c)

-- `parse_fields` and `execute`, and the lines that the command has added to its answer.
module _ {Disk : Type 0} (sys : System Disk) (copy_fuel : ℕ) where
  unfoldable pub run_command : Command → List Field → M Disk Bytes
  run_command auth fields =
      parse_auth fields none none >>= λ (username, password). execute_auth sys username password
  run_command bye fields = execute_exit
  run_command cd fields = parse_cd sys fields >>= execute_cd sys
  run_command cp fields =
      parse_transport sys fields >>= λ (file, path). execute_cp sys copy_fuel file path
  run_command dl fields =
      parse_dl sys fields none 0 >>= λ (file, offset). execute_dl sys file offset
  run_command dls fields = execute_dls
  run_command exit fields = execute_exit
  run_command logout fields = execute_logout
  run_command ls fields = parse_ls sys fields >>= λ (path, flags). execute_ls sys path flags
  run_command mkdir fields = parse_name_field fields none >>= execute_mkdir sys
  run_command mv fields = parse_transport sys fields >>= λ (file, path). execute_mv sys file path
  run_command name fields = execute_name
  run_command perms fields = execute_perms
  run_command pwd fields = execute_pwd sys
  run_command rename fields =
      parse_rename fields none none >>= λ (oname, nname). execute_rename sys oname nname
  run_command rm fields = parse_name_field fields none >>= execute_rm sys
  run_command tree fields = parse_path_field sys fields >>= execute_tree sys
  run_command ul fields =
      parse_ul fields (record { name = none; size = none; retry = false })
      >>= λ (file, size, retry). execute_ul sys file size retry

  -- The answer of a command that has run, `m_command_executor.get_response()`.
  unfoldable pub run_request : Request → M Disk Response
  run_request r = do
    c ← set_command r.name
    lines ← run_command c r.fields
    return (
        get_response
          (record { code = ProtocolCode.ok; command_name = command_name c; lines = lines }))

-- What the client's loop does next: it queues an answer, hands the socket to a download, or queues
-- an answer and hands what arrives to an upload. An exception of another class ends the connection.
pub data Reply : Type 0 where
  answer : Response → Reply
  start_download : Reply
  start_upload : Response → Reply
  broken : Error → Reply

unfoldable pub reply_in : ProtocolMode → Response → Reply
reply_in command r = answer r
reply_in download r = start_download
reply_in upload r = start_upload r

module _ {Disk : Type 0} where
  unfoldable pub catch_errors : Bytes → World Disk × Outcome Response → World Disk × Reply
  catch_errors request_name (w, ok r) = (w, reply_in w.client.mode r)
  catch_errors request_name (w, err (protocol e)) = (w, answer (error_response request_name e))
  catch_errors request_name (w, err (fatal m)) = (w, broken (fatal m))
  catch_errors request_name (w, err running) = (w, broken running)

  unfoldable pub execute_command : System Disk → ℕ → Request → World Disk → World Disk × Reply
  execute_command sys copy_fuel r w = catch_errors r.name (run_request sys copy_fuel r w)
