-- ===== src/Cli/User.antt =====
-- server/src/cli/user_command.cpp and user_commands: the commands of `tds user`.
pub mod Passwd
use Prim.Native.Nat.{bit_and, bit_or}
use tin_dox.Prelude.{
  ℕ, zero, suc, Bool, true, false, List, [], ◌∷◌, ◌++◌, Option, none, some, ◌==◌, if◌then◌else◌,
  Bytes, codes, equal, ok, err, ◌>>=◌,
}
use tin_dox.Protocol.Error.{Outcome, Error, fatal}
use tin_dox.User.Hash.{Crypt}
use tin_dox.User.Permissions.{Permissions, no_perms, complement, perms_from_string}
use tin_dox.User.Table.{
  UserTable, is_username_ok, is_password_ok, has_user, add_user, remove_user,
  get_password_hash_of_user, verify_password_of_user, set_password_of_user, get_perms_of_user,
  set_perms_of_user,
}

-- `InvalidCommandArgumentsError` and `InvalidCommandExecutionError`, by their messages.
abbrev pub invalid_arguments : {A : Type 0} → Bytes → Outcome A
invalid_arguments message = err (fatal message)

abbrev pub max_try_count : ℕ
max_try_count = 3

abbrev pub too_many_attempts : {A : Type 0} → Outcome A
too_many_attempts = err (fatal (codes "too many attempts (max is 3)"))

-- What a prompt has read, and the lines that are left of the input.
abbrev pub Input : Type 0
Input = Bytes × List Bytes

-- `std::getline`: behind the end of the input the string is empty.
abbrev pub get_line : List Bytes → Input
get_line [] = ([], [])
get_line (line ∷ lines) = (line, lines)

-- The loops of the prompts, by the attempts that are left and a test that may throw.
unfoldable pub read_line : (Bytes → Outcome Bool) → ℕ → List Bytes → Outcome Input
read_line test zero lines = too_many_attempts
read_line test (suc n) lines =
    let (line, rest) = get_line lines in
    let later = read_line test n rest in
    test line >>= λ is_ok. if is_ok then ok (line, rest) else later

-- `tds user add`.
unfoldable pub execute_add : Crypt → List Bytes → UserTable → Outcome UserTable
unfolding read_line
execute_add crypt lines t =
    read_line (λ name. ok (is_username_ok name)) max_try_count lines >>= λ username.
    if has_user t username.0
    then err (fatal (codes "user named '" ++ (username.0 ++ codes "' already exists")))
    else (read_line (λ password. ok (is_password_ok password)) max_try_count username.1
        >>= λ password.
            read_line (λ repeated. ok (equal repeated password.0)) max_try_count password.1
            >>= λ repeated. add_user crypt t username.0 password.0)

-- `tds user passwd`.
unfoldable pub execute_passwd : Crypt → Bytes → List Bytes → UserTable → Outcome UserTable
unfolding read_line
execute_passwd crypt username lines t =
    get_password_hash_of_user t username >>= λ old_password_hash.
    read_line (verify_password_of_user crypt t username) max_try_count lines >>= λ old_password.
    read_line (λ password. ok (is_password_ok password)) max_try_count old_password.1
    >>= λ new_password.
        read_line (λ repeated. ok (equal repeated new_password.0)) max_try_count new_password.1
        >>= λ repeated. set_password_of_user crypt t username new_password.0

-- `m_new_perms` and `m_taken_perms`.
pub record PermsChange : Type 0 where
  pub new_perms : Permissions
  pub taken_perms : Permissions

abbrev pub no_change : PermsChange
no_change = record { new_perms = no_perms; taken_perms = no_perms }

abbrev pub invalid_flag : Bytes
invalid_flag = codes "invalid flag "

-- One flag, which is not empty.
unfoldable pub parse_flag : ℕ → Bytes → PermsChange → Outcome PermsChange
parse_flag sign symbols change =
    if sign == b'-'
    then (perms_from_string symbols >>= λ perms.
        ok (record change { taken_perms = bit_or change.taken_perms perms }))
    else if sign == b'+'
    then (perms_from_string symbols >>= λ perms.
        ok (record change { new_perms = bit_or change.new_perms perms }))
    else invalid_arguments (invalid_flag ++ (sign ∷ symbols))

-- The flags in order; an empty one is left out.
unfoldable pub parse_flags : List Bytes → PermsChange → Outcome PermsChange
unfolding parse_flag
parse_flags [] change = ok change
parse_flags ([] ∷ flags) change = parse_flags flags change
parse_flags ((sign ∷ symbols) ∷ flags) change =
    parse_flag sign symbols change >>= λ next. parse_flags flags next

-- `(perms | m_new_perms) & ~m_taken_perms`.
abbrev pub change_perms : PermsChange → Permissions → Permissions
change_perms change perms = bit_and (bit_or perms change.new_perms) (complement change.taken_perms)

-- `tds user perms`, behind its arguments.
unfoldable pub execute_perms : Bytes → PermsChange → UserTable → Outcome UserTable
execute_perms username change t = get_perms_of_user t username >>= λ perms.
    set_perms_of_user t username (change_perms change perms)

-- A subcommand with its arguments, as `parse_arguments` leaves it.
pub data Subcommand : Type 0 where
  add : Subcommand
  passwd remove : (username : Bytes) → Subcommand
  perms : (username : Bytes) (change : PermsChange) → Subcommand

parse_add : List Bytes → Outcome Subcommand
parse_add [] = ok add
parse_add _ = invalid_arguments (codes "user add command does not take any arguments")

parse_passwd : List Bytes → Outcome Subcommand
parse_passwd (username ∷ []) = ok (passwd username)
parse_passwd _ = invalid_arguments (codes "user passwd takes username as argument")

parse_remove : List Bytes → Outcome Subcommand
parse_remove (username ∷ []) = ok (remove username)
parse_remove _ = invalid_arguments (codes "user remove takes username as argument")

parse_perms : List Bytes → Outcome Subcommand
unfolding parse_flags
parse_perms (username ∷ flag ∷ flags) =
    parse_flags (flag ∷ flags) no_change >>= λ change. ok (perms username change)
parse_perms _ = invalid_arguments (codes "too few arguments")

-- `CommandExecutor::set_command` and `parse_arguments`, by the name of the subcommand.
unfoldable pub parse_subcommand : Bytes → List Bytes → Outcome Subcommand
unfolding parse_add parse_passwd parse_remove parse_perms
parse_subcommand name args =
    if equal name (codes "add")
    then parse_add args
    else if equal name (codes "passwd")
    then parse_passwd args
    else if equal name (codes "perms")
    then parse_perms args
    else if equal name (codes "remove")
    then parse_remove args
    else invalid_arguments (codes "no such command: " ++ name)

-- The table that is committed where nothing is thrown.
unfoldable pub execute_subcommand : Crypt → List Bytes → UserTable → Subcommand → Outcome UserTable
unfolding execute_add execute_passwd execute_perms
execute_subcommand crypt lines t add = execute_add crypt lines t
execute_subcommand crypt lines t (passwd username) = execute_passwd crypt username lines t
execute_subcommand crypt lines t (perms username change) = execute_perms username change t
execute_subcommand crypt lines t (remove username) = remove_user t username

-- `UserCommand::execute`, over the arguments behind the directory, and the input.
unfoldable pub execute_user_command :
    Crypt → Bytes → List Bytes → List Bytes → UserTable → Outcome UserTable
unfolding parse_subcommand execute_subcommand
execute_user_command crypt name args lines t =
    parse_subcommand name args >>= λ c. execute_subcommand crypt lines t c
