-- ===== src/Cli/Tests.antt =====
-- The commands of `tds` on concrete arguments, users and input.
use tin_dox.Prelude.{
  ℕ, suc, drop, List, [], ◌∷◌, none, some, true, ◌≡◌, refl, Bytes, codes, equal, ok, if◌then◌else◌,
}
use tin_dox.Cli.Run.{new_run_command, parse_arguments}
use tin_dox.Cli.User.{
  execute_passwd, execute_user_command, max_try_count, read_line, too_many_attempts,
}
use tin_dox.Cli.User.Passwd.{line_at, IsAnswer, execute_passwd_lem}
use tin_dox.Prelude.Decimal.{digits_value}
use tin_dox.User.Hash.{Crypt, hash}
use tin_dox.User.Permissions.{perms_from_string}
use tin_dox.User.Table.{
  UserData, UserTable, find_user, is_password_ok, verify_password_of_user,
  get_password_hash_of_user, get_user, set_password_of_user, update_user, get_perms_of_user,
  set_perms_of_user, has_user, add_user, is_username_ok,
}

-- A hash that is the word itself.
abbrev plain : Crypt
plain word salt = some word

abbrev ada : UserData
ada = record { name = codes "ada"; password_hash = codes "old"; perms = 16 }

abbrev bob : UserData
bob = record { name = codes "bob"; password_hash = codes "b"; perms = 2 }

-- The old password at the second attempt, and the new one twice.
abbrev typed : List Bytes
typed = codes "odl" ∷ codes "old" ∷ codes "new" ∷ codes "new" ∷ []

abbrev changed : UserTable
changed = record ada { password_hash = codes "new" } ∷ bob ∷ []

passwd_runs : execute_passwd plain (codes "ada") typed (ada ∷ bob ∷ []) ≡ ok changed
unfolding execute_passwd get_password_hash_of_user get_user find_user equal read_line
    verify_password_of_user hash is_password_ok set_password_of_user update_user
passwd_runs = refl

execute_passwd_lem_example :
    (i : ℕ) × (j : ℕ) × (k : ℕ) × (let new = line_at j (drop (suc i) typed) in
      IsAnswer (verify_password_of_user plain (ada ∷ bob ∷ []) (codes "ada")) max_try_count i typed
      × IsAnswer (λ line. ok (is_password_ok line)) max_try_count j (drop (suc i) typed)
      × IsAnswer (λ line. ok (equal line new)) max_try_count k (drop (suc j) (drop (suc i) typed))
      × (verify_password_of_user plain changed (codes "ada") new ≡ ok true)
      × ((name : Bytes)
          → (if equal (codes "ada") name then none else find_user name changed)
            ≡ (if equal (codes "ada") name then none else find_user name (ada ∷ bob ∷ []))))
execute_passwd_lem_example =
    execute_passwd_lem plain (codes "ada") typed (ada ∷ bob ∷ []) changed passwd_runs

three_wrong_passwords :
    execute_passwd plain
      (codes "ada")
      (codes "a" ∷ codes "b" ∷ codes "c" ∷ codes "old" ∷ [])
      (ada ∷ bob ∷ [])
    ≡ too_many_attempts
unfolding execute_passwd get_password_hash_of_user get_user find_user equal read_line
    verify_password_of_user hash
three_wrong_passwords = refl

perms_run :
    execute_user_command plain
      (codes "perms")
      (codes "bob" ∷ codes "+cd" ∷ codes "-w" ∷ [])
      []
      (ada ∷ bob ∷ [])
    ≡ ok (ada ∷ record bob { perms = 20 } ∷ [])
unfolding execute_user_command equal perms_from_string get_perms_of_user get_user find_user
    set_perms_of_user update_user
perms_run = refl

-- Only letters, digits and the underscore are allowed, but no name at all is, too.
empty_name_is_added :
    execute_user_command plain (codes "add") [] (codes "" ∷ codes "p" ∷ codes "p" ∷ []) []
    ≡ ok (record { name = []; password_hash = codes "p"; perms = 16 } ∷ [])
unfolding execute_user_command equal has_user find_user add_user hash is_username_ok is_password_ok
empty_name_is_added = refl

port_is_read :
    parse_arguments
      (λ path. true)
      (λ path. path)
      (codes "--debug" ∷ codes "-p" ∷ codes "8080" ∷ [])
      new_run_command
    ≡ ok (record { port = some 8080; config_directory = none; debug_mode = true })
unfolding parse_arguments equal digits_value
port_is_read = refl
