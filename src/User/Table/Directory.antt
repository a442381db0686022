-- ===== src/User/Table/Directory.antt =====
-- user_table.cpp: the table as a function from names, which forgets the order of the users.
use tin_dox.Prelude.{
  Bool, true, false, List, [], ◌∷◌, Option, none, some, if◌then◌else◌, Bytes, equal, ok, err, ◌>>=◌,
}
use tin_dox.Protocol.Error.{Outcome}
use tin_dox.User.Hash.{Crypt, hash}
use tin_dox.User.Permissions.{Permissions, initial_perms}
use tin_dox.User.Table.{
  UserData, UserTable, find_user, no_such_user, add_user, remove_user, set_password_of_user,
  set_perms_of_user,
}

-- What is kept of a user, besides the name.
pub record Account : Type 0 where
  pub password_hash : Bytes
  pub perms : Permissions

-- The abstract table: who is there, and with what.
abbrev pub Directory : Type 0
Directory = Bytes → Option Account

abbrev pub account : Option UserData → Option Account
account none = none
account (some u) = some (record { password_hash = u.password_hash; perms = u.perms })

unfoldable pub view : UserTable → Directory
view t name = account (find_user name t)

unfoldable pub set_account : Bytes → Option Account → Directory → Directory
set_account name a d k = if equal name k then a else d k

-- The operations that change a table.
pub data Change : Type 0 where
  add : (name password : Bytes) → Change
  remove : (name : Bytes) → Change
  set_password : (name password : Bytes) → Change
  set_perms : (name : Bytes) (perms : Permissions) → Change

unfoldable pub change_table : Crypt → Change → UserTable → Outcome UserTable
change_table crypt (add name password) t = add_user crypt t name password
change_table crypt (remove name) t = remove_user t name
change_table crypt (set_password name password) t = set_password_of_user crypt t name password
change_table crypt (set_perms name perms) t = set_perms_of_user t name perms

-- A change of an account that must be there.
abbrev pub revise :
    Bytes → (Account → Option Account) → Directory → Option Account → Outcome Directory
revise name f d none = err (no_such_user name)
revise name f d (some a) = ok (set_account name (f a) d)

abbrev pub enrol : Crypt → Bytes → Bytes → Directory → Option Account → Outcome Directory
enrol crypt name password d (some a) = ok d
enrol crypt name password d none = hash crypt password >>= λ h.
    ok (set_account name (some (record { password_hash = h; perms = initial_perms })) d)

-- What a change means: a new user has the initial permissions, and one who is there is left alone.
unfoldable pub change_directory : Crypt → Change → Directory → Outcome Directory
unfolding set_account
change_directory crypt (add name password) d = enrol crypt name password d (d name)
change_directory crypt (remove name) d = revise name (λ a. none) d (d name)
change_directory crypt (set_password name password) d =
    hash crypt password >>= λ h. revise name (λ a. some (record a { password_hash = h })) d (d name)
change_directory crypt (set_perms name perms) d =
    revise name (λ a. some (record a { perms = perms })) d (d name)

unfoldable pub change_all : Crypt → List Change → UserTable → Outcome UserTable
unfolding change_table
change_all crypt [] t = ok t
change_all crypt (c ∷ cs) t = change_table crypt c t >>= λ u. change_all crypt cs u

unfoldable pub change_all_directory : Crypt → List Change → Directory → Outcome Directory
unfolding change_directory
change_all_directory crypt [] d = ok d
change_all_directory crypt (c ∷ cs) d =
    change_directory crypt c d >>= λ e. change_all_directory crypt cs e

abbrev pub viewed : Outcome UserTable → Outcome Directory
viewed (ok t) = ok (view t)
viewed (err e) = err e

-- What the queries answer, from an account.
abbrev pub is_there : Option Account → Bool
is_there none = false
is_there (some a) = true

abbrev pub account_of : Bytes → Option Account → Outcome Account
account_of name none = err (no_such_user name)
account_of name (some a) = ok a
