-- ===== src/User/Table.antt =====
-- server/src/user/user_table.cpp: the table of users, and its file.
pub mod Laws
pub mod RoundTrip
pub mod Directory
pub mod Refinement
use tin_dox.Prelude.{
  ℕ, ◌≤◌, Bool, true, false, not, ◌&&◌, ◌||◌, List, [], ◌∷◌, ◌++◌, Option, none, some, ◌==◌, leb,
  if◌then◌else◌, all, length, Bytes, codes, equal, ok, err, ◌>>=◌, ◌>>◌,
}
use tin_dox.Protocol.Error.{Error, Outcome, fatal}
use tin_dox.User.Hash.{Crypt, hash}
use tin_dox.User.Permissions.{Permissions, initial_perms, to_string, perms_from_string}

abbrev pub max_username_length : ℕ
max_username_length = 40

abbrev pub max_password_length : ℕ
max_password_length = 40

abbrev pub is_char_ok : ℕ → Bool
is_char_ok c =
    (leb b'a' c && leb c b'z')
    || (leb b'A' c && leb c b'Z')
    || (leb b'0' c && leb c b'9')
    || c == b'_'

unfoldable pub is_username_ok : Bytes → Bool
is_username_ok name = leb (length name) max_username_length && all is_char_ok name

unfoldable pub is_password_ok : Bytes → Bool
is_password_ok password = leb (length password) max_password_length

pub record UserData : Type 0 where
  pub name : Bytes
  pub password_hash : Bytes
  pub perms : Permissions

-- `m_users`. The name of the file is that of the server's configuration.
abbrev pub UserTable : Type 0
UserTable = List UserData

abbrev pub no_such_user : Bytes → Error
no_such_user name = fatal (codes "user '" ++ (name ++ codes "' does not exist"))

unfoldable pub find_user : Bytes → UserTable → Option UserData
find_user name [] = none
find_user name (u ∷ us) = if equal u.name name then some u else find_user name us

unfoldable pub has_user : UserTable → Bytes → Bool
has_user t name = elim (find_user name t) [ none ↦ false | some u ↦ true ]

unfoldable pub get_user : UserTable → Bytes → Outcome UserData
get_user t name = elim (find_user name t) [ none ↦ err (no_such_user name) | some u ↦ ok u ]

abbrev pub push_back : UserTable → UserData → UserTable
push_back t u = t ++ u ∷ []

unfoldable pub add_user : Crypt → UserTable → Bytes → Bytes → Outcome UserTable
add_user crypt t name password =
    if has_user t name
    then ok t
    else hash crypt password >>= λ h.
        ok (push_back t (record { name = name; password_hash = h; perms = initial_perms }))

-- `std::erase_if`.
unfoldable pub erase_user : Bytes → UserTable → UserTable
erase_user name [] = []
erase_user name (u ∷ us) =
    let rest = erase_user name us in if equal u.name name then rest else u ∷ rest

unfoldable pub remove_user : UserTable → Bytes → Outcome UserTable
remove_user t name = if has_user t name then ok (erase_user name t) else err (no_such_user name)

unfoldable pub get_password_hash_of_user : UserTable → Bytes → Outcome Bytes
get_password_hash_of_user t name = get_user t name >>= λ u. ok u.password_hash

unfoldable pub verify_password_of_user : Crypt → UserTable → Bytes → Bytes → Outcome Bool
verify_password_of_user crypt t name password =
    hash crypt password >>= λ h. get_user t name >>= λ u. ok (equal h u.password_hash)

-- The first user of that name is changed in place, as through the reference that `get_user` returns.
unfoldable pub update_user : (UserData → UserData) → Bytes → UserTable → UserTable
update_user f name [] = []
update_user f name (u ∷ us) = if equal u.name name then f u ∷ us else u ∷ update_user f name us

unfoldable pub set_password_of_user : Crypt → UserTable → Bytes → Bytes → Outcome UserTable
set_password_of_user crypt t name password = hash crypt password >>= λ h.
    get_user t name >>= λ _. ok (update_user (λ u. record u { password_hash = h }) name t)

unfoldable pub get_perms_of_user : UserTable → Bytes → Outcome Permissions
get_perms_of_user t name = get_user t name >>= λ u. ok u.perms

unfoldable pub set_perms_of_user : UserTable → Bytes → Permissions → Outcome UserTable
set_perms_of_user t name perms =
    get_user t name >>= λ _. ok (update_user (λ u. record u { perms = perms }) name t)

-- A node of a parsed TOML file, as far as the table looks at it.
pub data TomlNode : Type 0 where
  text_node : Bytes → TomlNode
  other_node : TomlNode

abbrev pub TomlTable : Type 0
TomlTable = List (Bytes × TomlNode)

-- An entry of the array `users`: a table, or something else.
pub data TomlUser : Type 0 where
  user_table : TomlTable → TomlUser
  no_table : TomlUser

-- `table[key].as_string()`, where the key is present and a string.
pub string_at : Bytes → TomlTable → Option Bytes
string_at key [] = none
string_at key ((k, text_node s) ∷ more) = if equal k key then some s else string_at key more
string_at key ((k, other_node) ∷ more) = if equal k key then none else string_at key more

pub required : Bytes → TomlTable → Outcome Bytes
required key t = elim (string_at key t) [
  | none ↦ err (fatal (codes "invalid required filed '" ++ (key ++ codes "'")))
  | some s ↦ ok s
]

pub fetch_one_user : TomlTable → Outcome UserData
fetch_one_user t = required (codes "name") t >>= λ name. required (codes "passwd") t >>= λ passwd.
    required (codes "perms") t >>= λ symbols. perms_from_string symbols >>= λ perms.
    ok (record { name = name; password_hash = passwd; perms = perms })

pub fetch_users : List TomlUser → UserTable → Outcome UserTable
fetch_users [] t = ok t
fetch_users (no_table ∷ us) t = err (fatal (codes "invalid user"))
fetch_users (user_table u ∷ us) t = fetch_one_user u >>= λ d. fetch_users us (push_back t d)

-- `fetch_table` behind the parser of the TOML library; `none` stands for a file whose `users` is no
-- array. The users are added to those that the table holds.
unfoldable pub fetch_table : Option (List TomlUser) → UserTable → Outcome UserTable
unfolding fetch_users fetch_one_user required string_at
fetch_table none t = err (fatal (codes "TOML object 'users' is invalid"))
fetch_table (some us) t = fetch_users us t

pub toml_of_user : UserData → TomlUser
toml_of_user u = user_table (
    (codes "name", text_node u.name)
    ∷ (codes "passwd", text_node u.password_hash)
    ∷ (codes "perms", text_node (to_string u.perms))
    ∷ [])

unfoldable pub create_toml_table : UserTable → List TomlUser
unfolding toml_of_user
create_toml_table [] = []
create_toml_table (u ∷ us) = toml_of_user u ∷ create_toml_table us
