-- ===== src/User/Tests.antt =====
-- server/src/user: users and permissions at concrete inputs.
use Prim.Native.Nat.{bit_and}
use tin_dox.Prelude.{
  true, List, ◌>>=◌, [], ◌∷◌, ◌++◌, none, some, ◌≡◌, refl, inl, inr, arith, if◌then◌else◌, Bytes,
  codes, equal, ok,
}
use tin_dox.User.Hash.{Crypt, salt, hash}
use tin_dox.User.Permissions.{all_perms, to_string, perms_from_string, perms_from_string-to_string}
use tin_dox.User.Table.Laws.{verify-set_password}
use tin_dox.User.Table.Directory.{
  Change, view, change_all, change_all_directory, viewed, is_there, account_of,
}
use tin_dox.User.Table.Refinement.{change_all-Refines}
use tin_dox.User.Table.RoundTrip.{IsDistinct, fetch_table-create_toml_table, operations-IsDistinct}
use tin_dox.User.Table.{
  UserData, UserTable, find_user, has_user, get_user, add_user, remove_user, erase_user,
  update_user, verify_password_of_user, get_password_hash_of_user, set_password_of_user,
  get_perms_of_user, set_perms_of_user, fetch_table, create_toml_table,
}

-- A hash that shows the salt and the word.
abbrev plain_crypt : Crypt
plain_crypt word salt = some (salt ++ word)

abbrev ada : UserData
ada = record { name = codes "ada"; password_hash = codes "x"; perms = 16 }

abbrev bob : UserData
bob = record { name = codes "bob"; password_hash = codes "y"; perms = 62 }

abbrev table : UserTable
table = ada ∷ bob ∷ []

perms_from_string-to_string_example : perms_from_string (to_string 18) ≡ ok (bit_and 18 all_perms)
perms_from_string-to_string_example = perms_from_string-to_string 18 (omega arith)

abbrev cy_hash : Bytes
cy_hash = codes ".0z"

abbrev new_table : UserTable
new_table = record ada { password_hash = cy_hash } ∷ bob ∷ []

a_new_password_is_verified :
    (verify_password_of_user plain_crypt new_table (codes "ada") (codes "z") ≡ ok true)
    × ((if equal (codes "ada") (codes "bob") then none else find_user (codes "bob") new_table)
        ≡ (if equal (codes "ada") (codes "bob") then none else find_user (codes "bob") table))
a_new_password_is_verified =
    verify-set_password plain_crypt table new_table (codes "ada") (codes "z") (codes "bob")
      (unfold set_password_of_user get_user find_user update_user equal hash salt in refl)

-- bob goes, cy comes, and ada gets another permission.
abbrev changes : List Change
changes =
    Change.remove (codes "bob")
    ∷ Change.add (codes "cy") (codes "z")
    ∷ Change.set_perms (codes "ada") 48
    ∷ []

change_all-Refines_example :
    (viewed (change_all plain_crypt changes table)
      ≡ change_all_directory plain_crypt changes (view table))
    × (has_user table (codes "ada") ≡ is_there (view table (codes "ada")))
    × (get_password_hash_of_user table (codes "ada")
        ≡ (account_of (codes "ada") (view table (codes "ada")) >>= λ a. ok a.password_hash))
    × (get_perms_of_user table (codes "ada")
        ≡ (account_of (codes "ada") (view table (codes "ada")) >>= λ a. ok a.perms))
    × (verify_password_of_user plain_crypt table (codes "ada") (codes "x") ≡ (
        hash plain_crypt (codes "x") >>= λ h.
        account_of (codes "ada") (view table (codes "ada")) >>= λ a. ok (equal h a.password_hash)))
change_all-Refines_example = change_all-Refines plain_crypt changes table (codes "ada") (codes "x")

changes_run :
    change_all plain_crypt changes table
    ≡ ok (
        record ada { perms = 48 }
        ∷ record { name = codes "cy"; password_hash = cy_hash; perms = 16 }
        ∷ [])
unfolding change_all remove_user has_user find_user erase_user add_user set_perms_of_user get_user
    update_user equal hash salt
changes_run = refl

fetch_table-create_toml_table_example : fetch_table (some (create_toml_table table)) [] ≡ ok table
fetch_table-create_toml_table_example =
    fetch_table-create_toml_table table ((omega arith, refl), ((omega arith, refl), tt))

table-IsDistinct : IsDistinct table
table-IsDistinct = (unfold find_user equal in refl, (unfold find_user in refl, tt))

operations-IsDistinct_example : IsDistinct (bob ∷ [])
operations-IsDistinct_example =
    operations-IsDistinct plain_crypt table (bob ∷ []) (codes "ada") (codes "z") 0 table-IsDistinct
      (inr (inl (unfold remove_user has_user find_user erase_user equal in refl)))
