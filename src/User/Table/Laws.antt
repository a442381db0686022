-- ===== src/User/Table/Laws.antt =====
-- user_table.cpp: what each operation of the table does to each user.
use mathlib.Core.Option
use tin_dox.Prelude.{
  true, false, [], ◌∷◌, none, some, ◌≡◌, refl, arith, if◌then◌else◌, Bytes, equal, equal_iff,
  equal_self, ok, >>=-eq-ok,
}
use tin_dox.User.Hash.{Crypt, hash}
use tin_dox.User.Table.{
  UserData, UserTable, find_user, has_user, get_user, erase_user, push_back,
  verify_password_of_user, update_user, set_password_of_user,
}

pub find_user-append :
    (k : Bytes) (t : UserTable) (u : UserData)
    → find_user k (push_back t u)
      ≡ elim (find_user k t) [ none ↦ if equal u.name k then some u else none | some v ↦ some v ]
unfolding find_user
find_user-append k [] u = refl
find_user-append k (v ∷ t) u = ground (arith, find_user-append k t u)

pub find_user-erase_user :
    (k name : Bytes) (t : UserTable)
    → find_user k (erase_user name t) ≡ (if equal name k then none else find_user k t)
unfolding find_user erase_user
find_user-erase_user k name [] = ground arith
find_user-erase_user k name (u ∷ t) = ground (
  arith,
  find_user-erase_user k name t,
  equal_iff u.name name,
  equal_iff u.name k,
  equal_iff name k,
)

-- An update that keeps the name.
pub find_user-update_user :
    (f : UserData → UserData) (k name : Bytes) (t : UserTable)
    → ((u : UserData) → (f u).name ≡ u.name)
    → find_user k (update_user f name t)
      ≡ (if equal name k then Option.map f (find_user k t) else find_user k t)
unfolding find_user update_user
find_user-update_user f k name [] h = ground arith
find_user-update_user f k name (u ∷ t) h = ground (
  arith,
  find_user-update_user f k name t h,
  h u,
  equal_iff u.name name,
  equal_iff u.name k,
  equal_iff name k,
  equal_iff (f u).name k,
)

pub has_user-none :
    (t : UserTable) (name : Bytes) → has_user t name ≡ false → find_user name t ≡ none
unfolding has_user
has_user-none t name h = ground arith

-- Setting a password makes that password the one that is verified. Of the other users, each looked
-- up by its name `k`, nothing changes.
pub verify-set_password :
    (crypt : Crypt) (t t' : UserTable) (name password k : Bytes)
    → set_password_of_user crypt t name password ≡ ok t'
    → (verify_password_of_user crypt t' name password ≡ ok true)
      × ((if equal name k then none else find_user k t')
          ≡ (if equal name k then none else find_user k t))
unfolding set_password_of_user verify_password_of_user get_user
verify-set_password crypt t t' name password k e =
    let (h, hashed, e1) = >>=-eq-ok (hash crypt password) _ e in
    let (u, found, e2) = >>=-eq-ok (get_user t name) _ e1 in
    let law = λ (k : Bytes).
      find_user-update_user (λ v. record v { password_hash = h }) k name t (λ v. refl) in
    (ground (arith, law name, equal_self name, equal_self h), ground (arith, law k))
