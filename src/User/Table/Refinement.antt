-- ===== src/User/Table/Refinement.antt =====
-- user_table.cpp: every operation of the table is that of the function it stands for.
use mathlib.Core.Path.{fun_ext}
use mathlib.Core.Option
use tin_dox.Prelude.{
  Bool, true, false, List, [], ◌∷◌, Option, none, some, ◌≡◌, refl, sym, ap, ◌∙◌, inl, inr, arith,
  if◌then◌else◌, Bytes, equal, equal_iff, ok, err, ◌>>=◌, Bool-cases, Option-cases, Result-cases,
}
use tin_dox.User.Hash.{Crypt, hash}
use tin_dox.User.Permissions.{initial_perms}
use tin_dox.User.Table.{
  UserData, UserTable, find_user, has_user, get_user, no_such_user, add_user, erase_user,
  remove_user, push_back, verify_password_of_user, get_password_hash_of_user, update_user,
  set_password_of_user, get_perms_of_user, set_perms_of_user,
}
use tin_dox.User.Table.Laws.{find_user-append, find_user-erase_user, find_user-update_user}
use tin_dox.User.Table.Directory.{
  Account, account, view, set_account, Change, change_table, revise, change_directory, change_all,
  change_all_directory, viewed, is_there, account_of, add, remove, set_password, set_perms,
}

replaced :
    (f : UserData → UserData) (test : Bool) (u : UserData) (o : Option UserData)
    → test ≡ true
    → o ≡ some u
    → (if test then Option.map f o else o) ≡ some (f u)
replaced f test u o e found = rw (e, found) refl

-- A stored user replaces what the view has under that name.
view-update :
    (f : UserData → UserData) (name : Bytes) (t : UserTable) (u : UserData)
    → ((v : UserData) → (f v).name ≡ v.name)
    → find_user name t ≡ some u
    → view (update_user f name t) ≡ set_account name (account (some (f u))) (view t)
unfolding view set_account
view-update f name t u h found = fun_ext λ k. elim (Bool-cases (equal name k)) [
  | inl same ↦
      let key : find_user k t ≡ some u =
        ap (λ n. find_user n t) (sym ((equal_iff name k).0 same)) ∙ found in
      rw same (
        ap account (
          find_user-update_user f k name t h
          ∙ replaced f (equal name k) u (find_user k t) same key))
  | inr other ↦ rw other (ap account (find_user-update_user f k name t h ∙ rw other))
]

view-append :
    (t : UserTable) (u : UserData)
    → find_user u.name t ≡ none
    → view (push_back t u) ≡ set_account u.name (account (some u)) (view t)
unfolding view set_account
view-append t u absent = fun_ext λ k. ground (arith, find_user-append k t u, equal_iff u.name k)

view-erase :
    (t : UserTable) (name : Bytes) → view (erase_user name t) ≡ set_account name none (view t)
unfolding view set_account
view-erase t name = fun_ext λ k. ground (arith, find_user-erase_user k name t)

has_user-find_user :
    (t : UserTable) (name : Bytes) (o : Option UserData)
    → find_user name t ≡ o
    → has_user t name ≡ elim o [ none ↦ false | some u ↦ true ]
unfolding has_user
has_user-find_user t name o e = rw (e, has_user) refl

get_user-find_user :
    (t : UserTable) (name : Bytes) (o : Option UserData)
    → find_user name t ≡ o
    → get_user t name ≡ elim o [ none ↦ err (no_such_user name) | some u ↦ ok u ]
unfolding get_user
get_user-find_user t name o e = rw (e, get_user) refl

module _ (crypt : Crypt) (t : UserTable) where
  view-add :
      (name password : Bytes)
      → viewed (add_user crypt t name password)
        ≡ change_directory crypt (add name password) (view t)
  unfolding add_user change_directory view
  view-add name password = elim (Option-cases (find_user name t)) [
    | inr (u, found) ↦ rw (has_user-find_user t name (some u) found, viewed, found) refl
    | inl absent ↦
        rw (has_user-find_user t name none absent, viewed, absent)
          (elim (Result-cases (hash crypt password)) [
            | inr (e, failed) ↦ rw (failed, viewed) refl
            | inl (h, hashed) ↦
                rw (hashed, viewed)
                  (ap ok (
                    view-append t (record { name = name; password_hash = h; perms = initial_perms })
                      absent))
          ])
  ]

  view-remove :
      (name : Bytes) → viewed (remove_user t name) ≡ change_directory crypt (remove name) (view t)
  unfolding remove_user change_directory view
  view-remove name = elim (Option-cases (find_user name t)) [
    | inr (u, found) ↦
        rw (has_user-find_user t name (some u) found, viewed, found) (ap ok (view-erase t name))
    | inl absent ↦ rw (has_user-find_user t name none absent, viewed, absent) refl
  ]

  -- What `get_user` finds is changed in place.
  view-revise :
      (f : UserData → UserData) (g : Account → Account) (name : Bytes)
      → ((v : UserData) → (f v).name ≡ v.name)
      → ((v : UserData)
          → account (some (f v))
            ≡ some (g (record { password_hash = v.password_hash; perms = v.perms })))
      → viewed (get_user t name >>= λ _. ok (update_user f name t))
        ≡ revise name (λ a. some (g a)) (view t) (view t name)
  unfolding view
  view-revise f g name h k = elim (Option-cases (find_user name t)) [
    | inr (u, found) ↦
        rw (get_user-find_user t name (some u) found, viewed, found)
          (ap ok (view-update f name t u h found ∙ ap (λ a. set_account name a (view t)) (k u)))
    | inl absent ↦ rw (get_user-find_user t name none absent, viewed, absent) refl
  ]

change_directory-view :
    (crypt : Crypt) (c : Change) (t : UserTable)
    → viewed (change_table crypt c t) ≡ change_directory crypt c (view t)
unfolding change_table change_directory set_password_of_user set_perms_of_user
change_directory-view crypt (add name password) t = view-add crypt t name password
change_directory-view crypt (remove name) t = view-remove crypt t name
change_directory-view crypt (set_password name password) t =
    elim (Result-cases (hash crypt password)) [
      | inr (e, failed) ↦ rw failed refl
      | inl (h, hashed) ↦ rw hashed (
          view-revise crypt t (λ u. record u { password_hash = h })
            (λ a. record a { password_hash = h }) name (λ v. refl) (λ v. refl))
    ]
change_directory-view crypt (set_perms name perms) t =
    view-revise crypt t (λ u. record u { perms = perms }) (λ a. record a { perms = perms }) name
      (λ v. refl) (λ v. refl)

change_all-view :
    (crypt : Crypt) (changes : List Change) (t : UserTable)
    → viewed (change_all crypt changes t) ≡ change_all_directory crypt changes (view t)
unfolding change_all change_all_directory
change_all-view crypt [] t = refl
change_all-view crypt (c ∷ cs) t = elim (Result-cases (change_table crypt c t)) [
  | inl (u, changed) ↦
      let meant = sym (change_directory-view crypt c t) ∙ ap viewed changed in
      ap (λ r. viewed (r >>= λ v. change_all crypt cs v)) changed
      ∙ change_all-view crypt cs u
      ∙ ap (λ r. r >>= λ e. change_all_directory crypt cs e) (sym meant)
  | inr (thrown, failed) ↦
      let meant = sym (change_directory-view crypt c t) ∙ ap viewed failed in
      ap (λ r. viewed (r >>= λ v. change_all crypt cs v)) failed
      ∙ ap (λ r. r >>= λ e. change_all_directory crypt cs e) (sym meant)
]

get_user-view :
    {A : Type 0} (t : UserTable) (name : Bytes) (f : UserData → A) (g : Account → A)
    → ((u : UserData) → f u ≡ g (record { password_hash = u.password_hash; perms = u.perms }))
    → (get_user t name >>= λ u. ok (f u)) ≡ (account_of name (view t name) >>= λ a. ok (g a))
unfolding view
get_user-view {A} t name f g h = elim (Option-cases (find_user name t)) [
  | inl absent ↦ rw (get_user-find_user t name none absent, absent) refl
  | inr (u, found) ↦ rw (get_user-find_user t name (some u) found, found) (ap ok (h u))
]

has_user-view : (t : UserTable) (name : Bytes) → has_user t name ≡ is_there (view t name)
unfolding view
has_user-view t name = elim (Option-cases (find_user name t)) [
  | inl absent ↦ rw (has_user-find_user t name none absent, absent) refl
  | inr (u, found) ↦ rw (has_user-find_user t name (some u) found, found) refl
]

verify-view :
    (crypt : Crypt) (t : UserTable) (name password : Bytes)
    → verify_password_of_user crypt t name password ≡ (
        hash crypt password >>= λ h.
        account_of name (view t name) >>= λ a. ok (equal h a.password_hash))
unfolding verify_password_of_user
verify-view crypt t name password = elim (Result-cases (hash crypt password)) [
  | inl (h, hashed) ↦ rw hashed (
      get_user-view t name (λ u. equal h u.password_hash) (λ a. equal h a.password_hash)
        (λ u. refl))
  | inr (e, failed) ↦ rw failed refl
]

-- The table is a function from names to hashes and permissions, and forgets the order of the users. Any
-- sequence of `add_user`, `remove_user`, `set_password_of_user` and `set_perms_of_user` comes to what
-- the changes of that function come to, each at one name, or to the same error; and what the queries
-- answer for a name and a password is read off the function.
pub change_all-Refines :
    (crypt : Crypt) (changes : List Change) (t : UserTable) (name password : Bytes)
    → (viewed (change_all crypt changes t) ≡ change_all_directory crypt changes (view t))
      × (has_user t name ≡ is_there (view t name))
      × (get_password_hash_of_user t name
          ≡ (account_of name (view t name) >>= λ a. ok a.password_hash))
      × (get_perms_of_user t name ≡ (account_of name (view t name) >>= λ a. ok a.perms))
      × (verify_password_of_user crypt t name password ≡ (
          hash crypt password >>= λ h.
          account_of name (view t name) >>= λ a. ok (equal h a.password_hash)))
unfolding get_password_hash_of_user get_perms_of_user
change_all-Refines crypt changes t name password = (
  change_all-view crypt changes t,
  has_user-view t name,
  get_user-view t name (λ u. u.password_hash) (λ a. a.password_hash) (λ u. refl),
  get_user-view t name (λ u. u.perms) (λ a. a.perms) (λ u. refl),
  verify-view crypt t name password,
)
