-- ===== src/User/Table/RoundTrip.antt =====
-- user_table.cpp: a table that is written is the table that is read, and names stay distinct.
use Prim.Native.Nat.{bit_and}
use mathlib.Core.List.{append_assoc, append-nil}
use tin_dox.Prelude.{
  ◌<◌, [], ◌∷◌, ◌++◌, none, some, ◌≡◌, refl, sym, ap, subst, ◌∙◌, ◌⊎◌, inl, inr, arith, Bytes, All,
  equal, equal_iff, ok, >>=-eq-ok, Bool-cases,
}
use tin_dox.User.Hash.{Crypt, hash}
use tin_dox.User.Permissions.{Permissions, all_perms, initial_perms, perms_from_string-to_string}
use tin_dox.User.Table.Laws.{
  find_user-append, find_user-erase_user, find_user-update_user, has_user-none,
}
use tin_dox.User.Table.{
  UserData, UserTable, find_user, has_user, get_user, add_user, erase_user, remove_user, push_back,
  update_user, set_password_of_user, set_perms_of_user, fetch_users, fetch_one_user, fetch_table,
  required, string_at, create_toml_table, toml_of_user,
}

-- Permissions that have symbols.
abbrev pub HasSymbols : UserData → Type 0
HasSymbols u = (u.perms < 256) × (bit_and u.perms all_perms ≡ u.perms)

fetch_users-create_toml_table :
    (us t : UserTable) → All HasSymbols us → fetch_users (create_toml_table us) t ≡ ok (t ++ us)
unfolding create_toml_table fetch_users fetch_one_user required string_at toml_of_user equal
fetch_users-create_toml_table [] t h = ap ok (sym (append-nil t))
fetch_users-create_toml_table (u ∷ us) t ((b, m), hs) =
    rw (perms_from_string-to_string u.perms b, m)
      (fetch_users-create_toml_table us (push_back t u) hs ∙ ap ok (append_assoc t (u ∷ []) us))

-- The file that `commit_table` writes is read back by `fetch_table` as the same table, if every user
-- has permissions that the symbols can express.
pub fetch_table-create_toml_table :
    (t : UserTable) → All HasSymbols t → fetch_table (some (create_toml_table t)) [] ≡ ok t
unfolding fetch_table
fetch_table-create_toml_table t h = fetch_users-create_toml_table t [] h

-- No two users of one name.
abbrev pub IsDistinct : UserTable → Type 0
IsDistinct [] = Unit
IsDistinct (u ∷ us) = (find_user u.name us ≡ none) × IsDistinct us

IsDistinct-append :
    (t : UserTable) (u : UserData)
    → IsDistinct t
    → find_user u.name t ≡ none
    → IsDistinct (push_back t u)
unfolding find_user
IsDistinct-append [] u d h = (refl, tt)
IsDistinct-append (v ∷ t) u (fresh, d) h = (
  ground (arith, find_user-append v.name t u, equal_iff u.name v.name, equal_iff v.name u.name),
  IsDistinct-append t u d (ground arith),
)

IsDistinct-erase_user :
    (name : Bytes) (t : UserTable) → IsDistinct t → IsDistinct (erase_user name t)
unfolding erase_user
IsDistinct-erase_user name [] d = tt
IsDistinct-erase_user name (u ∷ t) (fresh, d) = elim (Bool-cases (equal u.name name)) [
  | inl gone ↦ rw gone (IsDistinct-erase_user name t d)
  | inr kept ↦
      rw kept (ground (arith, find_user-erase_user u.name name t), IsDistinct-erase_user name t d)
]

IsDistinct-update_user :
    (f : UserData → UserData) (name : Bytes) (t : UserTable)
    → ((u : UserData) → (f u).name ≡ u.name)
    → IsDistinct t
    → IsDistinct (update_user f name t)
unfolding update_user
IsDistinct-update_user f name [] h d = tt
IsDistinct-update_user f name (u ∷ t) h (fresh, d) = elim (Bool-cases (equal u.name name)) [
  | inl changed ↦ rw changed (ap (λ k. find_user k t) (h u) ∙ fresh, d)
  | inr kept ↦
      rw kept (
        ground (arith, find_user-update_user f u.name name t h),
        IsDistinct-update_user f name t h d,
      )
]

module _ (t t' : UserTable) (name : Bytes) (d : IsDistinct t) where
  add_user-IsDistinct :
      (crypt : Crypt) (password : Bytes) → add_user crypt t name password ≡ ok t' → IsDistinct t'
  unfolding add_user
  add_user-IsDistinct crypt password e = elim (Bool-cases (has_user t name)) [
    | inl has ↦ subst IsDistinct (cc (rw has at e)) d
    | inr new ↦
        let (h, _, e') = >>=-eq-ok (hash crypt password) _ (rw new at e) in
        subst IsDistinct (cc e') (
          IsDistinct-append t (record { name = name; password_hash = h; perms = initial_perms }) d
            (has_user-none t name new))
  ]

-- Whatever `add_user`, `remove_user`, `set_password_of_user` and `set_perms_of_user` do to a table of
-- distinct names, its names stay distinct.
pub operations-IsDistinct :
    (crypt : Crypt) (t t' : UserTable) (name password : Bytes) (perms : Permissions)
    → IsDistinct t
    → (add_user crypt t name password ≡ ok t')
      ⊎ (remove_user t name ≡ ok t')
      ⊎ (set_password_of_user crypt t name password ≡ ok t')
      ⊎ (set_perms_of_user t name perms ≡ ok t')
    → IsDistinct t'
unfolding remove_user set_password_of_user set_perms_of_user
operations-IsDistinct crypt t t' name password perms d (inl e) =
    add_user-IsDistinct t t' name d crypt password e
operations-IsDistinct crypt t t' name password perms d (inr (inl e)) =
    elim (Bool-cases (has_user t name)) [
      | inl has ↦ subst IsDistinct (cc (rw has at e)) (IsDistinct-erase_user name t d)
      | inr missing ↦ cc (rw missing at e)
    ]
operations-IsDistinct crypt t t' name password perms d (inr (inr (inl e))) =
    let (h, _, e1) = >>=-eq-ok (hash crypt password) _ e in
    let (u, _, e2) = >>=-eq-ok (get_user t name) _ e1 in
    subst IsDistinct (cc e2)
      (IsDistinct-update_user (λ u. record u { password_hash = h }) name t (λ u. refl) d)
operations-IsDistinct crypt t t' name password perms d (inr (inr (inr e))) =
    let (u, _, e2) = >>=-eq-ok (get_user t name) _ e in
    subst IsDistinct (cc e2)
      (IsDistinct-update_user (λ u. record u { perms = perms }) name t (λ u. refl) d)
