-- ===== src/Session/Executor/Parsers.antt =====
-- The parsers that go over all fields leave the sessions of the server alone.
use tin_dox.Prelude.{
  ℕ, List, [], ◌∷◌, Option, some, refl, arith, Bytes, equal, codes, Bool-cases, Option-cases, inl,
  inr,
}
use tin_dox.Protocol.Field.{Field, FieldValue, get_boolean}
use tin_dox.Paths.{FilePath}
use tin_dox.System.{System}
use tin_dox.Session.Arguments.{parse_name, parse_existing_name}
use tin_dox.Session.Commands.Account.{parse_credential, parse_auth}
use tin_dox.Session.Commands.Files.{parse_rename_name, parse_rename}
use tin_dox.Session.Commands.Transfer.{parse_integer_field, UlFields, parse_ul, parse_dl}
use tin_dox.Session.Executor.Frame.{
  KeepsSessions, continue_with_keeps, parse_name_keeps, parse_existing_name_keeps,
}

abbrev ul_type : Bytes
ul_type = codes "name field has invalid value type (should be string)"

module _ {Disk : Type 0} where
  pub parse_rename_keeps :
      (fs : List Field) (o n : Option FilePath) → KeepsSessions {Disk = Disk} (parse_rename fs o n)
  unfolding parse_rename parse_rename_name
  parse_rename_keeps [] o n w = ground arith
  parse_rename_keeps (f ∷ fs) o n w = elim (Bool-cases (equal f.name (codes "oname"))) [
    | inl first ↦ rw first (
        continue_with_keeps (parse_rename_name f.name o f.value) (λ x. parse_rename fs (some x) n)
          (λ v. ground arith) (λ x. parse_rename_keeps fs (some x) n) w)
    | inr other ↦ rw other (elim (Bool-cases (equal f.name (codes "nname"))) [
      | inl second ↦ rw second (
          continue_with_keeps (parse_rename_name f.name n f.value) (λ x. parse_rename fs o (some x))
            (λ v. ground arith) (λ x. parse_rename_keeps fs o (some x)) w)
      | inr skipped ↦ rw skipped (parse_rename_keeps fs o n w)
    ])
  ]

  pub parse_auth_keeps :
      (fs : List Field) (u p : Option Bytes) → KeepsSessions {Disk = Disk} (parse_auth fs u p)
  unfolding parse_auth parse_credential
  parse_auth_keeps [] u p w = ground arith
  parse_auth_keeps (f ∷ fs) u p w = elim (Bool-cases (equal f.name (codes "login"))) [
    | inl first ↦ rw first (
        continue_with_keeps (parse_credential (codes "login") u f.value)
          (λ x. parse_auth fs (some x) p) (λ v. ground arith) (λ x. parse_auth_keeps fs (some x) p)
          w)
    | inr other ↦ rw other (elim (Bool-cases (equal f.name (codes "passwd"))) [
      | inl second ↦ rw second (
          continue_with_keeps (parse_credential (codes "passwd") p f.value)
            (λ x. parse_auth fs u (some x)) (λ v. ground arith)
            (λ x. parse_auth_keeps fs u (some x)) w)
      | inr skipped ↦ rw skipped (parse_auth_keeps fs u p w)
    ])
  ]

  integer_keeps :
      (name : Bytes) (v : FieldValue) → KeepsSessions {Disk = Disk} (parse_integer_field name v)
  unfolding parse_integer_field
  integer_keeps name v w = ground arith

  pub parse_ul_keeps :
      (fs : List Field) (u : UlFields) → KeepsSessions {Disk = Disk} (parse_ul fs u)
  unfolding parse_ul
  parse_ul_keeps [] u w = ground arith
  parse_ul_keeps (f ∷ fs) u w = elim (Bool-cases (equal f.name (codes "name"))) [
    | inl first ↦ rw first (
        continue_with_keeps (parse_name ul_type u.name f.value)
          (λ x. parse_ul fs (record u { name = some x })) (parse_name_keeps ul_type u.name f.value)
          (λ x. parse_ul_keeps fs (record u { name = some x })) w)
    | inr other ↦ rw other (elim (Bool-cases (equal f.name (codes "size"))) [
      | inl second ↦ rw second (
          continue_with_keeps (parse_integer_field (codes "size") f.value)
            (λ x. parse_ul fs (record u { size = some x })) (integer_keeps (codes "size") f.value)
            (λ x. parse_ul_keeps fs (record u { size = some x })) w)
      | inr later ↦ rw later (elim (Bool-cases (equal f.name (codes "retry"))) [
        | inl third ↦ rw third (elim (Option-cases (get_boolean f.value)) [
          | inl untyped ↦ rw untyped refl
          | inr (b, typed) ↦ rw typed (parse_ul_keeps fs (record u { retry = b }) w)
        ])
        | inr skipped ↦ rw skipped (parse_ul_keeps fs u w)
      ])
    ])
  ]

module _ {Disk : Type 0} (sys : System Disk) where
  pub parse_dl_keeps :
      (fs : List Field) (name : Option FilePath) (offset : ℕ)
      → KeepsSessions (parse_dl sys fs name offset)
  unfolding parse_dl
  parse_dl_keeps [] name offset w = ground arith
  parse_dl_keeps (f ∷ fs) name offset w = elim (Bool-cases (equal f.name (codes "name"))) [
    | inl first ↦ rw first (
        continue_with_keeps (parse_existing_name sys name f.value)
          (λ x. parse_dl sys fs (some x) offset) (parse_existing_name_keeps sys name f.value)
          (λ x. parse_dl_keeps fs (some x) offset) w)
    | inr other ↦ rw other (elim (Bool-cases (equal f.name (codes "offset"))) [
      | inl second ↦ rw second (
          continue_with_keeps (parse_integer_field (codes "offset") f.value)
            (λ x. parse_dl sys fs name x) (integer_keeps (codes "offset") f.value)
            (λ x. parse_dl_keeps fs name x) w)
      | inr skipped ↦ rw skipped (parse_dl_keeps fs name offset w)
    ])
  ]
