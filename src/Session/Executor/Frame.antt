-- ===== src/Session/Executor/Frame.antt =====
-- The commands that leave the sessions of the server alone.
use tin_dox.Prelude.{
  ℕ, List, [], ◌∷◌, Bool, true, false, Option, none, some, ◌≡◌, refl, arith, Bytes, ok, err, equal,
  ◌∙◌, Bool-cases, Option-cases, inl, inr, codes, ◌+◌, if◌then◌else◌,
}
use tin_dox.Protocol.Error.{Outcome}
use tin_dox.Protocol.Field.{Field, FieldValue, get_boolean}
use tin_dox.Paths.{FilePath}
use tin_dox.System.{System, Entry, Forest, no_entries, node}
use tin_dox.Session.Arguments.{
  bad_field, find_field, has_invalid_type, parse_name, parse_existing_name, parse_path,
  check_directory, parse_path_field, parse_transport, base_path,
}
use tin_dox.Session.Commands.Browse.{
  LsFlags, ls_lines, tree_lines, parse_flag, parse_ls_flags, path_or_current, parse_cd, execute_pwd,
  execute_cd, parse_ls, execute_ls, execute_tree,
}
use tin_dox.Session.Commands.Files.{
  check_errc, parse_name_field, execute_mkdir, execute_rm, rename_to, execute_rename,
  transport_message, execute_mv, execute_cp,
}
use tin_dox.Session.Commands.Transfer.{
  set_file_offset, execute_dl, start_new_upload, resume, retry_upload, execute_ul,
}
use tin_dox.Session.Context.{
  get_auth_token, get_lock, get_current_path, set_current_path, set_download_token,
  set_upload_token, release_lock, put_lock, is_path_locked, is_path_forbidden, insert_path_lock,
  get_relative_path_to, throw_on_invalid_path, make_download_token, download_file, upload_file,
  set_mode,
}
use tin_dox.Session.Owned.{sessions_of}
use tin_dox.Session.State.{World, M, continue_with, ◌>>=◌, optional, raise, return, lift}

-- A call that leaves the tokens of the server and the client's own alone, whether it throws or not.
abbrev pub KeepsSessions : {Disk A : Type 0} → M Disk A → Type 0
KeepsSessions {Disk} m = (w : World Disk) → sessions_of (m w).0 ≡ sessions_of w

-- What every bind needs: the two parts keep the tokens.
pub continue_with_keeps :
    {Disk A B : Type 0} (m : M Disk A) (f : A → M Disk B)
    → KeepsSessions m
    → ((a : A) → KeepsSessions (f a))
    → KeepsSessions (m >>= f)
continue_with_keeps {Disk = Disk} {A = A} m f h k w = go (m w) (h w)
  where
    go :
        (r : World Disk × Outcome A)
        → sessions_of r.0 ≡ sessions_of w
        → sessions_of (continue_with r f).0 ≡ sessions_of w
    go (v, ok a) e = k a v ∙ e
    go (v, err x) e = e

module _ {Disk : Type 0} where
  pub parse_name_keeps :
      (m : Bytes) (seen : Option FilePath) (v : FieldValue)
      → KeepsSessions {Disk = Disk} (parse_name m seen v)
  unfolding parse_name
  parse_name_keeps m seen v w = ground arith

  pub parse_name_field_keeps :
      (fs : List Field) (seen : Option FilePath)
      → KeepsSessions {Disk = Disk} (parse_name_field fs seen)
  unfolding parse_name_field
  parse_name_field_keeps [] seen w = ground arith
  parse_name_field_keeps (f ∷ fs) seen w = elim (Bool-cases (equal f.name (codes "name"))) [
    | inl named ↦ rw named (
        continue_with_keeps (parse_name has_invalid_type seen f.value)
          (λ name. parse_name_field fs (some name)) (parse_name_keeps has_invalid_type seen f.value)
          (λ name. parse_name_field_keeps fs (some name)) w)
    | inr skipped ↦ rw skipped (parse_name_field_keeps fs seen w)
  ]

module _ {Disk : Type 0} (sys : System Disk) where
  pub execute_mkdir_keeps : (name : FilePath) → KeepsSessions (execute_mkdir sys name)
  unfolding execute_mkdir get_current_path get_lock
  execute_mkdir_keeps name w = ground arith

  pub execute_rm_keeps : (name : FilePath) → KeepsSessions (execute_rm sys name)
  unfolding execute_rm get_current_path get_lock is_path_locked
  execute_rm_keeps name w = ground arith

  pub execute_rename_keeps : (o n : FilePath) → KeepsSessions (execute_rename sys o n)
  unfolding execute_rename rename_to check_errc get_current_path get_lock is_path_locked
  execute_rename_keeps o n w = ground arith

  pub execute_mv_keeps : (name path : FilePath) → KeepsSessions (execute_mv sys name path)
  unfolding execute_mv transport_message get_relative_path_to check_errc get_current_path get_lock
      is_path_locked
  execute_mv_keeps name path w = ground arith

  pub execute_cp_keeps :
      (fuel : ℕ) (name path : FilePath) → KeepsSessions (execute_cp sys fuel name path)
  unfolding execute_cp transport_message get_relative_path_to check_errc get_current_path get_lock
      is_path_locked
  execute_cp_keeps fuel name path w = ground arith

  pub parse_path_field_keeps : (fs : List Field) → KeepsSessions (parse_path_field sys fs)
  unfolding parse_path_field parse_path check_directory base_path get_current_path get_lock
      is_path_forbidden
  parse_path_field_keeps fs w = ground arith

  pub parse_existing_name_keeps :
      (seen : Option FilePath) (v : FieldValue) → KeepsSessions (parse_existing_name sys seen v)
  unfolding parse_existing_name get_current_path get_lock
  parse_existing_name_keeps seen v =
      continue_with_keeps (parse_name has_invalid_type seen v) _
        (parse_name_keeps has_invalid_type seen v) λ name w. ground arith

  name_of_keeps :
      (v : Option FieldValue)
      → KeepsSessions (
          optional v
            (raise (bad_field (codes "name field is missing")))
            (parse_existing_name sys none))
  name_of_keeps none w = refl
  name_of_keeps (some v) w = parse_existing_name_keeps none v w

  pub parse_transport_keeps : (fs : List Field) → KeepsSessions (parse_transport sys fs)
  unfolding parse_transport
  parse_transport_keeps fs =
      continue_with_keeps (parse_path_field sys fs) _ (parse_path_field_keeps fs) λ path.
        continue_with_keeps _
          (λ name.
            optional path (raise (bad_field (codes "transport commands require path field")))
              λ p. return (name, p))
          (name_of_keeps (find_field (codes "name") fs)) λ name w. ground arith

  pub execute_pwd_keeps : KeepsSessions (execute_pwd sys)
  unfolding execute_pwd get_current_path get_lock get_relative_path_to
  execute_pwd_keeps w = ground arith

  pub execute_cd_keeps : (path : FilePath) → KeepsSessions (execute_cd sys path)
  unfolding execute_cd set_current_path put_lock execute_pwd get_current_path get_lock
      get_relative_path_to
  execute_cd_keeps path w = ground arith

  pub start_new_upload_keeps :
      (name : FilePath) (size : ℕ) → KeepsSessions (start_new_upload sys name size)
  unfolding start_new_upload upload_file insert_path_lock get_current_path get_lock
  start_new_upload_keeps name size w = ground arith

  pub execute_dl_keeps : (name : FilePath) (size : ℕ) → KeepsSessions (execute_dl sys name size)
  unfolding execute_dl download_file throw_on_invalid_path make_download_token insert_path_lock
      get_current_path get_lock set_file_offset put_lock release_lock set_download_token
  execute_dl_keeps name size w = ground arith

  pub ls_lines_keeps :
      (flags : LsFlags) (es : List Entry) → KeepsSessions {Disk = Disk} (ls_lines flags es)
  unfolding ls_lines is_path_forbidden
  ls_lines_keeps flags [] w = refl
  ls_lines_keeps flags (e ∷ es) w = ground (arith, ls_lines_keeps flags es w)

  walked_keeps :
      (forbidden : Bool) (m : M Disk Bytes)
      → KeepsSessions m
      → KeepsSessions (if forbidden then return [] else m)
  walked_keeps true m h w = refl
  walked_keeps false m h w = h w

  pub tree_lines_keeps :
      (depth : ℕ) (forest : Forest) → KeepsSessions {Disk = Disk} (tree_lines depth forest)
  unfolding tree_lines is_path_forbidden
  tree_lines_keeps depth no_entries w = refl
  tree_lines_keeps depth (node path is_directory children siblings) w =
      continue_with_keeps (is_path_forbidden path) _ (λ v. ground arith)
        (λ forbidden.
          continue_with_keeps (if forbidden then return [] else tree_lines (depth + 1) children) _
            (walked_keeps forbidden _ (tree_lines_keeps (depth + 1) children))
            λ inside.
              continue_with_keeps (tree_lines depth siblings) _ (tree_lines_keeps depth siblings)
                λ more v. refl)
        w

  pub path_or_current_keeps :
      (path : Option FilePath) → KeepsSessions {Disk = Disk} (path_or_current path)
  unfolding path_or_current get_current_path get_lock
  path_or_current_keeps path w = ground arith

  pub execute_ls_keeps :
      (path : Option FilePath) (flags : LsFlags) → KeepsSessions (execute_ls sys path flags)
  unfolding execute_ls
  execute_ls_keeps path flags =
      continue_with_keeps (path_or_current path) _ (path_or_current_keeps path) λ directory w.
        continue_with_keeps (lift (sys.entries w.disk directory)) (ls_lines flags) (λ v. refl)
          (ls_lines_keeps flags) w

  pub execute_tree_keeps : (path : Option FilePath) → KeepsSessions (execute_tree sys path)
  unfolding execute_tree
  execute_tree_keeps path =
      continue_with_keeps (path_or_current path) _ (path_or_current_keeps path) λ directory w.
        continue_with_keeps (lift (sys.walk w.disk directory)) (tree_lines 0) (λ v. refl)
          (tree_lines_keeps 0) w

  pub retry_upload_keeps : KeepsSessions (retry_upload sys)
  unfolding retry_upload resume get_auth_token get_lock put_lock upload_file insert_path_lock
  retry_upload_keeps w = ground arith

  pub execute_ul_keeps :
      (name : FilePath) (size : ℕ) (retry : Bool) → KeepsSessions (execute_ul sys name size retry)
  unfolding execute_ul get_auth_token get_lock put_lock set_upload_token release_lock set_mode
  execute_ul_keeps name size retry =
      continue_with_keeps (if retry then retry_upload sys else start_new_upload sys name size) _
        (begun_keeps retry) λ p w. ground arith
    where
      begun_keeps :
          (retry : Bool)
          → KeepsSessions (if retry then retry_upload sys else start_new_upload sys name size)
      begun_keeps true = retry_upload_keeps
      begun_keeps false = start_new_upload_keeps name size

  pub parse_cd_keeps : (fs : List Field) → KeepsSessions (parse_cd sys fs)
  unfolding parse_cd
  parse_cd_keeps fs =
      continue_with_keeps (parse_path_field sys fs) _ (parse_path_field_keeps fs)
        λ path w. ground arith

  pub parse_ls_flags_keeps :
      (fs : List Field) (flags : LsFlags) → KeepsSessions {Disk = Disk} (parse_ls_flags fs flags)
  unfolding parse_ls_flags parse_flag
  parse_ls_flags_keeps [] flags w = refl
  parse_ls_flags_keeps (f ∷ fs) flags w = elim (Option-cases (get_boolean f.value)) [
    | inl none_there ↦ ground (arith, parse_ls_flags_keeps fs flags w)
    | inr (b, there) ↦ ground (
      arith,
      parse_ls_flags_keeps fs flags w,
      parse_ls_flags_keeps fs (record flags { return_size = b }) w,
      parse_ls_flags_keeps fs (record flags { return_mod = b }) w,
    )
  ]

  pub parse_ls_keeps : (fs : List Field) → KeepsSessions (parse_ls sys fs)
  unfolding parse_ls
  parse_ls_keeps fs =
      continue_with_keeps (parse_path_field sys fs) _ (parse_path_field_keeps fs) λ path.
        continue_with_keeps (parse_ls_flags fs (record { return_size = false; return_mod = false }))
          (λ flags. return (path, flags))
          (parse_ls_flags_keeps fs (record { return_size = false; return_mod = false }))
          λ flags w. refl
