-- ===== src/Session/Commands/Transfer.antt =====
-- dl.cpp, dls.cpp and ul.cpp: how a download or an upload is agreed on.
use tin_dox.Prelude.{
  ℕ, ◌+◌, ◌-◌, ◌%◌, ◌^◌, List, [], ◌∷◌, ◌++◌, Bool, Option, some, if◌then◌else◌, ltb, Bytes, codes,
  equal,
}
use tin_dox.Prelude.Decimal.{to_decimal}
use tin_dox.Protocol.Error.{ProtocolCode, fail, fail_with}
use tin_dox.Protocol.Field.{Field, FieldValue, get_integer, get_boolean}
use tin_dox.Paths.{FilePath, ◌/path◌}
use tin_dox.System.{System, Backup}
use tin_dox.Session.Arguments.{bad_field, invalid_value, parse_name, parse_existing_name}
use tin_dox.Session.Commands.Account.{line}
use tin_dox.Session.Commands.Files.{on_disk_or_throw, in_current_path}
use tin_dox.Session.Context.{
  config_directory, set_mode, get_auth_token, has_download_token, get_lock, put_lock, release_lock,
  set_download_token, set_upload_token, download_file, upload_file, null_pointer,
}
use tin_dox.Session.State.{
  download, upload, PathLock, LockKind, downloading, uploading, M, ◌>>=◌, ◌>>◌, return, raise, get,
  optional,
}

-- `m_offset` of an upload is a `uintmax_t`.
abbrev pub wrapped : ℕ → ℕ
wrapped n = n % 2 ^ 64

abbrev pub backup_file_path : FilePath → Bytes → FilePath
backup_file_path root stem = config_directory root /path (stem ++ codes ".upload")

unfoldable pub remaining_size : LockKind → ℕ
remaining_size (downloading size offset) = size - offset
remaining_size _ = 0

-- `add_file_offset` and `set_temporary_filename_stem`.
unfoldable pub add_file_offset : ℕ → LockKind → LockKind
add_file_offset change (uploading destination file_name stem size offset) =
    uploading destination file_name stem size (wrapped (offset + change))
add_file_offset change kind = kind

unfoldable pub set_stem : Bytes → LockKind → LockKind
set_stem new_stem (uploading destination file_name stem size offset) =
    uploading destination file_name new_stem size offset
set_stem new_stem kind = kind

unfoldable pub upload_offset : LockKind → ℕ
upload_offset (uploading destination file_name stem size offset) = offset
upload_offset _ = 0

module _ {Disk : Type 0} where
  -- `set_file_offset`, of a token that the command still owns and lets go of where this throws.
  unfoldable pub set_file_offset : ℕ → PathLock → ℕ → M Disk PathLock
  set_file_offset p lock offset = set_offset lock.kind
    where
      set_offset : LockKind → M Disk PathLock
      set_offset (downloading size old) =
          if ltb size offset
          then (release_lock (some p)
              >> raise (
                  fail_with ProtocolCode.invalid_field_value
                    (codes "invalid offset (greater than file size)")))
          else return (record lock { kind = downloading size offset })
      set_offset _ = raise null_pointer

  unfoldable pub parse_integer_field : Bytes → FieldValue → M Disk ℕ
  parse_integer_field name value =
      optional (get_integer value)
        (raise (invalid_value (name ++ codes " has invalid value type (should be integer)"))) return

  unfoldable pub execute_dls : M Disk Bytes
  execute_dls = do
    w ← get
    if has_download_token w.client
        then (set_mode download >> return [])
        else raise (fail ProtocolCode.dls_without_dl)

-- What ul is asked for.
pub record UlFields : Type 0 where
  pub name : Option FilePath
  pub size : Option ℕ
  pub retry : Bool

module _ {Disk : Type 0} where
  unfoldable pub parse_ul : List Field → UlFields → M Disk (FilePath × ℕ × Bool)
  parse_ul [] u = optional u.name (raise (bad_field (codes "name field is missing"))) λ name.
      optional u.size (raise (bad_field (codes "size field is missing")))
        λ size. return (name, size, u.retry)
  parse_ul (f ∷ fs) u =
      let as_name =
        parse_name (codes "name field has invalid value type (should be string)") u.name f.value
        >>= λ name. parse_ul fs (record u { name = some name }) in
      let as_size = parse_integer_field (codes "size") f.value >>= λ size.
      parse_ul fs (record u { size = some size }) in
      let as_retry =
        optional (get_boolean f.value)
          (raise (invalid_value (codes "retry field has invalid value type (should be boolean)")))
          λ retry. parse_ul fs (record u { retry = retry }) in
      let skipped = parse_ul fs u in
      if equal f.name (codes "name")
      then as_name
      else if equal f.name (codes "size")
      then as_size
      else if equal f.name (codes "retry")
      then as_retry
      else skipped

module _ {Disk : Type 0} (sys : System Disk) where
  unfoldable pub parse_dl : List Field → Option FilePath → ℕ → M Disk (FilePath × ℕ)
  parse_dl [] name offset =
      optional name (raise (bad_field (codes "dl requires name field"))) λ n. return (n, offset)
  parse_dl (f ∷ fs) name offset =
      let as_name = parse_existing_name sys name f.value >>= λ n. parse_dl fs (some n) offset in
      let as_offset = parse_integer_field (codes "offset") f.value >>= λ o. parse_dl fs name o in
      let skipped = parse_dl fs name offset in
      if equal f.name (codes "name")
      then as_name
      else if equal f.name (codes "offset")
      then as_offset
      else skipped

  unfoldable pub execute_dl : FilePath → ℕ → M Disk Bytes
  execute_dl name offset = do
    path ← in_current_path name
    p ← download_file sys path
    lock ← get_lock (some p)
    moved ← set_file_offset p lock offset
    put_lock p moved
    set_download_token p
    return (line (to_decimal (remaining_size moved.kind)))

  unfoldable pub start_new_upload : FilePath → ℕ → M Disk ℕ
  start_new_upload name size = in_current_path name >>= λ full_path. upload_file sys full_path size

  unfoldable pub resume : Backup → M Disk ℕ
  resume backup =
      let missing = raise (fail ProtocolCode.no_upload_to_resume) in
      optional backup.path missing λ path. optional backup.size missing λ size.
        optional backup.offset missing λ offset. do
          p ← upload_file sys path size
          lock ← get_lock (some p)
          put_lock p (record lock { kind = add_file_offset offset lock.kind })
          return p

  unfoldable pub retry_upload : M Disk ℕ
  retry_upload = do
    token ← get_auth_token
    w ← get
    let backup_path = backup_file_path w.root token.username
    optional (sys.parse_backup w.disk backup_path) (raise (fail ProtocolCode.no_upload_to_resume))
        λ backup. on_disk_or_throw (λ d. sys.remove d backup_path) >> resume backup

  unfoldable pub execute_ul : FilePath → ℕ → Bool → M Disk Bytes
  execute_ul name size retry = do
    p ← if retry then retry_upload else start_new_upload name size
    token ← get_auth_token
    lock ← get_lock (some p)
    let named = record lock { kind = set_stem token.username lock.kind }
    put_lock p named
    set_upload_token p
    set_mode upload
    return (line (to_decimal (upload_offset named.kind)))
