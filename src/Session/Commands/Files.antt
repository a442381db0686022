-- ===== src/Session/Commands/Files.antt =====
-- mkdir.cpp, rm.cpp, rename.cpp, cp.cpp and mv.cpp: the commands that change the disk.
use tin_dox.Prelude.{
  ℕ, zero, suc, List, [], ◌∷◌, ◌++◌, not, Option, none, some, if◌then◌else◌, ◌==◌, Bytes, codes,
  equal, ok,
}
use tin_dox.Prelude.Decimal.{to_decimal}
use tin_dox.Protocol.Error.{ProtocolCode, Outcome, fail, fail_with, running}
use tin_dox.Protocol.Field.{Field, FieldValue, get_string}
use tin_dox.Paths.{FilePath, ◌/path◌, same_path, is_just_a_name}
use tin_dox.System.{System}
use tin_dox.Session.Arguments.{bad_field, invalid_value, parse_name, has_invalid_type}
use tin_dox.Session.Commands.Account.{line}
use tin_dox.Session.Context.{is_some, get_current_path, is_path_locked, get_relative_path_to}
use tin_dox.Session.State.{M, ◌>>=◌, ◌>>◌, return, raise, get, done, refuse_if, optional}

-- The codes of `errno` on Linux that the commands tell apart.
abbrev pub exists_errno : ℕ
exists_errno = 17

abbrev pub not_supported_errno : ℕ
not_supported_errno = 95

-- The name of copy `n`, where the first has the name itself.
unfoldable pub copy_name : FilePath → ℕ → FilePath
copy_name name zero = name
copy_name name (suc n) = name ++ (codes " (copy " ++ (to_decimal (suc n) ++ codes ")"))

module _ {Disk : Type 0} where
  -- A call of the file system: what it does to the disk, and what it answers.
  abbrev pub on_disk : {A : Type 0} → (Disk → Disk × A) → M Disk A
  on_disk f w = let (disk, a) = f w.disk in (record w { disk = disk }, ok a)

  abbrev pub on_disk_or_throw : {A : Type 0} → (Disk → Disk × Outcome A) → M Disk A
  on_disk_or_throw f w = let (disk, r) = f w.disk in (record w { disk = disk }, r)

  -- The path of a name in the current directory.
  abbrev pub in_current_path : FilePath → M Disk FilePath
  in_current_path name = get_current_path >>= λ current. return (current /path name)

  -- What the commands make of an error code: the message of the last is built where it is needed.
  unfoldable pub check_errc : ℕ → Bytes → M Disk Bytes → M Disk (Unit {0})
  check_errc code invalid_file unknown =
      if code == 0
      then done
      else if code == exists_errno
      then raise (fail ProtocolCode.file_already_exists)
      else if code == not_supported_errno
      then raise (fail_with ProtocolCode.invalid_file_type invalid_file)
      else unknown >>= λ m. raise (fail_with ProtocolCode.unknown m)

  -- The field `name` of mkdir and rm.
  unfoldable pub parse_name_field : List Field → Option FilePath → M Disk FilePath
  parse_name_field [] seen =
      optional seen (raise (bad_field (codes "name field is missing"))) return
  parse_name_field (f ∷ fs) seen =
      let as_name =
        parse_name has_invalid_type seen f.value >>= λ name. parse_name_field fs (some name) in
      let skipped = parse_name_field fs seen in
      if equal f.name (codes "name") then as_name else skipped

  -- `Rename::parse_name`.
  unfoldable pub parse_rename_name : Bytes → Option FilePath → FieldValue → M Disk FilePath
  parse_rename_name field_name seen value = do
    refuse_if (is_some seen) (bad_field (field_name ++ codes " was already set"))
    optional (get_string value)
        (raise (invalid_value (field_name ++ codes " field has invalid value type")))
        λ name.
          refuse_if (not (is_just_a_name name))
            (invalid_value (field_name ++ codes " must be just a file name"))
          >> return name

  unfoldable pub parse_rename :
      List Field → Option FilePath → Option FilePath → M Disk (FilePath × FilePath)
  parse_rename [] oname nname =
      optional oname (raise (bad_field (codes "oname field is missing")))
        λ o. optional nname (raise (bad_field (codes "nname field is missing"))) λ n. return (o, n)
  parse_rename (f ∷ fs) oname nname =
      let as_oname =
        parse_rename_name f.name oname f.value >>= λ o. parse_rename fs (some o) nname in
      let as_nname =
        parse_rename_name f.name nname f.value >>= λ n. parse_rename fs oname (some n) in
      let skipped = parse_rename fs oname nname in
      if equal f.name (codes "oname")
      then as_oname
      else if equal f.name (codes "nname")
      then as_nname
      else skipped

module _ {Disk : Type 0} (sys : System Disk) where
  unfoldable pub execute_mkdir : FilePath → M Disk Bytes
  execute_mkdir name = do
    full_path ← in_current_path name
    w ← get
    refuse_if (sys.exists w.disk full_path)
        (fail_with ProtocolCode.file_already_exists (codes "this directory already exists"))
    on_disk_or_throw (λ d. sys.create_directory d full_path)
    return []

  unfoldable pub execute_rm : FilePath → M Disk Bytes
  execute_rm name = do
    full_path ← in_current_path name
    w ← get
    refuse_if (not (sys.exists w.disk full_path)) (fail ProtocolCode.not_found)
    locked ← is_path_locked full_path
    refuse_if locked (fail ProtocolCode.in_use)
    count ← on_disk_or_throw (λ d. sys.remove_all d full_path)
    return (line (to_decimal count))

  -- Behind the checks of rename.
  unfoldable pub rename_to : FilePath → FilePath → FilePath → FilePath → M Disk Bytes
  rename_to oname nname old_path new_path = do
    w ← get
    refuse_if (sys.exists w.disk new_path) (fail ProtocolCode.file_already_exists)
    code ← on_disk (λ d. sys.rename d old_path new_path)
    check_errc code (sys.quoted oname ++ codes " is not valid file") (
        return (
          codes "unknown filesystem error: failed to rename "
          ++ (sys.quoted oname
              ++ (codes " file to "
                  ++ (sys.quoted nname ++ (codes " (" ++ (sys.format_errc code ++ codes ")")))))))
    return []

  unfoldable pub execute_rename : FilePath → FilePath → M Disk Bytes
  execute_rename oname nname = do
    old_path ← in_current_path oname
    w ← get
    refuse_if (not (sys.exists w.disk old_path)) (fail ProtocolCode.not_found)
    locked ← is_path_locked old_path
    refuse_if locked (fail ProtocolCode.in_use)
    new_path ← in_current_path nname
    if same_path old_path new_path then return [] else rename_to oname nname old_path new_path

  -- The message of cp and mv for any other error code.
  unfoldable pub transport_message : Bytes → FilePath → FilePath → ℕ → M Disk Bytes
  transport_message verb name path code = do
    shown ← get_relative_path_to sys path
    return (
        codes "unknown filesystem error: failed to "
        ++ (verb
            ++ (b' '
                ∷ (sys.quoted name
                    ++ (codes " to "
                        ++ (sys.quoted shown
                            ++ (codes " (" ++ (sys.format_errc code ++ codes ")"))))))))

  unfoldable pub execute_mv : FilePath → FilePath → M Disk Bytes
  execute_mv name path = do
    old_path ← in_current_path name
    locked ← is_path_locked old_path
    refuse_if locked (fail ProtocolCode.in_use)
    let new_path = path /path name
    w ← get
    refuse_if (sys.exists w.disk new_path) (fail ProtocolCode.file_already_exists)
    code ← on_disk (λ d. sys.rename d old_path new_path)
    check_errc code (sys.quoted name ++ codes " is not valid file")
        (transport_message (codes "move") name path code)
    return []

  -- The loop over copy numbers. It has no bound in the source: `fuel` bounds the names that are
  -- tried, and `none` is a loop that is still running.
  unfoldable pub free_path : ℕ → ℕ → Disk → FilePath → FilePath → Option FilePath
  free_path zero n disk path name = none
  free_path (suc f) n disk path name =
      let later = free_path f (suc n) disk path name in
      let new_path = path /path copy_name name n in
      if sys.exists disk new_path then later else some new_path

  unfoldable pub execute_cp : ℕ → FilePath → FilePath → M Disk Bytes
  execute_cp fuel name path = do
    old_path ← in_current_path name
    w ← get
    new_path ← optional (free_path fuel 0 w.disk path name) (raise running) return
    code ← on_disk (λ d. sys.copy_file d old_path new_path)
    check_errc code (sys.quoted name ++ codes " is not valid file")
        (transport_message (codes "copy") name path code)
    return []
