-- ===== src/Session/Arguments.antt =====
-- server/src/protocol/execution: the fields that several commands parse, path_based_command.cpp and
-- transport_command.cpp.
pub mod Inside
use tin_dox.Prelude.{
  ℕ, List, [], ◌∷◌, ◌++◌, Bool, true, false, not, ◌||◌, Option, none, some, if◌then◌else◌, Bytes,
  codes, equal, starts_with, ok, err,
}
use tin_dox.Protocol.Error.{ProtocolCode, Error, Outcome, fail, fail_with, throw}
use tin_dox.Protocol.Field.{Field, FieldValue, get_string, get_boolean, get_integer}
use tin_dox.Paths.{FilePath, ◌/path◌, is_absolute, lexically_normal, is_just_a_name}
use tin_dox.System.{System}
use tin_dox.Session.Context.{is_some, get_current_path, is_path_forbidden}
use tin_dox.Session.State.{World, M, ◌>>=◌, ◌>>◌, return, raise, lift, get, refuse_if, optional}

abbrev pub bad_field : Bytes → Error
bad_field = fail_with ProtocolCode.bad_field

abbrev pub invalid_value : Bytes → Error
invalid_value = fail_with ProtocolCode.invalid_field_value

-- `std::ranges::find(fields, name, &Field::get_name)`.
unfoldable pub find_field : Bytes → List Field → Option FieldValue
find_field name [] = none
find_field name (f ∷ fs) = if equal f.name name then some f.value else find_field name fs

abbrev pub has_invalid_type : Bytes
has_invalid_type = codes "name field has invalid value type"

-- An absolute request is put behind the root as it is; a relative one is normalised, and falls
-- back to the root where it leaves it.
unfoldable pub final_path : FilePath → FilePath → FilePath → FilePath
final_path root current requested =
    let inside = lexically_normal (current /path requested) in
    if is_absolute requested
    then root ++ requested
    else if starts_with inside root
    then inside
    else root

module _ {Disk : Type 0} where
  -- The current directory is asked for where the request is relative.
  unfoldable pub base_path : FilePath → M Disk FilePath
  base_path requested = if is_absolute requested then return [] else get_current_path

  -- The `parse_name` of mkdir, rm and ul: set once, a string, and a plain file name.
  unfoldable pub parse_name : Bytes → Option FilePath → FieldValue → M Disk FilePath
  parse_name type_message seen value = do
    refuse_if (is_some seen) (bad_field (codes "name was already set"))
    optional (get_string value) (raise (invalid_value type_message)) λ name.
        refuse_if (not (is_just_a_name name)) (invalid_value (codes "name must be just a name"))
        >> return name

module _ {Disk : Type 0} (sys : System Disk) where
  -- The `parse_name` of dl, cp and mv: the file exists in the current directory, too.
  unfoldable pub parse_existing_name : Option FilePath → FieldValue → M Disk FilePath
  parse_existing_name seen value = do
    name ← parse_name has_invalid_type seen value
    current ← get_current_path
    w ← get
    refuse_if (not (sys.exists w.disk (current /path name))) (
        fail_with ProtocolCode.not_found
          (codes "file " ++ (sys.quoted name ++ codes " does not exist")))
    return name

  -- The tests at the end of `parse_path`.
  unfoldable pub check_directory : Bytes → FilePath → M Disk FilePath
  check_directory text path = do
    w ← get
    forbidden ← is_path_forbidden path
    refuse_if (forbidden || not (sys.exists w.disk path)) (
        fail_with ProtocolCode.not_found
          (codes "directory '" ++ (text ++ codes "' does not exist")))
    refuse_if (not (sys.is_directory w.disk path))
        (fail_with ProtocolCode.not_a_directory (text ++ codes " is not a directory"))
    return path

  unfoldable pub parse_path : FieldValue → M Disk FilePath
  parse_path value =
      optional (get_string value)
        (raise (invalid_value (codes "path field has invalid value type (should be string)")))
        λ text. do
          current ← base_path text
          w ← get
          check_directory text (final_path w.root current text)

  -- `PathBasedCommand::parse_fields`: the first field of that name.
  unfoldable pub parse_path_field : List Field → M Disk (Option FilePath)
  parse_path_field fields =
      optional (find_field (codes "path") fields) (return none)
        λ value. parse_path value >>= λ path. return (some path)

  -- `TransportCommand::parse_fields`: the name and the directory.
  unfoldable pub parse_transport : List Field → M Disk (FilePath × FilePath)
  parse_transport fields = do
    path ← parse_path_field fields
    name ←
        optional (find_field (codes "name") fields)
          (raise (bad_field (codes "name field is missing")))
          λ value. parse_existing_name none value
    optional path (raise (bad_field (codes "transport commands require path field")))
        λ p. return (name, p)
