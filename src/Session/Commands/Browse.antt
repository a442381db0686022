-- ===== src/Session/Commands/Browse.antt =====
-- cd.cpp, ls.cpp, pwd.cpp and tree.cpp: where the client is, and what is there.
use tin_dox.Prelude.{
  ℕ, zero, suc, ◌+◌, List, [], ◌∷◌, ◌++◌, Bool, true, false, ◌&&◌, Option, none, some,
  if◌then◌else◌, Bytes, codes, equal,
}
use tin_dox.Prelude.Decimal.{to_decimal}
use tin_dox.Protocol.Field.{Field, FieldValue, get_boolean}
use tin_dox.Paths.{FilePath, filename}
use tin_dox.System.{System, Entry, Forest, no_entries, node}
use tin_dox.Session.Arguments.{bad_field, invalid_value, parse_path_field}
use tin_dox.Session.Commands.Account.{line}
use tin_dox.Session.Context.{
  get_current_path, set_current_path, get_relative_path_to, is_path_forbidden,
}
use tin_dox.Session.State.{M, ◌>>=◌, ◌>>◌, return, raise, lift, get, optional}

abbrev pub quote : Bytes → Bytes
quote s = b'"' ∷ (s ++ b'"' ∷ [])

-- What `ls` is asked to show.
pub record LsFlags : Type 0 where
  pub return_size : Bool
  pub return_mod : Bool

-- A value that the entry has, or `-`.
unfoldable pub or_dash : Option Bytes → Bytes
or_dash none = codes "-"
or_dash (some text) = text

unfoldable pub shown_size : Option ℕ → Bytes
shown_size none = codes "-"
shown_size (some n) = to_decimal n

unfoldable pub ls_line : LsFlags → Entry → Bytes
ls_line flags e =
    quote (filename e.path)
    ++ ((if flags.return_size then b' ' ∷ shown_size e.size else [])
        ++ (if flags.return_mod then b' ' ∷ or_dash e.last_write_time else []))

unfoldable pub replicate : ℕ → ℕ → Bytes
replicate zero c = []
replicate (suc n) c = c ∷ replicate n c

-- `fs::is_empty`, of a directory that the walk has gone into.
abbrev has_no_entries : Forest → Bool
has_no_entries no_entries = true
has_no_entries (node _ _ _ _) = false

module _ {Disk : Type 0} where
  unfoldable pub ls_lines : LsFlags → List Entry → M Disk Bytes
  ls_lines flags [] = return []
  ls_lines flags (e ∷ es) = do
    forbidden ← is_path_forbidden e.path
    more ← ls_lines flags es
    return (if forbidden then more else line (ls_line flags e) ++ more)

  -- A forbidden directory is passed over with all that it holds.
  unfoldable pub tree_lines : ℕ → Forest → M Disk Bytes
  tree_lines depth no_entries = return []
  tree_lines depth (node path is_directory children siblings) = do
    forbidden ← is_path_forbidden path
    let walked = tree_lines (depth + 1) children
    inside ← if forbidden then return [] else walked
    more ← tree_lines depth siblings
    return (
        if forbidden
        then more
        else line (
            replicate depth b' '
            ++ (quote (filename path)
                ++ (if is_directory && has_no_entries children then codes " E" else [])))
          ++ (inside ++ more))

  unfoldable pub parse_flag : Bytes → FieldValue → M Disk Bool
  parse_flag name value =
      optional (get_boolean value)
        (raise (invalid_value (name ++ codes " field has invalid value type (should be boolean)")))
        return

  unfoldable pub parse_ls_flags : List Field → LsFlags → M Disk LsFlags
  parse_ls_flags [] flags = return flags
  parse_ls_flags (f ∷ fs) flags =
      let as_size = parse_flag (codes "size") f.value >>= λ b.
      parse_ls_flags fs (record flags { return_size = b }) in
      let as_mod = parse_flag (codes "mod") f.value >>= λ b.
      parse_ls_flags fs (record flags { return_mod = b }) in
      let skipped = parse_ls_flags fs flags in
      if equal f.name (codes "size")
      then as_size
      else if equal f.name (codes "mod")
      then as_mod
      else skipped

  -- The directory that was asked for, or the current one.
  unfoldable pub path_or_current : Option FilePath → M Disk FilePath
  path_or_current path = optional path get_current_path return

module _ {Disk : Type 0} (sys : System Disk) where
  unfoldable pub parse_cd : List Field → M Disk FilePath
  parse_cd fields = do
    path ← parse_path_field sys fields
    optional path (raise (bad_field (codes "cd requires path field"))) return

  unfoldable pub execute_pwd : M Disk Bytes
  execute_pwd = do
    current ← get_current_path
    shown ← get_relative_path_to sys current
    return (line shown)

  unfoldable pub execute_cd : FilePath → M Disk Bytes
  execute_cd path = do set_current_path path; execute_pwd

  unfoldable pub parse_ls : List Field → M Disk (Option FilePath × LsFlags)
  parse_ls fields = do
    path ← parse_path_field sys fields
    flags ← parse_ls_flags fields (record { return_size = false; return_mod = false })
    return (path, flags)

  unfoldable pub execute_ls : Option FilePath → LsFlags → M Disk Bytes
  execute_ls path flags = do
    directory ← path_or_current path
    w ← get
    es ← lift (sys.entries w.disk directory)
    ls_lines flags es

  unfoldable pub execute_tree : Option FilePath → M Disk Bytes
  execute_tree path = do
    directory ← path_or_current path
    w ← get
    forest ← lift (sys.walk w.disk directory)
    tree_lines 0 forest
