-- ===== src/Paths.antt =====
-- `std::filesystem::path` on POSIX, as far as the server uses it: paths are their native strings.
pub mod Normal
mod Tests
use tin_dox.Prelude.{
  ℕ, Bool, true, false, not, ◌&&◌, ◌||◌, List, [], ◌∷◌, ◌++◌, reverse, ◌==◌, if◌then◌else◌, all,
  Bytes, codes, equal,
}

abbrev pub FilePath : Type 0
FilePath = Bytes

abbrev pub separator : ℕ
separator = b'/'

unfoldable pub is_absolute : FilePath → Bool
is_absolute [] = false
is_absolute (c ∷ cs) = c == separator

-- `has_filename()`: the path does not end in a separator.
unfoldable pub has_filename : FilePath → Bool
has_filename [] = false
has_filename (c ∷ []) = not (c == separator)
has_filename (c ∷ d ∷ cs) = has_filename (d ∷ cs)

-- `operator/`: an absolute right side replaces the left one.
infixl 72 ◌/path◌
unfoldable pub ◌/path◌ : FilePath → FilePath → FilePath
unfolding is_absolute has_filename
p /path q = if is_absolute q then q else if has_filename p then p ++ separator ∷ q else p ++ q

-- The pieces between separators, with the empty ones.
pieces : Bytes → FilePath → List Bytes
pieces piece [] = reverse piece ∷ []
pieces piece (c ∷ cs) =
    let next = reverse piece ∷ pieces [] cs in
    let more = pieces (c ∷ piece) cs in if c == separator then next else more

drop_empty : List Bytes → List Bytes
drop_empty [] = []
drop_empty (p ∷ []) = p ∷ []
drop_empty ([] ∷ p ∷ ps) = drop_empty (p ∷ ps)
drop_empty ((c ∷ cs) ∷ p ∷ ps) = (c ∷ cs) ∷ drop_empty (p ∷ ps)

-- The file names of a path; the last is empty where the path ends in a separator.
unfoldable pub filenames : FilePath → List Bytes
unfolding pieces drop_empty
filenames p = drop_empty (pieces [] p)

equal_lists : List Bytes → List Bytes → Bool
equal_lists [] [] = true
equal_lists (x ∷ xs) (y ∷ ys) = equal x y && equal_lists xs ys
equal_lists _ _ = false

-- `operator==`: runs of separators count as one.
unfoldable pub same_path : FilePath → FilePath → Bool
unfolding is_absolute filenames equal_lists
same_path p q =
    (if is_absolute p then is_absolute q else not (is_absolute q))
    && equal_lists (filenames p) (filenames q)

last_piece : List Bytes → Bytes
last_piece [] = []
last_piece (p ∷ []) = p
last_piece (p ∷ q ∷ ps) = last_piece (q ∷ ps)

-- `filename()`.
unfoldable pub filename : FilePath → FilePath
unfolding pieces last_piece
filename p = last_piece (pieces [] p)

drop_separators : Bytes → Bytes
drop_separators [] = []
drop_separators (c ∷ cs) = if c == separator then drop_separators cs else c ∷ cs

drop_filename : Bytes → Bytes
drop_filename [] = []
drop_filename (c ∷ cs) = if c == separator then c ∷ cs else drop_filename cs

root_or : Bool → Bytes → FilePath
root_or true [] = separator ∷ []
root_or _ r = reverse r

-- `parent_path()`: without the file name and the separators before it, the root directory kept.
unfoldable pub parent_path : FilePath → FilePath
unfolding is_absolute drop_separators drop_filename root_or
parent_path p = root_or (is_absolute p) (drop_separators (drop_filename (reverse p)))

abbrev dot : Bytes
dot = codes "."

abbrev dot_dot : Bytes
dot_dot = codes ".."

pop : List Bytes → List Bytes
pop [] = []
pop (p ∷ ps) = ps

join : List Bytes → Bytes
join [] = []
join (p ∷ []) = p
join (p ∷ q ∷ ps) = p ++ separator ∷ join (q ∷ ps)

-- The names that stay, newest first. A path that ends in `.`, `..` or a separator keeps a separator
-- at its end, as an empty name.
normal_names : List Bytes → List Bytes → List Bytes
normal_names kept [] = kept
normal_names kept (p ∷ []) =
    if equal p dot then [] ∷ kept else if equal p dot_dot then [] ∷ pop kept else p ∷ kept
normal_names kept (p ∷ q ∷ ps) =
    normal_names (if equal p dot then kept else if equal p dot_dot then pop kept else p ∷ kept)
      (q ∷ ps)

-- `lexically_normal()` of an absolute path.
unfoldable pub lexically_normal : FilePath → FilePath
unfolding filenames normal_names pop join
lexically_normal p = separator ∷ join (reverse (normal_names [] (filenames p)))

-- The test of the commands for a plain file name, `name_as_path == name_as_path.filename()`.
unfoldable pub is_just_a_name : FilePath → Bool
unfolding same_path filename
is_just_a_name name = same_path name (filename name)
