-- ===== src/System.antt =====
-- What the server takes from the operating system and from its libraries: the file system behind
-- `std::filesystem`, the formatting of paths and error codes by fmt, the TOML parser for a backup
-- file, and `crypt(3)`. None of it is code of the repository, so all of it is a parameter.
use tin_dox.Prelude.{ℕ, Bool, List, Option, Bytes}
use tin_dox.Protocol.Error.{Outcome}
use tin_dox.Paths.{FilePath}
use tin_dox.User.Hash.{Crypt}

-- A `directory_entry`: `none` where `file_size` or `last_write_time` set an error code. The time is
-- the text that `fmt::localtime` gives.
pub record Entry : Type 0 where
  pub path : FilePath
  pub size : Option ℕ
  pub last_write_time : Option Bytes

-- What a `recursive_directory_iterator` walks over: entries in order, each with what it holds.
pub data Forest : Type 0 where
  no_entries : Forest
  node : FilePath → Bool → Forest → Forest → Forest

-- A backup file as TOML: the nodes `path`, `size` and `offset`, where they have the right type, and
-- the integers as the `std::uintmax_t` that they are converted to.
pub record Backup : Type 0 where
  pub path : Option FilePath
  pub size : Option ℕ
  pub offset : Option ℕ

-- `open_read` is `open(2)` for reading; `open_file` opens for appending or truncates, by its flag; `append` is a `write` on what is open.
-- `Disk` is the state of the file system. A function of `std::filesystem` that may throw answers an
-- `Outcome`; one that takes an `error_code` answers the code, 0 where it succeeds.
pub record System (Disk : Type 0) : Type 0 where
  pub exists : Disk → FilePath → Bool
  pub is_directory : Disk → FilePath → Bool
  pub is_regular_file : Disk → FilePath → Bool
  pub file_size : Disk → FilePath → Outcome ℕ
  pub available : Disk → FilePath → Outcome ℕ
  pub create_directory : Disk → FilePath → Disk × Outcome (Unit {0})
  pub remove : Disk → FilePath → Disk × Outcome (Unit {0})
  pub remove_all : Disk → FilePath → Disk × Outcome ℕ
  pub rename : Disk → FilePath → FilePath → Disk × ℕ
  pub copy_file : Disk → FilePath → FilePath → Disk × ℕ
  pub entries : Disk → FilePath → Outcome (List Entry)
  pub walk : Disk → FilePath → Outcome Forest
  pub relative : Disk → FilePath → FilePath → FilePath
  pub parse_backup : Disk → FilePath → Option Backup
  pub open_read : Disk → FilePath → Outcome (Unit {0})
  pub open_file : Bool → Disk → FilePath → Disk × Outcome (Unit {0})
  pub append : Disk → FilePath → Bytes → Disk × Outcome (Unit {0})
  pub write_backup : Disk → FilePath → FilePath → ℕ → ℕ → Disk
  pub quoted : FilePath → Bytes
  pub format_errc : ℕ → Bytes
  pub crypt : Crypt
