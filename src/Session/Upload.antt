-- ===== src/Session/Upload.antt =====
-- server/src/protocol/upload_manager.cpp: the bytes of an upload, from the client to the file.
pub mod Pieces
pub mod Whole
mod Tests
use tin_dox.Prelude.{
  ℕ, ◌+◌, ◌-◌, ◌^◌, [], ◌++◌, Bool, true, false, not, Option, none, some, if◌then◌else◌, ◌==◌, min,
  length, take, drop, Bytes, codes, ok, err,
}
use tin_dox.Protocol.Error.{Error, Outcome, fatal}
use tin_dox.Paths.{FilePath, ◌/path◌}
use tin_dox.System.{System}
use tin_dox.Session.Commands.Files.{on_disk, on_disk_or_throw}
use tin_dox.Session.Commands.Transfer.{add_file_offset, upload_offset, backup_file_path, wrapped}
use tin_dox.Session.Context.{config_directory, get_lock, put_lock, release_lock, null_pointer}
use tin_dox.Session.State.{
  PathLock, LockKind, plain, downloading, uploading, World, M, ◌>>=◌, ◌>>◌, return, raise, get,
  done, refuse_if, optional, deref,
}

-- `m_token`, `m_partial_file_name` and `m_backup_file_name`.
pub record UploadManager : Type 0 where
  pub token : Option ℕ
  pub partial_file_name : FilePath
  pub backup_file_name : FilePath

unfoldable pub has_finished : UploadManager → Bool
has_finished u = elim u.token [ none ↦ true | some p ↦ false ]

-- The size and the temporary file name of an `UploadToken`.
unfoldable pub upload_size : LockKind → ℕ
upload_size (uploading destination file_name stem size offset) = size
upload_size _ = 0

unfoldable pub temporary_stem : LockKind → Bytes
temporary_stem (uploading destination file_name stem size offset) = stem
temporary_stem _ = []

-- `get_remaining_bytes`, a difference of `std::uintmax_t`.
unfoldable pub get_remaining_bytes : LockKind → ℕ
get_remaining_bytes kind = wrapped (upload_size kind + 2 ^ 64 - wrapped (upload_offset kind))

abbrev pub partial_file_path : FilePath → Bytes → FilePath
partial_file_path root stem = config_directory root /path (stem ++ codes ".partial")

module _ {Disk : Type 0} (sys : System Disk) where
  -- The two files of `start_upload`: the bytes of the upload, and what is left of an earlier one.
  unfoldable pub open_partial_file : PathLock → M Disk (Unit {0})
  open_partial_file lock = do
    w ← get
    on_disk_or_throw (λ d.
        sys.open_file (not (upload_offset lock.kind == 0)) d
          (partial_file_path w.root (temporary_stem lock.kind)))

  unfoldable pub remove_backup : PathLock → M Disk (Unit {0})
  remove_backup lock = do
    w ← get
    let backup = backup_file_path w.root (temporary_stem lock.kind)
    if sys.exists w.disk backup then on_disk_or_throw (λ d. sys.remove d backup) else done

  -- `finish`: the file gets its name, and the token is let go of.
  unfoldable pub finish : UploadManager → PathLock → M Disk UploadManager
  finish u lock = do
    code ← on_disk (λ d. sys.rename d u.partial_file_name lock.path)
    refuse_if (not (code == 0)) (fatal (codes "filesystem error: cannot rename"))
    release_lock u.token
    return (record u { token = none })

  -- What `commit_bytes` leaves of the bytes, with the manager behind it.
  unfoldable pub commit_piece :
      UploadManager → ℕ → PathLock → Bytes → M Disk (UploadManager × Bytes)
  commit_piece u p lock bytes = do
    let count = min (length bytes) (get_remaining_bytes lock.kind)
    on_disk_or_throw (λ d. sys.append d u.partial_file_name (take count bytes))
    let later = record lock { kind = add_file_offset count lock.kind }
    put_lock p later
    v ←
        if upload_offset later.kind == wrapped (upload_size later.kind)
        then finish u later
        else return u
    return (v, drop count bytes)

  unfoldable pub upload_bytes : UploadManager → Bytes → M Disk (UploadManager × Bytes)
  upload_bytes u bytes =
      optional u.token (raise null_pointer)
        λ p. do lock ← get_lock (some p); commit_piece u p lock bytes

  -- The destructor: what an upload has not finished can be resumed later.
  unfoldable pub close_upload : UploadManager → M Disk (Unit {0})
  close_upload u = optional u.token done λ p. do
    lock ← get_lock (some p)
    w ← get
    on_disk (λ d. (
      sys.write_backup d u.backup_file_name lock.path (upload_size lock.kind)
          (upload_offset lock.kind),
      tt,
    ))
    release_lock (some p)
