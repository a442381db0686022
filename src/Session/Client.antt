-- ===== src/Session/Client.antt =====
-- server/src/server/client.cpp: what a client's connection does with the bytes that arrive.
pub mod Invariant
pub mod Ready
pub mod Pieces
pub mod Loop
pub mod Events
use tin_dox.Prelude.{
  ℕ, zero, suc, ◌+◌, ◌*◌, [], ◌∷◌, Bool, true, false, Option, none, some, Bytes, codes, ok, err,
  if◌then◌else◌, length,
}
use tin_dox.Paths.{FilePath}
use tin_dox.Protocol.Download
use tin_dox.Protocol.Error.{Outcome, Error, protocol, fatal, running}
use tin_dox.Protocol.Interpreter.{Request, Interpreter, Fed, commit_bytes, get_request, restart}
use tin_dox.Protocol.Response.{error_response}
use tin_dox.System.{System}
use tin_dox.Session.Connection.{
  Client, Call, ◌>>=◌, ◌>>◌, return, done, throw, inside, world, self, change, expect, queue,
}
use tin_dox.Session.Context.{get_lock, release_lock, null_pointer, set_mode}
use tin_dox.Session.Executor.{Reply, answer, start_download, start_upload, broken, execute_command}
use tin_dox.Session.State.{
  command, download, upload, LockKind, plain, downloading, uploading, World, ProtocolMode,
  put_client, lift,
}
use tin_dox.Session.Upload.{
  upload_bytes, has_finished, temporary_stem, partial_file_path, open_partial_file, remove_backup,
}
use tin_dox.Session.Commands.Transfer.{backup_file_path}

abbrev pub is_empty : Bytes → Bool
is_empty [] = true
is_empty (c ∷ cs) = false

-- Rounds that are enough: each takes a byte, or ends an upload.
abbrev pub rounds : Bytes → ℕ
rounds input = 2 * length input + 2

module _ {Disk : Type 0} (sys : System Disk) where
  -- `DownloadManager::start_download`: an empty file is not opened, and its token is let go of.
  unfoldable pub hand_over : ℕ → FilePath → LockKind → Call Disk (Unit {0})
  hand_over p path (downloading zero offset) = inside (release_lock (some p))
  hand_over p path (downloading (suc size) offset) = do
    change (λ c. record c { download_manager = record c.download_manager { token = some p } })
    w ← world
    inside (lift (sys.open_read w.disk path))
    change (λ c. record c {
      download_manager = Download.start_download p (suc size) offset c.download_manager;
    })
  hand_over p path kind = throw null_pointer

  -- `Client::start_download`: the token moves from the context to the manager.
  unfoldable pub begin_download : Call Disk (Unit {0})
  begin_download = do
    w ← world
    inside (put_client (λ k. record k { download_token = none }))
    p ← expect w.client.download_token
    lock ← inside (get_lock (some p))
    hand_over p lock.path lock.kind

  -- `Client::start_upload` with `UploadManager::start_upload`. The manager owns the token before the
  -- file is opened.
  unfoldable pub begin_upload : Call Disk (Unit {0})
  begin_upload = do
    w ← world
    inside (put_client (λ k. record k { upload_token = none }))
    p ← expect w.client.upload_token
    lock ← inside (get_lock (some p))
    change (λ c. record c {
      upload_manager = record c.upload_manager {
        token = some p;
        partial_file_name = partial_file_path w.root (temporary_stem lock.kind);
      };
    })
    inside (open_partial_file sys lock)
    change (λ c. record c {
      upload_manager = record c.upload_manager {
        backup_file_name = backup_file_path w.root (temporary_stem lock.kind);
      };
    })
    inside (remove_backup sys lock)

  -- The end of `execute_command`.
  unfoldable pub take_reply : Reply → Call Disk (Unit {0})
  take_reply (answer r) = change (queue r)
  take_reply start_download = begin_download
  take_reply (start_upload r) = change (queue r) >> begin_upload
  take_reply (broken e) = throw e

  abbrev pub after_command : World Disk × Reply → Client → World Disk × Client × Outcome (Unit {0})
  after_command (w, reply) c = take_reply reply w c

module _ {Disk : Type 0} (sys : System Disk) (copy_fuel stale_size : ℕ) where
  unfoldable pub run_available : Option (Request × Interpreter) → Call Disk (Unit {0})
  run_available none w c = (w, c, ok tt)
  run_available (some (r, i)) w c =
      after_command sys (execute_command sys copy_fuel r w) (record c { interpreter = i })

  -- Behind `commit_bytes`: the request, or the answer to an error of the interpreter.
  unfoldable pub after_commit : Interpreter → Outcome (Unit {0}) → Call Disk (Unit {0})
  after_commit i (ok _) = run_available (get_request i)
  after_commit i (err (protocol e)) = change (λ c.
      queue (error_response (codes "<interpreter>") e)
        (record c { interpreter = restart c.interpreter }))
  after_commit i (err (fatal m)) = throw (fatal m)
  after_commit i (err running) = throw running

  -- The request that a call of `commit_bytes` completes, and the bytes behind it.
  unfoldable pub after_fed : Fed → Call Disk Bytes
  after_fed fed = do
    change (λ c. record c { interpreter = fed.interpreter })
    after_commit fed.interpreter fed.outcome
    return fed.rest

  unfoldable pub handle_request : Bytes → Call Disk Bytes
  handle_request input = do c ← self; after_fed (commit_bytes stale_size c.interpreter input)

  unfoldable pub handle_upload : Bytes → Call Disk Bytes
  handle_upload input = do
    c ← self
    r ← inside (upload_bytes sys c.upload_manager input)
    change (λ d. record d { upload_manager = r.0 })
    if has_finished r.0 then inside (set_mode command) else done
    return r.1

  unfoldable pub handle_in : ProtocolMode → Bytes → Call Disk Bytes
  handle_in command input = handle_request input
  handle_in download input = change (λ c. record c { pending_input = input }) >> return []
  handle_in upload input = handle_upload input

  -- The loop of `handle_input`; `fuel` bounds its rounds.
  unfoldable pub handle_rounds : ℕ → Bytes → Call Disk Bytes
  handle_rounds zero input = return input
  handle_rounds (suc f) input = do
    w ← world
    rest ← handle_in w.client.mode input
    let more = handle_rounds f rest
    if is_empty rest then return rest else more

  unfoldable pub handle_input : Bytes → Call Disk Bytes
  handle_input input = handle_rounds (rounds input) input
