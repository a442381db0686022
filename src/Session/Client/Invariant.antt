-- ===== src/Session/Client/Invariant.antt =====
-- client.cpp: what holds of the server and of a connection, whatever bytes arrive.
use tin_dox.Prelude.{
  ℕ, zero, suc, Option, none, some, ◌≡◌, refl, sym, subst, ◌⊎◌, inl, inr, arith, Bytes, ok, err,
  Option-cases,
}
use tin_dox.Paths.{FilePath}
use tin_dox.Protocol.Error.{Outcome, protocol, fatal, running}
use tin_dox.Protocol.Interpreter.{Request, Interpreter, commit_bytes, get_request, restart}
use tin_dox.Protocol.Interpreter.Bounds.{IsBounded, commit_bytes-IsBounded}
use tin_dox.System.{System}
use tin_dox.Session.Client.{
  hand_over, begin_download, begin_upload, take_reply, run_available, after_commit, after_fed,
  handle_request, handle_upload, handle_in, handle_rounds, rounds, handle_input,
}
use tin_dox.Session.Connection.{Client, Call, ◌>>=◌, return, inside, change}
use tin_dox.Session.Connection.Keeps.{Keeps, keeps_rules, Keeps-bind, Keeps-return}
use tin_dox.Session.Context.{get_lock, release_lock, put_lock, set_mode}
use tin_dox.Session.Executor.Exclusive.{execute_command-IsUnique, execute_command-IsOwned}
use tin_dox.Session.Executor.Frame.{KeepsSessions}
use tin_dox.Session.Executor.{Reply, answer, start_download, start_upload, broken, execute_command}
use tin_dox.Session.Owned.{AreOwned, IsOwned}
use tin_dox.Session.State.{
  command, download, upload, LockKind, plain, downloading, uploading, PathLock, ProtocolMode,
  Sessions, World, M, lift, put_client,
}
use tin_dox.Session.Unique.{IsUnique}
use tin_dox.Session.Upload.{
  UploadManager, upload_bytes, commit_piece, finish, open_partial_file, remove_backup,
}

-- The live sessions are those of distinct users, each with its one owner, and the interpreter is
-- within its bounds.
pub record IsSound {Disk : Type 0} (others : ℕ → ℕ) (w : World Disk) (c : Client) : Type 0 where
  pub unique : IsUnique w.sessions
  pub owned : IsOwned others w
  pub bounded : IsBounded c.interpreter

module _ {Disk : Type 0} (others : ℕ → ℕ) where
  abbrev pub KeepsSound : {A : Type 0} → Call Disk A → Type 0
  KeepsSound m = Keeps (IsSound others) m

  pub inside_sound : {A : Type 0} (m : M Disk A) → KeepsSessions m → KeepsSound (inside m)
  unfolding inside
  inside_sound m h = record {
    kept = λ w c s. record {
      unique = subst (λ (t : Sessions × Option ℕ). IsUnique t.0) (sym (h w)) s.unique;
      owned = subst (AreOwned others) (sym (h w)) s.owned;
      bounded = s.bounded;
    };
  }

  pub change_sound :
      (f : Client → Client)
      → ((c : Client) → (f c).interpreter ≡ c.interpreter)
      → KeepsSound (change f)
  unfolding change
  change_sound f h = record {
    kept = λ w c s. record {
      unique = s.unique;
      owned = s.owned;
      bounded = subst IsBounded (sym (h c)) s.bounded;
    };
  }

  get_lock_sound : (p : Option ℕ) → KeepsSound (inside (get_lock p))
  get_lock_sound p = inside_sound (get_lock p) (unfold get_lock in λ w. ground arith)

  pub release_lock_sound : (p : Option ℕ) → KeepsSound (inside (release_lock p))
  unfolding release_lock
  release_lock_sound p = inside_sound (release_lock p) (λ w. refl)

  pub set_mode_sound : (mode : ProtocolMode) → KeepsSound (inside (set_mode mode))
  unfolding set_mode
  set_mode_sound mode = inside_sound (set_mode mode) (λ w. refl)

  pub lift_sound : {A : Type 0} (r : Outcome A) → KeepsSound (inside (lift r))
  lift_sound r = inside_sound (lift r) (λ w. refl)

  put_download_sound : KeepsSound (inside (put_client (λ k. record k { download_token = none })))
  put_download_sound =
      inside_sound (put_client (λ k. record k { download_token = none })) (λ w. refl)

  put_upload_sound : KeepsSound (inside (put_client (λ k. record k { upload_token = none })))
  put_upload_sound = inside_sound (put_client (λ k. record k { upload_token = none })) (λ w. refl)

ruleset sound_rules = (
  keeps_rules, change_sound, get_lock_sound, release_lock_sound, set_mode_sound, lift_sound,
  put_download_sound, put_upload_sound, refl,
)

module _ {Disk : Type 0} (sys : System Disk) (others : ℕ → ℕ) where
  hand_over_sound :
      (p : ℕ) (path : FilePath) (kind : LockKind) → KeepsSound others (hand_over sys p path kind)
  unfolding hand_over
  hand_over_sound p path (downloading zero offset) = search sound_rules
  hand_over_sound p path (downloading (suc size) offset) = search sound_rules
  hand_over_sound p path plain = search sound_rules
  hand_over_sound p path (uploading _ _ _ _ _) = search sound_rules

  begin_download_sound : KeepsSound others (begin_download sys)
  unfolding begin_download
  begin_download_sound = search (sound_rules, hand_over_sound)

  open_partial_file_sound :
      (lock : PathLock) → KeepsSound others (inside (open_partial_file sys lock))
  open_partial_file_sound lock =
      inside_sound others (open_partial_file sys lock)
        (unfold open_partial_file in λ w. ground arith)

  remove_backup_sound : (lock : PathLock) → KeepsSound others (inside (remove_backup sys lock))
  remove_backup_sound lock =
      inside_sound others (remove_backup sys lock) (unfold remove_backup in λ w. ground arith)

  begin_upload_sound : KeepsSound others (begin_upload sys)
  unfolding begin_upload
  begin_upload_sound = search (sound_rules, open_partial_file_sound, remove_backup_sound) depth 14

  upload_bytes_keeps :
      (m : UploadManager) (bytes : Bytes) → KeepsSessions (upload_bytes sys m bytes)
  unfolding upload_bytes commit_piece finish get_lock put_lock release_lock
  upload_bytes_keeps m bytes w = ground arith

  upload_bytes_sound :
      (m : UploadManager) (bytes : Bytes) → KeepsSound others (inside (upload_bytes sys m bytes))
  upload_bytes_sound m bytes =
      inside_sound others (upload_bytes sys m bytes) (upload_bytes_keeps m bytes)

  take_reply_sound : (reply : Reply) → KeepsSound others (take_reply sys reply)
  unfolding take_reply
  take_reply_sound (answer r) = search sound_rules
  take_reply_sound start_download = begin_download_sound
  take_reply_sound (start_upload r) = search (sound_rules, begin_upload_sound)
  take_reply_sound (broken m) = search sound_rules

restart-IsBounded : (i : Interpreter) → IsBounded (restart i)
unfolding restart
restart-IsBounded i = record { count = omega arith; sizes = tt; has_back = inl refl }

pub get_request-cases :
    (i : Interpreter)
    → (get_request i ≡ none) ⊎ ((r : Request) × (get_request i ≡ some (r, restart i)))
unfolding get_request
get_request-cases i = elim (Option-cases i.request) [
  | inl waiting ↦ inl (rw waiting refl)
  | inr (r, ready) ↦ inr (r, rw ready refl)
]

module _ {Disk : Type 0} (sys : System Disk) (copy_fuel stale_size : ℕ) (others : ℕ → ℕ) where
  run_available_sound :
      (i : Interpreter) → KeepsSound others (run_available sys copy_fuel stale_size (get_request i))
  unfolding run_available
  run_available_sound i = elim (get_request-cases i) [
    | inl waiting ↦ rw waiting (record { kept = λ w c s. s })
    | inr (r, ready) ↦ rw ready (record {
      kept = λ w c s.
          (take_reply_sound sys others (execute_command sys copy_fuel r w).1).kept
            (execute_command sys copy_fuel r w).0 (record c { interpreter = restart i })
            (record {
              unique = execute_command-IsUnique sys copy_fuel r w s.unique;
              owned = execute_command-IsOwned sys copy_fuel r others w s.unique s.owned;
              bounded = restart-IsBounded i;
            });
    })
  ]

  after_commit_sound :
      (i : Interpreter) (o : Outcome (Unit {0}))
      → KeepsSound others (after_commit sys copy_fuel stale_size i o)
  unfolding after_commit change
  after_commit_sound i (ok _) = run_available_sound i
  after_commit_sound i (err (protocol e)) = record {
    kept = λ w c s. record {
      unique = s.unique;
      owned = s.owned;
      bounded = restart-IsBounded c.interpreter;
    };
  }
  after_commit_sound i (err (fatal m)) = search sound_rules
  after_commit_sound i (err running) = search sound_rules

  handle_request_sound :
      (input : Bytes) → KeepsSound others (handle_request sys copy_fuel stale_size input)
  unfolding handle_request after_fed ◌>>=◌
  handle_request_sound input = record {
    kept = λ w c s.
        let fed = commit_bytes stale_size c.interpreter input in
        (Keeps-bind (after_commit sys copy_fuel stale_size fed.interpreter fed.outcome)
            (λ _. return fed.rest) (after_commit_sound fed.interpreter fed.outcome)
            (λ _. Keeps-return fed.rest)).kept
          w (record c { interpreter = fed.interpreter })
          (record {
            unique = s.unique;
            owned = s.owned;
            bounded = commit_bytes-IsBounded stale_size c.interpreter input s.bounded;
          });
  }

  handle_in_sound :
      (mode : ProtocolMode) (input : Bytes)
      → KeepsSound others (handle_in sys copy_fuel stale_size mode input)
  unfolding handle_in handle_upload
  handle_in_sound command input = handle_request_sound input
  handle_in_sound download input = search sound_rules
  handle_in_sound upload input = search (sound_rules, upload_bytes_sound) depth 10

  pub handle_rounds_sound :
      (fuel : ℕ) (input : Bytes)
      → KeepsSound others (handle_rounds sys copy_fuel stale_size fuel input)
  unfolding handle_rounds
  handle_rounds_sound zero input = search sound_rules
  handle_rounds_sound (suc f) input = search (sound_rules, handle_in_sound, handle_rounds_sound f)

  -- Whatever bytes arrive, in command mode, during a download or an upload, through all requests
  -- among them, and also where the call ends by an exception: the sessions that are alive on the
  -- server stay those of distinct users, each owned by this connection or by as many of the others as
  -- before, and the interpreter of the connection stays within its bounds.
  pub handle_input-IsSound :
      (input : Bytes) (w : World Disk) (c : Client)
      → IsSound others w c
      → let r = handle_input sys copy_fuel stale_size input w c in IsSound others r.0 r.1
  unfolding handle_input
  handle_input-IsSound input = (handle_rounds_sound (rounds input) input).kept
