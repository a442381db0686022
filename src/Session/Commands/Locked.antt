-- ===== src/Session/Commands/Locked.antt =====
-- rm.cpp, rename.cpp and mv.cpp: what is in use stays where it is.
use tin_dox.Prelude.{ℕ, List, [], ◌∷◌, true, some, ◌≡◌, refl, arith, ok, err, starts_with}
use tin_dox.Protocol.Error.{ProtocolCode, fail}
use tin_dox.Paths.{FilePath, ◌/path◌, is_absolute}
use tin_dox.System.{System}
use tin_dox.Session.Commands.Files.{execute_rm, execute_rename, execute_mv}
use tin_dox.Session.Context.{any_lock, is_path_locked, get_current_path}
use tin_dox.Session.State.{World, PathLock, Store, deref}
use tin_dox.Session.Unique.{contains}

any_lock-found :
    (path : FilePath) (objects : Store PathLock) (p : ℕ) (lock : PathLock) (ps : List ℕ)
    → is_absolute path ≡ true
    → contains p ps ≡ true
    → deref p objects ≡ some lock
    → starts_with lock.path path ≡ true
    → any_lock path objects ps ≡ ok true
unfolding any_lock contains
any_lock-found path objects p lock [] a c d s = cc
any_lock-found path objects p lock (q ∷ qs) a c d s =
    ground (arith, any_lock-found path objects p lock qs a)

-- Where some client, the same or another, holds a lock whose path begins, as a text, with the path of
-- a file or directory that is there: rm, rename and mv of it answer `in_use` and change nothing at all.
pub locked_files_stay :
    {Disk : Type 0} (sys : System Disk) (w : World Disk)
    (current name new_name destination : FilePath) (p : ℕ) (lock : PathLock)
    → get_current_path w ≡ (w, ok current)
    → let path = current /path name in
      is_absolute path ≡ true
      → sys.exists w.disk path ≡ true
      → contains p w.locks.path_locks ≡ true
      → deref p w.locks.objects ≡ some lock
      → starts_with lock.path path ≡ true
      → (execute_rm sys name w ≡ (w, err (fail ProtocolCode.in_use)))
        × (execute_rename sys name new_name w ≡ (w, err (fail ProtocolCode.in_use)))
        × (execute_mv sys name destination w ≡ (w, err (fail ProtocolCode.in_use)))
unfolding execute_rm execute_rename execute_mv is_path_locked
locked_files_stay sys w current name new_name destination p lock at a e c d s =
    let found =
      any_lock-found (current /path name) w.locks.objects p lock w.locks.path_locks a c d s in
    (rw (at, e, found) refl, rw (at, e, found) refl, rw (at, found) refl)
