-- ===== src/Session/Commands/Limits.antt =====
-- server_context.cpp with ul.cpp and dl.cpp: what an upload or a download is granted.
use tin_dox.Prelude.{
  ℕ, ◌≤◌, true, false, not, ◌||◌, ◌≡◌, arith, ok, ltb, some, List, [], ◌∷◌, ==_iff,
}
use tin_dox.Paths.{FilePath, is_absolute, parent_path, same_path}
use tin_dox.System.{System}
use tin_dox.Session.Context.{upload_file, insert_path_lock, has_lock_at}
use tin_dox.Session.Unique.{contains}
use tin_dox.Session.State.{PathLock, Store, deref, refuse_if-eq-ok, lift-eq-ok, World}

-- What makes an upload acceptable.
pub record IsAcceptable {Disk : Type 0} (sys : System Disk) (w : World Disk) (path : FilePath)
    (size : ℕ) : Type 0 where
  pub absolute : is_absolute path ≡ true
  pub new_file : sys.exists w.disk path ≡ false
  pub in_directory : sys.exists w.disk (parent_path path) ≡ true
  pub within_limit : size ≤ w.upload_max_size
  pub free : ℕ
  pub free_space : sys.available w.disk w.root ≡ ok free
  pub fits : size ≤ free
  pub unused :
      (p : ℕ) (lock : PathLock)
      → contains p w.locks.path_locks ≡ true
      → deref p w.locks.objects ≡ some lock
      → same_path lock.path path ≡ false

-- The search finds every lock of a list.
has_lock_at-none :
    (path : FilePath) (objects : Store PathLock) (ps : List ℕ)
    → has_lock_at path objects ps ≡ false
    → (p : ℕ) (lock : PathLock) → contains p ps ≡ true
    → deref p objects ≡ some lock
    → same_path lock.path path ≡ false
unfolding has_lock_at contains
has_lock_at-none path objects [] h p lock c d = cc
has_lock_at-none path objects (q ∷ qs) h p lock c d =
    ground (arith, ==_iff q p, has_lock_at-none path objects qs _ p lock)

module _ {Disk : Type 0} (sys : System Disk) where
  -- Every upload that is granted has an absolute path at which nothing exists, whose parent path
  -- exists, be it a directory or a regular file; a size within the limit of the server and the space
  -- of the disk; and a path that equals, as a path, that of no live lock of the server. No other state
  -- than the locks has changed.
  pub upload_file-IsAcceptable :
      (w w' : World Disk) (path : FilePath) (size p : ℕ)
      → upload_file sys path size w ≡ (w', ok p)
      → IsAcceptable sys w path size × (w' ≡ record w { locks = w'.locks })
  unfolding upload_file insert_path_lock
  upload_file-IsAcceptable w w' path size p e =
      let (absolute, e1) = refuse_if-eq-ok w w' p (not (is_absolute path)) _ _ e in
      let (new_file, e2) = refuse_if-eq-ok w w' p (sys.exists w.disk path) _ _ e1 in
      let (in_directory, e3) =
        refuse_if-eq-ok w w' p (not (sys.exists w.disk (parent_path path))) _ _ e2 in
      let (free, space, e4) = lift-eq-ok w w' p (sys.available w.disk w.root) _ e3 in
      let (small, e5) =
        refuse_if-eq-ok w w' p (ltb w.upload_max_size size || ltb free size) _ _ e4 in
      let (unused, e6) =
        refuse_if-eq-ok w w' p (has_lock_at path w.locks.objects w.locks.path_locks) _ _ e5 in
      let is_abs : is_absolute path ≡ true = ground arith in
      (
        record {
          absolute = is_abs;
          new_file = new_file;
          in_directory = ground arith;
          within_limit = ground arith;
          free = free;
          free_space = space;
          fits = ground arith;
          unused = has_lock_at-none path w.locks.objects w.locks.path_locks unused;
        },
        cc (rw is_abs at e6),
      )
