-- ===== src/Session/Upload/Pieces.antt =====
-- upload_manager.cpp: the file gets the bytes of its size, in whatever pieces they arrive.
use mathlib.Core.List.{append-nil}
use tin_dox.Prelude.{
  ℕ, ◌+◌, ◌-◌, ◌^◌, ◌≤◌, ◌<◌, ◌++◌, [], ◌∷◌, true, false, none, some, ◌≡◌, refl, ap, sym, ◌∙◌,
  arith, ◌==◌, min, length, take, drop, take-append, drop-append, length-append, Bytes, ok,
}
use tin_dox.Paths.{FilePath}
use tin_dox.System.{System}
use tin_dox.Session.Commands.Transfer.{add_file_offset, upload_offset, wrapped}
use tin_dox.Session.Context.{get_lock, put_lock, release_lock}
use tin_dox.Session.State.{PathLock, uploading, World, Store, deref, assign, release}
use tin_dox.Session.Upload.{
  UploadManager, upload_size, get_remaining_bytes, finish, commit_piece, upload_bytes,
}

wrapped_difference :
    (size offset : ℕ)
    → offset ≤ size
    → size < 2 ^ 64
    → wrapped (size + 2 ^ 64 - wrapped offset) ≡ size - offset
wrapped_difference size offset h k = omega arith

wrapped_small : (n : ℕ) → n < 2 ^ 64 → wrapped n ≡ n
wrapped_small n h = omega arith

module _ {A : Type 0} (p : ℕ) (v w : A) where
  assign-assign : (s : Store A) → assign p w (assign p v s) ≡ assign p w s
  unfolding assign
  assign-assign [] = refl
  assign-assign ((q, a) ∷ more) = ground (arith, assign-assign more)

  pub deref-assign : (s : Store A) → deref p s ≡ some w → deref p (assign p v s) ≡ some v
  unfolding assign deref
  deref-assign [] h = cc
  deref-assign ((q, a) ∷ more) h = ground (arith, deref-assign more)

  pub release-assign : (s : Store A) → release p (assign p v s) ≡ release p s
  unfolding assign release
  release-assign [] = refl
  release-assign ((q, a) ∷ more) = ground (arith, release-assign more)

take_all : (xs : Bytes) (n : ℕ) → n ≡ length xs → take n xs ≡ xs
take_all xs n h =
    ap (take n) (sym (append-nil xs)) ∙ take-append n 0 xs [] (omega arith) ∙ append-nil xs

drop_all : (xs : Bytes) (n : ℕ) → n ≡ length xs → drop n xs ≡ []
drop_all xs n h = ap (drop n) (sym (append-nil xs)) ∙ drop-append n 0 xs [] (omega arith)

-- An upload that is under way: its token is alive, and the offset has not passed the size.
pub record IsUploading {Disk : Type 0} (w : World Disk) (u : UploadManager) : Type 0 where
  pub p : ℕ
  pub owner : u.token ≡ some p
  pub path : FilePath
  pub destination : FilePath
  pub file_name : FilePath
  pub stem : Bytes
  pub size : ℕ
  pub offset : ℕ
  pub alive :
      deref p w.locks.objects
      ≡ some (record { path = path; kind = uploading destination file_name stem size offset })
  pub within : offset ≤ size
  pub small : size < 2 ^ 64

module _ {Disk : Type 0} (sys : System Disk) (w : World Disk) (u : UploadManager)
    (i : IsUploading w u) where
  -- The state behind a piece that the disk has taken.
  abbrev pub taken : Bytes → World Disk
  taken a = record w {
    disk = (sys.append w.disk u.partial_file_name a).0;
    locks = record w.locks {
      objects =
          assign i.p
            (record {
              path = i.path;
              kind = uploading i.destination i.file_name i.stem i.size (i.offset + length a);
            })
            w.locks.objects;
    };
  }

  abbrev lock : PathLock
  lock = record { path = i.path; kind = uploading i.destination i.file_name i.stem i.size i.offset }

  upload_bytes-alive :
      (bytes : Bytes) → upload_bytes sys u bytes w ≡ commit_piece sys u i.p lock bytes w
  unfolding upload_bytes get_lock
  upload_bytes-alive bytes = rw (i.owner, i.alive) refl

  commit_piece-short :
      (a : Bytes)
      → i.offset + length a < i.size
      → (sys.append w.disk u.partial_file_name a).1 ≡ ok tt
      → commit_piece sys u i.p lock a w ≡ (taken a, ok (u, []))
  unfolding commit_piece put_lock get_remaining_bytes upload_size upload_offset add_file_offset
  commit_piece-short a short written =
      let rest = wrapped_difference i.size i.offset i.within i.small in
      let count : min (length a) (wrapped (i.size + 2 ^ 64 - wrapped i.offset)) ≡ length a =
        omega (arith, rest) in
      let moved : wrapped (i.offset + length a) ≡ i.offset + length a =
        wrapped_small (i.offset + length a) (omega (arith, i.small)) in
      let sized = wrapped_small i.size i.small in
      let unfinished : ((i.offset + length a) == i.size) ≡ false = ground arith in
      let whole = take_all a (length a) refl in
      rw (count, whole, written, moved, sized, unfinished, drop_all a (length a) refl)
        (rw whole refl)

  -- A piece that is shorter than what is missing goes to the file whole; the upload goes on, with the
  -- offset behind the piece, and nothing is left over.
  pub upload_bytes-short :
      (a : Bytes)
      → i.offset + length a < i.size
      → (sys.append w.disk u.partial_file_name a).1 ≡ ok tt
      → upload_bytes sys u a w ≡ (taken a, ok (u, []))
  upload_bytes-short a short written = upload_bytes-alive a ∙ commit_piece-short a short written

  -- The state behind the last piece: the file has its name, and the token is gone.
  abbrev pub completed : Bytes → World Disk
  completed a = record w {
    disk = (sys.rename (sys.append w.disk u.partial_file_name a).0 u.partial_file_name i.path).0;
    locks = record w.locks { objects = release i.p w.locks.objects };
  }

  -- The piece that brings what is missing ends the upload: the file gets the bytes up to its size and
  -- no more, then its name; what follows them in the same piece is left for the next request.
  pub upload_bytes_complete :
      (a b : Bytes)
      → i.offset + length a ≡ i.size
      → (sys.append w.disk u.partial_file_name a).1 ≡ ok tt
      → (sys.rename (sys.append w.disk u.partial_file_name a).0 u.partial_file_name i.path).1 ≡ 0
      → upload_bytes sys u (a ++ b) w ≡ (completed a, ok (record u { token = none }, b))
  unfolding commit_piece put_lock release_lock finish get_remaining_bytes upload_size upload_offset
      add_file_offset
  upload_bytes_complete a b full written named =
      let rest = wrapped_difference i.size i.offset i.within i.small in
      let count : min (length (a ++ b)) (wrapped (i.size + 2 ^ 64 - wrapped i.offset)) ≡ length a =
        omega (arith, rest, length-append a b) in
      let moved : wrapped (i.offset + length a) ≡ i.offset + length a =
        wrapped_small (i.offset + length a) (omega (arith, i.small)) in
      let sized = wrapped_small i.size i.small in
      let finished : ((i.offset + length a) == i.size) ≡ true = ground arith in
      let whole = take-append (length a) 0 a b (omega arith) ∙ append-nil a in
      let left = drop-append (length a) 0 a b (omega arith) in
      upload_bytes-alive (a ++ b)
      ∙ rw (count, whole, written, moved, sized, finished, left)
          (rw (whole, named, i.owner)
            (ap
              (λ (objects : Store PathLock). (
                record (completed a) { locks = record w.locks { objects = objects } },
                ok (record u { token = none }, b),
              ))
              (release-assign i.p
                (record lock {
                  kind = uploading i.destination i.file_name i.stem i.size (i.offset + length a);
                })
                lock w.locks.objects)))
