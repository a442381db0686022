-- ===== src/Session/Upload/Whole.antt =====
-- upload_manager.cpp: a whole upload, over the pieces in which it arrives.
use tin_dox.Prelude.{ℕ, ◌+◌, ◌<◌, ◌++◌, List, [], ◌∷◌, none, ◌≡◌, ap, ◌∙◌, arith, length, Bytes, ok}
use tin_dox.Paths.{FilePath}
use tin_dox.System.{System}
use tin_dox.Session.State.{World, M, PathLock, Store, uploading, release, ◌>>=◌, return}
use tin_dox.Session.Upload.{UploadManager, upload_bytes}
use tin_dox.Session.Upload.Pieces.{
  IsUploading, taken, release-assign, deref-assign, upload_bytes-short, upload_bytes_complete,
}

abbrev pub total_length : List Bytes → ℕ
total_length [] = 0
total_length (a ∷ more) = length a + total_length more

module _ {Disk : Type 0} (sys : System Disk) where
  -- One call for each piece, as the pieces arrive.
  unfoldable pub upload_pieces : UploadManager → List Bytes → M Disk UploadManager
  upload_pieces u [] = return u
  upload_pieces u (a ∷ more) = upload_bytes sys u a >>= λ r. upload_pieces r.0 more

  -- The disk behind the pieces.
  abbrev pub appended : Disk → FilePath → List Bytes → Disk
  appended d file [] = d
  appended d file (a ∷ more) = appended (sys.append d file a).0 file more

  -- The disk takes every piece.
  abbrev pub AreWritten : Disk → FilePath → List Bytes → Type 0
  AreWritten d file [] = Unit
  AreWritten d file (a ∷ more) =
      ((sys.append d file a).1 ≡ ok tt) × AreWritten (sys.append d file a).0 file more

  -- An upload that arrives in any pieces, the last of which may bring more than is missing: the file
  -- is written with exactly the bytes that were announced, piece by piece, gets its name, and its
  -- lock is gone; the bytes behind them are left.
  pub upload_pieces_lem :
      (w : World Disk) (u : UploadManager) (i : IsUploading w u) (pieces : List Bytes) (a b : Bytes)
      → 0 < length a
      → i.offset + (total_length pieces + length a) ≡ i.size
      → let before = appended w.disk u.partial_file_name pieces in
        let after = (sys.append before u.partial_file_name a).0 in
        AreWritten w.disk u.partial_file_name pieces
        → (sys.append before u.partial_file_name a).1 ≡ ok tt
        → (sys.rename after u.partial_file_name i.path).1 ≡ 0
        → (upload_pieces u pieces >>= λ v. upload_bytes sys v (a ++ b)) w ≡ (
          record w {
            disk = (sys.rename after u.partial_file_name i.path).0;
            locks = record w.locks { objects = release i.p w.locks.objects };
          },
          ok (record u { token = none }, b),
        )
  unfolding upload_pieces
  upload_pieces_lem w u i [] a b some_bytes full written last named =
      upload_bytes_complete sys w u i a b (omega arith) last named
  upload_pieces_lem w u i (c ∷ pieces) a b some_bytes full (first, written) last named =
      let short : i.offset + length c < i.size = omega arith in
      let j : IsUploading (taken sys w u i c) u = record {
        p = i.p;
        owner = i.owner;
        path = i.path;
        destination = i.destination;
        file_name = i.file_name;
        stem = i.stem;
        size = i.size;
        offset = i.offset + length c;
        alive = deref-assign i.p _ _ w.locks.objects i.alive;
        within = omega arith;
        small = i.small;
      } in
      let token : PathLock = record {
        path = i.path;
        kind = uploading i.destination i.file_name i.stem i.size i.offset;
      } in
      let written_disk = appended w.disk u.partial_file_name (c ∷ pieces) in
      let last_disk = (sys.append written_disk u.partial_file_name a).0 in
      rw (upload_bytes-short sys w u i c short first) (
        upload_pieces_lem (taken sys w u i c) u j pieces a b some_bytes (omega arith) written last
          named
        ∙ ap
            (λ (objects : Store PathLock). (
              record w {
                disk = (sys.rename last_disk u.partial_file_name i.path).0;
                locks = record w.locks { objects = objects };
              },
              ok (record u { token = none }, b),
            ))
            (release-assign i.p _ token w.locks.objects))
