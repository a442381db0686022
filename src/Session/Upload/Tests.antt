-- ===== src/Session/Upload/Tests.antt =====
-- An upload of three bytes on a small disk.
use tin_dox.Prelude.{[], ◌∷◌, ◌++◌, true, false, none, some, ◌≡◌, refl, arith, codes, ok}
use tin_dox.Paths.{FilePath}
use tin_dox.System.{System, no_entries}
use tin_dox.Session.Context.{new_client}
use tin_dox.Session.State.{World, PathLock, uploading, deref, release, ◌>>=◌}
use tin_dox.Session.Upload.{UploadManager, upload_bytes}
use tin_dox.Session.Upload.Whole.{upload_pieces, upload_pieces_lem}
use tin_dox.Session.Upload.Pieces.{IsUploading, taken, upload_bytes-short}

-- The bytes of the partial file are all that this disk keeps.
abbrev tape : System FilePath
tape = record {
  exists = λ d p. true;
  is_directory = λ d p. false;
  is_regular_file = λ d p. true;
  file_size = λ d p. ok 0;
  available = λ d p. ok 100;
  create_directory = λ d p. (d, ok tt);
  remove = λ d p. (d, ok tt);
  remove_all = λ d p. (d, ok 0);
  rename = λ d p q. (d, 0);
  copy_file = λ d p q. (d, 0);
  entries = λ d p. ok [];
  walk = λ d p. ok no_entries;
  relative = λ d p q. p;
  parse_backup = λ d p. none;
  open_read = λ d p. ok tt;
  open_file = λ keep d p. (d, ok tt);
  append = λ d p bytes. (d ++ bytes, ok tt);
  write_backup = λ d p file size offset. d;
  quoted = λ p. p;
  format_errc = λ n. [];
  crypt = λ word salt. none;
}

abbrev token : PathLock
token = record {
  path = codes "/srv/n";
  kind = uploading (codes "/srv") (codes "n") (codes "ada") 3 1;
}

abbrev begun : World FilePath
begun = record {
  disk = codes "x";
  root = codes "/srv";
  upload_max_size = 50;
  users = [];
  sessions = record { auth_tokens = []; objects = []; next = 0 };
  locks = record { path_locks = 0 ∷ []; objects = (0, token) ∷ []; next = 1 };
  client = new_client;
}

abbrev manager : UploadManager
manager = record {
  token = some 0;
  partial_file_name = codes "/srv/.tds/ada.partial";
  backup_file_name = codes "/srv/.tds/ada.upload";
}

begun-IsUploading : IsUploading begun manager
unfolding deref
begun-IsUploading = record {
  p = 0;
  owner = refl;
  path = codes "/srv/n";
  destination = codes "/srv";
  file_name = codes "n";
  stem = codes "ada";
  size = 3;
  offset = 1;
  alive = refl;
  within = omega arith;
  small = omega arith;
}

a_piece_is_written :
    upload_bytes tape manager (codes "y") begun
    ≡ (taken tape begun manager begun-IsUploading (codes "y"), ok (manager, []))
a_piece_is_written =
    upload_bytes-short tape begun manager begun-IsUploading (codes "y")
      (unfold begun-IsUploading in omega arith) refl

upload_pieces_lem_example :
    (upload_pieces tape manager (codes "y" ∷ []) >>= λ v.
    upload_bytes tape v (codes "z" ++ codes "ls"))
      begun
    ≡ (
      record begun {
        disk = codes "xyz";
        locks = record { path_locks = 0 ∷ []; objects = release 0 begun.locks.objects; next = 1 };
      },
      ok (record manager { token = none }, codes "ls"),
    )
unfolding begun-IsUploading
upload_pieces_lem_example =
    upload_pieces_lem tape begun manager begun-IsUploading (codes "y" ∷ []) (codes "z") (codes "ls")
      (omega arith) refl (refl, tt) refl refl
