-- ===== src/Session/Client/Pieces.antt =====
-- client.cpp and upload_manager.cpp: what a piece of an upload leaves of the input.
use tin_dox.Prelude.{
  ℕ, ◌≤◌, ◌<◌, [], ◌∷◌, true, false, some, ◌≡◌, refl, ◌⊎◌, inl, inr, arith, Bytes, ok, err, ◌==◌,
  min, length, take, drop, length-drop, drop-nil, Bool-cases, Option-cases, Result-cases,
}
use tin_dox.Protocol.Error.{Outcome}
use tin_dox.System.{System}
use tin_dox.Session.Commands.Transfer.{add_file_offset, upload_offset, wrapped}
use tin_dox.Session.Context.{get_lock, put_lock, release_lock}
use tin_dox.Session.State
use tin_dox.Session.State.{
  command, download, upload, LockKind, plain, downloading, uploading, PathLock, ProtocolMode, World,
  M, continue_with, deref,
}
use tin_dox.Session.Upload.{
  UploadManager, upload_bytes, commit_piece, finish, has_finished, get_remaining_bytes, upload_size,
}

-- Nothing is missing, so the upload has all of its bytes.
none_missing :
    (kind : LockKind) (n : ℕ)
    → get_remaining_bytes kind ≡ 0
    → let later = add_file_offset (min n (get_remaining_bytes kind)) kind in
      (upload_offset later == wrapped (upload_size later)) ≡ true
unfolding get_remaining_bytes add_file_offset upload_offset upload_size
none_missing plain n h = refl
none_missing (downloading size offset) n h = refl
none_missing (uploading destination file_name stem size offset) n h = ground arith

takes_some :
    (kind : LockKind) (bytes : Bytes)
    → let count = min (length bytes) (get_remaining_bytes kind) in
      let later = add_file_offset count kind in
      (upload_offset later == wrapped (upload_size later)) ≡ false
      → (length (drop count bytes) < length bytes) ⊎ (drop count bytes ≡ [])
takes_some kind [] going = inr (drop-nil (min 0 (get_remaining_bytes kind)))
takes_some kind (x ∷ xs) going = elim (Bool-cases (get_remaining_bytes kind == 0)) [
  | inl none_left ↦
      absurd (ground (arith, none_missing kind (length (x ∷ xs)) (ground arith), going))
  | inr some_left ↦
      inl (ground (arith, length-drop (min (length (x ∷ xs)) (get_remaining_bytes kind)) (x ∷ xs)))
]

-- A piece leaves fewer bytes than it was given, or none, or ends the upload.
abbrev pub Taken : {Disk : Type 0} → Bytes → World Disk × Outcome (UploadManager × Bytes) → Type 0
Taken bytes (v, ok (u, rest)) =
    ((has_finished u ≡ true) × (length rest ≤ length bytes))
    ⊎ ((length rest < length bytes) ⊎ (rest ≡ []))
Taken bytes (v, err e) = Unit

module _ {Disk : Type 0} (sys : System Disk) where
  finish-Taken :
      (u : UploadManager) (lock : PathLock) (bytes : Bytes) (n : ℕ) (w : World Disk)
      → Taken bytes (continue_with (finish sys u lock w) λ v. State.return (v, drop n bytes))
  unfolding finish release_lock has_finished
  finish-Taken u lock bytes n w =
      elim (Bool-cases ((sys.rename w.disk u.partial_file_name lock.path).1 == 0)) [
        | inl named ↦ rw named (inl (refl, omega (arith, length-drop n bytes)))
        | inr failed ↦ rw failed tt
      ]

  commit_piece-Taken :
      (u : UploadManager) (p : ℕ) (lock : PathLock) (bytes : Bytes) (w : World Disk)
      → Taken bytes (commit_piece sys u p lock bytes w)
  unfolding commit_piece put_lock
  commit_piece-Taken u p lock bytes w =
      let count = min (length bytes) (get_remaining_bytes lock.kind) in
      let later = add_file_offset count lock.kind in
      elim (Result-cases (sys.append w.disk u.partial_file_name (take count bytes)).1) [
        | inr (e, failed) ↦ rw failed tt
        | inl (_, written) ↦
            rw written (elim (Bool-cases (upload_offset later == wrapped (upload_size later))) [
              | inl full ↦ rw full (finish-Taken u (record lock { kind = later }) bytes count _)
              | inr going ↦ rw going (inr (takes_some lock.kind bytes going))
            ])
      ]

  pub upload_bytes-Taken :
      (u : UploadManager) (bytes : Bytes) (w : World Disk)
      → Taken bytes (upload_bytes sys u bytes w)
  unfolding upload_bytes get_lock
  upload_bytes-Taken u bytes w = elim (Option-cases u.token) [
    | inl missing ↦ rw missing tt
    | inr (p, held) ↦ rw held (elim (Option-cases (deref p w.locks.objects)) [
      | inl gone ↦ rw gone tt
      | inr (lock, alive) ↦
          rw alive (commit_piece-Taken (record u { token = some p }) p lock bytes w)
    ])
  ]
