-- ===== src/Protocol/Download.antt =====
-- server/src/protocol/download_manager.cpp and server/src/linux/transfer_bytes.cpp: a file, from its
-- offset on, to the socket.
use mathlib.Core.List.{append_assoc}
use tin_dox.Prelude.{
  ℕ, ◌+◌, ◌-◌, ◌%◌, ◌^◌, ◌≤◌, ◌<◌, Bool, true, false, List, [], ◌∷◌, ◌++◌, Option, none, some, ◌≡◌,
  refl, ap, sym, ◌∙◌, arith, ◌==◌, ltb, if◌then◌else◌, length, length-drop, drop-drop, take-all,
  Bool-cases, inl, inr, take, drop, take-append-drop, Bytes, codes, ok, err, All,
}
use tin_dox.Protocol.Error.{Outcome, fatal}
use tin_dox.Protocol.Socket.{Errno}

-- `m_token`, `m_offset` and `m_file_size`, and the bytes that have gone to the socket. A token that
-- is reset is let go of.
pub record DownloadManager : Type 0 where
  pub token : Option ℕ
  pub offset : ℕ
  pub file_size : ℕ
  pub wire : Bytes

unfoldable pub has_finished : DownloadManager → Bool
has_finished d = elim d.token [ none ↦ true | some p ↦ false ]

-- `start_download`, of a token with its size and offset: an empty file is not opened at all.
unfoldable pub start_download : ℕ → ℕ → ℕ → DownloadManager → DownloadManager
start_download p size offset d =
    if ltb 0 size then record d { token = some p; offset = offset; file_size = size } else d

-- What one call of `sendfile64(2)` answers. A success moves the offset.
pub data Transferred : Type 0 where
  transferred : ℕ → Transferred
  transfer_failed : Errno → Transferred

unfoldable pub moved : Transferred → ℕ
moved (transferred n) = n
moved (transfer_failed e) = 0

-- `transfer_bytes` answers the count that was asked for, whatever the kernel did, and the error code
-- stays empty. As an `int` that count is -1 where its low 32 bits are all set.
unfoldable pub reads_as_error : ℕ → Bool
reads_as_error count = count % 2 ^ 32 == 4294967295

-- `m_file_size - m_offset`, of two `std::uintmax_t`.
unfoldable pub remaining : ℕ → ℕ → ℕ
remaining file_size offset = (file_size + (2 ^ 64 - offset)) % 2 ^ 64

remaining_lem :
    (file_size offset : ℕ)
    → offset ≤ file_size
    → file_size < 2 ^ 31
    → remaining file_size offset ≡ file_size - offset
unfolding remaining
remaining_lem file_size offset within small = omega arith

-- `send`, over the bytes of the file: the state behind the transfer, and its checks.
unfoldable pub after_transfer : DownloadManager → ℕ → ℕ → DownloadManager × Outcome ℕ
after_transfer d count n =
    if reads_as_error count
    then (d, err (fatal (codes "DownloadManager::send(2)")))
    else if n == 0
    then (d, err (fatal (codes "DownloadManager::send(2)")))
    else if remaining d.file_size d.offset == 0
    then (record d { token = none }, ok count)
    else (d, ok count)

unfoldable pub send_file : Bytes → Transferred → DownloadManager → DownloadManager × Outcome ℕ
send_file content answer d = elim d.token [
  | none ↦ (d, ok 0)
  | some p ↦
      let n = moved answer in
      after_transfer
        (record d { offset = d.offset + n; wire = d.wire ++ take n (drop d.offset content) })
        (remaining d.file_size d.offset) n
]

-- The next call of `send`, unless this one has thrown.
abbrev pub keep_sending :
    DownloadManager × Outcome ℕ → (DownloadManager → DownloadManager) → DownloadManager
keep_sending (d, ok count) more = more d
keep_sending (d, err e) more = d

-- Calls of `send`, one for each answer.
unfoldable pub send_files : Bytes → List ℕ → DownloadManager → DownloadManager
send_files content [] d = d
send_files content (n ∷ ns) d =
    keep_sending (send_file content (transferred n) d) (λ later. send_files content ns later)

abbrev pub total : List ℕ → ℕ
total [] = 0
total (n ∷ ns) = n + total ns

send_file-step :
    (content : Bytes) (n p : ℕ) (d : DownloadManager)
    → d.token ≡ some p
    → 0 < n
    → d.offset + n ≤ d.file_size
    → d.file_size < 2 ^ 31
    → send_file content (transferred n) d ≡ (
      record d {
        token = if d.file_size - (d.offset + n) == 0 then none else some p;
        offset = d.offset + n;
        wire = d.wire ++ take n (drop d.offset content);
      },
      ok (d.file_size - d.offset),
    )
unfolding send_file after_transfer moved reads_as_error
send_file-step content n p d held positive within small =
    let clear : ((d.file_size - d.offset) % 2 ^ 32 == 4294967295) ≡ false = ground arith in
    let some_bytes : (n == 0) ≡ false = ground arith in
    let count = remaining_lem d.file_size d.offset (omega arith) small in
    let left = remaining_lem d.file_size (d.offset + n) within small in
    elim (Bool-cases (d.file_size - (d.offset + n) == 0)) [
      | inl ends ↦ rw (held, count, left, clear, some_bytes, ends) refl
      | inr goes_on ↦ rw (held, count, left, clear, some_bytes, goes_on) refl
    ]

-- A download as it starts: a token, an offset below the size, and a file of that size.
pub record IsDownloading (d : DownloadManager) (content : Bytes) : Type 0 where
  pub p : ℕ
  pub owner : d.token ≡ some p
  pub sized : length content ≡ d.file_size
  pub small : d.file_size < 2 ^ 31

-- However the kernel cuts a file, each time by at least one byte: the calls of `send` put the bytes
-- of the file from the offset to its end on the socket, in order and nothing else, and the download
-- has finished with the last of them and not before.
pub send_files_lem :
    (content : Bytes) (n : ℕ) (ns : List ℕ) (d : DownloadManager)
    → IsDownloading d content
    → All (λ m. 0 < m) (n ∷ ns)
    → d.offset + total (n ∷ ns) ≡ d.file_size
    → send_files content (n ∷ ns) d
      ≡ record d { token = none; offset = d.file_size; wire = d.wire ++ drop d.offset content }
unfolding send_files
send_files_lem content n [] d i (positive, _) full =
    let e : d.offset + n ≡ d.file_size = omega arith in
    let ends : (d.file_size - (d.offset + n) == 0) ≡ true = ground arith in
    let rest : take n (drop d.offset content) ≡ drop d.offset content =
      take-all n (drop d.offset content) (omega (arith, length-drop d.offset content, i.sized)) in
    rw (send_file-step content n i.p d i.owner positive (omega arith) i.small, ends)
      (ap
          (λ o. record d {
            token = none;
            offset = o;
            wire = d.wire ++ take n (drop d.offset content);
          })
          e
        ∙ ap (λ bytes. record d { token = none; offset = d.file_size; wire = d.wire ++ bytes })
            rest)
send_files_lem content n (m ∷ ns) d i (positive, (next, more)) full =
    let goes_on : (d.file_size - (d.offset + n) == 0) ≡ false = ground arith in
    let later : DownloadManager = record d {
      token = some i.p;
      offset = d.offset + n;
      wire = d.wire ++ take n (drop d.offset content);
    } in
    let i' : IsDownloading later content = record {
      p = i.p;
      owner = refl;
      sized = i.sized;
      small = i.small;
    } in
    let parts : take n (drop d.offset content) ++ drop (d.offset + n) content
        ≡ drop d.offset content =
      ap (◌++◌ (take n (drop d.offset content)))
        (sym (drop-drop (d.offset + n) d.offset n content refl))
      ∙ take-append-drop n (drop d.offset content) in
    let wire =
      append_assoc d.wire (take n (drop d.offset content)) (drop (d.offset + n) content)
      ∙ ap (◌++◌ d.wire) parts in
    rw (send_file-step content n i.p d i.owner positive (omega arith) i.small, goes_on)
      (send_files_lem content m ns later i' (next, more) (omega arith)
        ∙ ap (λ bytes. record d { token = none; offset = d.file_size; wire = bytes }) wire)
