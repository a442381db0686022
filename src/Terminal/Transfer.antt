-- ===== src/Terminal/Transfer.antt =====
-- cli/src/tdpservice/connection.cpp: `uploadFile`, over what epoll_wait(2) and sendfile(2) answer.
pub mod Whole
use mathlib.Core.List.{append_assoc, append-nil}
use tin_dox.Prelude.{
  ℕ, ◌+◌, ◌-◌, ◌^◌, ◌%◌, ◌<◌, Bool, true, false, List, [], ◌∷◌, ◌++◌, Option, none, some, map, ◌≡◌,
  refl, ap, ◌∙◌, sym, arith, ◌==◌, length, length-append, take, drop, take-append, drop-append,
  if◌then◌else◌, Bytes,
}
use tin_dox.Terminal.Connection.Arrivals.{whole}
use tin_dox.Terminal.Connection.Departures.{drop-front, take-front, suc_is_not_zero}

-- What has gone to the socket, and the variables of `uploadFile`. `size_t` has 64 bits.
pub record Upload : Type 0 where
  pub is_connection_open : Bool
  pub wire : Bytes
  pub offset : ℕ
  pub remaining_size : ℕ

-- `sendfile` takes some bytes of the file and moves the offset, or answers -1. The count is kept as an
-- unsigned number, which is never below 0, so an error is taken for 2 ^ 64 - 1 bytes.
abbrev pub sendfile : Bytes → Option ℕ → Upload → Upload
sendfile content none u = record u { remaining_size = (u.remaining_size + 1) % 2 ^ 64 }
sendfile content (some n) u = record u {
  wire = u.wire ++ take n (drop u.offset content);
  offset = u.offset + n;
  remaining_size = (u.remaining_size + (2 ^ 64 - n)) % 2 ^ 64;
}

-- The inner loop, over the answers of `sendfile`: it never waits.
unfoldable pub send_file : Bytes → List (Option ℕ) → Upload → Upload
send_file content [] u = u
send_file content (answer ∷ answers) u =
    let later = send_file content answers (sendfile content answer u) in
    if u.remaining_size == 0 then u else later

pub data UploadEvent : Type 0 where
  writable : List (Option ℕ) → UploadEvent
  neither foreign : UploadEvent

-- It goes on, or has thrown.
pub data Uploading : Type 0 where
  uploading thrown : Upload → Uploading

abbrev pub close_upload : Upload → Upload
close_upload u = record u { is_connection_open = false }

unfoldable pub handle_upload_events : Bytes → List UploadEvent → Uploading → Uploading
unfolding send_file
handle_upload_events content [] p = p
handle_upload_events content (event ∷ events) (thrown u) = thrown u
handle_upload_events content (writable answers ∷ events) (uploading u) =
    handle_upload_events content events (uploading (send_file content answers u))
handle_upload_events content (neither ∷ events) (uploading u) =
    handle_upload_events content events (uploading u)
handle_upload_events content (foreign ∷ events) (uploading u) = thrown (close_upload u)

-- The outer loop, as long as `epoll_wait` answers.
unfoldable pub upload_loop : Bytes → List (Option (List UploadEvent)) → Uploading → Uploading
unfolding handle_upload_events
upload_loop content [] p = p
upload_loop content (wait ∷ waits) (thrown u) = thrown u
upload_loop content (wait ∷ waits) (uploading u) =
    let now : Uploading = elim wait [
      | none ↦ thrown (close_upload u)
      | some events ↦ handle_upload_events content events (uploading u)
    ] in
    let later = upload_loop content waits now in
    if u.remaining_size == 0 then uploading u else later

-- What `uploadFile` comes to: it returns, throws, or waits for the socket.
pub data Uploaded : Type 0 where
  returned : Bool → Upload → Uploaded
  failed waiting : Upload → Uploaded

-- `changeEpollEvents` at the end, by whether epoll_ctl(2) succeeds.
abbrev pub finish_upload : Bool → Bool → Upload → Uploaded
finish_upload true result u = returned result u
finish_upload false result u = failed (close_upload u)

abbrev pub end_upload : Bool → Uploading → Uploaded
end_upload armed (uploading u) =
    if u.remaining_size == 0 then finish_upload armed true u else waiting u
end_upload armed (thrown u) = failed u

unfoldable pub upload_file :
    Bytes → List (Option (List UploadEvent)) → Bool → Bool → Bytes → ℕ → ℕ → Uploaded
unfolding upload_loop
upload_file content waits armed is_connection_open wire offset size =
    let u : Upload = record {
      is_connection_open = is_connection_open;
      wire = wire;
      offset = offset;
      remaining_size = (size + (2 ^ 64 - offset)) % 2 ^ 64;
    } in
    if is_connection_open
    then end_upload armed (upload_loop content waits (uploading u))
    else finish_upload armed false u
