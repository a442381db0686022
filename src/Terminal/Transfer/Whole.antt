-- ===== src/Terminal/Transfer/Whole.antt =====
-- cli/src/tdpservice/connection.cpp: an upload sends the rest of the file.
use mathlib.Core.List.{append_assoc, append-nil}
use tin_dox.Prelude.{
  ℕ, ◌+◌, ◌-◌, ◌^◌, ◌%◌, ◌<◌, true, List, [], ◌∷◌, ◌++◌, Option, some, map, ◌≡◌, refl, ap, ◌∙◌, sym,
  arith, ◌==◌, length, length-append, take, drop, if◌then◌else◌, Bytes,
}
use tin_dox.Terminal.Connection.Arrivals.{whole}
use tin_dox.Terminal.Connection.Departures.{drop-front, take-front, suc_is_not_zero}
use tin_dox.Terminal.Transfer.{
  Upload, sendfile, send_file, writable, uploading, end_upload, returned, upload_loop,
  handle_upload_events, upload_file,
}

wrap_back : (a b : ℕ) → a + b < 2 ^ 64 → (a + b + (2 ^ 64 - a)) % 2 ^ 64 ≡ b
wrap_back a b h = omega arith

-- An upload whose socket has taken a part of the file.
abbrev at : Bytes → ℕ → ℕ → Upload
at wire offset remaining_size = record {
  is_connection_open = true;
  wire = wire;
  offset = offset;
  remaining_size = remaining_size;
}

-- Where nothing is left, what else `sendfile` would answer changes nothing.
settled :
    (wire front rest : Bytes) (later : Upload)
    → later ≡ at (wire ++ rest) (length (front ++ rest)) 0
    → (if length rest == 0 then at wire (length front) (length rest) else later)
      ≡ at (wire ++ rest) (length (front ++ rest)) 0
settled wire front [] later h = rw (append-nil front, append-nil wire)
settled wire front (c ∷ cs) later h = rw (suc_is_not_zero (length cs)) h

abbrev pub taken : List Bytes → List (Option ℕ)
taken ps = map (λ p. some (length p)) ps

send_file-pieces :
    (ps : List Bytes) (front wire content : Bytes)
    → content ≡ front ++ whole ps
    → length (whole ps) < 2 ^ 64
    → send_file content (taken ps) (at wire (length front) (length (whole ps)))
      ≡ at (wire ++ whole ps) (length (front ++ whole ps)) 0
unfolding send_file whole
send_file-pieces [] front wire content e h = rw (append-nil front, append-nil wire)
send_file-pieces (p ∷ ps) front wire content e h =
    let sum = length-append p (whole ps) in
    let left : take (length p) (drop (length front) content) ≡ p =
      ap (take (length p)) (ap (drop (length front)) e ∙ drop-front front (p ++ whole ps))
      ∙ take-front p (whole ps) in
    settled wire front (p ++ whole ps)
      (send_file content (taken ps)
        (sendfile content (some (length p)) (at wire (length front) (length (p ++ whole ps)))))
      (ap (send_file content (taken ps)) (
          ap
            (λ t.
              at (wire ++ t) (length front + length p)
                ((length (p ++ whole ps) + (2 ^ 64 - length p)) % 2 ^ 64))
            left
          ∙ ap (λ n. at (wire ++ p) n ((length (p ++ whole ps) + (2 ^ 64 - length p)) % 2 ^ 64))
              (sym (length-append front p))
          ∙ ap (at (wire ++ p) (length (front ++ p))) (
              ap (λ n. (n + (2 ^ 64 - length p)) % 2 ^ 64) sum
              ∙ wrap_back (length p) (length (whole ps)) (omega (arith, sum))))
        ∙ send_file-pieces ps (front ++ p) (wire ++ p) content
            (e ∙ sym (append_assoc front p (whole ps))) (omega (arith, sum))
        ∙ ap (λ w. at w (length ((front ++ p) ++ whole ps)) 0) (append_assoc wire p (whole ps))
        ∙ ap (λ t. at (wire ++ (p ++ whole ps)) (length t) 0) (append_assoc front p (whole ps)))

ended :
    (wire front rest : Bytes)
    → (if length rest == 0
        then uploading (at wire (length front) (length rest))
        else uploading (at (wire ++ rest) (length (front ++ rest)) 0))
      ≡ uploading (at (wire ++ rest) (length (front ++ rest)) 0)
ended wire front [] = rw (append-nil front, append-nil wire)
ended wire front (c ∷ cs) = rw (suc_is_not_zero (length cs))

-- A file of which the server has the start: `uploadFile`, over a connection that is open and a socket
-- that takes the rest in any pieces and without an error, returns true, and what has gone out is the
-- rest of the file, all of it and nothing else. For files below 2 ^ 64 bytes, where the socket is armed
-- again.
pub upload_file_lem :
    (front : Bytes) (ps : List Bytes) (wire : Bytes)
    → length (front ++ whole ps) < 2 ^ 64
    → upload_file
        (front ++ whole ps)
        (some (writable (taken ps) ∷ []) ∷ [])
        true
        true
        wire
        (length front)
        (length (front ++ whole ps))
      ≡ returned true (record {
        is_connection_open = true;
        wire = wire ++ whole ps;
        offset = length (front ++ whole ps);
        remaining_size = 0;
      })
unfolding upload_file upload_loop handle_upload_events
upload_file_lem front ps wire h =
    let content = front ++ whole ps in
    let sum = length-append front (whole ps) in
    ap
      (λ n. end_upload true (
        upload_loop content (some (writable (taken ps) ∷ []) ∷ [])
          (uploading (at wire (length front) n))))
      (ap (λ n. (n + (2 ^ 64 - length front)) % 2 ^ 64) sum
        ∙ wrap_back (length front) (length (whole ps)) (omega (arith, sum, h)))
    ∙ ap
        (λ v. end_upload true (
          if length (whole ps) == 0
          then uploading (at wire (length front) (length (whole ps)))
          else uploading v))
        (send_file-pieces ps front wire content refl (omega (arith, sum, h)))
    ∙ ap (end_upload true) (ended wire front (whole ps))
