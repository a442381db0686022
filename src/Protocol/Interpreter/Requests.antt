-- ===== src/Protocol/Interpreter/Requests.antt =====
-- protocol_interpreter.cpp: the requests that a client writes are the requests that come out.
use mathlib.Core.List.{reverse_aux, reverse-reverse}
use tin_dox.Prelude.{
  ℕ, suc, ◌+◌, ◌<◌, Bool, true, not, List, [], ◌∷◌, ◌++◌, reverse, ◌≡◌, refl, ap, ◌∙◌, ◌≢◌, arith,
  length, length-append, all, All, Bytes, ok, ◌==◌, le→ltb, none, some,
}
use tin_dox.Protocol.Field.{Field}
use tin_dox.Protocol.Interpreter.Loop.{commit_bytes-cons, commit_bytes_ready}
use tin_dox.Protocol.Interpreter.{
  Interpreter, Request, Step, max_line_length, max_line_count, line_separator, initial, add_bytes,
  back, check_for_protocol_errors, request_from_lines, fields_from_lines, commit_request,
  set_request, ends_line, drop_last, close_line, clear_lines, pop_separator, settle_line,
  commit_line, take_line, drop_line, after_line, commit_bytes, ◌and_then◌,
}

abbrev pub is_line_char : ℕ → Bool
is_line_char c = not (c == line_separator)

-- A line that a request may hold, without its separator.
pub record IsLine (line : Bytes) : Type 0 where
  pub solid : 0 < length line
  pub plain : all is_line_char line ≡ true
  pub short : length line < max_line_length

-- The lines of a request, and the empty line that ends it.
unfoldable pub encode_lines : List Bytes → Bytes → Bytes
encode_lines [] rest = line_separator ∷ rest
encode_lines (line ∷ lines) rest = line ++ line_separator ∷ encode_lines lines rest

module _ (line rest : Bytes) where
  pub take_line-line :
      all is_line_char line ≡ true
      → take_line (line ++ line_separator ∷ rest) ≡ line ++ line_separator ∷ []
  unfolding take_line
  take_line-line = go line
    where
      go :
          (line : Bytes)
          → all is_line_char line ≡ true
          → take_line (line ++ line_separator ∷ rest) ≡ line ++ line_separator ∷ []
      go [] h = refl
      go (c ∷ cs) h = ground (arith, go cs)

  pub drop_line-line :
      all is_line_char line ≡ true → drop_line (line ++ line_separator ∷ rest) ≡ rest
  unfolding drop_line
  drop_line-line = go line
    where
      go :
          (line : Bytes)
          → all is_line_char line ≡ true
          → drop_line (line ++ line_separator ∷ rest) ≡ rest
      go [] h = refl
      go (c ∷ cs) h = ground (arith, go cs)

ends_line-concat : (line : Bytes) → ends_line (line ++ line_separator ∷ []) ≡ true
unfolding ends_line
ends_line-concat [] = refl
ends_line-concat (c ∷ []) = refl
ends_line-concat (c ∷ d ∷ cs) = ends_line-concat (d ∷ cs)

drop_last-concat : (line : Bytes) (c : ℕ) → drop_last (line ++ c ∷ []) ≡ line
unfolding drop_last
drop_last-concat [] x = refl
drop_last-concat (c ∷ []) x = refl
drop_last-concat (c ∷ d ∷ cs) x = ap (◌∷◌ c) (drop_last-concat (d ∷ cs) x)

-- A whole line that passes the check is closed.
commit_line-whole :
    (stale_size : ℕ) (i : Interpreter) (line : Bytes)
    → i.last_line_complete ≡ true
    → length line < max_line_length
    → length i.lines < max_line_count
    → commit_line stale_size i (line ++ line_separator ∷ [])
      ≡ close_line
          (record i { lines = (line ++ line_separator ∷ []) ∷ i.lines; last_line_complete = true })
          (line ∷ i.lines)
unfolding commit_line check_for_protocol_errors settle_line add_bytes back pop_separator
commit_line-whole stale_size i line e h k = rw (
  e,
  le→ltb max_line_length (length (line ++ line_separator ∷ []))
      (omega (arith, length-append line (line_separator ∷ []))),
  le→ltb max_line_count (suc (length i.lines)) (omega arith),
  ends_line-concat line,
  drop_last-concat line line_separator,
)

-- A state between two lines, with what it has read.
abbrev reading : List Bytes → Interpreter
reading lines = record { lines = lines; request = none; last_line_complete = true }

commit_line-line :
    (stale_size : ℕ) (line : Bytes) (lines : List Bytes)
    → IsLine line
    → length lines < max_line_count
    → commit_line stale_size (reading lines) (line ++ line_separator ∷ [])
      ≡ (reading (line ∷ lines), ok tt)
unfolding close_line
commit_line-line stale_size [] lines l k = absurd (omega (arith, l.solid))
commit_line-line stale_size (c ∷ cs) lines l k =
    commit_line-whole stale_size (reading lines) (c ∷ cs) refl l.short k

-- What the interpreter holds, and throws, behind the empty line that ends the lines.
abbrev finished : List Bytes → Step
finished [] = (reading [], ok tt)
finished (line ∷ lines) =
    commit_request (reading (line ∷ lines)) and_then λ j. (clear_lines j, ok tt)

commit_line-empty :
    (stale_size : ℕ) (lines : List Bytes)
    → length lines < max_line_count
    → commit_line stale_size (reading lines) (line_separator ∷ []) ≡ finished lines
unfolding close_line clear_lines
commit_line-empty stale_size [] k =
    commit_line-whole stale_size (reading []) [] refl (omega arith) k
commit_line-empty stale_size (line ∷ lines) k =
    commit_line-whole stale_size (reading (line ∷ lines)) [] refl (omega arith) k

-- All lines of a request, behind those that the interpreter holds.
commit_bytes-encode_lines :
    (stale_size : ℕ) (lines held : List Bytes) (rest : Bytes)
    → All IsLine lines
    → length lines + length held < max_line_count
    → commit_bytes stale_size (reading held) (encode_lines lines rest)
      ≡ after_line (finished (reverse_aux lines held)) rest (λ j. commit_bytes stale_size j rest)
unfolding encode_lines after_line
commit_bytes-encode_lines stale_size [] held rest h k =
    commit_bytes-cons stale_size (reading held) line_separator rest refl
    ∙ ap
        (λ s.
          after_line s (drop_line (line_separator ∷ rest))
            (λ j. commit_bytes stale_size j (drop_line (line_separator ∷ rest))))
        (ap (commit_line stale_size (reading held)) (take_line-line [] rest refl)
          ∙ commit_line-empty stale_size held (omega arith))
    ∙ ap (λ r. after_line (finished held) r (λ j. commit_bytes stale_size j r))
        (drop_line-line [] rest refl)
commit_bytes-encode_lines stale_size ([] ∷ lines) held rest h k = absurd (omega (arith, h.0.solid))
commit_bytes-encode_lines stale_size ((c ∷ cs) ∷ lines) held rest (l, ls) k =
    let line : Bytes = c ∷ cs in
    let later : Bytes = encode_lines lines rest in
    let bytes : Bytes = line ++ line_separator ∷ later in
    commit_bytes-cons stale_size (reading held) c (cs ++ line_separator ∷ later) refl
    ∙ ap (λ s. after_line s (drop_line bytes) (λ j. commit_bytes stale_size j (drop_line bytes)))
        (ap (commit_line stale_size (reading held)) (take_line-line line later l.plain)
          ∙ commit_line-line stale_size line held l (omega arith))
    ∙ ap (λ r. after_line (reading (line ∷ held), ok tt) r (λ j. commit_bytes stale_size j r))
        (drop_line-line line later l.plain)
    ∙ commit_bytes-encode_lines stale_size lines (line ∷ held) rest ls (omega arith)

-- The state with a request to hand out.
abbrev pub available : Request → Interpreter
available r = record { lines = []; request = some r; last_line_complete = true }

finished-request :
    (held : List Bytes) (r : Request)
    → held ≢ []
    → request_from_lines (reverse held) ≡ ok r
    → finished held ≡ (available r, ok tt)
unfolding commit_request clear_lines set_request
finished-request [] r h e = absurd (h refl)
finished-request (line ∷ lines) r h e = rw e

-- A request of whole lines is read in one call, and the call stops right behind it: the fields are
-- those that `field_from_string` reads from the lines behind the first.
pub commit_bytes-request :
    (stale_size : ℕ) (name : Bytes) (lines : List Bytes) (fields : List Field) (rest : Bytes)
    → IsLine name
    → All IsLine lines
    → length lines + 1 < max_line_count
    → fields_from_lines lines ≡ ok fields
    → commit_bytes stale_size initial (encode_lines (name ∷ lines) rest) ≡ record {
      interpreter = available (record { name = name; fields = fields });
      rest = rest;
      outcome = ok tt;
    }
unfolding initial request_from_lines after_line
commit_bytes-request stale_size name lines fields rest h hs k e =
    commit_bytes-encode_lines stale_size (name ∷ lines) [] rest (h, hs) (omega arith)
    ∙ ap (λ s. after_line s rest (λ j. commit_bytes stale_size j rest))
        (finished-request (reverse (name ∷ lines)) (record { name = name; fields = fields })
          (λ empty. cc (ap reverse empty, reverse-reverse (name ∷ lines)))
          (rw (reverse-reverse (name ∷ lines), e)))
    ∙ commit_bytes_ready stale_size (available (record { name = name; fields = fields })) rest refl
