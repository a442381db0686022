-- ===== src/Protocol/Interpreter/Bounds.antt =====
-- protocol_interpreter.cpp: the memory that the interpreter holds is bounded.
use tin_dox.Prelude.{
  ℕ, zero, suc, ◌≤◌, ◌<◌, Bool, true, false, List, [], ◌∷◌, ◌≡◌, refl, ◌⊎◌, inl, inr, arith, length,
  length-append, All, Bytes, ok, err, ltb, ◌==◌, Bool-cases,
}
use tin_dox.Protocol.Error.{Error}
use tin_dox.Protocol.Interpreter.{
  Interpreter, max_line_length, max_line_count, long_line_error, many_lines_error, line_separator,
  after_line, initial, restart, add_bytes, back, check_for_protocol_errors, commit_request,
  set_request, moved_out, ends_line, drop_last, close_line, clear_lines, pop_separator, settle_line,
  commit_line, take_line, drop_line, feed, commit_bytes,
}

abbrev pub AreShort : List Bytes → Type 0
AreShort = All (λ line. length line ≤ max_line_length)

-- At most 16 lines of at most 2048 bytes, and a line to append to whenever the last is incomplete.
pub record IsBounded (i : Interpreter) : Type 0 where
  pub count : length i.lines ≤ max_line_count
  pub sizes : AreShort i.lines
  pub has_back : (i.last_line_complete ≡ true) ⊎ (0 < length i.lines)

moved_out-length : (lines : List Bytes) → length (moved_out lines) ≡ length lines
unfolding moved_out
moved_out-length [] = refl
moved_out-length (line ∷ []) = refl
moved_out-length (last ∷ line ∷ lines) = omega (arith, moved_out-length (line ∷ lines))

moved_out-AreShort : (lines : List Bytes) → AreShort lines → AreShort (moved_out lines)
unfolding moved_out
moved_out-AreShort [] h = h
moved_out-AreShort (line ∷ []) h = omega arith
moved_out-AreShort (last ∷ line ∷ lines) h = (h.0, moved_out-AreShort (line ∷ lines) h.1)

length-drop_last : (line : Bytes) → length (drop_last line) ≤ length line
unfolding drop_last
length-drop_last [] = omega arith
length-drop_last (c ∷ []) = omega arith
length-drop_last (c ∷ d ∷ cs) = omega (arith, length-drop_last (d ∷ cs))

-- The lines are complete, or the newest of them is not empty.
abbrev IsOpen : Bool → List Bytes → Type 0
IsOpen complete lines = (complete ≡ true) ⊎ (0 < length (back lines))

close_line-IsBounded :
    (i : Interpreter) (lines : List Bytes)
    → length lines ≤ max_line_count
    → AreShort lines
    → IsOpen i.last_line_complete lines
    → IsBounded (close_line i lines).0
unfolding close_line back commit_request set_request clear_lines
close_line-IsBounded i [] n s o = ground arith
close_line-IsBounded i ([] ∷ []) n s o = ground arith
close_line-IsBounded i ([] ∷ line ∷ lines) n s o =
    ground (arith, moved_out-length (line ∷ lines), moved_out-AreShort (line ∷ lines))
close_line-IsBounded i ((c ∷ cs) ∷ lines) n s o = ground arith

ends_line-IsOpen :
    (lines : List Bytes)
    → 0 < length (back lines)
    → IsOpen (ends_line (back lines)) (pop_separator (ends_line (back lines)) lines)
unfolding pop_separator
ends_line-IsOpen lines h = elim (Bool-cases (ends_line (back lines))) [
  | inl complete ↦ inl complete
  | inr open_line ↦ rw open_line (inr h)
]

pop_separator-bounds :
    (complete : Bool) (lines : List Bytes)
    → AreShort lines
    → (length (pop_separator complete lines) ≡ length lines)
      × AreShort (pop_separator complete lines)
unfolding pop_separator
pop_separator-bounds true [] s = (refl, s)
pop_separator-bounds true (last ∷ lines) s = (refl, (omega (arith, length-drop_last last), s.1))
pop_separator-bounds false lines s = (refl, s)

settle_line-IsBounded :
    (i : Interpreter)
    → length i.lines ≤ max_line_count
    → AreShort i.lines
    → 0 < length (back i.lines)
    → IsBounded (settle_line i).0
unfolding settle_line
settle_line-IsBounded i n s h =
    let complete = ends_line (back i.lines) in
    let (same, short) = pop_separator-bounds complete i.lines s in
    close_line-IsBounded (record i { last_line_complete = complete })
      (pop_separator complete i.lines) (omega arith) short (ends_line-IsOpen i.lines h)

-- What `add_bytes` leaves, if the newest line passes the check.
add_bytes-bounds :
    (complete : Bool) (c : ℕ) (cs : Bytes) (lines : List Bytes)
    → AreShort lines
    → (complete ≡ true) ⊎ (0 < length lines)
    → let after = add_bytes complete (c ∷ cs) lines in
      (length (back after) ≤ max_line_length → AreShort after) × (0 < length (back after))
unfolding add_bytes back
add_bytes-bounds true c cs lines s h = (λ k. (k, s), omega arith)
add_bytes-bounds false c cs [] s h = ground arith
add_bytes-bounds false c cs (last ∷ lines) s h =
    (λ k. (k, s.1), omega (arith, length-append last (c ∷ cs)))

restart-IsBounded : (i : Interpreter) → IsBounded (restart i)
unfolding restart
restart-IsBounded i = record { count = omega arith; sizes = tt; has_back = inl refl }

-- The check either restarts, or leaves lines within the limits.
pub check-cases :
    (stale_size : ℕ) (i : Interpreter)
    → ((e : Error) × (check_for_protocol_errors stale_size i ≡ (restart i, err e)))
      ⊎ ((check_for_protocol_errors stale_size i ≡ (i, ok tt))
          × (length i.lines ≤ max_line_count)
          × (length (back i.lines) ≤ max_line_length))
unfolding check_for_protocol_errors
check-cases stale_size i = elim (Bool-cases (ltb max_line_length (length (back i.lines)))) [
  | inl long ↦ inl (long_line_error stale_size, rw long)
  | inr short ↦ elim (Bool-cases (ltb max_line_count (length i.lines))) [
    | inl many ↦ inl (many_lines_error, rw (short, many))
    | inr few ↦ inr (rw (short, few), ground arith, ground arith)
  ]
]

-- One call keeps the bounds, whatever it returns.
commit_line-IsBounded :
    (stale_size : ℕ) (i : Interpreter) (c : ℕ) (cs : Bytes)
    → IsBounded i
    → IsBounded (commit_line stale_size i (c ∷ cs)).0
unfolding commit_line
commit_line-IsBounded stale_size i c cs b =
    let j = record i { lines = add_bytes i.last_line_complete (c ∷ cs) i.lines } in
    let (short, here) = add_bytes-bounds i.last_line_complete c cs i.lines b.sizes b.has_back in
    elim (check-cases stale_size j) [
      | inl (e, thrown) ↦ rw (thrown, commit_line) (restart-IsBounded j)
      | inr (passed, n, m) ↦ rw (passed, commit_line) (settle_line-IsBounded j n (short m) here)
    ]

take_line-cons : (c : ℕ) (cs : Bytes) → (rest : Bytes) × (take_line (c ∷ cs) ≡ c ∷ rest)
unfolding take_line
take_line-cons c cs = elim (Bool-cases (c == line_separator)) [
  | inl ends ↦ ([], rw ends)
  | inr other ↦ (take_line cs, rw other)
]

feed-IsBounded :
    (f stale_size : ℕ) (i : Interpreter) (bytes : Bytes)
    → IsBounded i
    → IsBounded (feed f stale_size i bytes).interpreter
unfolding feed after_line
feed-IsBounded zero stale_size i bytes b = b
feed-IsBounded (suc f) stale_size i [] b = b
feed-IsBounded (suc f) stale_size i (c ∷ cs) b =
    let (rest, line) = take_line-cons c cs in
    ground (
      arith,
      commit_line-IsBounded stale_size i c rest b,
      feed-IsBounded f stale_size (commit_line stale_size i (take_line (c ∷ cs))).0
          (drop_line (c ∷ cs)),
    )

pub initial-IsBounded : IsBounded initial
unfolding initial
initial-IsBounded = record { count = omega arith; sizes = tt; has_back = inl refl }

-- Whatever a client sends, and however the bytes are cut, the interpreter holds at most 16 lines of
-- at most 2048 bytes, and never appends to a line that is not there; also after an error.
pub commit_bytes-IsBounded :
    (stale_size : ℕ) (i : Interpreter) (bytes : Bytes)
    → IsBounded i
    → IsBounded (commit_bytes stale_size i bytes).interpreter
unfolding commit_bytes
commit_bytes-IsBounded stale_size i bytes b = feed-IsBounded (length bytes) stale_size i bytes b
