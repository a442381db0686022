-- ===== src/Protocol/Interpreter/Pieces.antt =====
-- protocol_interpreter.cpp: `commit_line` on two pieces of one line.
use mathlib.Core.List.{append_assoc}
use tin_dox.Prelude.{
  ℕ, ◌<◌, Bool, true, false, List, [], ◌∷◌, ◌++◌, ◌≡◌, refl, sym, ap, ◌∙◌, Option, ◌⊎◌, inl, inr,
  arith, length, length-append, all, Bytes, ok,
}
use tin_dox.Protocol.Interpreter.Bounds.{check-cases}
use tin_dox.Protocol.Interpreter.Requests.{is_line_char}
use tin_dox.Protocol.Interpreter.{
  Interpreter, Request, ◌and_then◌, add_bytes, back, check_for_protocol_errors, ends_line,
  close_line, pop_separator, settle_line, commit_line, restart,
}

ends_line-append :
    (a b : Bytes) → 0 < length b → all is_line_char b ≡ true → ends_line (a ++ b) ≡ false
unfolding ends_line
ends_line-append [] [] h k = absurd (omega arith)
ends_line-append [] (c ∷ []) h k = ground arith
ends_line-append [] (c ∷ d ∷ cs) h k = ends_line-append [] (d ∷ cs) (omega arith) (ground arith)
ends_line-append (x ∷ []) [] h k = absurd (omega arith)
ends_line-append (x ∷ []) (c ∷ cs) h k = ends_line-append [] (c ∷ cs) h k
ends_line-append (x ∷ y ∷ a) b h k = ends_line-append (y ∷ a) b h k

-- Lines whose newest is not closed yet.
settle_line-open :
    (lines : List Bytes) (q : Option Request) (c : Bool)
    → ends_line (back lines) ≡ false
    → (lines ≡ []) ⊎ (0 < length (back lines))
    → settle_line (record { lines = lines; request = q; last_line_complete = c })
      ≡ (record { lines = lines; request = q; last_line_complete = false }, ok tt)
unfolding settle_line close_line pop_separator back
settle_line-open lines q c e h = rw e (go lines h)
  where
    go :
        (lines : List Bytes)
        → (lines ≡ []) ⊎ (0 < length (back lines))
        → close_line
            (record { lines = lines; request = q; last_line_complete = false })
            (pop_separator false lines)
          ≡ (record { lines = lines; request = q; last_line_complete = false }, ok tt)
    go [] h = refl
    go ([] ∷ rest) h = ground arith
    go ((d ∷ ds) ∷ rest) h = refl

add_bytes-append :
    (c : Bool) (a b : Bytes) (lines : List Bytes)
    → add_bytes false b (add_bytes c a lines) ≡ add_bytes c (a ++ b) lines
unfolding add_bytes
add_bytes-append true a b lines = refl
add_bytes-append false a b [] = refl
add_bytes-append false a b (last ∷ lines) = ap (λ line. line ∷ lines) (append_assoc last a b)

-- Bytes with no separator leave the newest line open.
add_bytes-open :
    (c : Bool) (a : Bytes) (lines : List Bytes)
    → 0 < length a
    → all is_line_char a ≡ true
    → let after = add_bytes c a lines in
      (ends_line (back after) ≡ false) × ((after ≡ []) ⊎ (0 < length (back after)))
unfolding add_bytes back
add_bytes-open true a lines h k = (ends_line-append [] a h k, inr h)
add_bytes-open false a [] h k = (unfold ends_line in refl, inl refl)
add_bytes-open false a (last ∷ lines) h k =
    (ends_line-append last a h k, inr (omega (arith, length-append last a)))

module _ (stale_size : ℕ) where
  -- A piece of a line that is accepted.
  commit_line-open :
      (i j : Interpreter) (a : Bytes)
      → 0 < length a
      → all is_line_char a ≡ true
      → commit_line stale_size i a ≡ (j, ok tt)
      → j
        ≡ record i { lines = add_bytes i.last_line_complete a i.lines; last_line_complete = false }
  unfolding commit_line
  commit_line-open i j a h k e =
      let lines = add_bytes i.last_line_complete a i.lines in
      let (ends, back_of) = add_bytes-open i.last_line_complete a i.lines h k in
      elim (check-cases stale_size (record i { lines = lines })) [
        | inl (x, thrown) ↦ cc thrown
        | inr (passed, _, _) ↦
            cc (passed, settle_line-open lines i.request i.last_line_complete ends back_of)
      ]

  -- The check and the rest do not look at the old flag.
  commit_line-flag :
      (lines : List Bytes) (q : Option Request) (c : Bool)
      → let run =
          λ (i : Interpreter). check_for_protocol_errors stale_size i and_then settle_line in
        run (record { lines = lines; request = q; last_line_complete = c })
        ≡ run (record { lines = lines; request = q; last_line_complete = false })
  unfolding check_for_protocol_errors settle_line restart
  commit_line-flag lines q c = ground arith

  pub commit_line-append :
      (i j : Interpreter) (a b : Bytes)
      → 0 < length a
      → all is_line_char a ≡ true
      → commit_line stale_size i a ≡ (j, ok tt)
      → commit_line stale_size i (a ++ b) ≡ commit_line stale_size j b
  unfolding commit_line
  commit_line-append i j a b h k e =
      commit_line-flag (add_bytes i.last_line_complete (a ++ b) i.lines) i.request
        i.last_line_complete
      ∙ ap
          (λ lines.
            check_for_protocol_errors stale_size
              (record { lines = lines; request = i.request; last_line_complete = false })
            and_then settle_line)
          (sym (add_bytes-append i.last_line_complete a b i.lines))
      ∙ ap (λ k. commit_line stale_size k b) (sym (commit_line-open i j a h k e))
