-- ===== src/Protocol/Interpreter/Chunks.antt =====
-- protocol_interpreter.cpp: how the network cuts the stream into pieces makes no difference.
use mathlib.Core.List.{append_assoc, append-nil}
use mathlib.Core.Bool.{false≢true}
use tin_dox.Prelude.{
  ℕ, zero, suc, ◌≤◌, ◌<◌, true, false, [], ◌∷◌, ◌++◌, ◌≡◌, refl, sym, ap, ◌∙◌, inl, inr, arith,
  length, length-append, all, Bytes, ok, err, ◌==◌, Bool-cases,
}
use tin_dox.Protocol.Interpreter.Loop.{commit_bytes-cons, commit_bytes_ready, commit_bytes-nil}
use tin_dox.Protocol.Interpreter.Pieces.{commit_line-append}
use tin_dox.Protocol.Interpreter.Requests.{is_line_char, take_line-line, drop_line-line}
use tin_dox.Protocol.Interpreter.{
  Interpreter, Fed, Step, line_separator, has_available_request, commit_line, take_line, drop_line,
  after_line, commit_bytes,
}

-- Either no separator, or the first one.
data Cut : Bytes → Type 0 where
  whole : {a : Bytes} → all is_line_char a ≡ true → Cut a
  cut_at :
      {a : Bytes} (line rest : Bytes)
      → a ≡ line ++ line_separator ∷ rest
      → all is_line_char line ≡ true
      → Cut a

cut : (a : Bytes) → Cut a
cut [] = whole refl
cut (c ∷ cs) = elim (Bool-cases (c == line_separator)) [
  | inl ends ↦ cut_at [] cs (ground arith) refl
  | inr other ↦ extend other (cut cs)
]
  where
    extend : (c == line_separator) ≡ false → Cut cs → Cut (c ∷ cs)
    extend other (whole h) = whole (ground arith)
    extend other (cut_at line rest e h) = cut_at (c ∷ line) rest (ap (◌∷◌ c) e) (ground arith)

module _ (a b : Bytes) where
  take_line-whole : all is_line_char a ≡ true → take_line (a ++ b) ≡ a ++ take_line b
  unfolding take_line
  take_line-whole = go a
    where
      go : (a : Bytes) → all is_line_char a ≡ true → take_line (a ++ b) ≡ a ++ take_line b
      go [] h = refl
      go (c ∷ cs) h = ground (arith, go cs)

  drop_line-whole : all is_line_char a ≡ true → drop_line (a ++ b) ≡ drop_line b
  unfolding drop_line
  drop_line-whole = go a
    where
      go : (a : Bytes) → all is_line_char a ≡ true → drop_line (a ++ b) ≡ drop_line b
      go [] h = refl
      go (c ∷ cs) h = ground (arith, go cs)

-- The state in which a call has taken all its bytes, and found no request in them.
abbrev pub absorbed : Interpreter → Fed
absorbed j = record { interpreter = j; rest = []; outcome = ok tt }

module _ (stale_size : ℕ) where
  -- One round over a line, with what follows it.
  abbrev round : Interpreter → Bytes → Bytes → Fed
  round i line rest =
      after_line (commit_line stale_size i line) rest (λ j. commit_bytes stale_size j rest)

  commit_bytes-round :
      (i : Interpreter) (bytes : Bytes)
      → has_available_request i ≡ false
      → 0 < length bytes
      → commit_bytes stale_size i bytes ≡ round i (take_line bytes) (drop_line bytes)
  commit_bytes-round i [] g h = absurd (omega arith)
  commit_bytes-round i (c ∷ cs) g h = commit_bytes-cons stale_size i c cs g

  commit_bytes-line :
      (i : Interpreter) (bytes line rest : Bytes)
      → has_available_request i ≡ false
      → 0 < length bytes
      → take_line bytes ≡ line
      → drop_line bytes ≡ rest
      → commit_bytes stale_size i bytes ≡ round i line rest
  commit_bytes-line i bytes line rest g h t d =
      commit_bytes-round i bytes g h ∙ ap (λ l. round i l (drop_line bytes)) t ∙ ap (round i line) d

  after_line-absorbed :
      (s : Step) (rest : Bytes) (j : Interpreter)
      → after_line s rest (λ k. commit_bytes stale_size k rest) ≡ absorbed j
      → (k : Interpreter) × (s ≡ (k, ok tt)) × (commit_bytes stale_size k rest ≡ absorbed j)
  unfolding after_line
  after_line-absorbed (k, ok u) rest j e = (k, refl, e)
  after_line-absorbed (k, err x) rest j e = cc

  module _ (i j : Interpreter) (a b : Bytes) (g : has_available_request i ≡ false)
      (g' : has_available_request j ≡ false) (e : commit_bytes stale_size i a ≡ absorbed j)
      (m : 0 < length a) where
    -- The first piece holds no whole line.
    whole-line : all is_line_char a ≡ true → commit_line stale_size i a ≡ (j, ok tt)
    whole-line h =
        let taken : take_line a ≡ a =
          ap take_line (sym (append-nil a))
          ∙ take_line-whole a [] h
          ∙ (unfold take_line in append-nil a) in
        let dropped : drop_line a ≡ [] =
          ap drop_line (sym (append-nil a)) ∙ drop_line-whole a [] h ∙ (unfold drop_line in refl) in
        let (k, s, later) =
          after_line-absorbed (commit_line stale_size i a) [] j
            (sym (commit_bytes-line i a a [] g m taken dropped) ∙ e) in
        s ∙ ap (λ (r : Fed). (r.interpreter, ok tt)) (sym (commit_bytes-nil stale_size k) ∙ later)

    whole-append :
        all is_line_char a ≡ true
        → 0 < length b
        → commit_bytes stale_size i (a ++ b) ≡ commit_bytes stale_size j b
    whole-append h n =
        commit_bytes-line i (a ++ b) (a ++ take_line b) (drop_line b) g
          (omega (arith, length-append a b)) (take_line-whole a b h) (drop_line-whole a b h)
        ∙ ap (λ s. after_line s (drop_line b) (λ k. commit_bytes stale_size k (drop_line b)))
            (commit_line-append stale_size i j a (take_line b) m h (whole-line h))
        ∙ sym (commit_bytes-round j b g' n)

    -- The first piece begins with a whole line: the state behind it, and what follows.
    line-append :
        (line rest : Bytes)
        → a ≡ line ++ line_separator ∷ rest
        → all is_line_char line ≡ true
        → (k : Interpreter) × (has_available_request k ≡ false)
          × (commit_bytes stale_size k rest ≡ absorbed j)
          × (commit_bytes stale_size i (a ++ b) ≡ commit_bytes stale_size k (rest ++ b))
    unfolding after_line
    line-append line rest s h =
        let whole = line ++ line_separator ∷ [] in
        let joined : a ++ b ≡ line ++ line_separator ∷ (rest ++ b) =
          ap (λ r. r ++ b) s ∙ append_assoc line (line_separator ∷ rest) b in
        let (k, taken, later) = after_line-absorbed (commit_line stale_size i whole) rest j (
          sym (
            commit_bytes-line i a whole rest g m (ap take_line s ∙ take_line-line line rest h)
              (ap drop_line s ∙ drop_line-line line rest h))
          ∙ e) in
        (
          k,
          not_available k rest later,
          later,
          commit_bytes-line i (a ++ b) whole (rest ++ b) g (omega (arith, length-append a b))
                (ap take_line joined ∙ take_line-line line (rest ++ b) h)
                (ap drop_line joined ∙ drop_line-line line (rest ++ b) h)
              ∙ ap (λ t. after_line t (rest ++ b) (λ k. commit_bytes stale_size k (rest ++ b)))
                  taken,
        )
      where
        not_available :
            (k : Interpreter) (rest : Bytes)
            → commit_bytes stale_size k rest ≡ absorbed j
            → has_available_request k ≡ false
        not_available k rest later = elim (Bool-cases (has_available_request k)) [
          | inl ready ↦ absurd (
              false≢true (
                sym g'
                ∙ ap (λ (r : Fed). has_available_request r.interpreter)
                    (sym later ∙ commit_bytes_ready stale_size k rest ready)
                ∙ ready))
          | inr reading ↦ reading
        ]

  split-append :
      (n : ℕ) (i j : Interpreter) (a b : Bytes)
      → length a ≤ n
      → has_available_request i ≡ false
      → has_available_request j ≡ false
      → commit_bytes stale_size i a ≡ absorbed j
      → commit_bytes stale_size i (a ++ b) ≡ commit_bytes stale_size j b
  split-append n i j [] b m g g' e =
      ap (λ (r : Fed). commit_bytes stale_size r.interpreter b)
        (sym (commit_bytes-nil stale_size i) ∙ e)
  split-append zero i j (c ∷ cs) b m g g' e = absurd (omega arith)
  split-append (suc n) i j (c ∷ cs) [] m g g' e =
      ap (commit_bytes stale_size i) (append-nil (c ∷ cs)) ∙ e ∙ sym (commit_bytes-nil stale_size j)
  split-append (suc n) i j (c ∷ cs) (d ∷ ds) m g g' e = elim (cut (c ∷ cs)) [
    | whole h ↦ whole-append i j (c ∷ cs) (d ∷ ds) g g' e (omega arith) h (omega arith)
    | cut_at line rest s h ↦
        let (k, free, later, step) =
          line-append i j (c ∷ cs) (d ∷ ds) g g' e (omega arith) line rest s h in
        step
        ∙ split-append n k j rest (d ∷ ds)
            (omega (arith, ap length s, length-append line (line_separator ∷ rest))) free g' later
  ]

  -- A stream may be cut anywhere: if the first piece is taken whole, without an error and without a
  -- request, then feeding the second piece to what came out is feeding both at once. This holds of
  -- the state, the bytes that are left and the error alike.
  pub commit_bytes-append :
      (i j : Interpreter) (a b : Bytes)
      → has_available_request i ≡ false
      → has_available_request j ≡ false
      → commit_bytes stale_size i a ≡ absorbed j
      → commit_bytes stale_size i (a ++ b) ≡ commit_bytes stale_size j b
  commit_bytes-append i j a b = split-append (length a) i j a b (omega arith)
