-- ===== src/Protocol/Interpreter/Loop.antt =====
-- protocol_interpreter.cpp: the loop of `commit_bytes` ends, by its own test or by an error.
use mathlib.Core.List.{append_assoc}
use mathlib.Core.Path.{fun_ext}
use tin_dox.Prelude.{
  ℕ, zero, suc, ◌≤◌, ◌<◌, true, false, [], ◌∷◌, ◌++◌, ◌≡◌, refl, ap, ◌∙◌, ◌⊎◌, inl, inr, none,
  length-append, arith, length, Bytes, ok, err, Bool-cases, if◌then◌else◌,
}
use tin_dox.Protocol.Error.{Error}
use tin_dox.Protocol.Interpreter.{
  Interpreter, Fed, Step, has_available_request, take_line, drop_line, after_line, commit_line,
  feed, commit_bytes,
}

pub length-drop_line : (c : ℕ) (cs : Bytes) → length (drop_line (c ∷ cs)) ≤ length cs
unfolding drop_line
length-drop_line c [] = ground arith
length-drop_line c (d ∷ cs) = ground (arith, length-drop_line d cs)

take_line-append-drop_line : (bytes : Bytes) → take_line bytes ++ drop_line bytes ≡ bytes
unfolding take_line drop_line
take_line-append-drop_line [] = refl
take_line-append-drop_line (c ∷ cs) = ground (arith, take_line-append-drop_line cs)

-- The condition of the loop fails, or an error was thrown.
abbrev pub IsFinished : Fed → Type 0
IsFinished r =
    ((e : Error) × (r.outcome ≡ err e))
    ⊎ ((r.rest ≡ []) ⊎ (has_available_request r.interpreter ≡ true))

-- What is left is the end of what was given.
abbrev pub IsSuffix : Bytes → Bytes → Type 0
IsSuffix rest bytes = (used : Bytes) × (used ++ rest ≡ bytes)

IsSuffix-drop_line :
    {rest : Bytes} (bytes : Bytes) → IsSuffix rest (drop_line bytes) → IsSuffix rest bytes
IsSuffix-drop_line {rest} bytes (used, e) = (
  take_line bytes ++ used,
  append_assoc (take_line bytes) used rest
      ∙ ap (◌++◌ (take_line bytes)) e
      ∙ take_line-append-drop_line bytes,
)

-- A round that stops, or hands over to the rest of the loop, ends well if the rest does.
after_line-IsFinished :
    (s : Step) (c : ℕ) (cs : Bytes) (more : Interpreter → Fed)
    → ((j : Interpreter) → IsFinished (more j) × IsSuffix (more j).rest (drop_line (c ∷ cs)))
    → let r = after_line s (drop_line (c ∷ cs)) more in IsFinished r × IsSuffix r.rest (c ∷ cs)
unfolding after_line
after_line-IsFinished (j, ok u) c cs more h = ((h j).0, IsSuffix-drop_line (c ∷ cs) (h j).1)
after_line-IsFinished (j, err e) c cs more h =
    (inl (e, refl), IsSuffix-drop_line (c ∷ cs) ([], refl))

module _ (stale_size : ℕ) where
  -- More fuel than bytes changes nothing.
  pub feed_fuel :
      (f g : ℕ) (i : Interpreter) (bytes : Bytes)
      → length bytes ≤ f
      → length bytes ≤ g
      → feed f stale_size i bytes ≡ feed g stale_size i bytes
  unfolding feed
  feed_fuel zero zero i bytes h k = refl
  feed_fuel (suc f) zero i [] h k = refl
  feed_fuel (suc f) zero i (c ∷ cs) h k = absurd (omega arith)
  feed_fuel zero (suc g) i [] h k = refl
  feed_fuel zero (suc g) i (c ∷ cs) h k = absurd (omega arith)
  feed_fuel (suc f) (suc g) i [] h k = refl
  feed_fuel (suc f) (suc g) i (c ∷ cs) h k =
      ap
        (λ more.
          if has_available_request i
          then record { interpreter = i; rest = c ∷ cs; outcome = ok tt }
          else after_line (commit_line stale_size i (take_line (c ∷ cs))) (drop_line (c ∷ cs)) more)
        (fun_ext λ j.
          feed_fuel f g j (drop_line (c ∷ cs)) (omega (arith, length-drop_line c cs))
            (omega (arith, length-drop_line c cs)))

  feed-IsFinished :
      (f : ℕ) (i : Interpreter) (bytes : Bytes)
      → length bytes ≤ f
      → let r = feed f stale_size i bytes in IsFinished r × IsSuffix r.rest bytes
  unfolding feed
  feed-IsFinished zero i [] h = (inr (inl refl), ([], refl))
  feed-IsFinished zero i (c ∷ cs) h = absurd (omega arith)
  feed-IsFinished (suc f) i [] h = (inr (inl refl), ([], refl))
  feed-IsFinished (suc f) i (c ∷ cs) h = elim (Bool-cases (has_available_request i)) [
    | inl ready ↦ rw ready (inr (inr ready), ([], refl))
    | inr reading ↦ rw reading (
        after_line-IsFinished (commit_line stale_size i (take_line (c ∷ cs))) c cs
          (λ j. feed f stale_size j (drop_line (c ∷ cs)))
          (λ j. feed-IsFinished f j (drop_line (c ∷ cs)) (omega (arith, length-drop_line c cs))))
  ]

  -- `commit_bytes` ends: it has thrown, taken every byte, or found a request. What it leaves is the
  -- end of what it was given, and the fuel of the model is enough: more changes nothing.
  pub commit_bytes_ends :
      (i : Interpreter) (bytes : Bytes) (f : ℕ)
      → length bytes ≤ f
      → let r = commit_bytes stale_size i bytes in
        IsFinished r × IsSuffix r.rest bytes × (feed f stale_size i bytes ≡ r)
  unfolding commit_bytes
  commit_bytes_ends i bytes f h =
      let (finished, suffix) = feed-IsFinished (length bytes) i bytes (omega arith) in
      (finished, suffix, feed_fuel f (length bytes) i bytes h (omega arith))

  -- One round of the loop, with no fuel in sight.
  pub commit_bytes-cons :
      (i : Interpreter) (c : ℕ) (cs : Bytes)
      → has_available_request i ≡ false
      → commit_bytes stale_size i (c ∷ cs)
        ≡ after_line
            (commit_line stale_size i (take_line (c ∷ cs)))
            (drop_line (c ∷ cs))
            (λ j. commit_bytes stale_size j (drop_line (c ∷ cs)))
  unfolding commit_bytes
  commit_bytes-cons i c cs h = rw h (
      ap (after_line (commit_line stale_size i (take_line (c ∷ cs))) (drop_line (c ∷ cs))) (
        fun_ext λ j.
          feed_fuel (length cs) (length (drop_line (c ∷ cs))) j (drop_line (c ∷ cs))
            (length-drop_line c cs) (omega arith)))

  -- A request that waits stops the loop.
  pub commit_bytes_ready :
      (i : Interpreter) (bytes : Bytes)
      → has_available_request i ≡ true
      → commit_bytes stale_size i bytes ≡ record { interpreter = i; rest = bytes; outcome = ok tt }
  unfolding commit_bytes
  commit_bytes_ready i [] h = refl
  commit_bytes_ready i (c ∷ cs) h = rw h

  pub commit_bytes-nil :
      (i : Interpreter)
      → commit_bytes stale_size i [] ≡ record { interpreter = i; rest = []; outcome = ok tt }
  unfolding commit_bytes
  commit_bytes-nil i = refl

  commit_bytes-shorter :
      (i : Interpreter) (c : ℕ) (cs : Bytes)
      → i.request ≡ none
      → length (commit_bytes stale_size i (c ∷ cs)).rest ≤ length cs
  unfolding after_line
  commit_bytes-shorter i c cs h =
      rw (commit_bytes-cons i c cs (rw h refl)) (go (commit_line stale_size i (take_line (c ∷ cs))))
    where
      go :
          (s : Step)
          → length
              (after_line s
                (drop_line (c ∷ cs))
                (λ j. commit_bytes stale_size j (drop_line (c ∷ cs)))).rest
            ≤ length cs
      go (j, err e) = length-drop_line c cs
      go (j, ok u) =
          let rest = drop_line (c ∷ cs) in
          let (used, e) = (commit_bytes_ends j rest (length rest) (omega arith)).1 in
          omega (
            arith,
            length-drop_line c cs,
            ap length e,
            length-append used (commit_bytes stale_size j rest).rest,
          )

  -- A call with no request waiting takes at least one byte.
  pub commit_bytes_shorter :
      (i : Interpreter) (bytes : Bytes)
      → i.request ≡ none
      → let rest = (commit_bytes stale_size i bytes).rest in
        (rest ≡ []) ⊎ (length rest < length bytes)
  unfolding commit_bytes feed
  commit_bytes_shorter i [] h = inl refl
  commit_bytes_shorter i (c ∷ cs) h = inr (omega (arith, commit_bytes-shorter i c cs h))
