-- ===== src/Protocol/Socket/Order.antt =====
-- sender.cpp: bytes leave in the order in which their answers were queued.
use mathlib.Core.List.{append_assoc, append-nil}
use tin_dox.Prelude.{
  none, ℕ, zero, suc, ◌+◌, ◌-◌, true, List, [], ◌∷◌, ◌++◌, ◌≡◌, refl, sym, ap, ◌∙◌, inl, inr, arith,
  ◌==◌, length, length-drop, take, drop, min, Bytes, Bool-cases,
}
use tin_dox.Protocol.Response.{
  Response, pending, add_read_byte_count, is_fully_sent, get_remaining_byte_count,
}
use tin_dox.Protocol.Socket.{
  Sender, Written, wrote, write_failed, settle_front, write, send, add_response, push,
}

-- What is queued and not sent yet.
abbrev pub queued : List Response → Bytes
queued [] = []
queued (r ∷ rs) = pending r ++ queued rs

module _ {A : Type 0} where
  drop-nil : (n : ℕ) → drop {A = A} n [] ≡ []
  drop-nil zero = refl
  drop-nil (suc n) = refl

  drop-add : (m n : ℕ) (xs : List A) → drop (m + n) xs ≡ drop n (drop m xs)
  drop-add zero n xs = let e : zero + n ≡ n = omega arith in ap (λ k. drop k xs) e
  drop-add (suc m) zero [] = drop-nil (suc m + 0)
  drop-add (suc m) (suc n) [] = drop-nil (suc m + suc n)
  drop-add (suc m) n (x ∷ xs) =
      let e : suc m + n ≡ suc (m + n) = omega arith in ap (λ k. drop k (x ∷ xs)) e ∙ drop-add m n xs

  take-append-drop-min : (n : ℕ) (xs : List A) → take n xs ++ drop (min n (length xs)) xs ≡ xs
  take-append-drop-min zero xs =
      let e : min zero (length xs) ≡ 0 = omega arith in ap (λ k. drop k xs) e
  take-append-drop-min (suc n) [] = drop-nil (min (suc n) 0)
  take-append-drop-min (suc n) (x ∷ xs) =
      let e : min (suc n) (suc (length xs)) ≡ suc (min n (length xs)) = omega arith in
      ap (λ k. x ∷ (take n xs ++ drop k (x ∷ xs))) e ∙ ap (◌∷◌ x) (take-append-drop-min n xs)

-- Counting bytes as sent moves them from what is pending.
pending-add_read_byte_count :
    (r : Response) (n : ℕ) → take n (pending r) ++ pending (add_read_byte_count r n) ≡ pending r
unfolding add_read_byte_count
pending-add_read_byte_count r n =
    ap (◌++◌ (take n (pending r))) (
      drop-add r.offset (min n (length r.content - r.offset)) r.content
      ∙ ap (λ k. drop (min n k) (pending r)) (sym (length-drop r.offset r.content)))
    ∙ take-append-drop-min n (pending r)

length-nil : (xs : Bytes) → length xs ≡ 0 → xs ≡ []
length-nil [] h = refl
length-nil (x ∷ xs) h = absurd (omega arith)

queued-settle_front :
    (r : Response) (rs : List Response) → queued (settle_front r rs) ≡ pending r ++ queued rs
unfolding settle_front is_fully_sent
queued-settle_front r rs = elim (Bool-cases (get_remaining_byte_count r == 0)) [
  | inl sent ↦ rw sent (ap (λ p. p ++ queued rs) (sym (length-nil (pending r) (done sent))))
  | inr more ↦ rw more
]
  where
    done : (get_remaining_byte_count r == 0) ≡ true → length (pending r) ≡ 0
    done h = ground (arith, length-drop r.offset r.content)

write-queued :
    (answers : List Written) (s : Sender) (rs : List Response)
    → let after = write answers s rs in after.wire ++ queued after.responses ≡ s.wire ++ queued rs
unfolding write
write-queued [] s [] = refl
write-queued [] s (r ∷ rs) = refl
write-queued (a ∷ answers) s [] = refl
write-queued (write_failed e ∷ answers) s (r ∷ rs) = refl
write-queued (wrote zero ∷ answers) s (r ∷ rs) = refl
write-queued (wrote (suc n) ∷ answers) s (r ∷ rs) =
    let sent = take (suc n) (pending r) in
    let left = add_read_byte_count r (suc n) in
    write-queued answers
      (record s { sent_byte_count = s.sent_byte_count + suc n; wire = s.wire ++ sent })
      (settle_front left rs)
    ∙ append_assoc s.wire sent (queued (settle_front left rs))
    ∙ ap (◌++◌ s.wire) (
        ap (◌++◌ sent) (queued-settle_front left rs)
        ∙ sym (append_assoc sent (pending left) (queued rs))
        ∙ ap (λ p. p ++ queued rs) (pending-add_read_byte_count r (suc n)))

queued-push : (rs : List Response) (r : Response) → queued (push rs r) ≡ queued rs ++ pending r
queued-push [] r = append-nil (pending r)
queued-push (x ∷ rs) r =
    ap (◌++◌ (pending x)) (queued-push rs r)
    ∙ sym (append_assoc (pending x) (queued rs) (pending r))

-- What has gone out and what is queued is one stream: a new answer goes to its end, and `send`,
-- whatever the kernel takes of it and whether it throws or not, moves the border and nothing else.
pub send_keeps_stream :
    (s : Sender) (r : Response) (answers : List Written)
    → let stream = λ (t : Sender). t.wire ++ queued t.responses in
      (stream (add_response s r) ≡ stream s ++ pending r) × (stream (send answers s).0 ≡ stream s)
unfolding add_response send
send_keeps_stream s r answers = (
  ap (◌++◌ s.wire) (queued-push s.responses r)
      ∙ sym (append_assoc s.wire (queued s.responses) (pending r)),
  write-queued answers (record s { errc = none; sent_byte_count = 0 }) s.responses,
)
