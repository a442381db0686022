-- ===== src/Paths/Normal.antt =====
-- What `lexically_normal` leaves of `.` and `..`.
use mathlib.Core.List.{reverse-cons, append-nil, append_assoc}
use tin_dox.Prelude.{
  ℕ, false, List, [], ◌∷◌, ◌++◌, reverse, ◌≡◌, refl, sym, ap, ◌∙◌, subst, inl, inr, Bytes, codes,
  equal, ◌==◌, All, Bool-cases, if◌then◌else◌,
}
use tin_dox.Paths.{
  FilePath, separator, pieces, drop_empty, filenames, pop, join, normal_names, lexically_normal,
}

-- A name that stands for itself.
abbrev pub IsPlain : Bytes → Type 0
IsPlain name = (equal name (codes ".") ≡ false) × (equal name (codes "..") ≡ false)

-- A path of which no name is `.` or `..`.
unfoldable pub IsNormal : FilePath → Type 0
IsNormal path = All IsPlain (filenames path)

abbrev HasNoSeparator : Bytes → Type 0
HasNoSeparator = All (λ c. (c == separator) ≡ false)

module _ {ℓ κ} {A : Type ℓ} (P : A → Type κ) where
  All-append : (xs ys : List A) → All P xs → All P ys → All P (xs ++ ys)
  All-append [] ys h k = k
  All-append (x ∷ xs) ys (here, h) k = (here, All-append xs ys h k)

  All-reverse : (xs : List A) → All P xs → All P (reverse xs)
  All-reverse [] h = tt
  All-reverse (x ∷ xs) (here, h) =
      subst (All P) (sym (reverse-cons x xs))
        (All-append (reverse xs) (x ∷ []) (All-reverse xs h) (here, tt))

pieces-HasNoSeparator :
    (piece p : Bytes) → HasNoSeparator piece → All HasNoSeparator (pieces piece p)
unfolding pieces
pieces-HasNoSeparator piece [] h = (All-reverse _ piece h, tt)
pieces-HasNoSeparator piece (c ∷ cs) h = elim (Bool-cases (c == separator)) [
  | inl ends ↦ rw ends (All-reverse _ piece h, pieces-HasNoSeparator [] cs tt)
  | inr goes_on ↦ rw goes_on (pieces-HasNoSeparator (c ∷ piece) cs (goes_on, h))
]

drop_empty-All : (P : Bytes → Type 0) (names : List Bytes) → All P names → All P (drop_empty names)
unfolding drop_empty
drop_empty-All P [] h = tt
drop_empty-All P (p ∷ []) h = h
drop_empty-All P ([] ∷ p ∷ ps) h = drop_empty-All P (p ∷ ps) h.1
drop_empty-All P ((c ∷ cs) ∷ p ∷ ps) (here, h) = (here, drop_empty-All P (p ∷ ps) h)

-- A name that is kept.
abbrev IsKept : Bytes → Type 0
IsKept name = HasNoSeparator name × IsPlain name

pop-All : (names : List Bytes) → All IsKept names → All IsKept (pop names)
unfolding pop
pop-All [] h = tt
pop-All (p ∷ ps) h = h.1

empty-IsKept : IsKept []
unfolding equal
empty-IsKept = (tt, (refl, refl))

-- One name more, in the middle of a path or at its end.
next_names :
    (p : Bytes) (here above kept : List Bytes)
    → HasNoSeparator p
    → All IsKept here
    → All IsKept above
    → All IsKept kept
    → All IsKept
        (if equal p (codes ".") then here else if equal p (codes "..") then above else p ∷ kept)
next_names p here above kept clear h a k = elim (Bool-cases (equal p (codes "."))) [
  | inl dot ↦ rw dot h
  | inr other ↦ elim (Bool-cases (equal p (codes ".."))) [
    | inl dots ↦ rw (other, dots) a
    | inr name ↦ rw (other, name) ((clear, (other, name)), k)
  ]
]

normal_names-IsKept :
    (names kept : List Bytes)
    → All IsKept kept
    → All HasNoSeparator names
    → All IsKept (normal_names kept names)
unfolding normal_names
normal_names-IsKept [] kept h k = h
normal_names-IsKept (p ∷ []) kept h (clear, k) =
    next_names p ([] ∷ kept) ([] ∷ pop kept) kept clear (empty-IsKept, h)
      (empty-IsKept, pop-All kept h) h
normal_names-IsKept (p ∷ q ∷ ps) kept h (clear, k) =
    normal_names-IsKept (q ∷ ps) _ (next_names p kept (pop kept) kept clear h (pop-All kept h) h) k

reverse-next :
    (piece : Bytes) (c : ℕ) (cs : Bytes) → reverse (c ∷ piece) ++ cs ≡ reverse piece ++ c ∷ cs
reverse-next piece c cs =
    ap (λ (xs : Bytes). xs ++ cs) (reverse-cons c piece) ∙ append_assoc (reverse piece) (c ∷ []) cs

pieces-name : (piece p : Bytes) → HasNoSeparator p → pieces piece p ≡ (reverse piece ++ p) ∷ []
unfolding pieces
pieces-name piece [] h = ap (λ (name : Bytes). name ∷ []) (sym (append-nil (reverse piece)))
pieces-name piece (c ∷ cs) (clear, h) =
    rw clear
      (pieces-name (c ∷ piece) cs h ∙ ap (λ (name : Bytes). name ∷ []) (reverse-next piece c cs))

pieces-append :
    (piece p rest : Bytes)
    → HasNoSeparator p
    → pieces piece (p ++ separator ∷ rest) ≡ (reverse piece ++ p) ∷ pieces [] rest
unfolding pieces
pieces-append piece [] rest h =
    ap (λ (name : Bytes). name ∷ pieces [] rest) (sym (append-nil (reverse piece)))
pieces-append piece (c ∷ cs) rest (clear, h) = rw clear (
    pieces-append (c ∷ piece) cs rest h
    ∙ ap (λ (name : Bytes). name ∷ pieces [] rest) (reverse-next piece c cs))

join-IsPlain : (names : List Bytes) → All IsKept names → All IsPlain (pieces [] (join names))
unfolding join equal pieces
join-IsPlain [] h = ((refl, refl), tt)
join-IsPlain (p ∷ []) ((clear, plain), h) =
    subst (All IsPlain) (sym (pieces-name [] p clear)) (plain, tt)
join-IsPlain (p ∷ q ∷ ps) ((clear, plain), h) =
    subst (All IsPlain) (sym (pieces-append [] p (join (q ∷ ps)) clear))
      (plain, join-IsPlain (q ∷ ps) h)

pub lexically_normal-IsNormal : (p : FilePath) → IsNormal (lexically_normal p)
unfolding lexically_normal filenames IsNormal equal
lexically_normal-IsNormal p =
    let names = normal_names [] (filenames p) in
    let kept =
      normal_names-IsKept (filenames p) [] tt
        (drop_empty-All HasNoSeparator (pieces [] p) (pieces-HasNoSeparator [] p tt)) in
    drop_empty-All IsPlain (pieces [] (separator ∷ join (reverse names)))
      ((refl, refl), join-IsPlain (reverse names) (All-reverse IsKept names kept))
