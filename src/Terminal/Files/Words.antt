-- ===== src/Terminal/Files/Words.antt =====
-- cli/src/tui/tui.cpp: words that `>>` gives back, and paths and names put together from them.
use tin_dox.Prelude.{
  ℕ, Bool, true, false, ◌&&◌, not, List, [], ◌∷◌, ◌++◌, ◌≡◌, refl, ap, ◌∙◌, sym, ◌==◌,
  if◌then◌else◌, Bytes, codes, all, arith, Bool-cases, ==_iff, inl, inr,
}
use mathlib.Core.List.{append-nil, append_assoc}
use tin_dox.Terminal.Files.{is_space, flush, words, spaced}

-- No white space.
abbrev pub is_solid : ℕ → Bool
is_solid c = not (is_space c)

abbrev pub is_nil : Bytes → Bool
is_nil [] = true
is_nil (c ∷ cs) = false

-- The only white space is single blanks between other characters.
unfoldable pub is_tidy : Bool → Bytes → Bool
is_tidy blank [] = not blank
is_tidy blank (c ∷ cs) =
    if c == b' ' then not blank && is_tidy true cs else is_solid c && is_tidy false cs

module _ (cur : Bytes) (c : ℕ) (cs : Bytes) where
  pub words-solid : is_space c ≡ false → words cur (c ∷ cs) ≡ words (cur ++ c ∷ []) cs
  unfolding words
  words-solid solid = rw solid

  pub words-space : is_space c ≡ true → words cur (c ∷ cs) ≡ flush cur (words [] cs)
  unfolding words
  words-space space = rw space

pub words-append :
    (cur w : Bytes) (c : ℕ) (rest : Bytes)
    → all is_solid w ≡ true
    → is_space c ≡ true
    → words cur (w ++ c ∷ rest) ≡ flush (cur ++ w) (words [] rest)
words-append cur [] c rest solid space = rw (append-nil cur) (words-space cur c rest space)
words-append cur (d ∷ w) c rest solid space =
    let first : is_space d ≡ false = ground arith in
    let others : all is_solid w ≡ true = ground arith in
    words-solid cur d (w ++ c ∷ rest) first
    ∙ words-append (cur ++ d ∷ []) w c rest others space
    ∙ ap (λ t. flush t (words [] rest)) (append_assoc cur (d ∷ []) w)

pub is_nil-append : (cur : Bytes) (c : ℕ) → is_nil (cur ++ c ∷ []) ≡ false
is_nil-append [] c = refl
is_nil-append (d ∷ ds) c = refl

pub spaced-flush :
    (cur : Bytes) (rest : List Bytes)
    → is_nil cur ≡ false
    → spaced (flush cur rest) ≡ cur ++ b' ' ∷ spaced rest
unfolding spaced
spaced-flush [] rest full = cc
spaced-flush (c ∷ cs) rest full = refl

-- The path as `updateFilesEntries` puts it together again.
pub spaced-words :
    (cur path : Bytes)
    → is_tidy (is_nil cur) path ≡ true
    → spaced (words cur (path ++ codes "\n\n")) ≡ (cur ++ path) ++ b' ' ∷ []
unfolding is_tidy
spaced-words cur [] tidy =
    let full : is_nil cur ≡ false = ground arith in
    ap spaced (words-space cur b'\n' (codes "\n") refl)
    ∙ spaced-flush cur (words [] (codes "\n")) full
    ∙ rw (append-nil cur) (unfold words spaced in refl)
spaced-words cur (c ∷ cs) tidy = elim (Bool-cases (c == b' ')) [
  | inl blank ↦
      let full : is_nil cur ≡ false = ground arith in
      let space : is_space c ≡ true = ground arith in
      let others : is_tidy true cs ≡ true = ground arith in
      ap spaced (words-space cur c (cs ++ codes "\n\n") space)
      ∙ spaced-flush cur (words [] (cs ++ codes "\n\n")) full
      ∙ ap (λ t. cur ++ b' ' ∷ t) (spaced-words [] cs others)
      ∙ ap (λ t. cur ++ t ∷ (cs ++ b' ' ∷ [])) (sym ((==_iff c b' ').0 blank))
      ∙ sym (append_assoc cur (c ∷ cs) (b' ' ∷ []))
  | inr other ↦
      let solid : is_space c ≡ false = ground arith in
      let others : is_tidy false cs ≡ true = ground arith in
      ap spaced (words-solid cur c (cs ++ codes "\n\n") solid)
      ∙ spaced-words (cur ++ c ∷ []) cs (rw (is_nil-append cur c) others)
      ∙ ap (λ t. t ++ b' ' ∷ []) (append_assoc cur (c ∷ []) cs)
]
