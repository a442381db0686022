-- ===== src/Terminal/Files/Names.antt =====
-- cli/src/tui/tui.cpp: the columns of a listing, one word or one name at a time.
use tin_dox.Prelude.{
  ℕ, ◌≤◌, Bool, true, false, ◌&&◌, ◌||◌, not, List, [], ◌∷◌, ◌++◌, ◌≡◌, refl, ap, ◌∙◌, sym, ◌==◌,
  ==_iff, some, if◌then◌else◌, Bytes, codes, length, arith, Bool-cases, inl, inr, ltb, ◌-◌,
}
use mathlib.Core.List.{append-nil, append_assoc}
use tin_dox.Session.Commands.Browse.{replicate}
use tin_dox.Terminal.Files.Words.{is_solid, is_nil, words-solid, words-space}
use tin_dox.Terminal.Files.{
  is_space, flush, words, pop_back, ends_with, Column, name_column, naming, size_column, Listing,
  padding, read_word, read_listing, name_word,
}

pub ends_with-snoc : (w : Bytes) (c x : ℕ) → ends_with (w ++ c ∷ []) x ≡ (c == x)
unfolding ends_with
ends_with-snoc [] c x = refl
ends_with-snoc (d ∷ []) c x = refl
ends_with-snoc (d ∷ f ∷ w) c x = ends_with-snoc (f ∷ w) c x

pub pop_back-snoc : (w : Bytes) (c : ℕ) → pop_back (w ++ c ∷ []) ≡ w
unfolding pop_back
pop_back-snoc [] c = refl
pop_back-snoc (d ∷ []) c = refl
pop_back-snoc (d ∷ f ∷ w) c = ap (◌∷◌ d) (pop_back-snoc (f ∷ w) c)

-- The blanks behind a text in a column that it fits in.
abbrev pub blanks : ℕ → ℕ → Bytes
blanks width size = if ltb size width then replicate (width - size) b' ' else codes " "

pub padding_name : (n : ℕ) → n ≤ 40 → padding 40 n ≡ some (blanks 40 n)
unfolding padding
padding_name n h = ground arith

pub padding_size : (n : ℕ) → n ≤ 15 → padding 15 n ≡ some (blanks 15 n)
unfolding padding
padding_size n h = ground arith

pub read_listing-some :
    (word : Bytes) (more : List Bytes) (s t : Listing)
    → read_word s.column s word ≡ some t
    → read_listing (word ∷ more) s ≡ read_listing more t
unfolding read_listing
read_listing-some word more s t e = rw (e, read_listing)

-- A name that `ls` shows and `updateFilesEntries` reads back: no white space but single blanks, none
-- of them behind a quote. `prev` is what stands in front.
unfoldable pub is_plain : ℕ → Bytes → Bool
is_plain prev [] = true
is_plain prev (c ∷ cs) =
    (if c == b' ' then not (prev == b' ' || prev == b'"') else is_solid c) && is_plain c cs

-- The first word of a name, or a later one.
abbrev lead : Bool → Bytes → Bytes
lead true w = b'"' ∷ w
lead false w = w

abbrev place : Bool → Column
place true = name_column
place false = naming

abbrev pub at : List Bytes → List Bytes → Bytes → Column → Listing
at fs es e column = record { f_names = fs; entries = es; entry = e; column = column }

read_word-lead :
    (first : Bool) (s : Listing) (w : Bytes)
    → read_word (place first) s (lead first w) ≡ name_word s w
unfolding read_word
read_word-lead true s w = refl
read_word-lead false s w = refl

lead-append : (first : Bool) (w : Bytes) (c : ℕ) → lead first w ++ c ∷ [] ≡ lead first (w ++ c ∷ [])
lead-append true w c = refl
lead-append false w c = refl

flush-lead :
    (first : Bool) (w : Bytes) (rest : List Bytes)
    → (first || not (is_nil w)) ≡ true
    → flush (lead first w) rest ≡ lead first w ∷ rest
flush-lead true w rest h = refl
flush-lead false [] rest h = cc
flush-lead false (c ∷ w) rest h = refl

full-snoc : (first : Bool) (w : Bytes) (c : ℕ) → (first || not (is_nil (w ++ c ∷ []))) ≡ true
full-snoc true w c = refl
full-snoc false [] c = refl
full-snoc false (d ∷ w) c = refl

module _ (first : Bool) (w : Bytes) (fs es : List Bytes) (e rest : Bytes) where
  read_blank :
      (first || not (is_nil w)) ≡ true
      → ends_with w b'"' ≡ false
      → read_listing (words (lead first w) (b' ' ∷ rest)) (at fs es e (place first))
        ≡ read_listing (words [] rest) (at fs es (e ++ (w ++ b' ' ∷ [])) naming)
  read_blank full open_name =
      ap (λ t. read_listing t (at fs es e (place first)))
        (words-space (lead first w) b' ' rest refl ∙ flush-lead first w (words [] rest) full)
      ∙ read_listing-some (lead first w) (words [] rest) (at fs es e (place first))
          (at fs es (e ++ (w ++ b' ' ∷ [])) naming)
          (read_word-lead first (at fs es e (place first)) w ∙ rw open_name)

  close_name_lem :
      length (e ++ w) ≤ 40
      → name_word (at fs es e (place first)) (w ++ b'"' ∷ [])
        ≡ some (at ((e ++ w) ∷ fs) es ((e ++ w) ++ blanks 40 (length (e ++ w))) size_column)
  close_name_lem short =
      rw (ends_with-snoc w b'"' b'"', pop_back-snoc w b'"', padding_name (length (e ++ w)) short)

  read_close :
      length (e ++ w) ≤ 40
      → read_listing (words (lead first w) (b'"' ∷ b' ' ∷ rest)) (at fs es e (place first))
        ≡ read_listing
            (words [] rest)
            (at ((e ++ w) ∷ fs) es ((e ++ w) ++ blanks 40 (length (e ++ w))) size_column)
  read_close short =
      let closed = w ++ b'"' ∷ [] in
      ap (λ t. read_listing t (at fs es e (place first)))
        (words-solid (lead first w) b'"' (b' ' ∷ rest) refl
          ∙ ap (λ t. words t (b' ' ∷ rest)) (lead-append first w b'"')
          ∙ words-space (lead first closed) b' ' rest refl
          ∙ flush-lead first closed (words [] rest) (full-snoc first w b'"'))
      ∙ read_listing-some (lead first closed) (words [] rest) (at fs es e (place first)) _
          (read_word-lead first (at fs es e (place first)) closed ∙ close_name_lem short)

split_at_blank :
    (e w : Bytes) (c : ℕ) (cs : Bytes)
    → c ≡ b' '
    → e ++ (w ++ c ∷ cs) ≡ (e ++ (w ++ b' ' ∷ [])) ++ cs
split_at_blank e w c cs space =
    ap (λ u. e ++ (w ++ u ∷ cs)) space
    ∙ sym (append_assoc e (w ++ b' ' ∷ []) cs ∙ ap (λ u. e ++ u) (append_assoc w (b' ' ∷ []) cs))

-- The rest of a name, with the quote that closes it and the blank behind that: the name goes to
-- the list of names, and stands in its column. `prev` is the character before.
pub read_name :
    (first : Bool) (w : Bytes) (prev : ℕ) (fs es : List Bytes) (e name rest : Bytes)
    → (first || not (is_nil w) || prev == b' ') ≡ true
    → (not (ends_with w b'"') || prev == b'"') ≡ true
    → is_plain prev name ≡ true
    → (text : Bytes) → text ≡ e ++ (w ++ name)
    → length text ≤ 40
    → read_listing (words (lead first w) (name ++ b'"' ∷ b' ' ∷ rest)) (at fs es e (place first))
      ≡ read_listing
          (words [] rest)
          (at (text ∷ fs) es (text ++ blanks 40 (length text)) size_column)
unfolding is_plain ends_with
read_name first w prev fs es e [] rest known quoted plain text t short =
    let same : e ++ w ≡ text = ap (λ u. e ++ u) (sym (append-nil w)) ∙ sym t in
    read_close first w fs es e rest (rw same short)
    ∙ ap
        (λ u. read_listing (words [] rest) (at (u ∷ fs) es (u ++ blanks 40 (length u)) size_column))
        same
read_name first w prev fs es e (c ∷ cs) rest known quoted plain text t short =
    elim (Bool-cases (c == b' ')) [
      | inl blank ↦
          let others : is_plain c cs ≡ true = ground arith in
          let space : c ≡ b' ' = (==_iff c b' ').0 blank in
          ap
            (λ u.
              read_listing (words (lead first w) (u ∷ (cs ++ b'"' ∷ b' ' ∷ rest)))
                (at fs es e (place first)))
            space
          ∙ read_blank first w fs es e (cs ++ b'"' ∷ b' ' ∷ rest) (ground arith) (ground arith)
          ∙ read_name false [] c fs es (e ++ (w ++ b' ' ∷ [])) cs rest blank refl others text
              (t ∙ split_at_blank e w c cs space) short
      | inr other ↦
          let others : is_plain c cs ≡ true = ground arith in
          let solid : is_space c ≡ false = ground arith in
          ap (λ u. read_listing u (at fs es e (place first)))
            (words-solid (lead first w) c (cs ++ b'"' ∷ b' ' ∷ rest) solid
              ∙ ap (λ u. words u (cs ++ b'"' ∷ b' ' ∷ rest)) (lead-append first w c))
          ∙ read_name first (w ++ c ∷ []) c fs es e cs rest (ground (arith, full-snoc first w c))
              (ground (arith, ends_with-snoc w c b'"')) others text
              (t ∙ ap (λ u. e ++ u) (sym (append_assoc w (c ∷ []) cs))) short
    ]
