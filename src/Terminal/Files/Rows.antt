-- ===== src/Terminal/Files/Rows.antt =====
-- cli/src/tui/tui.cpp: a line that `ls` of the server writes, and the row that the client makes of it.
use tin_dox.Prelude.{
  ℕ, ◌≤◌, true, false, List, [], ◌∷◌, ◌++◌, ◌≡◌, ◌≢◌, refl, ap, ◌∙◌, Option, some, none, Bytes,
  codes, length, length-append, drop-append, arith, Bool-cases, inl, inr, equal, equal_iff, all,
  drop, subst, all-append,
}
use tin_dox.Prelude.Decimal.{to_decimal, is_digit, all-to_decimal, to_decimal-ne-nil}
use mathlib.Core.List.{append_assoc}
use tin_dox.Paths.{filename}
use tin_dox.System.{Entry}
use tin_dox.Session.Commands.Account.{line}
use tin_dox.Session.Commands.Browse.{LsFlags, shown_size, or_dash, ls_line, quote}
use tin_dox.Terminal.Files.Names.{
  at, blanks, padding_size, is_plain, read_name, read_listing-some, pop_back-snoc,
}
use tin_dox.Terminal.Files.Words.{is_solid, is_nil, is_nil-append, words-solid, words-append}
use tin_dox.Terminal.Files.{
  is_space, flush, words, name_column, size_column, date_column, time_column, Listing, read_word,
  read_listing, size_word, ends_with,
}

-- An entry whose line can be read back: the name is plain, name and size fit their columns, and the
-- time is a date and a time of the day in quotes.
pub record IsReadable (e : Entry) : Type 0 where
  pub plain_name : is_plain 0 (filename e.path) ≡ true
  pub short_name : length (filename e.path) ≤ 40
  pub short_size : length (shown_size e.size) ≤ 15
  pub date : Bytes
  pub time : Bytes
  pub solid_date : all is_solid date ≡ true
  pub solid_time : all is_solid time ≡ true
  pub dated : e.last_write_time ≡ some (quote (date ++ b' ' ∷ time))

-- A directory, which has no size, gets a slash.
abbrev pub shown_name : Bytes → Option ℕ → Bytes
shown_name name none = name ++ codes "/"
shown_name name (some n) = name

-- The columns of the name and of the size.
abbrev pub front : Bytes → Option ℕ → Bytes
front name none = shown_name name none ++ drop 1 (blanks 40 (length name) ++ codes "-")
front name (some n) = (name ++ blanks 40 (length name)) ++ to_decimal n

abbrev pub row : Entry → Bytes → Bytes
row e stamp = (front (filename e.path) e.size ++ blanks 15 (length (shown_size e.size))) ++ stamp

abbrev pub both : LsFlags
both = record { return_size = true; return_mod = true }

solid_digits : (text : Bytes) → all is_digit text ≡ true → all is_solid text ≡ true
solid_digits [] h = refl
solid_digits (c ∷ cs) h = ground (arith, solid_digits cs)

shown_size-solid : (size : Option ℕ) → all is_solid (shown_size size) ≡ true
unfolding shown_size
shown_size-solid none = refl
shown_size-solid (some n) = solid_digits (to_decimal n) (all-to_decimal n)

not_nil : (w : Bytes) → w ≢ [] → is_nil w ≡ false
not_nil [] h = absurd (h refl)
not_nil (c ∷ w) h = refl

shown_size-full : (size : Option ℕ) → is_nil (shown_size size) ≡ false
unfolding shown_size
shown_size-full none = refl
shown_size-full (some n) = not_nil (to_decimal n) (to_decimal-ne-nil n)

digits-ne-dash : (n : ℕ) → equal (to_decimal n) (codes "-") ≡ false
digits-ne-dash n = elim (Bool-cases (equal (to_decimal n) (codes "-"))) [
  | inl same ↦ cc (
      subst (λ t. all is_digit t ≡ true) ((equal_iff (to_decimal n) (codes "-")).0 same)
        (all-to_decimal n))
  | inr other ↦ other
]

pub flush-full : (w : Bytes) (rest : List Bytes) → is_nil w ≡ false → flush w rest ≡ w ∷ rest
flush-full [] rest full = cc
flush-full (c ∷ w) rest full = refl

read_size :
    (name : Bytes) (size : Option ℕ) (fs es : List Bytes)
    → length (shown_size size) ≤ 15
    → size_word (at (name ∷ fs) es (name ++ blanks 40 (length name)) size_column) (shown_size size)
      ≡ some (
          at
            (shown_name name size ∷ fs)
            es
            (front name size ++ blanks 15 (length (shown_size size)))
            date_column)
unfolding shown_size equal
read_size name none fs es short =
    let wide = name ++ blanks 40 (length name) in
    let dropped : drop (length (name ++ codes "/")) (wide ++ codes "-")
        ≡ drop 1 (blanks 40 (length name) ++ codes "-") =
      rw (append_assoc name (blanks 40 (length name)) (codes "-")) (
        drop-append (length (name ++ codes "/")) 1 name (blanks 40 (length name) ++ codes "-")
          (length-append name (codes "/"))) in
    rw (padding_size 1 short) (
      ap
        (λ t. some (
          at ((name ++ codes "/") ∷ fs) es (((name ++ codes "/") ++ t) ++ blanks 15 1) date_column))
        dropped)
read_size name (some n) fs es short =
    rw (digits-ne-dash n, padding_size (length (to_decimal n)) short)

-- One word of a line.
pub read_solid :
    (w : Bytes) (c : ℕ) (rest : Bytes) (s t : Listing)
    → is_nil w ≡ false
    → all is_solid w ≡ true
    → is_space c ≡ true
    → read_word s.column s w ≡ some t
    → read_listing (words [] (w ++ c ∷ rest)) s ≡ read_listing (words [] rest) t
read_solid w c rest s t full solid space step =
    ap (λ u. read_listing u s)
      (words-append [] w c rest solid space ∙ flush-full w (words [] rest) full)
    ∙ read_listing-some w (words [] rest) s t step

line_text :
    (e : Entry) (date time rest : Bytes)
    → e.last_write_time ≡ some (quote (date ++ b' ' ∷ time))
    → line (ls_line both e) ++ rest
      ≡ b'"'
        ∷ (filename e.path
            ++ b'"'
              ∷ b' '
              ∷ (shown_size e.size
                  ++ b' ' ∷ ((b'"' ∷ date) ++ b' ' ∷ ((time ++ b'"' ∷ []) ++ b'\n' ∷ rest))))
unfolding ls_line or_dash
line_text e date time rest dated = rw dated (simp append_assoc)

-- A line that `ls` of the server writes: the client reads it as one row.
pub read_line :
    (e : Entry) (r : IsReadable e) (fs es : List Bytes) (rest : Bytes)
    → read_listing (words [] (line (ls_line both e) ++ rest)) (at fs es [] name_column)
      ≡ read_listing (words [] rest) (
          at
            (shown_name (filename e.path) e.size ∷ fs)
            (row e (r.date ++ b' ' ∷ r.time) ∷ es)
            []
            name_column)
unfolding read_word ends_with
read_line e r fs es rest =
    let name = filename e.path in
    let size = shown_size e.size in
    let clock = r.time ++ b'"' ∷ [] in
    let filled = front name e.size ++ blanks 15 (length size) in
    let gs = shown_name name e.size ∷ fs in
    let behind_date = clock ++ b'\n' ∷ rest in
    let behind_size = (b'"' ∷ r.date) ++ b' ' ∷ behind_date in
    let behind_name = size ++ b' ' ∷ behind_size in
    ap (λ t. read_listing (words [] t) (at fs es [] name_column))
      (line_text e r.date r.time rest r.dated)
    ∙ ap (λ t. read_listing t (at fs es [] name_column))
        (words-solid [] b'"' (name ++ b'"' ∷ b' ' ∷ behind_name) refl)
    ∙ read_name true [] 0 fs es [] name behind_name refl refl r.plain_name name refl r.short_name
    ∙ read_solid size b' ' behind_size
        (at (name ∷ fs) es (name ++ blanks 40 (length name)) size_column)
        (at gs es filled date_column) (shown_size-full e.size) (shown_size-solid e.size) refl
        (read_size name e.size fs es r.short_size)
    ∙ read_solid (b'"' ∷ r.date) b' ' behind_date (at gs es filled date_column)
        (at gs es (filled ++ (r.date ++ b' ' ∷ [])) time_column) refl r.solid_date refl refl
    ∙ read_solid clock b'\n' rest (at gs es (filled ++ (r.date ++ b' ' ∷ [])) time_column)
        (at gs (row e (r.date ++ b' ' ∷ r.time) ∷ es) [] name_column) (is_nil-append r.time b'"')
        (all-append is_solid r.time (b'"' ∷ []) ∙ rw r.solid_time) refl
        (ap (λ t. some (at gs (t ∷ es) [] name_column))
          (rw (pop_back-snoc r.time b'"') (
            append_assoc filled (r.date ++ b' ' ∷ []) r.time
            ∙ ap (λ t. filled ++ t) (append_assoc r.date (b' ' ∷ []) r.time))))
