-- ===== src/Terminal/Storage/Numbers.antt =====
-- cli/src/tdpservice/tdpservice.cpp: the numbers that `dl` and `ul` read off an answer.
use tin_dox.Prelude.{
  ℕ, ◌<◌, ◌^◌, true, false, [], ◌∷◌, ◌++◌, ◌==◌, ◌≡◌, ◌≢◌, refl, ap, ◌∙◌, some, arith, all, Bytes,
  drop_while, take_while-append, lt→ltb,
}
use tin_dox.Prelude.Decimal.{
  to_decimal, is_digit, digits_value, digits_value-to_decimal, all-to_decimal, to_decimal-ne-nil,
}
use tin_dox.Terminal.Files.{is_space}
use tin_dox.Terminal.Storage.{
  number, digits_of, signed, read_number, stol, stoul, to_signed, to_unsigned,
}

read_number-digits :
    (c : ℕ) (cs rest : Bytes)
    → all is_digit (c ∷ cs) ≡ true
    → read_number ((c ∷ cs) ++ b'\n' ∷ rest) ≡ number false (digits_value 0 (c ∷ cs))
unfolding read_number drop_while
read_number-digits c cs rest h =
    let no_space : is_space c ≡ false = ground arith in
    let no_minus : (c == b'-') ≡ false = ground arith in
    let no_plus : (c == b'+') ≡ false = ground arith in
    let text = cs ++ b'\n' ∷ rest in
    let same : drop_while is_space (c ∷ text) ≡ c ∷ text = rw no_space in
    let e = take_while-append is_digit (c ∷ cs) b'\n' rest h refl in
    ap signed same ∙ rw (no_minus, no_plus) (ap (digits_of false) e)

-- Digits on a line of their own.
read_number-to_decimal :
    (n : ℕ) (rest : Bytes) → read_number (to_decimal n ++ b'\n' ∷ rest) ≡ number false n
read_number-to_decimal n rest =
    go (to_decimal n) (to_decimal-ne-nil n) (all-to_decimal n)
    ∙ ap (number false) (digits_value-to_decimal n)
  where
    go :
        (text : Bytes)
        → text ≢ []
        → all is_digit text ≡ true
        → read_number (text ++ b'\n' ∷ rest) ≡ number false (digits_value 0 text)
    go [] h k = absurd (h refl)
    go (c ∷ cs) h k = read_number-digits c cs rest k

pub stoul-to_decimal :
    (n : ℕ) (rest : Bytes) → n < 2 ^ 64 → stoul (to_decimal n ++ b'\n' ∷ rest) ≡ some n
unfolding stoul
stoul-to_decimal n rest h =
    ap to_unsigned (read_number-to_decimal n rest) ∙ rw (lt→ltb n (2 ^ 64) h)

pub stol-to_decimal :
    (n : ℕ) (rest : Bytes) → n < 2 ^ 63 → stol (to_decimal n ++ b'\n' ∷ rest) ≡ some n
unfolding stol
stol-to_decimal n rest h = ap to_signed (read_number-to_decimal n rest) ∙ rw (lt→ltb n (2 ^ 63) h)
