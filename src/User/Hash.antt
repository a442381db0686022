-- ===== src/User/Hash.antt =====
-- server/src/linux/hash.cpp: password hashes, over the `crypt(3)` of the system.
use Prim.Native.Nat.{bit_xor}
use tin_dox.Prelude.{ℕ, zero, suc, ◌*◌, ◌%◌, [], ◌∷◌, Option, none, some, Bytes, codes, ok, err}
use tin_dox.Protocol.Error.{Outcome, fatal}

abbrev pub salt_chars : Bytes
salt_chars = codes "abcdefghijklmnopqrstuvwxyzABCDEFGHIJKLMNOPQRSTUVWXYZ0123456789./"

char_at : Bytes → ℕ → ℕ
char_at [] i = 0
char_at (c ∷ cs) zero = c
char_at (c ∷ cs) (suc i) = char_at cs i

last_char : ℕ → Bytes → ℕ
last_char c [] = c
last_char c (d ∷ cs) = last_char d cs

-- The salt of a word of two characters or more is computed from its first and its last.
unfoldable pub salt : Bytes → Bytes
unfolding char_at last_char
salt [] = codes ".0"
salt (c ∷ []) = codes ".0"
salt (first ∷ d ∷ cs) =
    let last = last_char d cs in
    char_at salt_chars (bit_xor first last % 64) ∷ char_at salt_chars (first * last % 64) ∷ []

-- `crypt` is the C library's: it gives a hash for a word and a salt, or fails.
abbrev pub Crypt : Type 0
Crypt = Bytes → Bytes → Option Bytes

unfoldable pub hash : Crypt → Bytes → Outcome Bytes
hash crypt word = elim (crypt word (salt word)) [
  | none ↦ err (fatal (codes "linux::hash"))
  | some result ↦ ok result
]
