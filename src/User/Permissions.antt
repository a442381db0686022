-- ===== src/User/Permissions.antt =====
-- server/src/user/permissions.cpp and permissions.hpp: the set of permissions as a byte.
use Prim.Native.Nat.{bit_and, bit_or, bit_xor}
use tin_dox.Prelude.{
  ℕ, zero, suc, ◌<◌, Bool, true, false, ◌&&◌, List, [], ◌∷◌, ◌++◌, Option, none, some, ◌≡◌, refl,
  arith, ◌==◌, if◌then◌else◌, Bytes, codes, ok, err,
}
use tin_dox.Protocol.Error.{Outcome, fatal}

-- `enum class Permissions : std::uint8_t`.
abbrev pub Permissions : Type 0
Permissions = ℕ

abbrev pub no_perms : Permissions
no_perms = 0

abbrev pub write_perm : Permissions
write_perm = 2

abbrev pub copy_perm : Permissions
copy_perm = 4

abbrev pub move_perm : Permissions
move_perm = 8

abbrev pub download_perm : Permissions
download_perm = 16

abbrev pub upload_perm : Permissions
upload_perm = 32

abbrev pub initial_perms : Permissions
initial_perms = download_perm

-- `write | copy | move | download | upload`.
abbrev pub all_perms : Permissions
all_perms = 62

-- `operator~` on a byte.
abbrev pub complement : Permissions → Permissions
complement p = bit_xor p 255

-- `permission_list` with `permission_symbols`.
abbrev pub permission_list : List (Permissions × ℕ)
permission_list =
    (write_perm, b'w')
    ∷ (copy_perm, b'c')
    ∷ (move_perm, b'm')
    ∷ (download_perm, b'd')
    ∷ (upload_perm, b'u')
    ∷ []

symbols_of : Permissions → List (Permissions × ℕ) → Bytes
symbols_of perms [] = []
symbols_of perms ((perm, symbol) ∷ more) =
    let rest = symbols_of perms more in if bit_and perms perm == 0 then rest else symbol ∷ rest

unfoldable pub to_string : Permissions → Bytes
unfolding symbols_of
to_string perms = symbols_of perms permission_list

-- `permission_symbols.find(symbol)`, and the permission at that place.
find_symbol : ℕ → List (Permissions × ℕ) → Option Permissions
find_symbol c [] = none
find_symbol c ((perm, symbol) ∷ more) = if symbol == c then some perm else find_symbol c more

perms_from_symbols : Bytes → Permissions → Outcome Permissions
perms_from_symbols [] result = ok result
perms_from_symbols (c ∷ cs) result = elim (find_symbol c permission_list) [
  | some perm ↦ perms_from_symbols cs (bit_or result perm)
  | none ↦ err (fatal (codes "Invalid permission symbol '" ++ (c ∷ codes "'")))
]

unfoldable pub perms_from_string : Bytes → Outcome Permissions
unfolding perms_from_symbols find_symbol
perms_from_string str = perms_from_symbols str 0

-- The test of `check_permissions`: all that is required is held.
unfoldable pub are_granted : Permissions → Permissions → Bool
are_granted required held = bit_and required held == required

-- A test that every number under the bound passes, by evaluation.
passes_under : (ℕ → Bool) → ℕ → Bool
passes_under test zero = true
passes_under test (suc bound) = passes_under test bound && test bound

passes_under_lem :
    (test : ℕ → Bool) (bound n : ℕ) → passes_under test bound ≡ true → n < bound → test n ≡ true
unfolding passes_under
passes_under_lem test zero n passed under = absurd (omega arith)
passes_under_lem test (suc bound) n passed under = ground (passes_under_lem test bound n, arith)

is_ok : Outcome Permissions → Permissions → Bool
is_ok (ok q) p = q == p
is_ok (err e) p = false

is_ok_sound : (r : Outcome Permissions) (p : Permissions) → is_ok r p ≡ true → r ≡ ok p
unfolding is_ok
is_ok_sound (ok q) p h = ground arith
is_ok_sound (err e) p h = cc

abbrev survives : Permissions → Bool
survives p = is_ok (perms_from_string (to_string p)) (bit_and p all_perms)

round_trip_table : passes_under survives 256 ≡ true
unfolding passes_under is_ok to_string perms_from_string
round_trip_table = refl

-- Reading what was printed gives the permissions again, for every byte: of the bits that stand for
-- no permission nothing is left.
pub perms_from_string-to_string :
    (p : Permissions) → p < 256 → perms_from_string (to_string p) ≡ ok (bit_and p all_perms)
perms_from_string-to_string p h =
    is_ok_sound (perms_from_string (to_string p)) (bit_and p all_perms)
      (passes_under_lem survives 256 p round_trip_table h)
