-- ===== src/Config.antt =====
-- server/src/config: the configuration of the server, its defaults, and the reader of its file.
pub mod Valid
mod Tests
use tin_dox.Prelude.{
  ℕ, ◌+◌, ◌-◌, ◌*◌, ◌%◌, ◌^◌, Bool, true, false, not, ◌||◌, List, [], ◌∷◌, ◌++◌, Option, none, some,
  ◌==◌, ltb, leb, if◌then◌else◌, Bytes, codes, equal, ok, err, ◌>>=◌,
}
use tin_dox.Prelude.Decimal.{to_decimal}
use tin_dox.Protocol.Error.{Error, Outcome, fatal}

pub record ServerConfig : Type 0 where
  pub max_thread_count : ℕ
  pub max_user_count : ℕ
  pub backlog : ℕ
  pub port : ℕ
  pub upload_max_size : ℕ

-- `ServerConfig()`, on a machine of so many cores.
unfoldable pub default_config : ℕ → ServerConfig
default_config cores = record {
  max_thread_count = cores;
  max_user_count = 5 * cores;
  backlog = 32;
  port = 37666;
  upload_max_size = 2 ^ 31 - 1;
}

-- A `std::int64_t` is its 64 bits, as a number; as an `int` it is the lower 32 of them.
abbrev pub as_int : ℕ → ℕ
as_int bits = bits % 2 ^ 32

-- `value < 1`, of an `int`.
unfoldable pub is_below_one : ℕ → Bool
is_below_one int_bits = int_bits == 0 || leb (2 ^ 31) int_bits

-- The text of a signed number of `modulus` values.
unfoldable pub format_signed : ℕ → ℕ → Bytes
format_signed modulus bits =
    if leb modulus (bits + bits) then b'-' ∷ to_decimal (modulus - bits) else to_decimal bits

abbrev at_least_one : Bytes → ℕ → Error
at_least_one what int_bits =
    fatal (
      what
      ++ (codes " should be at least 1 (is " ++ (format_signed (2 ^ 32) int_bits ++ codes ")")))

-- The setters, each on the configuration so far.
unfoldable pub set_max_thread_count : ℕ → ServerConfig → Outcome ServerConfig
set_max_thread_count n c =
    if is_below_one n
    then err (at_least_one (codes "Max thread count") n)
    else ok (record c { max_thread_count = n })

unfoldable pub set_max_user_count : ℕ → ServerConfig → Outcome ServerConfig
set_max_user_count n c =
    if is_below_one n
    then err (at_least_one (codes "Max user count") n)
    else ok (record c { max_user_count = n })

unfoldable pub set_backlog : ℕ → ServerConfig → Outcome ServerConfig
set_backlog n c =
    if is_below_one n then err (at_least_one (codes "Backlog") n) else ok (record c { backlog = n })

unfoldable pub set_port : ℕ → ServerConfig → Outcome ServerConfig
set_port n c =
    if n == 0 then err (fatal (codes "0 is not valid port")) else ok (record c { port = n })

unfoldable pub set_upload_max_size : ℕ → ServerConfig → Outcome ServerConfig
set_upload_max_size n c = ok (record c { upload_max_size = n })

-- The limit is an unsigned number: a negative one in the file becomes a very large one.
unfoldable pub set_integer_field : Bytes → ℕ → ServerConfig → Outcome ServerConfig
set_integer_field name value c =
    if equal name (codes "max_thread_count")
    then set_max_thread_count (as_int value) c
    else if equal name (codes "max_user_count")
    then set_max_user_count (as_int value) c
    else if equal name (codes "backlog")
    then set_backlog (as_int value) c
    else if equal name (codes "port")
    then (if ltb value 65536
        then set_port value c
        else err (
            fatal (
              codes "ConfigReader: invalid port value in config file ("
              ++ (format_signed (2 ^ 64) value ++ codes ")"))))
    else if equal name (codes "upload_max_size")
    then set_upload_max_size value c
    else err (fatal (codes "ConfigReader: " ++ (name ++ codes " is not valid integer field")))

-- A value of a TOML table, as far as the reader looks at it.
pub data TomlValue : Type 0 where
  integer_value : ℕ → TomlValue
  other_value : TomlValue

unfoldable pub set_field : Bytes × TomlValue → ServerConfig → Outcome ServerConfig
set_field (name, integer_value value) c = set_integer_field name value c
set_field (name, other_value) c =
    err (fatal (codes "ConfigReader: field '" ++ (name ++ codes "' is invalid")))

unfoldable pub set_fields : List (Bytes × TomlValue) → ServerConfig → Outcome ServerConfig
set_fields [] c = ok c
set_fields (field ∷ fields) c = set_field field c >>= λ d. set_fields fields d

-- What the file has at `server`: nothing, a table, or a value that is passed over.
pub data TomlSection : Type 0 where
  no_section : TomlSection
  table_section : List (Bytes × TomlValue) → TomlSection
  value_section : TomlSection

unfoldable pub read_config : ℕ → TomlSection → Outcome ServerConfig
read_config cores no_section = err (fatal (codes "Section [server] does not exist in config file!"))
read_config cores (table_section fields) = set_fields fields (default_config cores)
read_config cores value_section = ok (default_config cores)
