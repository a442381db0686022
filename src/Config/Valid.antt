-- ===== src/Config/Valid.antt =====
-- server_config.cpp and config_reader.cpp: what every configuration that is read satisfies.
use tin_dox.Prelude.{
  ℕ, ◌*◌, ◌^◌, ◌≤◌, ◌<◌, List, [], ◌∷◌, ◌≡◌, subst, arith, Bytes, ok, >>=-eq-ok, All,
}
use tin_dox.Config.{
  ServerConfig, default_config, is_below_one, set_max_thread_count, set_max_user_count, set_backlog,
  set_port, set_upload_max_size, set_integer_field, TomlValue, integer_value, other_value,
  set_field, set_fields, TomlSection, no_section, table_section, value_section, read_config,
}

-- Counts that an `int` can hold, at least 1; a port; a limit of 64 bits.
pub record IsValid (c : ServerConfig) : Type 0 where
  pub threads : 1 ≤ c.max_thread_count
  pub threads_fit : c.max_thread_count < 2 ^ 31
  pub users : 1 ≤ c.max_user_count
  pub users_fit : c.max_user_count < 2 ^ 31
  pub pending : 1 ≤ c.backlog
  pub pending_fits : c.backlog < 2 ^ 31
  pub open_port : 1 ≤ c.port
  pub port_fits : c.port < 65536
  pub limit : c.upload_max_size < 2 ^ 64

-- A field of a file: an integer has 64 bits.
abbrev pub IsField : Bytes × TomlValue → Type 0
IsField (name, integer_value value) = value < 2 ^ 64
IsField (name, other_value) = Unit

set_integer_field-IsValid :
    (name : Bytes) (value : ℕ) (c d : ServerConfig)
    → value < 2 ^ 64
    → IsValid c
    → set_integer_field name value c ≡ ok d
    → IsValid d
unfolding set_integer_field set_max_thread_count set_max_user_count set_backlog set_port
    set_upload_max_size is_below_one
set_integer_field-IsValid name value c d small v e = ground arith

set_fields-IsValid :
    (fields : List (Bytes × TomlValue)) (c d : ServerConfig)
    → All IsField fields
    → IsValid c
    → set_fields fields c ≡ ok d
    → IsValid d
unfolding set_fields set_field
set_fields-IsValid [] c d h v e = subst IsValid (cc e) v
set_fields-IsValid ((name, integer_value value) ∷ fields) c d (small, h) v e =
    let (next, set, later) = >>=-eq-ok (set_integer_field name value c) _ e in
    set_fields-IsValid fields next d h (set_integer_field-IsValid name value c next small v set)
      later
set_fields-IsValid ((name, other_value) ∷ fields) c d h v e = cc e

-- The fields of a section, if it has any.
abbrev pub HasFields : TomlSection → Type 0
HasFields no_section = Unit
HasFields (table_section fields) = All IsField fields
HasFields value_section = Unit

-- A configuration that is read, with any fields in any order and any number of times, has at least
-- one thread, one user and one pending connection, each count within an `int`, a port that is not 0,
-- and an upload limit of 64 bits; on a machine whose number of cores gives valid defaults.
pub read_config-IsValid :
    (cores : ℕ) (section : TomlSection) (c : ServerConfig)
    → 1 ≤ cores
    → 5 * cores < 2 ^ 31
    → HasFields section
    → read_config cores section ≡ ok c
    → IsValid c
unfolding read_config default_config
read_config-IsValid cores section c some_core few h e = go section h e
  where
    go : (section : TomlSection) → HasFields section → read_config cores section ≡ ok c → IsValid c
    go no_section h e = cc e
    go (table_section fields) h e =
        set_fields-IsValid fields (default_config cores) c h
          (record {
            threads = some_core;
            threads_fit = omega arith;
            users = omega arith;
            users_fit = few;
            pending = omega arith;
            pending_fits = omega arith;
            open_port = omega arith;
            port_fits = omega arith;
            limit = omega arith;
          })
          e
    go value_section h e = ground arith
