-- ===== src/Config/Tests.antt =====
-- Configurations at concrete inputs.
use tin_dox.Prelude.{[], ◌∷◌, ◌≡◌, refl, arith, codes, equal, ok}
use tin_dox.Config.{
  ServerConfig, default_config, is_below_one, set_backlog, set_integer_field, integer_value,
  set_field, set_fields, table_section, read_config,
}
use tin_dox.Config.Valid.{IsValid, read_config-IsValid}

abbrev busy : ServerConfig
busy = record {
  max_thread_count = 4;
  max_user_count = 20;
  backlog = 99;
  port = 37666;
  upload_max_size = 2147483647;
}

busy_runs : read_config 4 (table_section ((codes "backlog", integer_value 99) ∷ [])) ≡ ok busy
unfolding read_config default_config set_fields set_field set_integer_field set_backlog is_below_one
    equal
busy_runs = refl

read_config-IsValid_example : IsValid busy
read_config-IsValid_example =
    read_config-IsValid 4 (table_section ((codes "backlog", integer_value 99) ∷ [])) busy
      (omega arith) (omega arith) (omega arith, tt) busy_runs
