-- ===== src/Cli/Run.antt =====
-- server/src/cli/run_command.cpp: the arguments of `tds run`.
use tin_dox.Prelude.{
  ℕ, Bool, true, false, ◌&&◌, ◌||◌, not, List, [], ◌∷◌, ◌++◌, Option, none, some, ◌==◌, ltb, all,
  if◌then◌else◌, Bytes, codes, equal, ok, err, ◌>>=◌,
}
use tin_dox.Config.{ServerConfig, set_port}
use tin_dox.Prelude.Decimal.{is_digit, digits_value}
use tin_dox.Protocol.Error.{Outcome, fatal}

pub record RunCommand : Type 0 where
  pub port : Option ℕ
  pub config_directory : Option Bytes
  pub debug_mode : Bool

abbrev pub new_run_command : RunCommand
new_run_command = record { port = none; config_directory = none; debug_mode = false }

is_empty : Bytes → Bool
is_empty [] = true
is_empty (c ∷ cs) = false

-- `std::from_chars` takes the whole argument, its value fits 16 bits, and is not 0.
unfoldable pub is_port : Bytes → Bool
unfolding is_empty
is_port arg =
    not (is_empty arg)
    && (all is_digit arg && (ltb (digits_value 0 arg) 65536 && not (digits_value 0 arg == 0)))

unfoldable pub parse_port : Bytes → RunCommand → Outcome RunCommand
unfolding is_port
parse_port arg c =
    if is_port arg
    then ok (record c { port = some (digits_value 0 arg) })
    else err (fatal (codes "invalid --port value"))

-- Over whether a path has a configuration directory, and its canonical form.
module _ (has_config : Bytes → Bool) (canonical : Bytes → Bytes) where
  unfoldable pub parse_config_directory_path : Bytes → RunCommand → Outcome RunCommand
  parse_config_directory_path arg c =
      if has_config arg
      then ok (record c { config_directory = some (canonical arg) })
      else err (fatal (arg ++ codes " is not valid tds config directory"))

  unfoldable pub parse_arguments : List Bytes → RunCommand → Outcome RunCommand
  unfolding parse_port parse_config_directory_path
  parse_arguments [] c = ok c
  parse_arguments (arg ∷ []) c =
      if equal arg (codes "--port") || equal arg (codes "-p")
      then err (fatal (codes "--port (-p) expects port as argument"))
      else if equal arg (codes "--dir") || equal arg (codes "-d")
      then err (fatal (codes "--dir (-d) expects valid path as argument"))
      else if equal arg (codes "--debug")
      then ok (record c { debug_mode = true })
      else err (fatal arg)
  parse_arguments (arg ∷ value ∷ args) c =
      if equal arg (codes "--port") || equal arg (codes "-p")
      then (parse_port value c >>= λ d. parse_arguments args d)
      else if equal arg (codes "--dir") || equal arg (codes "-d")
      then (parse_config_directory_path value c >>= λ d. parse_arguments args d)
      else if equal arg (codes "--debug")
      then parse_arguments (value ∷ args) (record c { debug_mode = true })
      else err (fatal arg)

  unfoldable pub prepare_config_directory : Bytes → RunCommand → Outcome RunCommand
  unfolding parse_config_directory_path
  prepare_config_directory current_path c = elim c.config_directory [
    | none ↦ parse_config_directory_path current_path c
    | some d ↦ ok c
  ]

unfoldable pub overwrite_port_if_possible : RunCommand → ServerConfig → Outcome ServerConfig
overwrite_port_if_possible c config = elim c.port [
  | none ↦ ok config
  | some port ↦ set_port port config
]
