-- ===== src/Terminal/Files/Tests.antt =====
-- The listing of a server with a file and two directories, one of them its own.
use tin_dox.Prelude.{
  some, none, [], ◌∷◌, ◌++◌, true, false, Bytes, ok, ◌≡◌, List, refl, codes, equal, starts_with,
  arith, if◌then◌else◌,
}
use tin_dox.Prelude.Decimal.{to_decimal}
use tin_dox.Paths.{filename, is_absolute, ◌/path◌}
use tin_dox.System.{System, Entry}
use tin_dox.Session.Commands.Browse.{
  quote, replicate, execute_ls, ls_lines, ls_line, or_dash, shown_size, path_or_current,
}
use tin_dox.Session.Context.{is_path_forbidden}
use tin_dox.Session.Toy.{Toy, toy, stranger}
use tin_dox.Terminal.Files.Names.{is_plain}
use tin_dox.Terminal.Files.Rows.{both}
use tin_dox.Terminal.Files.Whole.{visible, update_files_entries_lem}
use tin_dox.Terminal.Files.Words.{is_tidy}
use tin_dox.Terminal.Files.{Tui, shown, update_files_entries}
use tin_dox.Terminal.Analyzer.{analyse_simple_response, analyse_multiline_response}
use tin_dox.Terminal.Service.{
  TdpService, Exchanged, answered, pwd, ls, run_call, arguments, request_text,
}

abbrev entries : List Entry
entries =
    record {
      path = codes "/srv/my file";
      size = some 10;
      last_write_time = some (quote (codes "2024-01-02 10:00"));
    }
    ∷ record { path = codes "/srv/.tds"; size = none; last_write_time = none }
    ∷ record {
      path = codes "/srv/a";
      size = none;
      last_write_time = some (quote (codes "2024-01-01 09:00"));
    }
    ∷ []

abbrev sys : System Toy
sys = record toy { entries = λ d p. ok entries }

abbrev text : Bytes
text = codes "\"my file\" 10 \"2024-01-02 10:00\"\n\"a\" - \"2024-01-01 09:00\"\n"

abbrev idle : TdpService
idle = record { response_body = []; received_response = []; last_sent_command = []; error_code = 0 }

abbrev client : Tui
client = record {
  tdp_service = idle;
  need_to_reconnect = false;
  location = [];
  file_entries = [];
  file_names = [];
}

abbrev exchange : Bytes → Exchanged
exchange request = answered (
    if equal request (codes "pwd\n\n")
    then codes "100 pwd\n/\n\n"
    else codes "100 ls\n" ++ (text ++ codes "\n"))

abbrev at_pwd : TdpService
at_pwd = record {
  response_body = codes "/\n\n";
  received_response = codes "100 pwd\n/\n\n";
  last_sent_command = codes "pwd\n\n";
  error_code = 100;
}

abbrev at_ls : TdpService
at_ls = record {
  response_body = text ++ codes "\n";
  received_response = codes "100 ls\n" ++ (text ++ codes "\n");
  last_sent_command = codes "ls\npath:'/'\nsize:true\nmod:true\n\n";
  error_code = 100;
}

ls_is_written : execute_ls sys (some (codes "/srv")) both stranger ≡ (stranger, ok text)
unfolding execute_ls ls_lines ls_line or_dash shown_size path_or_current is_path_forbidden filename
    is_absolute ◌/path◌ to_decimal starts_with
ls_is_written = refl

pwd_runs : run_call exchange pwd idle ≡ (at_pwd, true)
unfolding run_call arguments request_text analyse_simple_response equal to_decimal
pwd_runs = refl

ls_runs : run_call exchange (ls (codes "/") (codes "true") (codes "true")) at_pwd ≡ (at_ls, true)
unfolding run_call arguments request_text analyse_multiline_response equal to_decimal
ls_runs = refl

update_files_entries_lem_example :
    update_files_entries exchange client
    ≡ shown true (record client {
      tdp_service = at_ls;
      location = codes "/";
      file_names = codes "a/" ∷ codes "my file" ∷ [];
      file_entries =
          codes "a/                                      -              2024-01-01 09:00"
          ∷ codes "my file                                 10             2024-01-02 10:00"
          ∷ [];
    })
unfolding visible starts_with is_plain is_tidy filename ◌/path◌ is_absolute to_decimal shown_size
    equal replicate
update_files_entries_lem_example =
    update_files_entries_lem sys stranger stranger (codes "/srv") entries text exchange client
      at_pwd at_ls (codes "/") refl ls_is_written
      (
        record {
          plain_name = refl;
          short_name = omega arith;
          short_size = omega arith;
          date = codes "2024-01-02";
          time = codes "10:00";
          solid_date = refl;
          solid_time = refl;
          dated = refl;
        },
        (
          record {
            plain_name = refl;
            short_name = omega arith;
            short_size = omega arith;
            date = codes "2024-01-01";
            time = codes "09:00";
            solid_date = refl;
            solid_time = refl;
            dated = refl;
          },
          tt,
        ),
      )
      pwd_runs refl refl ls_runs refl
