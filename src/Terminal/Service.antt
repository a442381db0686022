-- ===== src/Terminal/Service.antt =====
-- cli/src/tdpservice/tdpservice.cpp: the commands of the terminal client as requests, and what it
-- makes of their answers.
pub mod Lines
pub mod Values
pub mod Meaning
pub mod Requests
pub mod Answers
use tin_dox.Prelude.{
  ℕ, ◌+◌, ◌-◌, Bool, true, false, ◌||◌, [], ◌∷◌, ◌++◌, ◌==◌, leb, ltb, if◌then◌else◌, length, Bytes,
  codes,
}
use tin_dox.Prelude.Decimal.{to_decimal}
use tin_dox.Terminal.Analyzer.{
  ConnectionError, Analysis, no_error, ok_code, analyse_simple_response, analyse_multiline_response,
}

abbrev pub e_closed_con : ConnectionError
e_closed_con = 3

abbrev pub e_exchange_message : ConnectionError
e_exchange_message = 4

abbrev pub e_line_too_long : ConnectionError
e_line_too_long = 300

abbrev pub buf_max_size : ℕ
buf_max_size = 2048

-- `class TDPService`, but for its connection.
pub record TdpService : Type 0 where
  pub response_body : Bytes
  pub received_response : Bytes
  pub last_sent_command : Bytes
  pub error_code : ConnectionError

-- What `exchangeWithServer` does to the text that it is given: it answers true, or false, or throws.
pub data Exchanged : Type 0 where
  answered closed failed : Bytes → Exchanged

-- What each command passes to `sendAndGetResponse`.
pub record Arguments : Type 0 where
  pub command_name : Bytes
  pub field_name1 : Bytes
  pub field_value1 : Bytes
  pub field_name2 : Bytes
  pub field_value2 : Bytes
  pub field_name3 : Bytes
  pub field_value3 : Bytes

abbrev pub is_too_long : Bytes → Bytes → Bool
is_too_long field_name value = leb (buf_max_size - 1) (length field_name + length value)

abbrev pub is_refused : Arguments → Bool
is_refused a =
    ltb 6 (length a.command_name)
    || (is_too_long a.field_name1 a.field_value1
        || (is_too_long a.field_name2 a.field_value2 || is_too_long a.field_name3 a.field_value3))

-- A field with an empty name is left out.
abbrev pub field_line : Bytes → Bytes → Bytes
field_line [] value = []
field_line (c ∷ cs) value = (c ∷ cs) ++ b':' ∷ (value ++ b'\n' ∷ [])

unfoldable pub request_text : Arguments → Bytes
request_text a =
    a.command_name
    ++ b'\n'
      ∷ (field_line a.field_name1 a.field_value1
          ++ (field_line a.field_name2 a.field_value2
              ++ (field_line a.field_name3 a.field_value3 ++ b'\n' ∷ [])))

abbrev pub settle : TdpService → Exchanged → TdpService × Bool
settle s (answered text) = (record s { received_response = text }, true)
settle s (closed text) = (record s { received_response = text; error_code = e_closed_con }, false)
settle s (failed text) =
    (record s { received_response = text; error_code = e_exchange_message }, false)

-- The methods of `TDPService`, with their arguments. The size of a file stands for the file that `ul`
-- and `dl` have opened: both stop here where the server has answered, before the transfer.
pub data Call : Type 0 where
  exit logout name perms pwd : Call
  auth : (login passwd : Bytes) → Call
  mkdir rm : (file : Bytes) → Call
  rename : (oname nname : Bytes) → Call
  cp mv : (file path : Bytes) → Call
  cd tree : (path : Bytes) → Call
  ls : (path size modified : Bytes) → Call
  ul : (file : Bytes) (size : ℕ) (retry : Bool) → Call
  dl : (file : Bytes) (size : ℕ) (retry : Bool) → Call

abbrev pub quoted : Bytes → Bytes
quoted text = b'\'' ∷ (text ++ b'\'' ∷ [])

abbrev pub credential : Bytes → Bytes
credential [] = codes "."
credential (c ∷ cs) = quoted (c ∷ cs)

-- `value.empty() ? "" : name`.
abbrev pub name_unless_empty : Bytes → Bytes → Bytes
name_unless_empty [] field_name = []
name_unless_empty (c ∷ cs) field_name = field_name

abbrev pub flag : Bool → Bytes
flag true = codes "true"
flag false = codes "false"

abbrev pub no_fields : Bytes → Arguments
no_fields command_name = record {
  command_name = command_name;
  field_name1 = [];
  field_value1 = [];
  field_name2 = [];
  field_value2 = [];
  field_name3 = [];
  field_value3 = [];
}

abbrev pub one_field : Bytes → Bytes → Bytes → Arguments
one_field command_name field_name value = record (no_fields command_name) {
  field_name1 = field_name;
  field_value1 = value;
}

abbrev pub two_fields : Bytes → Bytes → Bytes → Bytes → Bytes → Arguments
two_fields command_name field_name value other other_value =
    record (one_field command_name field_name value) {
      field_name2 = other;
      field_value2 = other_value;
    }

unfoldable pub arguments : Call → Arguments
arguments exit = no_fields (codes "exit")
arguments logout = no_fields (codes "logout")
arguments name = no_fields (codes "name")
arguments perms = no_fields (codes "perms")
arguments pwd = no_fields (codes "pwd")
arguments (auth login passwd) =
    two_fields (codes "auth") (codes "login") (credential login) (codes "passwd")
      (credential passwd)
arguments (mkdir file) = one_field (codes "mkdir") (codes "name") (quoted file)
arguments (rm file) = one_field (codes "rm") (codes "name") (quoted file)
arguments (rename oname nname) =
    two_fields (codes "rename") (codes "oname") (quoted oname) (codes "nname") (quoted nname)
arguments (cp file path) =
    two_fields (codes "cp") (codes "name") (quoted file) (codes "path") (quoted path)
arguments (mv file path) =
    two_fields (codes "mv") (codes "name") (quoted file) (codes "path") (quoted path)
arguments (cd path) = one_field (codes "cd") (codes "path") (quoted path)
arguments (tree path) =
    one_field (codes "tree") (name_unless_empty path (codes "path")) (quoted path)
arguments (ls path size modified) =
    record (two_fields (codes "ls") (name_unless_empty path (codes "path")) (quoted path)
      (name_unless_empty size (codes "size")) size) {
        field_name3 = name_unless_empty modified (codes "mod");
        field_value3 = modified;
      }
arguments (ul file size retry) =
    record (two_fields (codes "ul") (codes "name") (quoted file) (codes "size") (to_decimal size)) {
      field_name3 = codes "retry";
      field_value3 = flag retry;
    }
arguments (dl file size true) =
    two_fields (codes "dl") (codes "name") (quoted file) (codes "size") (to_decimal size)
arguments (dl file size false) = one_field (codes "dl") (codes "name") (quoted file)

-- How a method reads the answer: not at all, as one line that may be missing, as one line, or as
-- many.
pub data Reading : Type 0 where
  ignored : Reading
  simple : Bool → Reading
  multiline : Reading

abbrev pub reading : Call → Reading
reading exit = ignored
reading (rm _) = simple true
reading (cd _) = simple true
reading name = simple true
reading perms = simple true
reading pwd = simple true
reading (ul _ _ _) = simple true
reading (dl _ _ _) = simple true
reading (ls _ _ _) = multiline
reading (tree _) = multiline
reading _ = simple false

abbrev pub take_analysis : TdpService → Analysis → TdpService × Bool
take_analysis s a = (
  record s {
    received_response = a.received_response;
    response_body = a.response_body;
    error_code = a.code;
  },
  a.code == ok_code,
)

abbrev pub analyse : Bytes → Reading → TdpService × Bool → TdpService × Bool
analyse command_name how (s, false) = (s, false)
analyse command_name ignored (s, true) = (s, true)
analyse command_name (simple specific) (s, true) =
    take_analysis s
      (analyse_simple_response command_name specific s.received_response s.response_body)
analyse command_name multiline (s, true) =
    take_analysis s (analyse_multiline_response command_name s.received_response s.response_body)

-- A method, over what the connection makes of the text that is sent.
module _ (exchange : Bytes → Exchanged) where
  unfoldable pub send_and_get_response : Arguments → TdpService → TdpService × Bool
  unfolding request_text
  send_and_get_response a s =
      if is_refused a
      then (record s { error_code = e_line_too_long }, false)
      else settle
          (record s {
            error_code = no_error;
            last_sent_command = request_text a;
            received_response = request_text a;
          })
          (exchange (request_text a))

  unfoldable pub run_call : Call → TdpService → TdpService × Bool
  unfolding send_and_get_response arguments
  run_call c s =
      analyse (arguments c).command_name (reading c) (send_and_get_response (arguments c) s)
