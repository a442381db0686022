-- ===== src/Protocol/Response.antt =====
-- server/src/protocol/response.cpp and response_builder.cpp: the answers of the server.
use tin_dox.Prelude.{ℕ, ◌+◌, ◌-◌, ◌≤◌, Bool, [], ◌∷◌, ◌++◌, arith, ◌==◌, length, drop, min, Bytes}
use tin_dox.Prelude.Decimal.{to_decimal}
use tin_dox.Protocol.Error.{ProtocolCode, ProtocolError, code_number}

-- The bytes of an answer, and how many of them have been sent.
pub record Response : Type 0 where
  pub content : Bytes
  pub offset : ℕ

abbrev pub response : Bytes → Response
response content = record { content = content; offset = 0 }

unfoldable pub get_remaining_byte_count : Response → ℕ
get_remaining_byte_count r = length r.content - r.offset

unfoldable pub add_read_byte_count : Response → ℕ → Response
unfolding get_remaining_byte_count
add_read_byte_count r count = record r {
  offset = r.offset + min count (get_remaining_byte_count r);
}

unfoldable pub is_fully_sent : Response → Bool
unfolding get_remaining_byte_count
is_fully_sent r = get_remaining_byte_count r == 0

-- What `get_data_pointer` points to.
abbrev pub pending : Response → Bytes
pending r = drop r.offset r.content

-- No more bytes are counted as sent than there are.
abbrev pub IsValid : Response → Type 0
IsValid r = r.offset ≤ length r.content

pub add_read_byte_count-IsValid :
    (r : Response) (n : ℕ) → IsValid r → IsValid (add_read_byte_count r n)
unfolding add_read_byte_count
add_read_byte_count-IsValid r n v = omega arith

pub record ResponseBuilder : Type 0 where
  pub code : ProtocolCode
  pub command_name : Bytes
  pub lines : Bytes

abbrev pub new_builder : ProtocolCode → Bytes → ResponseBuilder
new_builder code name = record { code = code; command_name = name; lines = [] }

abbrev pub add_line : ResponseBuilder → Bytes → ResponseBuilder
add_line b line = record b { lines = b.lines ++ (line ++ b'\n' ∷ []) }

-- `fmt::format("{} {}\n{}\n", code, command_name, lines)`.
unfoldable pub get_response : ResponseBuilder → Response
get_response b = response (
    to_decimal (code_number b.code)
    ++ (b' ' ∷ (b.command_name ++ (b'\n' ∷ (b.lines ++ b'\n' ∷ [])))))

-- The answer to a request that was refused.
unfoldable pub error_response : Bytes → ProtocolError → Response
unfolding get_response
error_response name e = get_response (add_line (new_builder e.code name) e.message)
