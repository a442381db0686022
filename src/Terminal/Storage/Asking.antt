-- ===== src/Terminal/Storage/Asking.antt =====
-- cli/src/tdpservice/tdpservice.cpp: a command that the server answers by a number.
use tin_dox.Prelude.{
  ℕ, ◌<◌, true, false, List, [], ◌∷◌, ◌++◌, map, ◌≡◌, ◌≢◌, refl, ap, ◌∙◌, sym, arith, length, All,
  Bytes, inl,
}
use tin_dox.Prelude.Decimal.{to_decimal, all-to_decimal, to_decimal-ne-nil}
use tin_dox.Protocol.Error.{ProtocolCode, code_number}
use tin_dox.Protocol.Response.{new_builder, add_line, get_response}
use tin_dox.Terminal.Analyzer.{with_body}
use tin_dox.Terminal.Connection.{Connection, exchange_with_server}
use tin_dox.Terminal.Connection.Arrivals.{whole, all_of, IsPiece, arrival, ends_once}
use tin_dox.Terminal.Connection.Departures.{departure}
use tin_dox.Terminal.Connection.Whole.{exchange_with_server_lem}
use tin_dox.Terminal.Conversation.{
  run_call_lem, ends_once-answer, all_line_chars-command_name, all_line_chars-digits,
}
use tin_dox.Terminal.Service.Answers.{sent}
use tin_dox.Terminal.Service.{
  TdpService, Call, arguments, is_refused, request_text, reading, simple, take_analysis,
}
use tin_dox.Terminal.Storage.{ask_with, asked, ask}

-- What a service has, whose command the server has answered by a number.
abbrev pub granted : Call → TdpService → ℕ → TdpService
granted c s n =
    let name = (arguments c).command_name in
    let text =
      (get_response (add_line (new_builder ProtocolCode.ok name) (to_decimal n))).content in
    (take_analysis (sent c s text)
      (with_body 100 name ((to_decimal n ++ b'\n' ∷ []) ++ b'\n' ∷ []))).0

to_decimal-full : (n : ℕ) → 0 < length (to_decimal n)
to_decimal-full n = go (to_decimal n) (to_decimal-ne-nil n)
  where
    go : (text : Bytes) → text ≢ [] → 0 < length text
    go [] h = absurd (h refl)
    go (c ∷ cs) h = omega arith

pub ask_lem :
    (conn : Connection) (early : List (List Bytes)) (last : List Bytes) (pieces : List (List Bytes))
    (c : Call) (s : TdpService) (n : ℕ)
    → conn.is_connection_open ≡ true
    → request_text (arguments c) ≡ all_of early ++ whole last
    → 0 < length (whole last)
    → All (All IsPiece) pieces
    → all_of pieces
      ≡ (get_response (
          add_line (new_builder ProtocolCode.ok (arguments c).command_name) (to_decimal n))).content
    → is_refused (arguments c) ≡ false
    → reading c ≡ simple true
    → ask (map departure early ++ departure last ∷ map arrival pieces) c conn s
      ≡ asked (record conn { wire = conn.wire ++ request_text (arguments c) }) (granted c s n, true)
unfolding ask code_number
ask_lem conn early last pieces c s n is_open e h ps f short how =
    let solid = all_line_chars-digits (to_decimal n) (all-to_decimal n) in
    let full = to_decimal-full n in
    let waits = map departure early ++ departure last ∷ map arrival pieces in
    let run =
      run_call_lem conn early last pieces c true s ProtocolCode.ok (to_decimal n) is_open e h ps f
        short how full solid (inl refl) in
    let once =
      ap ends_once f
      ∙ ends_once-answer ProtocolCode.ok (arguments c).command_name (to_decimal n)
          (all_line_chars-command_name c) full solid in
    let exchanged = exchange_with_server_lem conn early last pieces is_open h ps once in
    (λ i. ask_with (short i) (exchange_with_server false waits conn (e i) 0) conn s (run i))
    ∙ (λ i. ask_with false (exchanged i) conn s (granted c s n, true))
    ∙ (λ i. asked (record conn { wire = conn.wire ++ sym e i }) (granted c s n, true))
