-- ===== src/Terminal/Storage/Tests.antt =====
-- A file that is fetched, and one that is sent again from where it stopped.
use tin_dox.Prelude.{[], ◌∷◌, ◌++◌, some, true, false, refl, ◌≡◌, codes, arith, map}
use tin_dox.Prelude.Decimal.{to_decimal}
use tin_dox.Protocol.Error.{code_number}
use tin_dox.Protocol.Response.{get_response}
use tin_dox.Terminal.Connection.{Connection}
use tin_dox.Terminal.Connection.Arrivals.{whole, all_of, arrival}
use tin_dox.Terminal.Connection.Departures.{departure}
use tin_dox.Terminal.Connection.Download.{file_arrival}
use tin_dox.Terminal.Service.{TdpService, arguments, request_text}
use tin_dox.Terminal.Storage.{answer, fetch_file, send_stored_file}
use tin_dox.Terminal.Storage.Fetch.{fetch_file_lem}
use tin_dox.Terminal.Storage.Send.{send_stored_file_lem}
use tin_dox.Terminal.Transfer.{UploadEvent}
use tin_dox.Terminal.Transfer.Whole.{taken}

abbrev open_connection : Connection
open_connection = record { is_connection_open = true; wire = []; file = [] }

abbrev service : TdpService
service = record {
  response_body = [];
  received_response = [];
  last_sent_command = [];
  error_code = 0;
}

-- A byte 0 in a file is a byte as any other.
fetch_file_lem_example :
    let t =
      fetch_file
        (map departure ((codes "dl\n" ∷ []) ∷ [])
          ++ departure (codes "name:'a'\n\n" ∷ [])
            ∷ map arrival ((codes "100 dl\n" ∷ codes "3\n\n" ∷ []) ∷ []))
        (map departure []
          ++ departure (codes "dls\n\n" ∷ [])
            ∷ map file_arrival (((7 ∷ 0 ∷ []) ∷ []) ∷ ((9 ∷ []) ∷ []) ∷ []))
        (some (codes "old"))
        true
        (codes "a")
        false
        open_connection
        service in
    (t.ended ≡ answer true)
    × (t.is_fd_open ≡ false)
    × (t.connection
        ≡ record open_connection { wire = codes "dl\nname:'a'\n\ndls\n\n"; file = 7 ∷ 0 ∷ 9 ∷ [] })
unfolding whole all_of code_number to_decimal get_response request_text arguments
fetch_file_lem_example =
    fetch_file_lem open_connection service (codes "a") (codes "old") false
      ((codes "dl\n" ∷ []) ∷ []) (codes "name:'a'\n\n" ∷ [])
      ((codes "100 dl\n" ∷ codes "3\n\n" ∷ []) ∷ []) [] (codes "dls\n\n" ∷ [])
      (((7 ∷ 0 ∷ []) ∷ []) ∷ ((9 ∷ []) ∷ []) ∷ []) refl refl refl (omega arith)
      (
        (
          record { filled = omega arith; solid = refl },
          (record { filled = omega arith; solid = refl }, tt),
        ),
        tt,
      )
      refl refl (omega arith) ((omega arith, tt), ((omega arith, tt), tt)) (omega arith)
      (omega arith)

send_stored_file_lem_example :
    let t =
      send_stored_file
        (map departure []
          ++ departure (codes "ul\nname:'a'\nsize:5\nretry:true\n\n" ∷ [])
            ∷ map arrival ((codes "100 ul\n2\n\n" ∷ []) ∷ []))
        (some (UploadEvent.writable (taken (codes "c" ∷ codes "de" ∷ [])) ∷ []) ∷ [])
        true
        (some (codes "abcde"))
        true
        (codes "a")
        true
        open_connection
        service in
    (t.ended ≡ answer true)
    × (t.is_fd_open ≡ false)
    × (t.connection
        ≡ record open_connection { wire = codes "ul\nname:'a'\nsize:5\nretry:true\n\ncde" })
unfolding whole all_of code_number to_decimal get_response request_text arguments
send_stored_file_lem_example =
    send_stored_file_lem open_connection service (codes "a") (codes "ab") true []
      (codes "ul\nname:'a'\nsize:5\nretry:true\n\n" ∷ []) ((codes "100 ul\n2\n\n" ∷ []) ∷ [])
      (codes "c" ∷ codes "de" ∷ []) refl refl refl (omega arith)
      ((record { filled = omega arith; solid = refl }, tt), tt) refl (omega arith)
