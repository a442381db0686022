-- ===== src/Session/Client/Events.antt =====
-- server/src/server/client.cpp: what a client's connection does when its socket is ready and what
-- it waits for.
pub mod Sound
use tin_dox.Prelude.{
  ℕ, List, [], Bool, true, false, not, ◌&&◌, ◌||◌, Option, none, some, Bytes, codes, ok, err,
  if◌then◌else◌,
}
use tin_dox.Protocol.Download
use tin_dox.Protocol.Download.{DownloadManager, Transferred, send_file}
use tin_dox.Protocol.Error.{Outcome, fatal}
use tin_dox.Protocol.Socket.{Read, Written, Sender, has_responses, receive, send}
use tin_dox.System.{System}
use tin_dox.Session.Client.{handle_input, is_empty}
use tin_dox.Session.Connection.{
  Client, Call, ◌>>=◌, ◌>>◌, return, done, inside, world, self, change,
}
use tin_dox.Session.Context.{kill, release_lock, set_mode}
use tin_dox.Session.State
use tin_dox.Session.State.{ClientContext, ProtocolMode, command, download, upload, World, M, lift}

-- `EventType`: whether the socket can be read, and whether it can be written.
pub record EventType : Type 0 where
  pub readable : Bool
  pub writable : Bool

abbrev pub in_event : EventType
in_event = record { readable = true; writable = false }

abbrev pub out_event : EventType
out_event = record { readable = false; writable = true }

-- What the socket and the file answer while one event is handled.
pub record Answers : Type 0 where
  pub reads : List Read
  pub writes : List Written
  pub file : Bytes
  pub transfer : Transferred

abbrev pub is_command : ProtocolMode → Bool
is_command command = true
is_command _ = false

abbrev pub is_upload : ProtocolMode → Bool
is_upload upload = true
is_upload _ = false

abbrev pub is_download : ProtocolMode → Bool
is_download download = true
is_download _ = false

unfoldable pub get_required_events : ClientContext → Client → Outcome EventType
get_required_events k c =
    if (not (is_empty c.pending_input) && is_command k.mode)
      || (has_responses c.sender || is_download k.mode)
    then ok out_event
    else if is_command k.mode || is_upload k.mode
    then ok in_event
    else err (fatal (codes "Unexpected event required by client"))

-- `std::shared_ptr::reset` of a download's token, where the transfer has ended.
abbrev pub let_go : {Disk : Type 0} → Option ℕ → DownloadManager → M Disk (Unit {0})
let_go p d = if Download.has_finished d then release_lock p else State.done

module _ {Disk : Type 0} where
  unfoldable pub handle_executor_output : List Written → Call Disk (Unit {0})
  handle_executor_output writes = do
    c ← self
    let r = send writes c.sender
    change (λ d. record d { sender = r.0 })
    sent ← inside (lift r.1)
    done

  unfoldable pub handle_download_manager_output : Bytes → Transferred → Call Disk (Unit {0})
  handle_download_manager_output file transfer = do
    c ← self
    let r = send_file file transfer c.download_manager
    change (λ d. record d { download_manager = r.0 })
    inside (let_go c.download_manager.token r.0)
    sent ← inside (lift r.1)
    if Download.has_finished r.0 then inside (set_mode command) else done

  unfoldable pub handle_output : Answers → Call Disk (Unit {0})
  handle_output a = do
    c ← self
    w ← world
    if has_responses c.sender
        then handle_executor_output a.writes
        else if is_download w.client.mode
        then handle_download_manager_output a.file a.transfer
        else done

module _ {Disk : Type 0} (sys : System Disk) (copy_fuel stale_size : ℕ) where
  unfoldable pub handle_pending_input : Call Disk (Unit {0})
  handle_pending_input = do
    c ← self
    rest ← handle_input sys copy_fuel stale_size c.pending_input
    change (λ d. record d { pending_input = rest })

  unfoldable pub handle_current_input : List Read → Call Disk (Unit {0})
  handle_current_input reads = do
    input ← inside (lift (receive reads))
    rest ← handle_input sys copy_fuel stale_size input
    done

  unfoldable pub run_events : EventType → Answers → Call Disk (Unit {0})
  run_events events a = do
    c ← self
    if not (is_empty c.pending_input)
        then handle_pending_input
        else if events.readable
        then handle_current_input a.reads
        else done
    if events.writable then handle_output a else done

  -- `catch(const std::exception& e)`.
  abbrev pub kill_on_error : World Disk × Client × Outcome (Unit {0}) → World Disk × Client
  kill_on_error (w, c, ok _) = (w, c)
  kill_on_error (w, c, err e) = ((kill w).0, c)

  unfoldable pub handle : EventType → Answers → World Disk → Client → World Disk × Client
  handle events a w c = kill_on_error (run_events events a w c)
