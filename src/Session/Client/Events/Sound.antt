-- ===== src/Session/Client/Events/Sound.antt =====
-- client.cpp: what one event leaves of the server and of a connection.
use tin_dox.Prelude.{
  ℕ, List, ◌≢◌, [], ◌∷◌, Bool, true, false, Option, ◌≡◌, refl, ◌⊎◌, arith, Bytes, ok, err,
}
use tin_dox.Protocol.Download.{DownloadManager, Transferred}
use tin_dox.Protocol.Error.{Outcome}
use tin_dox.Protocol.Socket.{Written, has_responses}
use tin_dox.System.{System}
use tin_dox.Session.Client.{handle_input}
use tin_dox.Session.Client.Events.{
  EventType, Answers, in_event, out_event, get_required_events, let_go, handle_executor_output,
  handle_download_manager_output, handle_output, handle_pending_input, handle_current_input,
  run_events, kill_on_error, handle,
}
use tin_dox.Session.Client.Invariant.{
  IsSound, KeepsSound, inside_sound, change_sound, set_mode_sound, lift_sound, handle_input-IsSound,
}
use tin_dox.Session.Connection.{Client, inside}
use tin_dox.Session.Connection.Keeps.{keeps_rules}
use tin_dox.Session.Context.{kill, release_lock}
use tin_dox.Session.State.{ClientContext, ProtocolMode, command, download, upload, World}

module _ {Disk : Type 0} (others : ℕ → ℕ) where
  let_go_sound :
      (p : Option ℕ) (d : DownloadManager) → KeepsSound {Disk = Disk} others (inside (let_go p d))
  let_go_sound p d = inside_sound others (let_go p d) (unfold release_lock in λ w. ground arith)

ruleset output_rules = (keeps_rules, change_sound, set_mode_sound, lift_sound, let_go_sound, refl)

module _ {Disk : Type 0} (others : ℕ → ℕ) where
  handle_executor_output_sound :
      (writes : List Written) → KeepsSound {Disk = Disk} others (handle_executor_output writes)
  unfolding handle_executor_output
  handle_executor_output_sound writes = search output_rules depth 8

  handle_download_manager_output_sound :
      (file : Bytes) (transfer : Transferred)
      → KeepsSound {Disk = Disk} others (handle_download_manager_output file transfer)
  unfolding handle_download_manager_output
  handle_download_manager_output_sound file transfer = search output_rules depth 10

  handle_output_sound : (a : Answers) → KeepsSound {Disk = Disk} others (handle_output a)
  unfolding handle_output
  handle_output_sound a =
      search (keeps_rules, handle_executor_output_sound, handle_download_manager_output_sound) depth
        8

module _ {Disk : Type 0} (sys : System Disk) (copy_fuel stale_size : ℕ) (others : ℕ → ℕ) where
  handle_input_sound :
      (input : Bytes) → KeepsSound others (handle_input sys copy_fuel stale_size input)
  handle_input_sound input = record {
    kept = handle_input-IsSound sys copy_fuel stale_size others input;
  }

  run_events_sound :
      (events : EventType) (a : Answers)
      → KeepsSound others (run_events sys copy_fuel stale_size events a)
  unfolding run_events handle_pending_input handle_current_input
  run_events_sound events a =
      search (output_rules, handle_input_sound, handle_output_sound) depth 12

  -- An event on the socket, with whatever the kernel answers: sessions stay those of distinct users,
  -- each with its one owner, and the interpreter stays within its bounds.
  pub handle-IsSound :
      (events : EventType) (a : Answers) (w : World Disk) (c : Client)
      → IsSound others w c
      → let r = handle sys copy_fuel stale_size events a w c in IsSound others r.0 r.1
  unfolding handle kill
  handle-IsSound events a w c s =
      go (run_events sys copy_fuel stale_size events a w c) ((run_events_sound events a).kept w c s)
    where
      go :
          (r : World Disk × Client × Outcome (Unit {0}))
          → IsSound others r.0 r.1
          → let after = kill_on_error sys copy_fuel stale_size r in IsSound others after.0 after.1
      go (v, d, ok u) h = h
      go (v, d, err e) h = record { unique = h.unique; owned = h.owned; bounded = h.bounded }

-- `get_required_events` never throws: a connection waits until it can write where it has an answer or
-- a download to send, or, unless it is in upload mode, bytes that came during a download; it waits
-- until it can read otherwise.
pub get_required_events_lem :
    (k : ClientContext) (c : Client)
    → ((get_required_events k c ≡ ok out_event)
        × ((has_responses c.sender ≡ true) ⊎ ((k.mode ≡ download) ⊎ (c.pending_input ≢ []))))
      ⊎ ((get_required_events k c ≡ ok in_event)
          × (has_responses c.sender ≡ false)
          × (k.mode ≢ download)
          × ((c.pending_input ≡ []) ⊎ (k.mode ≡ upload)))
unfolding get_required_events
get_required_events_lem k c = go k.mode c.pending_input (has_responses c.sender) refl refl refl
  where
    go :
        (mode : ProtocolMode) (pending : Bytes) (answers : Bool)
        → k.mode ≡ mode
        → c.pending_input ≡ pending
        → has_responses c.sender ≡ answers
        → ((get_required_events k c ≡ ok out_event)
            × ((has_responses c.sender ≡ true) ⊎ ((k.mode ≡ download) ⊎ (c.pending_input ≢ []))))
          ⊎ ((get_required_events k c ≡ ok in_event)
              × (has_responses c.sender ≡ false)
              × (k.mode ≢ download)
              × ((c.pending_input ≡ []) ⊎ (k.mode ≡ upload)))
    go mode pending true m p a = ground arith
    go download pending false m p a = ground arith
    go upload pending false m p a = ground arith
    go command [] false m p a = ground arith
    go command (x ∷ xs) false m p a = ground arith
