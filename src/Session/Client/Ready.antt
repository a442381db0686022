-- ===== src/Session/Client/Ready.antt =====
-- client.cpp: no request waits in the interpreter between two calls.
use tin_dox.Prelude.{ℕ, zero, suc, ◌∙◌, none, ◌≡◌, refl}
use tin_dox.Paths.{FilePath}
use tin_dox.System.{System}
use tin_dox.Session.Client.{hand_over, begin_download, begin_upload, take_reply}
use tin_dox.Session.Connection.{Client, inside, change}
use tin_dox.Session.Connection.Keeps.{Keeps, keeps_rules}
use tin_dox.Session.Executor.{Reply, answer, start_download, start_upload, broken}
use tin_dox.Session.State.{LockKind, plain, downloading, uploading, World, M}

-- No request waits between two calls on the interpreter.
abbrev pub IsReady : Client → Type 0
IsReady c = c.interpreter.request ≡ none

abbrev pub Ready : {Disk : Type 0} → World Disk → Client → Type 0
Ready w c = IsReady c

module _ {Disk : Type 0} where
  inside-IsReady : {A : Type 0} (m : M Disk A) → Keeps Ready (inside m)
  unfolding inside
  inside-IsReady m = record { kept = λ w c h. h }

  change-IsReady :
      (f : Client → Client)
      → ((c : Client) → (f c).interpreter.request ≡ c.interpreter.request)
      → Keeps {Disk = Disk} Ready (change f)
  unfolding change
  change-IsReady f h = record { kept = λ w c k. h c ∙ k }

ruleset ready_rules = (keeps_rules, inside-IsReady, change-IsReady, refl)

module _ {Disk : Type 0} (sys : System Disk) where
  hand_over-IsReady :
      (p : ℕ) (path : FilePath) (kind : LockKind) → Keeps Ready (hand_over sys p path kind)
  unfolding hand_over
  hand_over-IsReady p path (downloading zero offset) = search ready_rules
  hand_over-IsReady p path (downloading (suc size) offset) = search ready_rules
  hand_over-IsReady p path plain = search ready_rules
  hand_over-IsReady p path (uploading _ _ _ _ _) = search ready_rules

  begin_download-IsReady : Keeps Ready (begin_download sys)
  unfolding begin_download
  begin_download-IsReady = search (ready_rules, hand_over-IsReady)

  begin_upload-IsReady : Keeps Ready (begin_upload sys)
  unfolding begin_upload
  begin_upload-IsReady = search ready_rules depth 14

  pub take_reply-IsReady : (reply : Reply) → Keeps Ready (take_reply sys reply)
  unfolding take_reply
  take_reply-IsReady (answer r) = search ready_rules
  take_reply-IsReady start_download = begin_download-IsReady
  take_reply-IsReady (start_upload r) = search (ready_rules, begin_upload-IsReady)
  take_reply-IsReady (broken m) = search ready_rules
