-- ===== src/Session/Connection.antt =====
-- server/include/tds/server/client.hpp: the parts of a client's connection, and calls on it that may
-- change the server and the connection alike.
pub mod Keeps
use tin_dox.Prelude.{[], Option, none, some, Bytes, ok, err}
use tin_dox.Protocol.Download.{DownloadManager}
use tin_dox.Protocol.Error.{Error, Outcome}
use tin_dox.Protocol.Interpreter.{Interpreter, initial}
use tin_dox.Protocol.Response.{Response}
use tin_dox.Protocol.Socket.{Sender, add_response, new_sender}
use tin_dox.Session.Context.{null_pointer}
use tin_dox.Session.State.{World, M}
use tin_dox.Session.Upload.{UploadManager}

-- `class Client`, but for its context, which stands in the world, and its socket.
pub record Client : Type 0 where
  pub interpreter : Interpreter
  pub sender : Sender
  pub download_manager : DownloadManager
  pub upload_manager : UploadManager
  pub pending_input : Bytes

-- The constructor.
unfoldable pub accepted : Client
unfolding initial
accepted = record {
  interpreter = initial;
  sender = new_sender;
  download_manager = record { token = none; offset = 0; file_size = 0; wire = [] };
  upload_manager = record { token = none; partial_file_name = []; backup_file_name = [] };
  pending_input = [];
}

-- A member function of the client. What it changed before it threw stays changed.
abbrev pub Call : Type 0 → Type 0 → Type 0
Call Disk A = World Disk → Client → World Disk × Client × Outcome A

module _ {Disk : Type 0} where
  unfoldable pub return : {A : Type 0} → A → Call Disk A
  return a w c = (w, c, ok a)

  unfoldable pub done : Call Disk (Unit {0})
  done w c = (w, c, ok tt)

  unfoldable pub throw : {A : Type 0} → Error → Call Disk A
  throw e w c = (w, c, err e)

  abbrev beside : {A : Type 0} → Client → World Disk × Outcome A → World Disk × Client × Outcome A
  beside c (w, r) = (w, c, r)

  -- A call on the server or on the client's context.
  unfoldable pub inside : {A : Type 0} → M Disk A → Call Disk A
  inside m w c = beside c (m w)

  unfoldable pub world : Call Disk (World Disk)
  world w c = (w, c, ok w)

  unfoldable pub self : Call Disk Client
  self w c = (w, c, ok c)

  unfoldable pub change : (Client → Client) → Call Disk (Unit {0})
  change f w c = (w, f c, ok tt)

  -- What a `shared_ptr` holds, before it is read through.
  unfoldable pub expect : {A : Type 0} → Option A → Call Disk A
  unfolding throw return
  expect none = throw null_pointer
  expect (some a) = return a

module _ {Disk A B : Type 0} where
  abbrev pub proceed :
      World Disk × Client × Outcome A → (A → Call Disk B) → World Disk × Client × Outcome B
  proceed (w, c, ok a) f = f a w c
  proceed (w, c, err e) f = (w, c, err e)

  infixl 5 ◌>>=◌
  unfoldable pub ◌>>=◌ : Call Disk A → (A → Call Disk B) → Call Disk B
  unfolding return done throw inside world self change expect
  ◌>>=◌ m f w c = proceed (m w c) f

infixl 5 ◌>>◌
abbrev pub ◌>>◌ : {Disk B : Type 0} → Call Disk (Unit {0}) → Call Disk B → Call Disk B
m >> k = m >>= λ _. k

abbrev pub queue : Response → Client → Client
queue r c = record c { sender = add_response c.sender r }
