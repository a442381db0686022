-- ===== src/Session/Closing.antt =====
-- server/include/tds/server/client.hpp: the destructor of a client, and what is left of its session.
use tin_dox.Prelude.{ℕ, ◌+◌, Option, none, some, ◌≡◌, sym, subst, arith, ok}
use tin_dox.System.{System}
use tin_dox.Session.Connection.{Client}
use tin_dox.Session.Context.{get_lock, logout, release_lock}
use tin_dox.Session.Executor.Frame.{KeepsSessions}
use tin_dox.Session.Owned.{AreOwned, IsOwned, logout-IsOwned, stored}
use tin_dox.Session.State.{Sessions, World, M, ◌>>=◌, ◌>>◌, get, release_option}
use tin_dox.Session.Unique.{IsUnique, AreUnique-release}
use tin_dox.Session.Upload.{close_upload}

release_option-IsUnique :
    (own : Option ℕ) (s : Sessions)
    → IsUnique s
    → IsUnique (record s { objects = release_option own s.objects })
release_option-IsUnique none s u = u
release_option-IsUnique (some p) s u = AreUnique-release s.auth_tokens s.next p s.objects u

module _ {Disk : Type 0} (sys : System Disk) where
  -- A destructor does not throw.
  unfoldable pub quietly : M Disk (Unit {0}) → M Disk (Unit {0})
  quietly m w = ((m w).0, ok tt)

  -- The members in the reverse order of their declarations, each with the token that it owns, and the
  -- context last.
  unfoldable pub destroy : Client → M Disk (Unit {0})
  unfolding quietly
  destroy c = do
    quietly (close_upload sys c.upload_manager)
    release_lock c.download_manager.token
    w ← get
    release_lock w.client.upload_token
    release_lock w.client.download_token
    release_lock w.client.current_path_lock
    logout

  close_upload_keeps : (c : Client) → KeepsSessions (quietly (close_upload sys c.upload_manager))
  unfolding quietly close_upload get_lock release_lock
  close_upload_keeps c w = ground arith

  -- Whatever the client was doing, its session goes with it, and no other session does.
  pub destroy-IsOwned :
      (c : Client) (others : ℕ → ℕ) (w : World Disk)
      → IsUnique w.sessions
      → IsOwned others w
      → IsUnique (destroy c w).0.sessions
        × ((p : ℕ) → stored p (destroy c w).0.sessions.objects ≡ 0 + others p)
  unfolding destroy logout release_lock quietly
  destroy-IsOwned c others w u o =
      let v = (quietly (close_upload sys c.upload_manager) w).0 in
      let same = sym (close_upload_keeps c w) in
      let unique = subst (λ (t : Sessions × Option ℕ). IsUnique t.0) same u in
      let owned = subst (AreOwned others) same o in
      (
        release_option-IsUnique v.client.auth_token v.sessions unique,
        logout-IsOwned others v unique owned,
      )
