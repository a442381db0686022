-- ===== src/Session/Owned.antt =====
-- auth_token.cpp, client_context.cpp: which connection owns which live session.
use tin_dox.Prelude.{
  leb, ℕ, ◌+◌, ◌≤◌, List, [], ◌∷◌, Option, none, some, ◌==◌, if◌then◌else◌, ◌≡◌, arith,
}
use tin_dox.Session.State.{AuthToken, Store, release, release_option, Sessions, World}
use tin_dox.Session.Unique.{AreUnique, IsUnique}

-- How often an object is in a store, and among those that a `shared_ptr` points to.
abbrev pub stored : ℕ → Store AuthToken → ℕ
stored p [] = 0
stored p ((q, t) ∷ more) = (if q == p then 1 else 0) + stored p more

abbrev pub points : ℕ → Option ℕ → ℕ
points p none = 0
points p (some q) = if q == p then 1 else 0

-- The tokens of the server, and the one that the client owns.
abbrev pub sessions_of : {Disk : Type 0} → World Disk → Sessions × Option ℕ
sessions_of w = (w.sessions, w.client.auth_token)

-- Every session that is alive belongs to this client or to another, and to one of them only.
-- `others` says how many of the other connections own a session.
abbrev pub AreOwned : (ℕ → ℕ) → Sessions × Option ℕ → Type 0
AreOwned others (s, own) = (p : ℕ) → stored p s.objects ≡ points p own + others p

abbrev pub IsOwned : {Disk : Type 0} → (ℕ → ℕ) → World Disk → Type 0
IsOwned others w = AreOwned others (sessions_of w)

pub stored-release :
    (p q : ℕ) (objects : Store AuthToken)
    → stored p (release q objects) ≡ (if q == p then 0 else stored p objects)
unfolding release
stored-release p q [] = ground arith
stored-release p q ((r, t) ∷ more) = ground (arith, stored-release p q more)

pub AreUnique-stored :
    (tokens : List ℕ) (n p : ℕ) (objects : Store AuthToken)
    → AreUnique tokens n objects
    → stored p objects ≤ (if leb n p then 0 else 1)
unfolding AreUnique
AreUnique-stored tokens n p [] u = ground arith
AreUnique-stored tokens n p ((q, t) ∷ more) u = ground (arith, AreUnique-stored tokens q p more u.3)

module _ {Disk : Type 0} (others : ℕ → ℕ) (w : World Disk) (u : IsUnique w.sessions)
    (o : IsOwned others w) where
  -- Logging out lets go of the client's own session.
  pub logout-IsOwned :
      (p : ℕ) → stored p (release_option w.client.auth_token w.sessions.objects) ≡ 0 + others p
  logout-IsOwned p = go w.client.auth_token (o p)
    where
      go :
          (own : Option ℕ)
          → stored p w.sessions.objects ≡ points p own + others p
          → stored p (release_option own w.sessions.objects) ≡ 0 + others p
      go none e = e
      go (some q) e = ground (
        arith,
        stored-release p q w.sessions.objects,
        AreUnique-stored w.sessions.auth_tokens w.sessions.next p w.sessions.objects u,
      )
