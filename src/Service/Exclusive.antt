-- ===== src/Service/Exclusive.antt =====
-- server_context.cpp, client.cpp and client_pool.cpp together: who is logged in through which
-- connection.
use tin_dox.Prelude.{
  ℕ, ◌≤◌, List, [], ◌∷◌, true, false, ◌==◌, ◌≡◌, ◌≢◌, arith, inl, inr, ◌⊎◌, ◌∙◌, some, Bytes, equal,
  equal_iff, Bool-cases, sym, ap, ==_iff,
}
use tin_dox.System.{System}
use tin_dox.Session.Owned.{points, AreUnique-stored}
use tin_dox.Session.State.{AuthToken, Store, deref, release}
use tin_dox.Session.Unique.{AreUnique, HasNoUser}
use tin_dox.Service.Invariant.{IsServing}
use tin_dox.Service.Owners.{owners, owners-release}
use tin_dox.Service.Pool.{Connection, Pool, Supervisor}
use tin_dox.Service.Reach.{Reach-IsServing}
use tin_dox.Service.Server.{Reach}

HasNoUser-deref :
    (name : Bytes) (p : ℕ) (t : AuthToken) (objects : Store AuthToken)
    → HasNoUser name objects
    → deref p objects ≡ some t
    → equal t.username name ≡ false
unfolding deref
HasNoUser-deref name p t [] h e = cc
HasNoUser-deref name p t ((q, s) ∷ more) (here, h) e = elim (Bool-cases (q == p)) [
  | inl found ↦ ground arith
  | inr on ↦ ground (arith, HasNoUser-deref name p t more h)
]

differs : {left right : Bytes} → equal left right ≡ false → left ≢ right
differs {left} {right} h e = cc ((equal_iff left right).1 e)

-- Live sessions at two places are those of two users.
AreUnique-names :
    (tokens : List ℕ) (n p q : ℕ) (t s : AuthToken) (objects : Store AuthToken)
    → AreUnique tokens n objects
    → deref p objects ≡ some t
    → deref q objects ≡ some s
    → p ≢ q
    → t.username ≢ s.username
unfolding AreUnique deref
AreUnique-names tokens n p q t s [] u e f apart same = cc
AreUnique-names tokens n p q t s ((r, o) ∷ more) (below, listed, fresh, u) e f apart same =
    go (λ e' f'. AreUnique-names tokens r p q t s more u e' f' apart same) (Bool-cases (r == p))
      (Bool-cases (r == q))
  where
    go :
        (deref p more ≡ some t → deref q more ≡ some s → ⊥)
        → ((r == p) ≡ true) ⊎ ((r == p) ≡ false)
        → ((r == q) ≡ true) ⊎ ((r == q) ≡ false)
        → ⊥
    go rest (inl x) (inl y) = apart (sym ((==_iff r p).0 x) ∙ (==_iff r q).0 y)
    go rest (inl x) (inr y) =
        let held : o ≡ t = ground (arith, e, x) in
        let other : deref q more ≡ some s = ground (arith, f, y) in
        absurd (
          differs (HasNoUser-deref o.username q s more fresh other)
            (sym same ∙ ap (λ (k : AuthToken). k.username) (sym held)))
    go rest (inr x) (inl y) =
        let held : o ≡ s = ground (arith, f, y) in
        let other : deref p more ≡ some t = ground (arith, e, x) in
        absurd (
          differs (HasNoUser-deref o.username p t more fresh other)
            (same ∙ ap (λ (k : AuthToken). k.username) (sym held)))
    go rest (inr x) (inr y) = rest (ground (arith, e, x)) (ground (arith, f, y))

deref-owners :
    (fd : ℕ) (pool : Pool) (c : Connection) (p : ℕ)
    → deref fd pool ≡ some c
    → points p c.context.auth_token ≤ owners p pool
unfolding deref
deref-owners fd [] c p e = cc
deref-owners fd ((r, d) ∷ more) c p e = elim (Bool-cases (r == fd)) [
  | inl found ↦
      let same : d ≡ c = ground arith in
      omega (arith, ap (λ (k : Connection). points p k.context.auth_token) same)
  | inr on ↦ ground (arith, deref-owners fd more c p)
]

deref-release_other :
    (fd other : ℕ) (pool : Pool) (c : Connection)
    → fd ≢ other
    → deref other pool ≡ some c
    → deref other (release fd pool) ≡ some c
unfolding deref release
deref-release_other fd other [] c apart e = cc
deref-release_other fd other ((r, d) ∷ more) c apart e =
    ground (arith, deref-release_other fd other more c)

-- However connections, events and a stop follow one another, and whatever the clients send: two
-- connections never hold one session, and never sessions of one user name.
pub no_user_twice :
    {Disk : Type 0} (sys : System Disk) (copy_fuel stale_size limit : ℕ) (s t : Supervisor Disk)
    → IsServing limit s
    → Reach sys copy_fuel stale_size limit s t
    → (fd other : ℕ) (c d : Connection) (p q : ℕ) (held also : AuthToken) → fd ≢ other
    → deref fd t.pool ≡ some c
    → deref other t.pool ≡ some d
    → c.context.auth_token ≡ some p
    → d.context.auth_token ≡ some q
    → deref p t.world.sessions.objects ≡ some held
    → deref q t.world.sessions.objects ≡ some also
    → (p ≢ q) × (held.username ≢ also.username)
no_user_twice sys copy_fuel stale_size limit s t start run fd other c d p q held also apart cf df cp
      dq hp hq =
    let h = Reach-IsServing sys copy_fuel stale_size limit start run in
    let distinct : p ≢ q = λ same.
      let one =
        AreUnique-stored t.world.sessions.auth_tokens t.world.sessions.next p
          t.world.sessions.objects h.unique in
      let mine = owners-release fd p t.pool c cf h.distinct in
      let theirs =
        deref-owners other (release fd t.pool) d p
          (deref-release_other fd other t.pool d apart df) in
      ground (arith, one, mine, theirs, h.owned p, ap (points p) cp, ap (points p) dq, same) in
    (
      distinct,
      AreUnique-names t.world.sessions.auth_tokens t.world.sessions.next p q held also
          t.world.sessions.objects h.unique hp hq distinct,
    )
