-- ===== src/Service/Owners.antt =====
-- client_pool.cpp: what a pool of clients owns, as clients come, change and go.
use tin_dox.Prelude.{
  ℕ, ◌+◌, ◌≤◌, [], ◌∷◌, true, none, some, ◌==◌, ◌≡◌, refl, arith, length, All, Bool-cases, inl, inr,
  ==_iff, subst, ap,
}
use tin_dox.Session.Owned.{points}
use tin_dox.Session.State.{deref, release, assign}
use tin_dox.Service.Pool.{Connection, Pool}

-- How many of the connections own a session.
abbrev pub owners : ℕ → Pool → ℕ
owners p [] = 0
owners p ((fd, conn) ∷ more) = points p conn.context.auth_token + owners p more

-- Every descriptor has one client.
abbrev pub AreDistinct : Pool → Type 0
AreDistinct [] = Unit
AreDistinct ((fd, conn) ∷ more) = (deref fd more ≡ none) × AreDistinct more

module _ (fd : ℕ) where
  release_absent : (pool : Pool) → deref fd pool ≡ none → release fd pool ≡ pool
  unfolding deref release
  release_absent [] h = refl
  release_absent ((q, c) ∷ more) h = ground (arith, release_absent more)

  absent : (pool : Pool) (q : ℕ) → (q == fd) ≡ true → deref q pool ≡ none → deref fd pool ≡ none
  absent pool q same h = subst (λ (r : ℕ). deref r pool ≡ none) ((==_iff q fd).0 same) h

  pub deref-release : (q : ℕ) (pool : Pool) → deref q pool ≡ none → deref q (release fd pool) ≡ none
  unfolding deref release
  deref-release q [] h = refl
  deref-release q ((r, c) ∷ more) h = ground (arith, deref-release q more)

  pub AreDistinct-release : (pool : Pool) → AreDistinct pool → AreDistinct (release fd pool)
  unfolding release
  AreDistinct-release [] h = tt
  AreDistinct-release ((q, c) ∷ more) (fresh, h) = elim (Bool-cases (q == fd)) [
    | inl gone ↦ rw gone (AreDistinct-release more h)
    | inr kept ↦ rw kept (deref-release q more fresh, AreDistinct-release more h)
  ]

  pub length-release : (pool : Pool) → length (release fd pool) ≤ length pool
  unfolding release
  length-release [] = omega arith
  length-release ((q, c) ∷ more) = ground (arith, length-release more)

  pub All-release :
      (P : ℕ × Connection → Type 0) (pool : Pool) → All P pool → All P (release fd pool)
  unfolding release
  All-release P [] h = tt
  All-release P ((q, c) ∷ more) (here, h) = elim (Bool-cases (q == fd)) [
    | inl gone ↦ rw gone (All-release P more h)
    | inr kept ↦ rw kept (here, All-release P more h)
  ]

  pub All-deref :
      (P : ℕ × Connection → Type 0) (pool : Pool) (c : Connection)
      → All P pool
      → deref fd pool ≡ some c
      → P (fd, c)
  unfolding deref
  All-deref P [] c h e = cc
  All-deref P ((q, d) ∷ more) c (here, h) e = elim (Bool-cases (q == fd)) [
    | inl found ↦ let same : (q, d) ≡ (fd, c) = ground (arith, ==_iff q fd) in subst P same here
    | inr on ↦ All-deref P more c h (ground arith)
  ]

  pub All-found :
      (P : ℕ × Connection → Type 0) (pool : Pool) (c : Connection)
      → deref fd pool ≡ some c
      → AreDistinct pool
      → P (fd, c)
      → All P (release fd pool)
      → All P pool
  unfolding deref release
  All-found P [] c e u h hs = tt
  All-found P ((q, d) ∷ more) c e (fresh, u) h hs = elim (Bool-cases (q == fd)) [
    | inl found ↦
        let same : (fd, c) ≡ (q, d) = ground (arith, ==_iff q fd) in
        let rest : release fd more ≡ more = release_absent more (absent more q found fresh) in
        (subst P same h, subst (λ (ps : Pool). All P ps) rest (rw found at hs))
    | inr on ↦
        let both : All P ((q, d) ∷ release fd more) = rw on at hs in
        (both.0, All-found P more c (ground arith) u h both.1)
  ]

  module _ (d : Connection) where
    deref-assign-none :
        (q : ℕ) (pool : Pool) → deref q pool ≡ none → deref q (assign fd d pool) ≡ none
    unfolding deref assign
    deref-assign-none q [] h = refl
    deref-assign-none q ((r, c) ∷ more) h = ground (arith, deref-assign-none q more)

    pub AreDistinct-assign : (pool : Pool) → AreDistinct pool → AreDistinct (assign fd d pool)
    unfolding assign
    AreDistinct-assign [] h = tt
    AreDistinct-assign ((q, c) ∷ more) (fresh, h) = elim (Bool-cases (q == fd)) [
      | inl here ↦ rw here (fresh, h)
      | inr later ↦ rw later (deref-assign-none q more fresh, AreDistinct-assign more h)
    ]

    pub length-assign : (pool : Pool) → length (assign fd d pool) ≡ length pool
    unfolding assign
    length-assign [] = refl
    length-assign ((q, c) ∷ more) = ground (arith, length-assign more)

    pub deref-assign_self :
        (pool : Pool) (c : Connection)
        → deref fd pool ≡ some c
        → deref fd (assign fd d pool) ≡ some d
    unfolding deref assign
    deref-assign_self [] c h = cc
    deref-assign_self ((q, b) ∷ more) c h = ground (arith, deref-assign_self more c)

    pub release-assign_self : (pool : Pool) → release fd (assign fd d pool) ≡ release fd pool
    unfolding release assign
    release-assign_self [] = refl
    release-assign_self ((q, b) ∷ more) = ground (arith, release-assign_self more)

    pub All-assign :
        (P : ℕ × Connection → Type 0) (pool : Pool)
        → AreDistinct pool
        → P (fd, d)
        → All P (release fd pool)
        → All P (assign fd d pool)
    unfolding assign release
    All-assign P [] u h = λ hs. tt
    All-assign P ((q, b) ∷ more) (fresh, u) h = elim (Bool-cases (q == fd)) [
      | inl here ↦
          let same : fd ≡ q = ground (arith, ==_iff q fd) in
          rw (here, release_absent more (absent more q here fresh))
            λ hs. (subst (λ (r : ℕ). P (r, d)) same h, hs)
      | inr later ↦ rw later λ hs. (hs.0, All-assign P more u h hs.1)
    ]

    pub owners-assign :
        (p : ℕ) (pool : Pool) (c : Connection)
        → deref fd pool ≡ some c
        → AreDistinct pool
        → owners p (assign fd d pool) ≡ points p d.context.auth_token + owners p (release fd pool)
    unfolding deref assign release
    owners-assign p [] c h u = cc
    owners-assign p ((q, b) ∷ more) c h (fresh, u) = elim (Bool-cases (q == fd)) [
      | inl here ↦ rw (here, release_absent more (absent more q here fresh)) refl
      | inr later ↦ rw later (ground (arith, owners-assign p more c (ground arith) u, later))
    ]

  pub owners-release :
      (p : ℕ) (pool : Pool) (c : Connection)
      → deref fd pool ≡ some c
      → AreDistinct pool
      → owners p pool ≡ points p c.context.auth_token + owners p (release fd pool)
  unfolding deref release
  owners-release p [] c h u = cc
  owners-release p ((q, b) ∷ more) c h (fresh, u) = elim (Bool-cases (q == fd)) [
    | inl here ↦
        let same : b ≡ c = ground arith in
        rw (here, release_absent more (absent more q here fresh))
          (ap (λ (k : Connection). points p k.context.auth_token + owners p more) same)
    | inr later ↦ rw later (ground (arith, owners-release p more c (ground arith) u, later))
  ]
