-- ===== src/Session/Unique.antt =====
-- server_context.cpp: the list of live auth tokens names every user at most once.
use tin_dox.Prelude.{
  ℕ, ◌+◌, ◌≤◌, ◌<◌, List, [], ◌∷◌, ◌++◌, Bool, true, false, ◌||◌, some, ◌==◌, Bytes, equal, ◌≡◌,
  refl, arith, All, Bool-cases, inl, inr,
}
use tin_dox.Session.Context.{is_logged_in}
use tin_dox.Session.State.{AuthToken, Store, deref, release, remove_expired, Sessions}

unfoldable pub contains : ℕ → List ℕ → Bool
contains p [] = false
contains p (q ∷ qs) = q == p || contains p qs

abbrev pub HasNoUser : Bytes → Store AuthToken → Type 0
HasNoUser name = All (λ (o : ℕ × AuthToken). equal o.1.username name ≡ false)

-- Objects from the newest on, below a bound: every one is listed in the server's tokens, and no two
-- have a user name in common.
unfoldable pub AreUnique : List ℕ → ℕ → Store AuthToken → Type 0
AreUnique tokens bound [] = Unit
AreUnique tokens bound ((p, t) ∷ more) =
    (p < bound) × (contains p tokens ≡ true) × HasNoUser t.username more × AreUnique tokens p more

abbrev pub IsUnique : Sessions → Type 0
IsUnique s = AreUnique s.auth_tokens s.next s.objects

HasNoUser-release :
    (name : Bytes) (p : ℕ) (objects : Store AuthToken)
    → HasNoUser name objects
    → HasNoUser name (release p objects)
unfolding release
HasNoUser-release name p [] h = tt
HasNoUser-release name p ((q, t) ∷ more) h = elim (Bool-cases (q == p)) [
  | inl gone ↦ rw gone (HasNoUser-release name p more h.1)
  | inr kept ↦ rw kept (h.0, HasNoUser-release name p more h.1)
]

module _ (tokens : List ℕ) where
  AreUnique-weaken :
      (m n : ℕ) (objects : Store AuthToken)
      → m ≤ n
      → AreUnique tokens m objects
      → AreUnique tokens n objects
  unfolding AreUnique
  AreUnique-weaken m n [] h u = tt
  AreUnique-weaken m n ((p, t) ∷ more) h (below, listed, fresh, u) = (omega arith, listed, fresh, u)

  pub AreUnique-release :
      (n p : ℕ) (objects : Store AuthToken)
      → AreUnique tokens n objects
      → AreUnique tokens n (release p objects)
  unfolding AreUnique release
  AreUnique-release n p [] u = tt
  AreUnique-release n p ((q, t) ∷ more) (below, listed, fresh, u) = elim (Bool-cases (q == p)) [
    | inl gone ↦
        rw gone (AreUnique-weaken q n (release p more) (omega arith) (AreUnique-release q p more u))
    | inr kept ↦
        rw kept
          (below, listed, HasNoUser-release t.username p more fresh, AreUnique-release q p more u)
  ]

  deref-bound :
      (n p : ℕ) (objects : Store AuthToken) (t : AuthToken)
      → AreUnique tokens n objects
      → deref p objects ≡ some t
      → p < n
  unfolding AreUnique deref
  deref-bound n p [] t u e = cc
  deref-bound n p ((q, s) ∷ more) t (below, listed, fresh, u) e = elim (Bool-cases (q == p)) [
    | inl here ↦ ground arith
    | inr later ↦ ground (arith, deref-bound q p more t u)
  ]

contains-append :
    (p : ℕ) (ps qs : List ℕ) → contains p (ps ++ qs) ≡ (contains p ps || contains p qs)
unfolding contains
contains-append p [] qs = refl
contains-append p (q ∷ ps) qs = ground (arith, contains-append p ps qs)

module _ (objects : Store AuthToken) where
  contains-remove_expired :
      (p : ℕ) (t : AuthToken) (tokens : List ℕ)
      → deref p objects ≡ some t
      → contains p tokens ≡ true
      → contains p (remove_expired objects tokens) ≡ true
  unfolding contains remove_expired
  contains-remove_expired p t [] e h = h
  contains-remove_expired p t (q ∷ qs) e h = ground (arith, contains-remove_expired p t qs e)

  -- The rest of a list of objects is looked up as the whole list is.
  abbrev IsPart : Store AuthToken → Type 0
  IsPart part = (p : ℕ) (t : AuthToken) → deref p part ≡ some t → deref p objects ≡ some t

  IsPart-rest :
      (tokens : List ℕ) (n q : ℕ) (s : AuthToken) (more : Store AuthToken)
      → AreUnique tokens n ((q, s) ∷ more)
      → IsPart ((q, s) ∷ more)
      → IsPart more
  unfolding AreUnique deref
  IsPart-rest tokens n q s more (below, listed, fresh, u) part p t e =
      part p t (ground (arith, deref-bound tokens q p more t u e))

  deref-head : (q : ℕ) (s : AuthToken) (more : Store AuthToken) → deref q ((q, s) ∷ more) ≡ some s
  unfolding deref
  deref-head q s more = ground arith

  AreUnique-remove_part :
      (tokens : List ℕ) (n : ℕ) (part : Store AuthToken)
      → IsPart part
      → AreUnique tokens n part
      → AreUnique (remove_expired objects tokens) n part
  unfolding AreUnique
  AreUnique-remove_part tokens n [] part u = tt
  AreUnique-remove_part tokens n ((q, s) ∷ more) part u = (
    u.0,
    contains-remove_expired q s tokens (part q s (deref-head q s more)) u.1,
    u.2,
    AreUnique-remove_part tokens q more (IsPart-rest tokens n q s more u part) u.3,
  )

  is_logged_in-contains :
      (name : Bytes) (p : ℕ) (t : AuthToken) (tokens : List ℕ)
      → deref p objects ≡ some t
      → contains p tokens ≡ true
      → is_logged_in name objects tokens ≡ false
      → equal t.username name ≡ false
  unfolding contains is_logged_in
  is_logged_in-contains name p t [] e h k = cc
  is_logged_in-contains name p t (q ∷ qs) e h k =
      ground (arith, is_logged_in-contains name p t qs e)

  HasNoUser-part :
      (name : Bytes) (tokens : List ℕ) (n : ℕ) (part : Store AuthToken)
      → IsPart part
      → AreUnique tokens n part
      → is_logged_in name objects tokens ≡ false
      → HasNoUser name part
  unfolding AreUnique
  HasNoUser-part name tokens n [] part u k = tt
  HasNoUser-part name tokens n ((q, s) ∷ more) part u k = (
    is_logged_in-contains name q s tokens (part q s (deref-head q s more)) u.1 k,
    HasNoUser-part name tokens q more (IsPart-rest tokens n q s more u part) u.3 k,
  )

AreUnique-append :
    (tokens : List ℕ) (r n : ℕ) (objects : Store AuthToken)
    → AreUnique tokens n objects
    → AreUnique (tokens ++ r ∷ []) n objects
unfolding AreUnique
AreUnique-append tokens r n [] u = tt
AreUnique-append tokens r n ((q, s) ∷ more) (below, listed, fresh, u) = (
  below,
  ground (arith, contains-append q tokens (r ∷ [])),
  fresh,
  AreUnique-append tokens r q more u,
)

module _ (s : Sessions) (u : IsUnique s) where
  pub remove_expired-IsUnique :
      IsUnique (record s { auth_tokens = remove_expired s.objects s.auth_tokens })
  remove_expired-IsUnique =
      AreUnique-remove_part s.objects s.auth_tokens s.next s.objects (λ p t e. e) u

  pub add-IsUnique :
      (t : AuthToken)
      → is_logged_in t.username s.objects s.auth_tokens ≡ false
      → IsUnique (record {
        auth_tokens = s.auth_tokens ++ s.next ∷ [];
        objects = (s.next, t) ∷ s.objects;
        next = s.next + 1;
      })
  unfolding AreUnique contains
  add-IsUnique t k = (
    omega arith,
    ground (arith, contains-append s.next s.auth_tokens (s.next ∷ [])),
    HasNoUser-part s.objects t.username s.auth_tokens s.next s.objects (λ p t e. e) u k,
    AreUnique-append s.auth_tokens s.next s.next s.objects u,
  )
