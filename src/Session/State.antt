-- ===== src/Session/State.antt =====
-- client_context.hpp, server_context.hpp and the tokens: the state that commands read and change.
use tin_dox.Prelude.{
  ℕ, List, [], ◌∷◌, Bool, true, false, Option, none, some, ◌==◌, if◌then◌else◌, Bytes, ok, err, ◌≡◌,
  refl,
}
use tin_dox.Protocol.Error.{Error, Outcome}
use tin_dox.Paths.{FilePath}
use tin_dox.User.Permissions.{Permissions}
use tin_dox.User.Table.{UserTable}

pub data ProtocolMode : Type 0 where
  command download upload : ProtocolMode

-- `class AuthToken`.
pub record AuthToken : Type 0 where
  pub username : Bytes
  pub perms : Permissions

-- What a path lock is besides its path: nothing more, a `DownloadToken` or an `UploadToken`.
pub data LockKind : Type 0 where
  plain : LockKind
  downloading : (size : ℕ) (offset : ℕ) → LockKind
  uploading :
      (destination : FilePath) (file_name : FilePath) (stem : Bytes) (size : ℕ) (offset : ℕ)
      → LockKind

-- `class PathLock` and the classes derived from it.
pub record PathLock : Type 0 where
  pub path : FilePath
  pub kind : LockKind

-- The objects that some `shared_ptr` owns, by identity. Each of them has one owner at a time, so an
-- object leaves the store when its owner lets go of it, and a `weak_ptr` has expired once its object
-- is not in the store.
abbrev pub Store : Type 0 → Type 0
Store A = List (ℕ × A)

unfoldable pub deref {ℓ} : {A : Type ℓ} → ℕ → List (ℕ × A) → Option A
deref p [] = none
deref p ((q, a) ∷ more) = if q == p then some a else deref p more

unfoldable pub release {ℓ} : {A : Type ℓ} → ℕ → List (ℕ × A) → List (ℕ × A)
release p [] = []
release p ((q, a) ∷ more) = let rest = release p more in if q == p then rest else (q, a) ∷ rest

unfoldable pub assign {ℓ} : {A : Type ℓ} → ℕ → A → List (ℕ × A) → List (ℕ × A)
assign p v [] = []
assign p v ((q, a) ∷ more) = if q == p then (q, v) ∷ more else (q, a) ∷ assign p v more

abbrev pub release_option {ℓ} : {A : Type ℓ} → Option ℕ → List (ℕ × A) → List (ℕ × A)
release_option none s = s
release_option (some p) s = release p s

-- `remove_expired_auth_tokens` and `remove_expired_path_locks`.
unfoldable pub remove_expired {ℓ} : {A : Type ℓ} → List (ℕ × A) → List ℕ → List ℕ
unfolding deref
remove_expired s [] = []
remove_expired s (p ∷ ps) =
    let rest = remove_expired s ps in elim (deref p s) [ none ↦ rest | some a ↦ p ∷ rest ]

-- The tokens of `ServerContext`: the weak pointers of `m_auth_tokens`, newest last, and the objects.
pub record Sessions : Type 0 where
  pub auth_tokens : List ℕ
  pub objects : Store AuthToken
  pub next : ℕ

-- `m_path_locks` and the objects.
pub record Locks : Type 0 where
  pub path_locks : List ℕ
  pub objects : Store PathLock
  pub next : ℕ

-- `class ClientContext`.
pub record ClientContext : Type 0 where
  pub alive : Bool
  pub auth_try_count : ℕ
  pub mode : ProtocolMode
  pub auth_token : Option ℕ
  pub current_path_lock : Option ℕ
  pub download_token : Option ℕ
  pub upload_token : Option ℕ

-- `class ServerContext` with the disk, and the context of the client whose command runs.
pub record World (Disk : Type 0) : Type 0 where
  pub disk : Disk
  pub root : FilePath
  pub upload_max_size : ℕ
  pub users : UserTable
  pub sessions : Sessions
  pub locks : Locks
  pub client : ClientContext

-- A call that may change the state and may throw. What it changed before it threw stays changed.
abbrev pub M : Type 0 → Type 0 → Type 0
M Disk A = World Disk → World Disk × Outcome A

module _ {Disk A B : Type 0} where
  abbrev pub continue_with : World Disk × Outcome A → (A → M Disk B) → World Disk × Outcome B
  continue_with (w, ok a) f = f a w
  continue_with (w, err e) f = (w, err e)

  infixl 5 ◌>>=◌
  abbrev pub ◌>>=◌ : M Disk A → (A → M Disk B) → M Disk B
  ◌>>=◌ m f w = continue_with (m w) f

infixl 5 ◌>>◌
abbrev pub ◌>>◌ : {Disk B : Type 0} → M Disk (Unit {0}) → M Disk B → M Disk B
m >> k = m >>= λ _. k

module _ {Disk : Type 0} where
  abbrev pub return : {A : Type 0} → A → M Disk A
  return a w = (w, ok a)

  abbrev pub raise : {A : Type 0} → Error → M Disk A
  raise e w = (w, err e)

  abbrev pub lift : {A : Type 0} → Outcome A → M Disk A
  lift r w = (w, r)

  abbrev pub get : M Disk (World Disk)
  get w = (w, ok w)

  abbrev pub done : M Disk (Unit {0})
  done w = (w, ok tt)

  abbrev pub put_client : (ClientContext → ClientContext) → M Disk (Unit {0})
  put_client f w = (record w { client = f w.client }, ok tt)

  abbrev pub put_locks : (Locks → Locks) → M Disk (Unit {0})
  put_locks f w = (record w { locks = f w.locks }, ok tt)

  abbrev pub put_sessions : (Sessions → Sessions) → M Disk (Unit {0})
  put_sessions f w = (record w { sessions = f w.sessions }, ok tt)

  -- `if(test) throw e;`
  abbrev pub refuse_if : Bool → Error → M Disk (Unit {0})
  refuse_if true e = raise e
  refuse_if false e = done

  abbrev pub optional : {A B : Type 0} → Option A → M Disk B → (A → M Disk B) → M Disk B
  optional none m f = m
  optional (some a) m f = f a

-- Inversion of a successful bind, for each first part that the server's checks have.
module _ {Disk B : Type 0} (w v : World Disk) (b : B) where
  pub refuse_if-eq-ok :
      (test : Bool) (e : Error) (m : M Disk B)
      → (refuse_if test e >> m) w ≡ (v, ok b)
      → (test ≡ false) × (m w ≡ (v, ok b))
  refuse_if-eq-ok true e m h = cc
  refuse_if-eq-ok false e m h = (refl, h)

  pub lift-eq-ok :
      {A : Type 0} (r : Outcome A) (f : A → M Disk B)
      → (lift r >>= f) w ≡ (v, ok b)
      → (a : A) × (r ≡ ok a) × (f a w ≡ (v, ok b))
  lift-eq-ok (ok a) f h = (a, refl, h)
  lift-eq-ok (err e) f h = cc

  pub optional-eq-ok :
      {A : Type 0} (o : Option A) (e : Error) (f : A → M Disk B)
      → optional o (raise e) f w ≡ (v, ok b)
      → (a : A) × (o ≡ some a) × (f a w ≡ (v, ok b))
  optional-eq-ok none e f h = cc
  optional-eq-ok (some a) e f h = (a, refl, h)
