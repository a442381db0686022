-- ===== src/Session/Context.antt =====
-- client_context.cpp, server_context.cpp, path_lock.cpp, auth_token.cpp, download_token.cpp and
-- upload_token.cpp: who is logged in, and which paths are in use.
use tin_dox.Prelude.{
  ℕ, ◌+◌, ◌%◌, List, [], ◌∷◌, ◌++◌, Bool, true, false, not, ◌||◌, Option, none, some, ltb,
  if◌then◌else◌, Bytes, codes, equal, starts_with, ok, err,
}
use tin_dox.Protocol.Error.{ProtocolCode, Error, Outcome, fail, fail_with, fatal}
use tin_dox.Paths.{FilePath, ◌/path◌, is_absolute, same_path, filename, parent_path}
use tin_dox.System.{System}
use tin_dox.User.Table.{has_user, verify_password_of_user, get_perms_of_user}
use tin_dox.Session.State.{
  ProtocolMode, command, AuthToken, plain, downloading, uploading, PathLock, Store, deref, release,
  release_option, assign, remove_expired, Sessions, Locks, ClientContext, M, ◌>>=◌, ◌>>◌, return,
  raise, lift, get, put_client, put_locks, put_sessions, refuse_if, optional,
}

abbrev pub new_client : ClientContext
new_client = record {
  alive = true;
  auth_try_count = 0;
  mode = command;
  auth_token = none;
  current_path_lock = none;
  download_token = none;
  upload_token = none;
}

abbrev pub is_some : {A : Type 0} → Option A → Bool
is_some none = false
is_some (some a) = true

abbrev pub is_authorized : ClientContext → Bool
is_authorized c = is_some c.auth_token

abbrev pub has_download_token : ClientContext → Bool
has_download_token c = is_some c.download_token

-- Where the source reads through a null `shared_ptr`.
abbrev pub null_pointer : Error
null_pointer = fatal (codes "null pointer")

abbrev pub config_directory : FilePath → FilePath
config_directory root = root /path codes ".tds"

-- `m_auth_try_count` has 7 bits.
abbrev pub next_try_count : ℕ → ℕ
next_try_count n = (n + 1) % 128

abbrev add_object : PathLock → Locks → Locks
add_object lock l = record {
  path_locks = remove_expired l.objects l.path_locks ++ l.next ∷ [];
  objects = (l.next, lock) ∷ l.objects;
  next = l.next + 1;
}

abbrev pub add_token : AuthToken → Sessions → Sessions
add_token token s = record {
  auth_tokens = s.auth_tokens ++ s.next ∷ [];
  objects = (s.next, token) ∷ s.objects;
  next = s.next + 1;
}

-- `std::ranges::find(m_auth_tokens, username, ...)` finds one.
unfoldable pub is_logged_in : Bytes → Store AuthToken → List ℕ → Bool
is_logged_in username objects [] = false
is_logged_in username objects (p ∷ ps) =
    let rest = is_logged_in username objects ps in
    elim (deref p objects) [ none ↦ rest | some t ↦ equal t.username username || rest ]

-- The search of `is_path_locked`, with the check of `has_locked_path`.
unfoldable pub any_lock : FilePath → Store PathLock → List ℕ → Outcome Bool
any_lock path objects [] = ok false
any_lock path objects (p ∷ ps) =
    let rest = any_lock path objects ps in
    elim (deref p objects) [
      | none ↦ rest
      | some lock ↦
          if not (is_absolute path)
          then err (fatal (codes "PathLock::has_locked_path: path must be absolute"))
          else if starts_with lock.path path
          then ok true
          else rest
    ]

-- The search of `throw_if_file_is_already_uploaded`.
unfoldable pub has_lock_at : FilePath → Store PathLock → List ℕ → Bool
has_lock_at path objects [] = false
has_lock_at path objects (p ∷ ps) =
    let rest = has_lock_at path objects ps in
    elim (deref p objects) [ none ↦ rest | some lock ↦ same_path lock.path path || rest ]

module _ {Disk : Type 0} where
  unfoldable pub kill : M Disk (Unit {0})
  kill = put_client (λ c. record c { alive = false })

  unfoldable pub set_mode : ProtocolMode → M Disk (Unit {0})
  set_mode mode = put_client (λ c. record c { mode = mode })

  -- A token that is refused is let go of.
  unfoldable pub set_auth_token : Option ℕ → M Disk (Unit {0})
  set_auth_token none =
      put_client (λ c. record c { auth_try_count = next_try_count c.auth_try_count })
  set_auth_token (some p) = do
    w ← get
    if is_authorized w.client
        then (put_sessions (λ s. record s { objects = release p s.objects })
            >> raise (fail ProtocolCode.user_already_logged))
        else put_client (λ c. record c { auth_token = some p; auth_try_count = 0 })

  unfoldable pub get_auth_token : M Disk AuthToken
  get_auth_token = do
    w ← get
    optional w.client.auth_token (raise null_pointer)
        λ p. optional (deref p w.sessions.objects) (raise null_pointer) return

  unfoldable pub logout : M Disk (Unit {0})
  logout = do
    w ← get
    put_sessions (λ s. record s { objects = release_option w.client.auth_token s.objects })
    put_client (λ c. record c { auth_token = none })

  unfoldable pub release_lock : Option ℕ → M Disk (Unit {0})
  release_lock p = put_locks (λ l. record l { objects = release_option p l.objects })

  unfoldable pub set_path_lock : ℕ → M Disk (Unit {0})
  set_path_lock p = do
    w ← get
    put_client (λ c. record c { current_path_lock = some p })
    release_lock w.client.current_path_lock

  unfoldable pub get_lock : Option ℕ → M Disk PathLock
  get_lock p = do
    w ← get
    optional p (raise null_pointer)
        λ q. optional (deref q w.locks.objects) (raise null_pointer) return

  unfoldable pub get_current_path : M Disk FilePath
  get_current_path = do w ← get; lock ← get_lock w.client.current_path_lock; return lock.path

  unfoldable pub put_lock : ℕ → PathLock → M Disk (Unit {0})
  put_lock p lock = put_locks (λ l. record l { objects = assign p lock l.objects })

  unfoldable pub set_current_path : FilePath → M Disk (Unit {0})
  set_current_path path = do
    w ← get
    lock ← get_lock w.client.current_path_lock
    optional w.client.current_path_lock (raise null_pointer)
        λ p. put_lock p (record lock { path = path })

  unfoldable pub set_download_token : ℕ → M Disk (Unit {0})
  set_download_token p = do
    w ← get
    put_client (λ c. record c { download_token = some p })
    release_lock w.client.download_token

  unfoldable pub set_upload_token : ℕ → M Disk (Unit {0})
  set_upload_token p = do
    w ← get
    put_client (λ c. record c { upload_token = some p })
    release_lock w.client.upload_token

  -- `insert_path_lock` on a token just made.
  unfoldable pub insert_path_lock : PathLock → M Disk ℕ
  insert_path_lock lock = do w ← get; put_locks (add_object lock); return w.locks.next

  -- The constructor of `PathLock`.
  abbrev pub make_path_lock : FilePath → M Disk PathLock
  make_path_lock path =
      refuse_if (not (is_absolute path)) (fatal (codes "PathLock: path must be absolute"))
      >> return (record { path = path; kind = plain })

  unfoldable pub is_path_locked : FilePath → M Disk Bool
  is_path_locked path = do w ← get; lift (any_lock path w.locks.objects w.locks.path_locks)

  unfoldable pub is_path_forbidden : FilePath → M Disk Bool
  is_path_forbidden path = do
    w ← get
    refuse_if (not (is_absolute path)) (
        fail_with ProtocolCode.unknown
          (codes "Server context requires absolute paths. Please send this to server developer."))
    return (starts_with path (config_directory w.root))

module _ {Disk : Type 0} (sys : System Disk) where
  unfoldable pub get_relative_path_to : FilePath → M Disk FilePath
  get_relative_path_to subpath = do
    w ← get
    let result = sys.relative w.disk subpath w.root
    return (codes "/" /path (if same_path result (codes ".") then [] else result))

  unfoldable pub authorize_user : Bytes → Bytes → M Disk ℕ
  authorize_user username password = do
    put_sessions (λ s. record s { auth_tokens = remove_expired s.objects s.auth_tokens })
    w ← get
    refuse_if (not (has_user w.users username)) (fail ProtocolCode.invalid_credentials)
    verified ← lift (verify_password_of_user sys.crypt w.users username password)
    refuse_if (not verified) (fail ProtocolCode.invalid_credentials)
    refuse_if (is_logged_in username w.sessions.objects w.sessions.auth_tokens)
        (fail ProtocolCode.user_already_logged)
    perms ← lift (get_perms_of_user w.users username)
    put_sessions (add_token (record { username = username; perms = perms }))
    return w.sessions.next

  unfoldable pub throw_on_invalid_path : FilePath → M Disk (Unit {0})
  throw_on_invalid_path path = do
    w ← get
    refuse_if (not (starts_with path w.root) || not (sys.exists w.disk path))
        (fatal (codes "ServerContext: invalid path to lock (not subpath of root)"))

  unfoldable pub lock_path : FilePath → M Disk ℕ
  lock_path path = do throw_on_invalid_path path; lock ← make_path_lock path; insert_path_lock lock

  -- The constructor of `DownloadToken`.
  unfoldable pub make_download_token : FilePath → M Disk PathLock
  make_download_token file = do
    w ← get
    lock ← make_path_lock file
    refuse_if (not (sys.is_regular_file w.disk file))
        (fail_with ProtocolCode.invalid_file_type (codes "invalid file (should be regular one)"))
    size ← lift (sys.file_size w.disk file)
    return (record lock { kind = downloading size 0 })

  unfoldable pub download_file : FilePath → M Disk ℕ
  download_file path = do
    throw_on_invalid_path path
    lock ← make_download_token path
    insert_path_lock lock

  unfoldable pub upload_file : FilePath → ℕ → M Disk ℕ
  upload_file path size = do
    w ← get
    refuse_if (not (is_absolute path)) (fail ProtocolCode.invalid_file_type)
    refuse_if (sys.exists w.disk path) (fail ProtocolCode.file_already_exists)
    refuse_if (not (sys.exists w.disk (parent_path path))) (fail ProtocolCode.not_found)
    available ← lift (sys.available w.disk w.root)
    refuse_if (ltb w.upload_max_size size || ltb available size) (fail ProtocolCode.too_large_file)
    refuse_if (has_lock_at path w.locks.objects w.locks.path_locks) (fail ProtocolCode.in_use)
    lock ← make_path_lock path
    insert_path_lock (record lock { kind = uploading (parent_path path) (filename path) [] size 0 })
