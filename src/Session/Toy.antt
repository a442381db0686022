-- ===== src/Session/Toy.antt =====
-- A server on a small file system, with one user logged in and a second client that is not.
use tin_dox.Prelude.{
  List, [], ◌∷◌, ◌++◌, Bool, true, false, Option, none, some, codes, equal, ok, if◌then◌else◌,
}
use tin_dox.Paths.{FilePath}
use tin_dox.System.{System, no_entries}
use tin_dox.Session.State.{AuthToken, PathLock, plain, ClientContext, World}
use tin_dox.Session.Context.{new_client}

-- The paths that exist, and which of them are directories.
abbrev pub Toy : Type 0
Toy = List (FilePath × Bool)

unfoldable pub toy_find : FilePath → Toy → Option Bool
toy_find p [] = none
toy_find p ((q, d) ∷ more) = if equal q p then some d else toy_find p more

abbrev pub toy : System Toy
toy = record {
  exists = λ d p. elim (toy_find p d) [ none ↦ false | some b ↦ true ];
  is_directory = λ d p. elim (toy_find p d) [ none ↦ false | some b ↦ b ];
  is_regular_file =
      λ d p. elim (toy_find p d) [ none ↦ false | some true ↦ false | some false ↦ true ];
  file_size = λ d p. ok 10;
  available = λ d p. ok 100;
  create_directory = λ d p. ((p, true) ∷ d, ok tt);
  remove = λ d p. (d, ok tt);
  remove_all = λ d p. (d, ok 1);
  rename = λ d p q. (d, 0);
  copy_file = λ d p q. ((q, false) ∷ d, 0);
  entries = λ d p. ok [];
  walk = λ d p. ok no_entries;
  relative = λ d p q. codes ".";
  parse_backup = λ d p. none;
  open_read = λ d p. ok tt;
  open_file = λ a d p. ((p, false) ∷ d, ok tt);
  append = λ d p bytes. (d, ok tt);
  write_backup = λ d p file size offset. (p, false) ∷ d;
  quoted = λ p. p;
  format_errc = λ n. [];
  crypt = λ word salt. some (salt ++ word);
}

abbrev pub disk : Toy
disk =
    (codes "/srv", true)
    ∷ (codes "/srv/a", true)
    ∷ (codes "/srv/a/f", false)
    ∷ (codes "/srv/.tds", true)
    ∷ []

abbrev pub ada_token : AuthToken
ada_token = record { username = codes "ada"; perms = 62 }

abbrev pub a_lock : PathLock
a_lock = record { path = codes "/srv/a"; kind = plain }

abbrev pub root_lock : PathLock
root_lock = record { path = codes "/srv"; kind = plain }

-- Client 0 stands in `/srv/a`; the world is seen by the client given.
abbrev pub world_of : ClientContext → World Toy
world_of client = record {
  disk = disk;
  root = codes "/srv";
  upload_max_size = 50;
  users =
      record { name = codes "ada"; password_hash = codes ".0p"; perms = 62 }
      ∷ record { name = codes "bob"; password_hash = codes ".0q"; perms = 2 }
      ∷ [];
  sessions = record { auth_tokens = 0 ∷ []; objects = (0, ada_token) ∷ []; next = 1 };
  locks = record { path_locks = 0 ∷ 1 ∷ []; objects = (1, root_lock) ∷ (0, a_lock) ∷ []; next = 2 };
  client = client;
}

abbrev pub stranger : World Toy
stranger = world_of new_client

-- `ada` again, from the root.
abbrev pub inside : World Toy
inside = world_of (record new_client { auth_token = some 0; current_path_lock = some 1 })
