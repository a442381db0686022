-- ===== src/Terminal/Files/Whole.antt =====
-- cli/src/tui/tui.cpp with ls.cpp of the server: the files that the client shows are those that the
-- server lists.
use tin_dox.Prelude.{
  true, List, [], ◌∷◌, ◌++◌, map, reverse, ◌≡◌, refl, ap, ◌∙◌, sym, if◌then◌else◌, Bytes, codes,
  All, Bool-cases, inl, inr, ok, err, some, starts_with,
}
use mathlib.Core.List.{append_assoc, reverse-cons}
use tin_dox.Paths.{FilePath, filename, is_absolute}
use tin_dox.System.{System, Entry}
use tin_dox.Protocol.Error.{Outcome}
use tin_dox.Session.State.{World, continue_with}
use tin_dox.Session.Context.{config_directory, is_path_forbidden}
use tin_dox.Session.Commands.Account.{line}
use tin_dox.Session.Commands.Browse.{ls_line, ls_lines, execute_ls, path_or_current}
use tin_dox.Terminal.Service.{TdpService, Exchanged, pwd, ls, run_call}
use tin_dox.Terminal.Files.Names.{at, pop_back-snoc}
use tin_dox.Terminal.Files.Rows.{IsReadable, shown_name, row, both, read_line}
use tin_dox.Terminal.Files.Words.{is_tidy, spaced-words}
use tin_dox.Terminal.Files.{
  words, pop_back, spaced, name_column, listed, read_listing, start_listing, after_pwd, after_ls,
  show_listing, set_service, Tui, shown, update_files_entries,
}

-- The entries whose path does not begin, as a text, with that of the configuration directory.
unfoldable pub visible : FilePath → List Entry → List Entry
visible root [] = []
visible root (e ∷ es) =
    let rest = visible root es in
    if starts_with e.path (config_directory root) then rest else e ∷ rest

abbrev written : List Entry → Bytes
written [] = []
written (e ∷ es) = line (ls_line both e) ++ written es

module _ {Disk : Type 0} (w : World Disk) where
  abbrev add_visible : Entry → World Disk × Outcome Bytes → World Disk × Outcome Bytes
  add_visible e r = continue_with r (λ more v. (
    v,
    ok (
        if starts_with e.path (config_directory w.root)
        then more
        else line (ls_line both e) ++ more),
  ))

  ls_lines-cons :
      (e : Entry) (es : List Entry) (w' : World Disk) (text : Bytes)
      → ls_lines both (e ∷ es) w ≡ (w', ok text)
      → add_visible e (ls_lines both es w) ≡ (w', ok text)
  unfolding ls_lines is_path_forbidden
  ls_lines-cons e es w' text h = elim (Bool-cases (is_absolute e.path)) [
    | inl whole ↦ cc (rw whole at h)
    | inr other ↦ cc (rw other at h)
  ]

module _ {Disk : Type 0} where
  ls_lines-visible :
      (w w' : World Disk) (es : List Entry) (text : Bytes)
      → ls_lines both es w ≡ (w', ok text)
      → text ≡ written (visible w.root es)
  unfolding ls_lines visible
  ls_lines-visible w w' [] text h = cc
  ls_lines-visible w w' (e ∷ es) text h =
      go (ls_lines both es w) (λ v more. ls_lines-visible w v es more)
        (ls_lines-cons w e es w' text h)
    where
      go :
          (r : World Disk × Outcome Bytes)
          → ((v : World Disk) (more : Bytes)
              → r ≡ (v, ok more)
              → more ≡ written (visible w.root es))
          → add_visible w e r ≡ (w', ok text)
          → text ≡ written (visible w.root (e ∷ es))
      go (v, err x) ih h = cc
      go (v, ok more) ih h = elim (Bool-cases (starts_with e.path (config_directory w.root))) [
        | inl hidden ↦ rw hidden (cc (rw hidden at h, ih v more refl))
        | inr other ↦ rw other (cc (rw other at h, ih v more refl))
      ]

  execute_ls-visible :
      (sys : System Disk) (w w' : World Disk) (directory : FilePath) (es : List Entry)
      (text : Bytes)
      → sys.entries w.disk directory ≡ ok es
      → execute_ls sys (some directory) both w ≡ (w', ok text)
      → text ≡ written (visible w.root es)
  unfolding execute_ls path_or_current
  execute_ls-visible sys w w' directory es text there run =
      ls_lines-visible w w' es text (rw there at run)

abbrev pub shown_names : List Entry → List Bytes
shown_names = map (λ e. shown_name (filename e.path) e.size)

abbrev pub rows : (es : List Entry) → All IsReadable es → List Bytes
rows [] rs = []
rows (e ∷ es) rs = row e (rs.0.date ++ b' ' ∷ rs.0.time) ∷ rows es rs.1

heap : (x : Bytes) (xs ys : List Bytes) → reverse xs ++ x ∷ ys ≡ reverse (x ∷ xs) ++ ys
heap x xs ys = sym (rw (reverse-cons x xs) (append_assoc (reverse xs) (x ∷ []) ys))

read_written :
    (es : List Entry) (rs : All IsReadable es) (fs rows_above : List Bytes)
    → read_listing (words [] (written es ++ codes "\n")) (at fs rows_above [] name_column)
      ≡ listed
          (at (reverse (shown_names es) ++ fs) (reverse (rows es rs) ++ rows_above) [] name_column)
unfolding read_listing words
read_written [] rs fs rows_above = refl
read_written (e ∷ es) rs fs rows_above =
    let name = shown_name (filename e.path) e.size in
    let one = row e (rs.0.date ++ b' ' ∷ rs.0.time) in
    ap (λ t. read_listing (words [] t) (at fs rows_above [] name_column))
      (append_assoc (line (ls_line both e)) (written es) (codes "\n"))
    ∙ read_line e rs.0 fs rows_above (written es ++ codes "\n")
    ∙ read_written es rs.1 (name ∷ fs) (one ∷ rows_above)
    ∙ ap (λ t. listed (at t (reverse (rows es rs.1) ++ one ∷ rows_above) [] name_column))
        (heap name (shown_names es) fs)
    ∙ ap (λ t. listed (at (reverse (name ∷ shown_names es) ++ fs) t [] name_column))
        (heap one (rows es rs.1) rows_above)

-- The view of files, where the server answers pwd by a path without white space but single blanks
-- within it, and ls by what execute_ls writes with sizes and times: the client shows that path, and
-- behind the way up, in the order of the server, the entries whose path does not begin, as a text, with
-- that of the configuration directory, and no others, a directory with a slash. Where the names of these
-- are of at most 40 characters, without white space but single blanks of which none is behind a quote,
-- and sizes and times fit.
pub update_files_entries_lem :
    {Disk : Type 0} (sys : System Disk) (w w' : World Disk) (directory : FilePath) (es : List Entry)
    (text : Bytes) (exchange : Bytes → Exchanged) (t : Tui) (at_pwd at_ls : TdpService)
    (path : Bytes)
    → sys.entries w.disk directory ≡ ok es
    → execute_ls sys (some directory) both w ≡ (w', ok text)
    → (rs : All IsReadable (visible w.root es))
    → run_call exchange pwd t.tdp_service ≡ (at_pwd, true)
    → at_pwd.response_body ≡ path ++ codes "\n\n"
    → is_tidy true path ≡ true
    → run_call exchange (ls path (codes "true") (codes "true")) at_pwd ≡ (at_ls, true)
    → at_ls.response_body ≡ text ++ codes "\n"
    → update_files_entries exchange t
      ≡ shown true (record t {
        tdp_service = at_ls;
        location = path;
        file_names = reverse (shown_names (visible w.root es)) ++ (start_listing path).f_names;
        file_entries = reverse (rows (visible w.root es) rs) ++ (start_listing path).entries;
      })
unfolding update_files_entries
update_files_entries_lem sys w w' directory es text exchange t at_pwd at_ls path there run rs p pe
      tidy l le =
    let place : pop_back (spaced (words [] at_pwd.response_body)) ≡ path =
      rw pe (rw (spaced-words [] path tidy) (pop_back-snoc path b' ')) in
    let seen = record t { tdp_service = at_pwd; location = path } in
    let above = (start_listing path).f_names in
    ap (after_pwd exchange t) p
    ∙ ap
        (λ q.
          after_ls exchange (record t { tdp_service = at_pwd; location = q })
            (run_call exchange (ls q (codes "true") (codes "true")) at_pwd))
        place
    ∙ ap (after_ls exchange seen) l
    ∙ ap
        (λ u.
          show_listing (set_service seen at_ls) (read_listing (words [] u) (start_listing path)))
        (le ∙ ap (λ u. u ++ codes "\n") (execute_ls-visible sys w w' directory es text there run))
    ∙ ap (show_listing (set_service seen at_ls)) (read_written (visible w.root es) rs above above)
