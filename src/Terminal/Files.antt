-- ===== src/Terminal/Files.antt =====
-- cli/src/tui/tui.cpp: what the windows of the terminal client show of the server's answers.
pub mod Words
pub mod Names
pub mod Rows
pub mod Whole
mod Tests
use tin_dox.Prelude.{
  ℕ, ◌+◌, ◌-◌, ◌^◌, ◌%◌, Bool, true, false, ◌&&◌, ◌||◌, not, List, [], ◌∷◌, ◌++◌, Option, none,
  some, ◌==◌, leb, ltb, length, drop, if◌then◌else◌, Bytes, codes, equal,
}
use tin_dox.Session.Commands.Browse.{replicate}
use tin_dox.Terminal.Service.{
  TdpService, Exchanged, Call, name, pwd, ls, cd, run_call, e_closed_con, e_exchange_message,
}

-- `isspace`.
abbrev pub is_space : ℕ → Bool
is_space c = (leb 9 c && leb c 13) || c == b' '

abbrev pub flush : Bytes → List Bytes → List Bytes
flush [] rest = rest
flush (c ∷ cs) rest = (c ∷ cs) ∷ rest

-- The words that `>>` reads from a text, behind the start of one.
unfoldable pub words : Bytes → Bytes → List Bytes
words word [] = flush word []
words word (c ∷ cs) =
    let rest = words (if is_space c then [] else word ++ c ∷ []) cs in
    if is_space c then flush word rest else rest

-- `pop_back`.
unfoldable pub pop_back : Bytes → Bytes
pop_back [] = []
pop_back (c ∷ []) = []
pop_back (c ∷ d ∷ cs) = c ∷ pop_back (d ∷ cs)

-- `ends_with` of one character.
unfoldable pub ends_with : Bytes → ℕ → Bool
ends_with [] x = false
ends_with (c ∷ []) x = c == x
ends_with (c ∷ d ∷ cs) x = ends_with (d ∷ cs) x

unfoldable pub spaced : List Bytes → Bytes
spaced [] = []
spaced (w ∷ ws) = w ++ b' ' ∷ spaced ws

-- `word_counter`, and the loop over the words of a name.
pub data Column : Type 0 where
  name_column naming size_column date_column time_column : Column

-- The variables of `updateFilesEntries`, the lists with their last element first.
pub record Listing : Type 0 where
  pub f_names : List Bytes
  pub entries : List Bytes
  pub entry : Bytes
  pub column : Column

-- `space_numb` is a `size_t`: where the text is wider than the column it wraps, and `string` throws
-- for a size above half of its range.
abbrev pub space_numb : ℕ → ℕ → ℕ
space_numb width size = (width + (2 ^ 64 - size)) % 2 ^ 64

unfoldable pub padding : ℕ → ℕ → Option Bytes
padding width size =
    if leb (2 ^ 63) (space_numb width size)
    then none
    else some (
        if ltb 0 (space_numb width size) then replicate (space_numb width size) b' ' else codes " ")

abbrev pub pad : Listing → Column → Option Bytes → Option Listing
pad s column none = none
pad s column (some blanks) = some (record s { entry = s.entry ++ blanks; column = column })

-- The end of a name: it is kept, and padded to 40.
abbrev pub close_name : Listing → Bytes → Option Listing
close_name s text =
    pad (record s { f_names = text ∷ s.f_names; entry = text }) size_column
      (padding 40 (length text))

abbrev pub name_word : Listing → Bytes → Option Listing
name_word s word =
    if ends_with word b'"'
    then close_name s (s.entry ++ pop_back word)
    else some (record s { entry = s.entry ++ (word ++ b' ' ∷ []); column = naming })

-- A directory has no size, and gets a slash.
abbrev pub mark_directory : Bytes → Listing → Listing
mark_directory text s = elim s.f_names [
  | [] ↦ s
  | last ∷ more ↦ record s {
    f_names = (last ++ codes "/") ∷ more;
    entry = (last ++ codes "/") ++ drop (length (last ++ codes "/")) text;
  }
]

abbrev pub size_word : Listing → Bytes → Option Listing
size_word s word =
    pad
      (if equal word (codes "-")
        then mark_directory (s.entry ++ word) s
        else record s { entry = s.entry ++ word })
      date_column (padding 15 (length word))

-- One round of the loop, and one of the loop within it.
unfoldable pub read_word : Column → Listing → Bytes → Option Listing
read_word name_column s word = name_word s (drop 1 word)
read_word naming s word = name_word s word
read_word size_column s word = size_word s word
read_word date_column s word =
    some (record s { entry = s.entry ++ (drop 1 word ++ b' ' ∷ []); column = time_column })
read_word time_column s word = some (record s {
  entries = (s.entry ++ pop_back word) ∷ s.entries;
  entry = [];
  column = name_column;
})

-- The lists, or an exception; a name without its last quote makes the inner loop go on for ever.
pub data Listed : Type 0 where
  listed : Listing → Listed
  thrown endless : Listed

abbrev pub at_end : Column → Listing → Listed
at_end naming s = endless
at_end _ s = listed s

unfoldable pub read_listing : List Bytes → Listing → Listed
read_listing [] s = at_end s.column s
read_listing (word ∷ more) s = elim (read_word s.column s word) [
  | none ↦ thrown
  | some t ↦ read_listing more t
]

-- The lists before the answer is read. The root has nothing above it.
abbrev pub start_listing : Bytes → Listing
start_listing path =
    let above = if equal path (codes "/") then [] else codes "../" ∷ [] in
    record { f_names = above; entries = above; entry = []; column = name_column }

-- `Tui`, and the variables of its view of files.
pub record Tui : Type 0 where
  pub tdp_service : TdpService
  pub need_to_reconnect : Bool
  pub location : Bytes
  pub file_entries : List Bytes
  pub file_names : List Bytes

-- A method returns with what it answers, or throws, or does not come back.
pub data Viewed : Type 0 where
  shown : Bool → Tui → Viewed
  crashed hung : Viewed

abbrev pub disconnected : Tui → Tui
disconnected t = record t { need_to_reconnect = true }

abbrev pub set_service : Tui → TdpService → Tui
set_service t s = record t { tdp_service = s }

abbrev pub show_listing : Tui → Listed → Viewed
show_listing t (listed l) =
    shown true (record t { file_entries = l.entries; file_names = l.f_names })
show_listing t thrown = crashed
show_listing t endless = hung

-- `selected_entry`, when the lists may have changed.
abbrev pub select_first : ℕ → Viewed → Viewed × ℕ
select_first n (shown true u) = (shown true u, 0)
select_first n v = (v, n)

module _ (exchange : Bytes → Exchanged) where
  abbrev pub after_ls : Tui → TdpService × Bool → Viewed
  after_ls t (s, false) = shown false (disconnected (set_service t s))
  after_ls t (s, true) =
      show_listing (set_service t s)
        (read_listing (words [] s.response_body) (start_listing t.location))

  abbrev pub after_pwd : Tui → TdpService × Bool → Viewed
  after_pwd t (s, false) = shown false (disconnected (set_service t s))
  after_pwd t (s, true) =
      let path = pop_back (spaced (words [] s.response_body)) in
      after_ls (record t { tdp_service = s; location = path })
        (run_call exchange (ls path (codes "true") (codes "true")) s)

  unfoldable pub update_files_entries : Tui → Viewed
  update_files_entries t = after_pwd t (run_call exchange pwd t.tdp_service)

  abbrev pub after_name : Tui → Bytes → TdpService × Bool → Tui × Bytes × Bool
  after_name t user (s, false) = (disconnected (set_service t s), user, false)
  after_name t user (s, true) =
      (set_service t s, pop_back (user ++ spaced (words [] s.response_body)), true)

  -- With what the name has been before.
  unfoldable pub get_user_name : Tui → Bytes → Tui × Bytes × Bool
  get_user_name t user = after_name t user (run_call exchange name t.tdp_service)

  unfoldable pub check_if_should_reconnect : Tui → Tui × Bool
  check_if_should_reconnect t =
      let code = t.tdp_service.error_code in
      if code == e_closed_con || code == e_exchange_message
      then (disconnected t, true)
      else (t, false)

  -- An error that does not end the connection is shown in a window.
  abbrev pub after_cd : Tui → ℕ → TdpService × Bool → Viewed × ℕ
  after_cd t selected (s, false) =
      let (u, lost) = check_if_should_reconnect (set_service t s) in (shown (not lost) u, selected)
  after_cd t selected (s, true) = select_first selected (update_files_entries (set_service t s))

  -- The entry that is selected stays, unless another directory is shown.
  unfoldable pub change_directory : Bytes → Tui → ℕ → Viewed × ℕ
  change_directory dir_name t selected_entry =
      if ends_with dir_name b'/'
      then after_cd t selected_entry (run_call exchange (cd dir_name) t.tdp_service)
      else (shown true t, selected_entry)
