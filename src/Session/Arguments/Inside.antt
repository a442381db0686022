-- ===== src/Session/Arguments/Inside.antt =====
-- path_based_command.cpp: the directories that a client can name.
use mathlib.Core.List.{append-nil}
use tin_dox.Prelude.{
  ◌++◌, ◌⊎◌, refl, some, [], true, false, not, ◌||◌, ◌≡◌, sym, ap, subst, ◌∙◌, inl, inr, arith,
  Bytes, ok, starts_with, starts_with-append, Bool-cases, Result-cases,
}
use tin_dox.Protocol.Field.{FieldValue, get_string}
use tin_dox.Paths.{FilePath, ◌/path◌, is_absolute, lexically_normal}
use tin_dox.Paths.Normal.{IsNormal, lexically_normal-IsNormal}
use tin_dox.System.{System}
use tin_dox.Session.Arguments.{final_path, base_path, parse_path, check_directory}
use tin_dox.Session.Context.{config_directory, get_current_path, get_lock, is_path_forbidden}
use tin_dox.Session.State.{World, M, ◌>>=◌, refuse_if-eq-ok, optional-eq-ok}

-- A directory that exists, whose text starts with the root and not with the configuration directory.
pub record IsAllowed {Disk : Type 0} (sys : System Disk) (w : World Disk) (path : FilePath)
    : Type 0 where
  pub under_root : starts_with path w.root ≡ true
  pub public : starts_with path (config_directory w.root) ≡ false
  pub present : sys.exists w.disk path ≡ true
  pub directory : sys.is_directory w.disk path ≡ true

starts_with_self : (p : Bytes) → starts_with p p ≡ true
starts_with_self p = ap (λ q. starts_with q p) (sym (append-nil p)) ∙ starts_with-append p []

final_path-under_root :
    (root current requested : FilePath)
    → starts_with (final_path root current requested) root ≡ true
unfolding final_path
final_path-under_root root current requested =
    ground (arith, starts_with_self root, starts_with-append root requested)

-- An absolute request is only put behind the root, a relative one is normalised.
final_path-cases :
    (root current requested : FilePath)
    → IsNormal root
    → let path = final_path root current requested in
      ((is_absolute requested ≡ true) × (path ≡ root ++ requested))
      ⊎ ((is_absolute requested ≡ false) × IsNormal path)
unfolding final_path
final_path-cases root current requested plain_root =
    let inside = lexically_normal (current /path requested) in
    elim (Bool-cases (is_absolute requested)) [
      | inl absolute ↦ rw absolute (inl (refl, refl))
      | inr relative ↦ elim (Bool-cases (starts_with inside root)) [
        | inl below ↦
            rw (relative, below) (inr (refl, lexically_normal-IsNormal (current /path requested)))
        | inr left ↦ rw (relative, left) (inr (refl, plain_root))
      ]
    ]

-- The current directory is looked up, and no more.
base_path-eq-ok :
    {Disk B : Type 0} (text : FilePath) (w v : World Disk) (b : B) (f : FilePath → M Disk B)
    → (base_path text >>= f) w ≡ (v, ok b)
    → (current : FilePath) × (base_path text w ≡ (w, ok current)) × (f current w ≡ (v, ok b))
unfolding base_path get_current_path get_lock
base_path-eq-ok text w v b f e = elim (Result-cases (base_path text w).1) [
  | inl (current, found) ↦ (current, ground arith, ground arith)
  | inr (x, thrown) ↦ absurd (ground arith)
]

module _ {Disk : Type 0} (sys : System Disk) where
  check_directory-IsAllowed :
      (w w' : World Disk) (text path chosen : FilePath)
      → starts_with chosen w.root ≡ true
      → check_directory sys text chosen w ≡ (w', ok path)
      → (w' ≡ w) × (path ≡ chosen) × IsAllowed sys w chosen
  unfolding check_directory is_path_forbidden
  check_directory-IsAllowed w w' text path chosen under e = elim (Bool-cases (is_absolute chosen)) [
    | inr relative ↦ cc (rw relative at e)
    | inl absolute ↦
        let (allowed, e1) =
          refuse_if-eq-ok w w' path
            (starts_with chosen (config_directory w.root) || not (sys.exists w.disk chosen)) _ _
            (rw absolute at e) in
        let (directory, e2) =
          refuse_if-eq-ok w w' path (not (sys.is_directory w.disk chosen)) _ _ e1 in
        (
          cc e2,
          cc e2,
          record {
            under_root = under;
            public = ground arith;
            present = ground arith;
            directory = ground arith;
          },
        )
  ]

  -- The directory that a command is given exists, and its text starts with the root and not with the
  -- configuration directory. An absolute request is put behind the root as it is. A relative one,
  -- under a root without `.` and `..`, is normalised: whatever names it has, no name of the directory
  -- is `.` or `..`. Parsing it changes nothing.
  pub parse_path-IsAllowed :
      (w w' : World Disk) (value : FieldValue) (path : FilePath)
      → IsNormal w.root
      → parse_path sys value w ≡ (w', ok path)
      → IsAllowed sys w path
        × ((text : Bytes) × (get_string value ≡ some text)
            × (((is_absolute text ≡ true) × (path ≡ w.root ++ text))
                ⊎ ((is_absolute text ≡ false) × IsNormal path)))
        × (w' ≡ w)
  unfolding parse_path
  parse_path-IsAllowed w w' value path plain_root e =
      let (text, typed, e1) = optional-eq-ok w w' path (get_string value) _ _ e in
      let (current, based, e2) = base_path-eq-ok text w w' path _ e1 in
      let (same, chosen, allowed) =
        check_directory-IsAllowed w w' text path (final_path w.root current text)
          (final_path-under_root w.root current text) e2 in
      (
        subst (IsAllowed sys w) (sym chosen) allowed,
        (
          text,
          typed,
          subst
              (λ (p : FilePath).
                ((is_absolute text ≡ true) × (p ≡ w.root ++ text))
                ⊎ ((is_absolute text ≡ false) × IsNormal p))
              (sym chosen) (final_path-cases w.root current text plain_root),
        ),
        same,
      )
