-- ===== src/Cli/User/Passwd.antt =====
-- server/src/cli/user_commands/user_passwd_command.cpp: whose password can be changed, and to what.
use tin_dox.Prelude.{
  ℕ, zero, suc, ◌<◌, Bool, true, false, List, [], ◌∷◌, none, ◌≡◌, refl, Bytes, arith, equal, ok,
  drop, >>=-eq-ok, if◌then◌else◌, ap, sym, ◌∙◌, subst, ◌>>=◌,
}
use tin_dox.Protocol.Error.{Outcome}
use tin_dox.Cli.User.{Input, get_line, read_line, max_try_count, execute_passwd}
use tin_dox.User.Hash.{Crypt}
use tin_dox.User.Table.{
  UserTable, find_user, get_password_hash_of_user, is_password_ok, verify_password_of_user,
  set_password_of_user,
}
use tin_dox.User.Table.Laws.{verify-set_password}

-- A line of the input, which is empty behind its end.
unfoldable pub line_at : ℕ → List Bytes → Bytes
line_at i [] = []
line_at zero (line ∷ lines) = line
line_at (suc i) (line ∷ lines) = line_at i lines

-- The first line that a test accepts, among the lines that a prompt has attempts for.
pub record IsAnswer (test : Bytes → Outcome Bool) (attempts i : ℕ) (lines : List Bytes)
    : Type 0 where
  pub in_time : i < attempts
  pub accepted : test (line_at i lines) ≡ ok true
  pub refused : (j : ℕ) → j < i → test (line_at j lines) ≡ ok false

line_at-rest : (i : ℕ) (lines : List Bytes) → line_at (suc i) lines ≡ line_at i (get_line lines).1
unfolding line_at
line_at-rest i [] = refl
line_at-rest i (line ∷ lines) = refl

first_input : (lines : List Bytes) → get_line lines ≡ (line_at 0 lines, drop 1 lines)
unfolding line_at
first_input [] = refl
first_input (line ∷ lines) = refl

first_line : (lines : List Bytes) → (get_line lines).0 ≡ line_at 0 lines
unfolding line_at
first_line [] = refl
first_line (line ∷ lines) = refl

drop-rest :
    (i : ℕ) (lines : List Bytes) → drop (suc i) (get_line lines).1 ≡ drop (suc (suc i)) lines
drop-rest i [] = refl
drop-rest i (line ∷ lines) = refl

module _ (test : Bytes → Outcome Bool) where
  IsAnswer-now :
      (n : ℕ) (lines : List Bytes)
      → test (line_at 0 lines) ≡ ok true
      → IsAnswer test (suc n) 0 lines
  IsAnswer-now n lines passed = record {
    in_time = omega arith;
    accepted = passed;
    refused = λ j less. absurd (omega arith);
  }

  IsAnswer-later :
      (n i : ℕ) (lines : List Bytes)
      → test (line_at 0 lines) ≡ ok false
      → IsAnswer test n i (get_line lines).1
      → IsAnswer test (suc n) (suc i) lines
  IsAnswer-later n i lines failed a = record {
    in_time = omega (arith, a.in_time);
    accepted = ap test (line_at-rest i lines) ∙ a.accepted;
    refused = earlier;
  }
    where
      earlier : (j : ℕ) → j < suc i → test (line_at j lines) ≡ ok false
      earlier zero less = failed
      earlier (suc j) less = ap test (line_at-rest j lines) ∙ a.refused j (omega arith)

  -- A prompt that ends has taken the first line that passes, and left the lines behind it.
  read_line-IsAnswer :
      (n : ℕ) (lines : List Bytes) (r : Input)
      → read_line test n lines ≡ ok r
      → (i : ℕ) × IsAnswer test n i lines × (r ≡ (line_at i lines, drop (suc i) lines))
  unfolding read_line
  read_line-IsAnswer zero lines r h = cc
  read_line-IsAnswer (suc n) lines r h =
      let (is_ok, passed, e) = >>=-eq-ok (test (get_line lines).0) _ h in
      go is_ok (ap test (sym (first_line lines)) ∙ passed) e
        (read_line-IsAnswer n (get_line lines).1 r)
    where
      go :
          (is_ok : Bool)
          → test (line_at 0 lines) ≡ ok is_ok
          → (if is_ok then ok (get_line lines) else read_line test n (get_line lines).1) ≡ ok r
          → (read_line test n (get_line lines).1 ≡ ok r
              → (i : ℕ) × IsAnswer test n i (get_line lines).1
                × (r ≡ (line_at i (get_line lines).1, drop (suc i) (get_line lines).1)))
          → (i : ℕ) × IsAnswer test (suc n) i lines × (r ≡ (line_at i lines, drop (suc i) lines))
      go true passed e later =
          let same : r ≡ get_line lines = cc e in
          (0, IsAnswer-now n lines passed, same ∙ first_input lines)
      go false passed e later =
          let (i, a, same) = later e in
          (
            suc i,
            IsAnswer-later n i lines passed a,
            same
                ∙ ap (λ (line : Bytes). (line, drop (suc i) (get_line lines).1))
                    (sym (line_at-rest i lines))
                ∙ ap (λ (rest : List Bytes). (line_at (suc i) lines, rest)) (drop-rest i lines),
          )

-- `tds user passwd` behind its second prompt, and behind its first.
abbrev after_new : Crypt → UserTable → Bytes → Input → Outcome UserTable
after_new crypt t username new =
    read_line (λ line. ok (equal line new.0)) max_try_count new.1 >>= λ repeated.
    set_password_of_user crypt t username new.0

abbrev after_old : Crypt → UserTable → Bytes → Input → Outcome UserTable
after_old crypt t username old =
    read_line (λ line. ok (is_password_ok line)) max_try_count old.1 >>= after_new crypt t username

-- A change of a password that succeeds. The old password is the first line of the input that was the
-- password of the user, the new one is the first line behind it that is short enough, and a line
-- behind that repeats it, each among the three that its prompt has attempts for. From then on the user
-- is known by the new password, and the other users are as before.
pub execute_passwd_lem :
    (crypt : Crypt) (username : Bytes) (lines : List Bytes) (t t' : UserTable)
    → execute_passwd crypt username lines t ≡ ok t'
    → (i : ℕ) × (j : ℕ) × (k : ℕ) × (let new = line_at j (drop (suc i) lines) in
        IsAnswer (verify_password_of_user crypt t username) max_try_count i lines
        × IsAnswer (λ line. ok (is_password_ok line)) max_try_count j (drop (suc i) lines)
        × IsAnswer (λ line. ok (equal line new)) max_try_count k (drop (suc j) (drop (suc i) lines))
        × (verify_password_of_user crypt t' username new ≡ ok true)
        × ((name : Bytes)
            → (if equal username name then none else find_user name t')
              ≡ (if equal username name then none else find_user name t)))
unfolding execute_passwd
execute_passwd_lem crypt username lines t t' h =
    let (hash, _, e1) = >>=-eq-ok (get_password_hash_of_user t username) _ h in
    let (old, is_old, e2) =
      >>=-eq-ok (read_line (verify_password_of_user crypt t username) max_try_count lines) _ e1 in
    let (i, old_answer, old_at) = read_line-IsAnswer _ max_try_count lines old is_old in
    let e2' = subst (λ (r : Input). after_old crypt t username r ≡ ok t') old_at e2 in
    let (new, is_new, e3) =
      >>=-eq-ok (read_line (λ line. ok (is_password_ok line)) max_try_count (drop (suc i) lines)) _
        e2' in
    let (j, new_answer, new_at) =
      read_line-IsAnswer _ max_try_count (drop (suc i) lines) new is_new in
    let e3' = subst (λ (r : Input). after_new crypt t username r ≡ ok t') new_at e3 in
    let word = line_at j (drop (suc i) lines) in
    let rest = drop (suc j) (drop (suc i) lines) in
    let (repeated, is_same, e4) =
      >>=-eq-ok (read_line (λ line. ok (equal line word)) max_try_count rest) _ e3' in
    let (k, same_answer, _) = read_line-IsAnswer _ max_try_count rest repeated is_same in
    (
      i,
      j,
      k,
      (
        old_answer,
        new_answer,
        same_answer,
        (verify-set_password crypt t t' username word username e4).0,
        λ name. (verify-set_password crypt t t' username word name e4).1,
      ),
    )
