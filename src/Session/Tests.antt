-- ===== src/Session/Tests.antt =====
-- The theorems on sessions, at requests of a small server.
use tin_dox.Prelude.{
  ℕ, ◌++◌, true, ◌⊎◌, ◌==◌, zero, suc, [], ◌∷◌, false, some, ◌≡◌, refl, inl, inr, arith, Bytes,
  codes, equal, starts_with, ok, err, if◌then◌else◌,
}
use tin_dox.Protocol.Error.{ProtocolCode, Error, running, fail}
use tin_dox.Prelude.Decimal.{to_decimal}
use tin_dox.Protocol.Field.{string, get_string}
use tin_dox.Protocol.Interpreter.{Request}
use tin_dox.Protocol.Interpreter.Bounds.{initial-IsBounded}
use tin_dox.Protocol.Response.{error_response}
use tin_dox.Paths.{
  ◌/path◌, is_absolute, has_filename, lexically_normal, filenames, same_path, parent_path, filename,
}
use tin_dox.Paths.Normal.{IsNormal}
use tin_dox.User.Hash.{hash, salt}
use tin_dox.User.Table.{has_user, find_user, get_user, verify_password_of_user}
use tin_dox.Session.Toy.{Toy, toy_find, toy, disk, a_lock, stranger, inside}
use tin_dox.Session.State.{uploading, World, deref, remove_expired}
use tin_dox.Session.Context.{
  get_current_path, get_lock, upload_file, insert_path_lock, has_lock_at, is_path_forbidden,
}
use tin_dox.Session.Arguments.{parse_path, check_directory, base_path, final_path}
use tin_dox.Session.Arguments.Inside.{IsAllowed, parse_path-IsAllowed}
use tin_dox.Session.Commands.Files.{execute_rm, execute_rename, execute_mv, free_path, copy_name}
use tin_dox.Session.Commands.Locked.{locked_files_stay}
use tin_dox.Session.Commands.Attempts.{attempt, three_attempts}
use tin_dox.Session.Commands.Copies.{AreTaken, free_path_lem}
use tin_dox.Session.Commands.Limits.{IsAcceptable, upload_file-IsAcceptable}
use tin_dox.Session.Client.{handle_rounds, handle_input}
use tin_dox.Session.Client.Invariant.{IsSound, handle_input-IsSound}
use tin_dox.Session.Client.Loop.{IsThrown, handle_input_ends}
use tin_dox.Session.Connection.{accepted}
use tin_dox.Session.Unique.{IsUnique, AreUnique, contains}
use tin_dox.Session.Executor.{
  command_list, command_name, find_command, requires_authorization, answer, execute_command,
}
use tin_dox.Session.Executor.Authorization.{
  held_perms, may_use, refusal, execute_command-refused, execute_command-logged_out,
}
use tin_dox.Session.Executor.Exclusive.{execute_command-IsUnique}

abbrev rm_request : Request
rm_request = record {
  name = codes "rm";
  fields = record { name = codes "name"; value = string (codes "a") } ∷ [];
}

execute_command-refused_example : execute_command toy 5 rm_request stranger ≡ (
  stranger,
  answer (
      error_response
        (codes "rm")
        (refusal (codes "rm") (held_perms stranger) (find_command (codes "rm") command_list))),
)
execute_command-refused_example =
    execute_command-refused toy 5 rm_request stranger (inl refl)
      (unfold held_perms may_use find_command command_name requires_authorization equal in refl)

execute_command-logged_out_example : (execute_command toy 5 rm_request stranger).0 ≡ stranger
execute_command-logged_out_example =
    execute_command-logged_out toy 5 rm_request stranger refl (unfold equal in refl)
      (unfold equal in refl) (unfold equal in refl)

auth_request : Request
auth_request = record {
  name = codes "auth";
  fields =
      record { name = codes "login"; value = string (codes "bob") }
      ∷ record { name = codes "passwd"; value = string (codes "q") }
      ∷ [];
}

stranger-IsUnique : IsUnique stranger.sessions
unfolding AreUnique contains
stranger-IsUnique = (omega arith, refl, tt, tt)

execute_command-IsUnique_example : IsUnique (execute_command toy 5 auth_request stranger).0.sessions
execute_command-IsUnique_example =
    execute_command-IsUnique toy 5 auth_request stranger stranger-IsUnique

locked_files_stay_example :
    (execute_rm toy (codes "a") inside ≡ (inside, err (fail ProtocolCode.in_use)))
    × (execute_rename toy (codes "a") (codes "b") inside ≡ (inside, err (fail ProtocolCode.in_use)))
    × (execute_mv toy (codes "a") (codes "/srv") inside ≡ (inside, err (fail ProtocolCode.in_use)))
locked_files_stay_example =
    locked_files_stay toy inside (codes "/srv") (codes "a") (codes "b") (codes "/srv") 0 a_lock
      (unfold get_current_path get_lock deref in refl)
      (unfold ◌/path◌ is_absolute has_filename in refl)
      (unfold ◌/path◌ is_absolute has_filename toy_find equal in refl) (unfold contains in refl)
      (unfold deref in refl) (unfold starts_with ◌/path◌ is_absolute has_filename in refl)

abbrev wrong : Bytes × Bytes
wrong = (codes "ada", codes "x")

abbrev nobody : Bytes × Bytes
nobody = (codes "eve", codes "x")

three_attempts_example :
    let two = attempt toy nobody (attempt toy wrong stranger) in
    let three = attempt toy wrong two in
    (two.client.alive ≡ stranger.client.alive)
    × (three.client.alive ≡ false)
    × (three.client.auth_token ≡ stranger.client.auth_token)
    × (three.sessions.objects ≡ stranger.sessions.objects)
three_attempts_example =
    three_attempts toy stranger wrong nobody wrong refl
      (inr (unfold verify_password_of_user get_user find_user equal hash salt in refl))
      (inl (unfold has_user find_user equal in refl))
      (inr (unfold verify_password_of_user get_user find_user equal hash salt in refl))

path_allowed : parse_path toy (string (codes "a")) inside ≡ (inside, ok (codes "/srv/a"))
unfolding parse_path check_directory base_path final_path get_current_path get_lock deref
    is_path_forbidden is_absolute has_filename ◌/path◌ lexically_normal filenames starts_with
    toy_find equal get_string
path_allowed = refl

srv-IsNormal : IsNormal (codes "/srv")
unfolding IsNormal filenames equal
srv-IsNormal = ((refl, refl), tt)

parse_path-IsAllowed_example :
    IsAllowed toy inside (codes "/srv/a")
    × ((text : Bytes) × (get_string (string (codes "a")) ≡ some text)
        × (((is_absolute text ≡ true) × (codes "/srv/a" ≡ codes "/srv" ++ text))
            ⊎ ((is_absolute text ≡ false) × IsNormal (codes "/srv/a"))))
    × (inside ≡ inside)
parse_path-IsAllowed_example =
    parse_path-IsAllowed toy inside inside (string (codes "a")) (codes "/srv/a") srv-IsNormal
      path_allowed

first_is_taken : AreTaken toy disk (codes "/srv") (codes "a") 1
unfolding AreTaken copy_name ◌/path◌ is_absolute has_filename toy_find equal
first_is_taken zero lt = refl
first_is_taken (suc j) lt = absurd (omega arith)

free_path_lem_example :
    free_path toy 5 0 disk (codes "/srv") (codes "a")
    ≡ some (codes "/srv" /path copy_name (codes "a") 1)
free_path_lem_example =
    free_path_lem toy disk (codes "/srv") (codes "a") 5 1 (omega arith)
      (unfold copy_name to_decimal ◌/path◌ is_absolute has_filename toy_find equal in refl)
      first_is_taken

abbrev uploaded : World Toy
uploaded = record inside {
  locks = record {
    path_locks = 0 ∷ 1 ∷ 2 ∷ [];
    objects =
        (2, record { path = codes "/srv/n"; kind = uploading (codes "/srv") (codes "n") [] 40 0 })
        ∷ inside.locks.objects;
    next = 3;
  };
}

upload_runs : upload_file toy (codes "/srv/n") 40 inside ≡ (uploaded, ok 2)
unfolding upload_file insert_path_lock has_lock_at deref remove_expired same_path parent_path
    filename is_absolute has_filename toy_find equal
upload_runs = refl

upload_file-IsAcceptable_example :
    IsAcceptable toy inside (codes "/srv/n") 40
    × (uploaded ≡ record inside { locks = uploaded.locks })
upload_file-IsAcceptable_example =
    upload_file-IsAcceptable toy inside uploaded (codes "/srv/n") 40 2 upload_runs

-- Nobody else is logged in: the session belongs to another connection.
abbrev one_other : ℕ → ℕ
one_other p = if 0 == p then 1 else 0

stranger-IsSound : IsSound one_other stranger accepted
unfolding accepted
stranger-IsSound = record {
  unique = stranger-IsUnique;
  owned = λ p. omega arith;
  bounded = initial-IsBounded;
}

abbrev two_requests : Bytes
two_requests = codes "auth\nlogin: bob\npasswd: q\n\nname\n\n"

handle_input-IsSound_example :
    let r = handle_input toy 5 0 two_requests stranger accepted in IsSound one_other r.0 r.1
handle_input-IsSound_example =
    handle_input-IsSound toy 5 0 one_other two_requests stranger accepted stranger-IsSound

handle_input_ends_example :
    let r = handle_input toy 5 0 two_requests stranger accepted in
    ((r.2 ≡ ok []) ⊎ (((e : Error) × IsThrown e × (r.2 ≡ err e)) ⊎ (r.2 ≡ err running)))
    × (handle_rounds toy 5 0 100 two_requests stranger accepted ≡ r)
handle_input_ends_example =
    handle_input_ends toy 5 0 two_requests 100 stranger accepted (unfold accepted in refl)
      (omega arith)
