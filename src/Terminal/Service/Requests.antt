-- ===== src/Terminal/Service/Requests.antt =====
-- cli/src/tdpservice/tdpservice.cpp against server/src/protocol/protocol_interpreter.cpp: what the
-- server reads from what the terminal client sends.
use mathlib.Core.List.{append-nil}
use tin_dox.Prelude.{
  ℕ, true, false, ltb, [], ◌∷◌, ◌++◌, ◌≡◌, refl, ap, ◌∙◌, arith, length, all, Bytes, codes, equal,
  ok,
}
use tin_dox.Protocol.Field.{boolean, string, is_name_char}
use tin_dox.Protocol.Interpreter.Requests.{is_line_char, IsLine, available}
use tin_dox.Protocol.Interpreter.{initial, commit_bytes, max_line_length}
use tin_dox.Terminal.Service.{
  Call, exit, logout, name, perms, pwd, auth, mkdir, rm, rename, cp, mv, cd, tree, ls, ul, dl,
  Arguments, arguments, is_refused, is_too_long, request_text, quoted, no_fields, one_field,
  two_fields,
}
use tin_dox.Terminal.Service.Lines.{IsCarried-empty, commit_bytes-arguments}
use tin_dox.Terminal.Service.Values.{
  IsText, field, unless_empty, IsCarried-quoted, IsCarried-decimal, IsCarried-flag,
  IsCarried-credential, IsCarried-optional, IsCarried-switch,
}
use tin_dox.Terminal.Service.Meaning.{IsSendable, request_fields}

record AreShort (a : Arguments) : Type 0 where
  first : is_too_long a.field_name1 a.field_value1 ≡ false
  second : is_too_long a.field_name2 a.field_value2 ≡ false
  third : is_too_long a.field_name3 a.field_value3 ≡ false

AreShort-is_refused : (a : Arguments) → is_refused a ≡ false → AreShort a
AreShort-is_refused a h = record {
  first = ground arith;
  second = ground arith;
  third = ground arith;
}

IsLine-command :
    (text : Bytes)
    → all is_line_char text ≡ true
    → ltb 0 (length text) ≡ true
    → ltb (length text) max_line_length ≡ true
    → IsLine text
IsLine-command text h k l = record { solid = ground arith; plain = h; short = ground arith }

-- The requests with no field, with one text in quotes, and with two.
module _ (stale_size : ℕ) (text : Bytes) (l : IsLine text) where
  commit_bytes-no_fields :
      commit_bytes stale_size initial (request_text (no_fields text)) ≡ record {
        interpreter = available (record { name = text; fields = [] });
        rest = [];
        outcome = ok tt;
      }
  commit_bytes-no_fields =
      commit_bytes-arguments stale_size (no_fields text) l (IsCarried-empty []) (IsCarried-empty [])
        (IsCarried-empty [])

  module _ (c : ℕ) (cs value : Bytes) (named : all is_name_char (c ∷ cs) ≡ true)
      (h : IsText value) where
    commit_bytes-one_field :
        is_refused (one_field text (c ∷ cs) (quoted value)) ≡ false
        → commit_bytes stale_size initial (request_text (one_field text (c ∷ cs) (quoted value)))
          ≡ record {
            interpreter =
                available (record { name = text; fields = field (c ∷ cs) (string value) ∷ [] });
            rest = [];
            outcome = ok tt;
          }
    commit_bytes-one_field short =
        let a = one_field text (c ∷ cs) (quoted value) in
        commit_bytes-arguments stale_size a l
          (IsCarried-quoted c cs named value h (AreShort-is_refused a short).first)
          (IsCarried-empty []) (IsCarried-empty [])

    commit_bytes-two_fields :
        (d : ℕ) (ds other : Bytes)
        → all is_name_char (d ∷ ds) ≡ true
        → IsText other
        → is_refused (two_fields text (c ∷ cs) (quoted value) (d ∷ ds) (quoted other)) ≡ false
        → commit_bytes stale_size initial
            (request_text (two_fields text (c ∷ cs) (quoted value) (d ∷ ds) (quoted other)))
          ≡ record {
            interpreter = available (record {
              name = text;
              fields = field (c ∷ cs) (string value) ∷ field (d ∷ ds) (string other) ∷ [];
            });
            rest = [];
            outcome = ok tt;
          }
    commit_bytes-two_fields d ds other k m short =
        let a = two_fields text (c ∷ cs) (quoted value) (d ∷ ds) (quoted other) in
        let s = AreShort-is_refused a short in
        commit_bytes-arguments stale_size a l (IsCarried-quoted c cs named value h s.first)
          (IsCarried-quoted d ds k other m s.second) (IsCarried-empty [])

-- Every command with arguments that a request can carry, and that the client does not refuse as too
-- long: the server reads from its text the command and the fields by the names that the source of the
-- client gives them, which is `size` for a dl that goes on, the strings without their quotes, and the
-- numbers and truth values as such, and nothing is left.
pub commit_bytes-request_text :
    (stale_size : ℕ) (c : Call)
    → IsSendable c
    → is_refused (arguments c) ≡ false
    → commit_bytes stale_size initial (request_text (arguments c)) ≡ record {
      interpreter =
          available (record { name = (arguments c).command_name; fields = request_fields c });
      rest = [];
      outcome = ok tt;
    }
unfolding arguments request_fields IsSendable
commit_bytes-request_text stale_size exit h short =
    commit_bytes-no_fields stale_size (codes "exit") (IsLine-command (codes "exit") refl refl refl)
commit_bytes-request_text stale_size logout h short =
    commit_bytes-no_fields stale_size (codes "logout")
      (IsLine-command (codes "logout") refl refl refl)
commit_bytes-request_text stale_size name h short =
    commit_bytes-no_fields stale_size (codes "name") (IsLine-command (codes "name") refl refl refl)
commit_bytes-request_text stale_size perms h short =
    commit_bytes-no_fields stale_size (codes "perms")
      (IsLine-command (codes "perms") refl refl refl)
commit_bytes-request_text stale_size pwd h short =
    commit_bytes-no_fields stale_size (codes "pwd") (IsLine-command (codes "pwd") refl refl refl)
commit_bytes-request_text stale_size (mkdir file) h short =
    commit_bytes-one_field stale_size (codes "mkdir")
      (IsLine-command (codes "mkdir") refl refl refl) b'n' (codes "ame") file refl h short
commit_bytes-request_text stale_size (rm file) h short =
    commit_bytes-one_field stale_size (codes "rm") (IsLine-command (codes "rm") refl refl refl) b'n'
      (codes "ame") file refl h short
commit_bytes-request_text stale_size (cd path) h short =
    commit_bytes-one_field stale_size (codes "cd") (IsLine-command (codes "cd") refl refl refl) b'p'
      (codes "ath") path refl h short
commit_bytes-request_text stale_size (rename oname nname) h short =
    commit_bytes-two_fields stale_size (codes "rename")
      (IsLine-command (codes "rename") refl refl refl) b'o' (codes "name") oname refl h.0 b'n'
      (codes "name") nname refl h.1 short
commit_bytes-request_text stale_size (cp file path) h short =
    commit_bytes-two_fields stale_size (codes "cp") (IsLine-command (codes "cp") refl refl refl)
      b'n' (codes "ame") file refl h.0 b'p' (codes "ath") path refl h.1 short
commit_bytes-request_text stale_size (mv file path) h short =
    commit_bytes-two_fields stale_size (codes "mv") (IsLine-command (codes "mv") refl refl refl)
      b'n' (codes "ame") file refl h.0 b'p' (codes "ath") path refl h.1 short
commit_bytes-request_text stale_size (auth login passwd) h short =
    let s = AreShort-is_refused (arguments (auth login passwd)) short in
    commit_bytes-arguments stale_size (arguments (auth login passwd))
      (IsLine-command (codes "auth") refl refl refl)
      (IsCarried-credential b'l' (codes "ogin") refl login h.0 s.first)
      (IsCarried-credential b'p' (codes "asswd") refl passwd h.1 s.second) (IsCarried-empty [])
commit_bytes-request_text stale_size (dl file size true) h short =
    let s = AreShort-is_refused (arguments (dl file size true)) short in
    commit_bytes-arguments stale_size (arguments (dl file size true))
      (IsLine-command (codes "dl") refl refl refl)
      (IsCarried-quoted b'n' (codes "ame") refl file h.0 s.first)
      (IsCarried-decimal b's' (codes "ize") refl size h.1 s.second) (IsCarried-empty [])
commit_bytes-request_text stale_size (dl file size false) h short =
    commit_bytes-one_field stale_size (codes "dl") (IsLine-command (codes "dl") refl refl refl) b'n'
      (codes "ame") file refl h.0 short
commit_bytes-request_text stale_size (ul file size retry) h short =
    let s = AreShort-is_refused (arguments (ul file size retry)) short in
    commit_bytes-arguments stale_size (arguments (ul file size retry))
      (IsLine-command (codes "ul") refl refl refl)
      (IsCarried-quoted b'n' (codes "ame") refl file h.0 s.first)
      (IsCarried-decimal b's' (codes "ize") refl size h.1 s.second)
      (IsCarried-flag b'r' (codes "etry") refl retry s.third)
commit_bytes-request_text stale_size (tree path) h short =
    let s = AreShort-is_refused (arguments (tree path)) short in
    commit_bytes-arguments stale_size (arguments (tree path))
      (IsLine-command (codes "tree") refl refl refl)
      (IsCarried-optional b'p' (codes "ath") refl path h s.first) (IsCarried-empty [])
      (IsCarried-empty [])
    ∙ ap
        (λ fields. record {
          interpreter = available (record { name = codes "tree"; fields = fields });
          rest = [];
          outcome = ok tt;
        })
        (append-nil (request_fields (tree path)))
commit_bytes-request_text stale_size (ls path size modified) (h, (i, j)) short =
    let s = AreShort-is_refused (arguments (ls path size modified)) short in
    commit_bytes-arguments stale_size (arguments (ls path size modified))
      (IsLine-command (codes "ls") refl refl refl)
      (IsCarried-optional b'p' (codes "ath") refl path h s.first)
      (IsCarried-switch b's' (codes "ize") refl size i s.second)
      (IsCarried-switch b'm' (codes "od") refl modified j s.third)
    ∙ ap
        (λ fields. record {
          interpreter = available (record {
            name = codes "ls";
            fields =
                unless_empty path (field (codes "path") (string path))
                ++ (unless_empty size (field (codes "size") (boolean (equal size (codes "true"))))
                    ++ fields);
          });
          rest = [];
          outcome = ok tt;
        })
        (append-nil
          (unless_empty modified (field (codes "mod") (boolean (equal modified (codes "true"))))))
