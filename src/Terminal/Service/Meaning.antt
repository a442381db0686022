-- ===== src/Terminal/Service/Meaning.antt =====
-- cli/src/tdpservice/tdpservice.cpp: what the commands mean, as fields with types.
use tin_dox.Prelude.{◌<◌, true, false, List, [], ◌∷◌, ◌++◌, codes, equal}
use tin_dox.Protocol.Field.{Field, boolean, integer, string, uintmax_modulus}
use tin_dox.Terminal.Service.{Call, auth, mkdir, rm, rename, cp, mv, cd, tree, ls, ul, dl}
use tin_dox.Terminal.Service.Values.{IsText, IsFlag, field, text_or_dot, unless_empty}

-- What of the arguments of a command a request can carry.
unfoldable pub IsSendable : Call → Type 0
IsSendable (auth login passwd) = IsText login × IsText passwd
IsSendable (mkdir file) = IsText file
IsSendable (rm file) = IsText file
IsSendable (rename oname nname) = IsText oname × IsText nname
IsSendable (cp file path) = IsText file × IsText path
IsSendable (mv file path) = IsText file × IsText path
IsSendable (cd path) = IsText path
IsSendable (tree path) = IsText path
IsSendable (ls path size modified) = IsText path × (IsFlag size × IsFlag modified)
IsSendable (ul file size retry) = IsText file × size < uintmax_modulus
IsSendable (dl file size retry) = IsText file × size < uintmax_modulus
IsSendable _ = Unit

-- The fields that a command means.
unfoldable pub request_fields : Call → List Field
unfolding field text_or_dot unless_empty
request_fields (auth login passwd) =
    field (codes "login") (string (text_or_dot login))
    ∷ field (codes "passwd") (string (text_or_dot passwd))
    ∷ []
request_fields (mkdir file) = field (codes "name") (string file) ∷ []
request_fields (rm file) = field (codes "name") (string file) ∷ []
request_fields (rename oname nname) =
    field (codes "oname") (string oname) ∷ field (codes "nname") (string nname) ∷ []
request_fields (cp file path) =
    field (codes "name") (string file) ∷ field (codes "path") (string path) ∷ []
request_fields (mv file path) =
    field (codes "name") (string file) ∷ field (codes "path") (string path) ∷ []
request_fields (cd path) = field (codes "path") (string path) ∷ []
request_fields (tree path) = unless_empty path (field (codes "path") (string path))
request_fields (ls path size modified) =
    unless_empty path (field (codes "path") (string path))
    ++ (unless_empty size (field (codes "size") (boolean (equal size (codes "true"))))
        ++ unless_empty modified (field (codes "mod") (boolean (equal modified (codes "true")))))
request_fields (ul file size retry) =
    field (codes "name") (string file)
    ∷ field (codes "size") (integer size)
    ∷ field (codes "retry") (boolean retry)
    ∷ []
request_fields (dl file size true) =
    field (codes "name") (string file) ∷ field (codes "size") (integer size) ∷ []
request_fields (dl file size false) = field (codes "name") (string file) ∷ []
request_fields _ = []
