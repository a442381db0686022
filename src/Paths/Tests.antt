-- ===== src/Paths/Tests.antt =====
-- Path operations at concrete inputs.
use tin_dox.Prelude.{◌≡◌, refl, codes, equal, true, false}
use tin_dox.Paths.{◌/path◌, parent_path, filename, lexically_normal, is_just_a_name}

paths :
    (codes "/srv" /path codes "a" ≡ codes "/srv/a")
    × (codes "/srv/" /path codes "a" ≡ codes "/srv/a")
    × (codes "/srv" /path codes "/a" ≡ codes "/a")
    × (parent_path (codes "/srv/a") ≡ codes "/srv")
    × (parent_path (codes "/srv") ≡ codes "/")
    × (filename (codes "/srv/a") ≡ codes "a")
    × (lexically_normal (codes "/srv/a/../b") ≡ codes "/srv/b")
    × (lexically_normal (codes "/srv/..") ≡ codes "/")
    × (lexically_normal (codes "/srv/a/./b/..") ≡ codes "/srv/a/")
    × (is_just_a_name (codes "..") ≡ true)
    × (is_just_a_name (codes "a/b") ≡ false)
unfolding ◌/path◌ parent_path filename lexically_normal is_just_a_name equal
paths = (refl, refl, refl, refl, refl, refl, refl, refl, refl, refl, refl)
