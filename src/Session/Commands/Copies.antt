-- ===== src/Session/Commands/Copies.antt =====
-- cp.cpp: where a copy goes.
use tin_dox.Prelude.{ℕ, zero, suc, ◌+◌, ◌<◌, Bool, true, false, some, ◌≡◌, ap, ◌∙◌, arith}
use tin_dox.Paths.{FilePath, ◌/path◌}
use tin_dox.System.{System}
use tin_dox.Session.Commands.Files.{copy_name, free_path}

module _ {Disk : Type 0} (sys : System Disk) (disk : Disk) (path name : FilePath) where
  abbrev pub is_taken : ℕ → Bool
  is_taken n = sys.exists disk (path /path copy_name name n)

  -- Every name that a copy number below `k` gives.
  unfoldable pub AreTaken : ℕ → Type 0
  AreTaken k = (j : ℕ) → j < k → is_taken j ≡ true

  free_path_from :
      (fuel n d k : ℕ)
      → k ≡ n + d
      → d < fuel
      → is_taken k ≡ false
      → AreTaken k
      → free_path sys fuel n disk path name ≡ some (path /path copy_name name k)
  unfolding free_path AreTaken
  free_path_from zero n d k e lt free taken = absurd (omega arith)
  free_path_from (suc f) n zero k e lt free taken =
      let here : n ≡ k = omega arith in
      let open_ : is_taken n ≡ false = ap is_taken here ∙ free in
      rw open_ (ap (λ x. some (path /path copy_name name x)) here)
  free_path_from (suc f) n (suc d) k e lt free taken =
      let there : is_taken n ≡ true = taken n (omega arith) in
      rw there (free_path_from f (suc n) d k (omega arith) (omega arith) free taken)

  -- The loop over copy numbers ends as soon as its fuel is above the first number whose name is
  -- free, and it ends at that name: a copy never goes to a path that exists, and takes the lowest
  -- number there is.
  pub free_path_lem :
      (fuel k : ℕ)
      → k < fuel
      → is_taken k ≡ false
      → AreTaken k
      → free_path sys fuel 0 disk path name ≡ some (path /path copy_name name k)
  free_path_lem fuel k lt free taken = free_path_from fuel 0 k k (omega arith) lt free taken
