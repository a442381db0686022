-- ===== src/Prelude/Lists.antt =====
-- Lists measured by native numbers, prefixes cut by a test, and predicates on all elements.
use Prim.Native.Nat.{ℕ, zero, suc, ◌+◌, ◌-◌, min}
use mathlib.Core.Path.{◌≡◌, refl, ap}
use mathlib.Core.Bool.{Bool, true, false, ◌&&◌}
use mathlib.Core.List.{List, [], ◌∷◌, ◌++◌, map}
use native.Mathlib.Omega.{arith}
use package.tin_dox.Prelude.Tests.{if◌then◌else◌}

module _ {ℓ} {A : Type ℓ} where
  abbrev pub length : List A → ℕ
  length [] = 0
  length (x ∷ xs) = suc (length xs)

  abbrev pub take : ℕ → List A → List A
  take zero xs = []
  take (suc n) [] = []
  take (suc n) (x ∷ xs) = x ∷ take n xs

  abbrev pub drop : ℕ → List A → List A
  drop zero xs = xs
  drop (suc n) [] = []
  drop (suc n) (x ∷ xs) = drop n xs

  -- `std::ranges::all_of`.
  abbrev pub all : (A → Bool) → List A → Bool
  all p [] = true
  all p (x ∷ xs) = p x && all p xs

  -- What is left behind the first run of elements that pass, and that run.
  unfoldable pub drop_while : (A → Bool) → List A → List A
  drop_while p [] = []
  drop_while p (x ∷ xs) = if p x then drop_while p xs else x ∷ xs

  unfoldable pub take_while : (A → Bool) → List A → List A
  take_while p [] = []
  take_while p (x ∷ xs) = if p x then x ∷ take_while p xs else []

module _ {ℓ} {A : Type ℓ} where
  pub length-append : (xs ys : List A) → length (xs ++ ys) ≡ length xs + length ys
  length-append [] ys = omega arith
  length-append (x ∷ xs) ys = omega (arith, length-append xs ys)

  pub take-append-drop : (n : ℕ) (xs : List A) → take n xs ++ drop n xs ≡ xs
  take-append-drop zero xs = refl
  take-append-drop (suc n) [] = refl
  take-append-drop (suc n) (x ∷ xs) = ap (◌∷◌ x) (take-append-drop n xs)

  pub length-take : (n : ℕ) (xs : List A) → length (take n xs) ≡ min n (length xs)
  length-take zero xs = omega arith
  length-take (suc n) [] = omega arith
  length-take (suc n) (x ∷ xs) = omega (arith, length-take n xs)

  pub length-drop : (n : ℕ) (xs : List A) → length (drop n xs) ≡ length xs - n
  length-drop zero xs = omega arith
  length-drop (suc n) [] = omega arith
  length-drop (suc n) (x ∷ xs) = omega (arith, length-drop n xs)

  pub drop-nil : (n : ℕ) → drop n (let empty : List A = [] in empty) ≡ []
  drop-nil zero = refl
  drop-nil (suc n) = refl

  -- A prefix is counted off first.
  pub take-append :
      (m n : ℕ) (xs ys : List A) → m ≡ length xs + n → take m (xs ++ ys) ≡ xs ++ take n ys
  take-append m n [] ys h = ap (λ k. take k ys) (omega arith)
  take-append zero n (x ∷ xs) ys h = absurd (omega arith)
  take-append (suc m) n (x ∷ xs) ys h = ap (◌∷◌ x) (take-append m n xs ys (omega arith))

  pub drop-append : (m n : ℕ) (xs ys : List A) → m ≡ length xs + n → drop m (xs ++ ys) ≡ drop n ys
  drop-append m n [] ys h = ap (λ k. drop k ys) (omega arith)
  drop-append zero n (x ∷ xs) ys h = absurd (omega arith)
  drop-append (suc m) n (x ∷ xs) ys h = drop-append m n xs ys (omega arith)

  pub drop-drop : (k m n : ℕ) (xs : List A) → k ≡ m + n → drop n (drop m xs) ≡ drop k xs
  drop-drop k zero n xs h = ap (λ j. drop j xs) (omega arith)
  drop-drop zero (suc m) n xs h = absurd (omega arith)
  drop-drop (suc k) (suc m) zero [] h = refl
  drop-drop (suc k) (suc m) (suc n) [] h = refl
  drop-drop (suc k) (suc m) n (x ∷ xs) h = drop-drop k m n xs (omega arith)

  -- A prefix of full length is the list.
  pub take-all : (n : ℕ) (xs : List A) → n ≡ length xs → take n xs ≡ xs
  take-all zero [] h = refl
  take-all zero (x ∷ xs) h = absurd (omega arith)
  take-all (suc n) [] h = refl
  take-all (suc n) (x ∷ xs) h = ap (◌∷◌ x) (take-all n xs (omega arith))

  pub length-map {κ} : {B : Type κ} (xs : List A) (f : A → B) → length (map f xs) ≡ length xs
  length-map [] f = refl
  length-map (x ∷ xs) f = ap suc (length-map xs f)

  -- A run that passes, in front of an element that does not.
  pub drop_while-append :
      (p : A → Bool) (xs : List A) (y : A) (ys : List A)
      → all p xs ≡ true
      → p y ≡ false
      → drop_while p (xs ++ y ∷ ys) ≡ y ∷ ys
  unfolding drop_while
  drop_while-append p [] y ys h f = ground arith
  drop_while-append p (x ∷ xs) y ys h f = ground (arith, drop_while-append p xs y ys)

  pub take_while-append :
      (p : A → Bool) (xs : List A) (y : A) (ys : List A)
      → all p xs ≡ true
      → p y ≡ false
      → take_while p (xs ++ y ∷ ys) ≡ xs
  unfolding take_while
  take_while-append p [] y ys h f = ground arith
  take_while-append p (x ∷ xs) y ys h f = ground (arith, take_while-append p xs y ys)

  pub drop_while-all : (p : A → Bool) (xs : List A) → all p xs ≡ true → drop_while p xs ≡ []
  unfolding drop_while
  drop_while-all p [] h = refl
  drop_while-all p (x ∷ xs) h = ground (arith, drop_while-all p xs)

  pub all-append : (p : A → Bool) (xs ys : List A) → all p (xs ++ ys) ≡ (all p xs && all p ys)
  all-append p [] ys = refl
  all-append p (x ∷ xs) ys = ground (arith, all-append p xs ys)

-- A predicate on all elements, which computes to a tuple.
abbrev pub All {ℓ κ} : {A : Type ℓ} → (A → Type κ) → List A → Type κ
All P [] = Unit
All P (x ∷ xs) = P x × All P xs
