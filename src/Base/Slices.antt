-- ===== src/Base/Slices.antt =====
-- Slices measured by native numbers, and what loops over slices compute.
use Prim.Native.Nat.{ℕ, zero, suc, ◌+◌, ◌≤◌, ◌<◌}
use mathlib.Core.Path.{◌≡◌, refl}
use mathlib.Core.Bool.{Bool, true, not}
use mathlib.Core.Logic.{inl, inr}
use mathlib.Core.List.{List, [], ◌∷◌, ◌++◌}
use mathlib.Core.Option.{Option, none, some}
use native.Mathlib.Omega.{arith}
use sticky_overseer.Base.Tests.{if◌then◌else◌, Bool-cases}

module _ {ℓ} {A : Type ℓ} where
  abbrev pub length : List A → ℕ
  length [] = 0
  length (x ∷ xs) = suc (length xs)

  abbrev pub get_elem? : List A → ℕ → Option A
  get_elem? [] i = none
  get_elem? (x ∷ xs) zero = some x
  get_elem? (x ∷ xs) (suc i) = get_elem? xs i

  -- A write out of bounds changes nothing.
  abbrev pub set : List A → ℕ → A → List A
  set [] i v = []
  set (x ∷ xs) zero v = v ∷ xs
  set (x ∷ xs) (suc i) v = x ∷ set xs i v

  abbrev pub take : ℕ → List A → List A
  take zero xs = []
  take (suc n) [] = []
  take (suc n) (x ∷ xs) = x ∷ take n xs

  -- The elements that pass a test, and how many do.
  abbrev pub keep : (A → Bool) → List A → List A
  keep p [] = []
  keep p (x ∷ xs) = if p x then x ∷ keep p xs else keep p xs

  abbrev pub count_by : (A → Bool) → List A → ℕ
  count_by p [] = 0
  count_by p (x ∷ xs) = if p x then suc (count_by p xs) else count_by p xs

  -- `for i, x := range xs { if p(x) { xs = append(xs[:i], xs[i+1:]...); break } }`
  abbrev pub remove_first : (A → Bool) → List A → List A
  remove_first p [] = []
  remove_first p (x ∷ xs) = if p x then xs else x ∷ remove_first p xs

  -- The element that such a loop removes.
  abbrev pub find_first : (A → Bool) → List A → Option A
  find_first p [] = none
  find_first p (x ∷ xs) = if p x then some x else find_first p xs

  abbrev pub All {κ} : (A → Type κ) → List A → Type κ
  All P [] = Unit
  All P (x ∷ xs) = P x × All P xs

  pub length-append : (xs ys : List A) → length (xs ++ ys) ≡ length xs + length ys
  length-append [] ys = omega arith
  length-append (x ∷ xs) ys = omega (arith, length-append xs ys)

  pub count_by-append :
      (p : A → Bool) (xs ys : List A) → count_by p (xs ++ ys) ≡ count_by p xs + count_by p ys
  count_by-append p [] ys = omega arith
  count_by-append p (x ∷ xs) ys = ground (arith, count_by-append p xs ys)

  pub length-remove_first :
      (p : A → Bool) (xs : List A) (x : A)
      → find_first p xs ≡ some x
      → length xs ≡ length (remove_first p xs) + 1
  length-remove_first p [] x h = cc
  length-remove_first p (y ∷ xs) x h = ground (arith, length-remove_first p xs x)

  pub remove_first_absent :
      (p : A → Bool) (xs : List A) → find_first p xs ≡ none → remove_first p xs ≡ xs
  remove_first_absent p [] h = refl
  remove_first_absent p (x ∷ xs) h = ground (arith, remove_first_absent p xs)

  pub count_by-remove_first :
      (p q : A → Bool) (xs : List A) (x : A)
      → find_first p xs ≡ some x
      → count_by q xs ≡ count_by q (remove_first p xs) + (if q x then 1 else 0)
  count_by-remove_first p q [] x h = cc
  count_by-remove_first p q (y ∷ xs) x h = ground (arith, count_by-remove_first p q xs x)

  pub length-remove_first-le : (p : A → Bool) (xs : List A) → length (remove_first p xs) ≤ length xs
  length-remove_first-le p [] = omega arith
  length-remove_first-le p (x ∷ xs) = ground (arith, length-remove_first-le p xs)

  pub count_by-remove_first-le :
      (p q : A → Bool) (xs : List A) → count_by q (remove_first p xs) ≤ count_by q xs
  count_by-remove_first-le p q [] = omega arith
  count_by-remove_first-le p q (x ∷ xs) = ground (arith, count_by-remove_first-le p q xs)

  pub length-keep-le : (p : A → Bool) (xs : List A) → length (keep p xs) ≤ length xs
  length-keep-le p [] = omega arith
  length-keep-le p (x ∷ xs) = ground (arith, length-keep-le p xs)

  pub count_by-keep_split :
      (p q : A → Bool) (xs : List A)
      → count_by q xs ≡ count_by q (keep p xs) + count_by q (keep (λ x. not (p x)) xs)
  count_by-keep_split p q [] = omega arith
  count_by-keep_split p q (x ∷ xs) = ground (arith, count_by-keep_split p q xs)

  pub find_first_of_count :
      (p : A → Bool) (xs : List A) → 0 < count_by p xs → (x : A) × (find_first p xs ≡ some x)
  find_first_of_count p [] h = elim h [ ]
  find_first_of_count p (x ∷ xs) h = elim (Bool-cases (p x)) [
    | inl b ↦ (x, rw b)
    | inr b ↦ let (y, e) = find_first_of_count p xs (ground arith) in (y, ground arith)
  ]

  pub find_first_holds :
      (p : A → Bool) (xs : List A) (x : A) → find_first p xs ≡ some x → p x ≡ true
  find_first_holds p [] x h = cc
  find_first_holds p (y ∷ xs) x h = ground (arith, find_first_holds p xs x)
