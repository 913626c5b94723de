-- ===== src/Pool/Victims/Sorted.antt =====
-- The sorting that `SetLimits` of pool.go makes of its candidates, and the first of a list.
use sticky_overseer.Base.{
  ℕ, zero, suc, ◌+◌, ◌≤◌, ◌≡◌, refl, ap, Bool, false, List, [], ◌∷◌, arith, inl, inr, Bool-cases,
  count_by, length, keep, take, All, count_by-keep_split,
}
use sticky_overseer.Pool.Types.{RunningEntry, KillOrder}
use sticky_overseer.Pool.Resize.{is_killed_before, insert_by, sort_by}

module _ {ℓ} {A : Type ℓ} where
  abbrev pub drop : ℕ → List A → List A
  drop zero xs = xs
  drop (suc n) [] = []
  drop (suc n) (x ∷ xs) = drop n xs

  pub length-take_of_le : (n : ℕ) (xs : List A) → n ≤ length xs → length (take n xs) ≡ n
  length-take_of_le zero xs h = refl
  length-take_of_le (suc n) [] h = omega arith
  length-take_of_le (suc n) (x ∷ xs) h = ap suc (length-take_of_le n xs (omega arith))

  pub count_by-take-le :
      (q : A → Bool) (n : ℕ) (xs : List A) → count_by q (take n xs) ≤ count_by q xs
  count_by-take-le q zero xs = omega arith
  count_by-take-le q (suc n) [] = omega arith
  count_by-take-le q (suc n) (x ∷ xs) = ground (arith, count_by-take-le q n xs)

  pub count_by-keep-le : (q t : A → Bool) (xs : List A) → count_by q (keep t xs) ≤ count_by q xs
  count_by-keep-le q t xs = omega (arith, count_by-keep_split t q xs)

  pub take-nil : (n : ℕ) (xs : List A) → xs ≡ [] → take n xs ≡ []
  take-nil zero xs e = refl
  take-nil (suc n) [] e = refl
  take-nil (suc n) (x ∷ xs) e = cc

module _ {ℓ} {C : Type ℓ} where
  pub count_by-take-drop :
      (q : RunningEntry C → Bool) (n : ℕ) (xs : List (RunningEntry C))
      → count_by q (take n xs) + count_by q (drop n xs) ≡ count_by q xs
  count_by-take-drop q zero xs = omega arith
  count_by-take-drop q (suc n) [] = omega arith
  count_by-take-drop q (suc n) (x ∷ xs) = ground (arith, count_by-take-drop q n xs)

  -- No later entry comes before an earlier one.
  abbrev pub IsSorted : KillOrder → List (RunningEntry C) → Type 0
  IsSorted order [] = Unit
  IsSorted order (x ∷ xs) = All (λ y. is_killed_before order y x ≡ false) xs × IsSorted order xs

  pub count_by-insert_by :
      (q : RunningEntry C → Bool) (order : KillOrder) (x : RunningEntry C)
      (xs : List (RunningEntry C))
      → count_by q (insert_by order x xs) ≡ count_by q (x ∷ xs)
  unfolding insert_by
  count_by-insert_by q order x [] = refl
  count_by-insert_by q order x (y ∷ ys) = ground (arith, count_by-insert_by q order x ys)

  pub count_by-sort_by :
      (q : RunningEntry C → Bool) (order : KillOrder) (xs : List (RunningEntry C))
      → count_by q (sort_by order xs) ≡ count_by q xs
  unfolding sort_by
  count_by-sort_by q order [] = refl
  count_by-sort_by q order (x ∷ xs) =
      ground (arith, count_by-insert_by q order x (sort_by order xs), count_by-sort_by q order xs)

  pub length-insert_by :
      (order : KillOrder) (x : RunningEntry C) (xs : List (RunningEntry C))
      → length (insert_by order x xs) ≡ suc (length xs)
  unfolding insert_by
  length-insert_by order x [] = refl
  length-insert_by order x (y ∷ ys) = ground (arith, length-insert_by order x ys)

  pub length-sort_by :
      (order : KillOrder) (xs : List (RunningEntry C)) → length (sort_by order xs) ≡ length xs
  unfolding sort_by
  length-sort_by order [] = refl
  length-sort_by order (x ∷ xs) =
      omega (arith, length-insert_by order x (sort_by order xs), length-sort_by order xs)

  -- `less` is a strict order, so what does not come before `y` does not come before what follows.
  pub All-insert_by :
      (order : KillOrder) (y x : RunningEntry C) (xs : List (RunningEntry C))
      → is_killed_before order x y ≡ false
      → All (λ z. is_killed_before order z y ≡ false) xs
      → All (λ z. is_killed_before order z y ≡ false) (insert_by order x xs)
  unfolding insert_by
  All-insert_by order y x [] h a = (h, tt)
  All-insert_by order y x (z ∷ zs) h a = elim (Bool-cases (is_killed_before order z x)) [
    | inl b ↦ rw b (a.0, All-insert_by order y x zs h a.1)
    | inr b ↦ rw b (h, a)
  ]

  pub All-before_trans :
      (order : KillOrder) (x y : RunningEntry C) (xs : List (RunningEntry C))
      → is_killed_before order y x ≡ false
      → All (λ z. is_killed_before order z y ≡ false) xs
      → All (λ z. is_killed_before order z x ≡ false) xs
  All-before_trans order x y [] h a = tt
  All-before_trans order x y (z ∷ zs) h a = (ground arith, All-before_trans order x y zs h a.1)

  pub insert_by-IsSorted :
      (order : KillOrder) (x : RunningEntry C) (xs : List (RunningEntry C))
      → IsSorted order xs
      → IsSorted order (insert_by order x xs)
  unfolding insert_by
  insert_by-IsSorted order x [] s = (tt, tt)
  insert_by-IsSorted order x (y ∷ ys) s = elim (Bool-cases (is_killed_before order y x)) [
    | inl b ↦
        rw b (All-insert_by order y x ys (ground arith) s.0, insert_by-IsSorted order x ys s.1)
    | inr b ↦ rw b ((b, All-before_trans order x y ys b s.0), s)
  ]

  pub sort_by-IsSorted :
      (order : KillOrder) (xs : List (RunningEntry C)) → IsSorted order (sort_by order xs)
  unfolding sort_by
  sort_by-IsSorted order [] = tt
  sort_by-IsSorted order (x ∷ xs) =
      insert_by-IsSorted order x (sort_by order xs) (sort_by-IsSorted order xs)

  pub All-drop :
      (P : RunningEntry C → Type 0) (n : ℕ) (xs : List (RunningEntry C))
      → All P xs
      → All P (drop n xs)
  All-drop P zero xs a = a
  All-drop P (suc n) [] a = tt
  All-drop P (suc n) (x ∷ xs) a = All-drop P n xs a.1

  pub take_before_drop :
      (order : KillOrder) (n : ℕ) (xs : List (RunningEntry C))
      → IsSorted order xs
      → All (λ x. All (λ y. is_killed_before order y x ≡ false) (drop n xs)) (take n xs)
  take_before_drop order zero xs s = tt
  take_before_drop order (suc n) [] s = tt
  take_before_drop order (suc n) (x ∷ xs) s = (All-drop _ n xs s.0, take_before_drop order n xs s.1)
