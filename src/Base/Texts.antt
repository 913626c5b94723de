-- ===== src/Base/Texts.antt =====
-- Lists of texts: `sort.Strings`, and how often a text is among others.
use Prim.Native.Nat.{ℕ, ◌+◌, Ordering}
use Prim.Native.String.{String, compare as compare_text}
use mathlib.Core.Path.{◌≡◌, refl, ap, ◌∙◌}
use mathlib.Core.Bool.{false}
use mathlib.Core.List.{List, [], ◌∷◌}
use native.Mathlib.Omega.{arith}
use sticky_overseer.Base.Tests.{if◌then◌else◌}
use sticky_overseer.Base.Maps.{contains}

-- `sort.Strings`
abbrev pub insert_text : String → List String → List String
insert_text x [] = x ∷ []
insert_text x (y ∷ ys) =
    let later = insert_text x ys in
    elim (compare_text x y) [ Ordering.gt ↦ y ∷ later | _ ↦ x ∷ y ∷ ys ]

abbrev pub sort_strings : List String → List String
sort_strings [] = []
sort_strings (x ∷ xs) = insert_text x (sort_strings xs)

abbrev pub count_of : String → List String → ℕ
count_of id [] = 0
count_of id (x ∷ xs) = (if contains id (x ∷ []) then 1 else 0) + count_of id xs

pub count_of-contains :
    (id : String) (xs : List String) → contains id xs ≡ false → count_of id xs ≡ 0
count_of-contains id [] h = refl
count_of-contains id (x ∷ xs) h = ground (arith, h, count_of-contains id xs)

count_of-insert_text :
    (id x : String) (xs : List String) → count_of id (insert_text x xs) ≡ count_of id (x ∷ xs)
count_of-insert_text id x [] = refl
count_of-insert_text id x (y ∷ xs) = go (compare_text x y) (count_of-insert_text id x xs)
  where
    go :
        (o : Ordering)
        → count_of id (insert_text x xs) ≡ count_of id (x ∷ xs)
        → count_of id (elim o [ Ordering.gt ↦ y ∷ insert_text x xs | _ ↦ x ∷ y ∷ xs ])
          ≡ count_of id (x ∷ y ∷ xs)
    go Ordering.gt later = omega (arith, later)
    go Ordering.lt later = refl
    go Ordering.eq later = refl

pub count_of-sort_strings :
    (id : String) (xs : List String) → count_of id (sort_strings xs) ≡ count_of id xs
count_of-sort_strings id [] = refl
count_of-sort_strings id (x ∷ xs) =
    count_of-insert_text id x (sort_strings xs)
    ∙ ap (λ n. (if contains id (x ∷ []) then 1 else 0) + n) (count_of-sort_strings id xs)
