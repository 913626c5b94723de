-- ===== src/Base/Maps.antt =====
-- Go maps keyed by strings, as association lists with one entry for each key. The order in which
-- `range` visits a map is not the list's order: an operation that ranges takes it as an argument.
use Prim.Native.String.{String}
use mathlib.Core.Path.{◌≡◌, refl, sym, subst, ◌∙◌}
use mathlib.Core.Logic.{◌≢◌, ite, if_pos, if_neg}
use mathlib.Core.Bool.{Bool, true, false, ◌||◌}
use mathlib.Core.List.{List, [], ◌∷◌, ◌++◌}
use mathlib.Core.Option.{Option, none, some}
use native.Mathlib.Omega.{arith}
use sticky_overseer.Base.Tests.{text_eq, if◌then◌else◌}

module _ {ℓ} {V : Type ℓ} where
  -- `m[k]` with its `ok`
  unfoldable pub lookup : String → List (String × V) → Option V
  lookup k [] = none
  lookup k ((j, v) ∷ m) = ite (text_eq j k) (some v) (lookup k m)

  -- `m[k] = v`
  unfoldable pub insert : String → V → List (String × V) → List (String × V)
  insert k v [] = (k, v) ∷ []
  insert k v ((j, w) ∷ m) = ite (text_eq j k) ((k, v) ∷ m) ((j, w) ∷ insert k v m)

  -- `delete(m, k)`
  unfoldable pub delete : String → List (String × V) → List (String × V)
  delete k [] = []
  delete k ((j, w) ∷ m) = ite (text_eq j k) (delete k m) ((j, w) ∷ delete k m)

  pub lookup-insert :
      (k j : String) (v : V) (m : List (String × V))
      → lookup j (insert k v m) ≡ ite (text_eq k j) (some v) (lookup j m)
  unfolding lookup insert
  lookup-insert k j v [] = refl
  lookup-insert k j v ((i, w) ∷ m) = ground (arith, lookup-insert k j v m)

  -- What holds of the new entry and of the old ones holds of every look-up.
  pub lookup-insert_ind {κ} :
      (P : Option V → Type κ) (k j : String) (v : V) (m : List (String × V))
      → P (some v)
      → P (lookup j m)
      → P (lookup j (insert k v m))
  lookup-insert_ind P k j v m new old = elim (text_eq k j) [
    | yes e ↦ rw (lookup-insert k j v m, if_pos _ e) new
    | no e ↦ rw (lookup-insert k j v m, if_neg _ e) old
  ]

  pub lookup-insert_self :
      (k : String) (v : V) (m : List (String × V)) → lookup k (insert k v m) ≡ some v
  lookup-insert_self k v m = ground (arith, lookup-insert k k v m)

  pub lookup-insert_ne :
      (k j : String) (v : V) (m : List (String × V)) → k ≢ j → lookup j (insert k v m) ≡ lookup j m
  lookup-insert_ne k j v m h = ground (arith, lookup-insert k j v m)

  pub lookup-delete :
      (k j : String) (m : List (String × V))
      → lookup j (delete k m) ≡ ite (text_eq k j) none (lookup j m)
  unfolding lookup delete
  lookup-delete k j [] = ground arith
  lookup-delete k j ((i, w) ∷ m) = ground (arith, lookup-delete k j m)

  -- No key has two entries.
  abbrev pub DistinctKeys : List (String × V) → Type ℓ
  DistinctKeys [] = Unit
  DistinctKeys ((k, v) ∷ m) = (lookup k m ≡ none) × DistinctKeys m

  pub insert-DistinctKeys :
      (k : String) (v : V) (m : List (String × V)) → DistinctKeys m → DistinctKeys (insert k v m)
  unfolding insert lookup
  insert-DistinctKeys k v [] d = (refl, tt)
  insert-DistinctKeys k v ((j, w) ∷ m) d = elim (text_eq j k) [
    | yes e ↦
        subst DistinctKeys (sym (if_pos (text_eq j k) e _ _))
          (subst (λ i. lookup i m ≡ none) e d.0, d.1)
    | no n ↦
        subst DistinctKeys (sym (if_neg (text_eq j k) n _ _))
          (lookup-insert_ne k j v m (λ p. n (sym p)) ∙ d.0, insert-DistinctKeys k v m d.1)
  ]

  pub delete-DistinctKeys :
      (k : String) (m : List (String × V)) → DistinctKeys m → DistinctKeys (delete k m)
  unfolding delete lookup
  delete-DistinctKeys k [] d = tt
  delete-DistinctKeys k ((j, w) ∷ m) d = elim (text_eq j k) [
    | yes e ↦ subst DistinctKeys (sym (if_pos (text_eq j k) e _ _)) (delete-DistinctKeys k m d.1)
    | no n ↦
        subst DistinctKeys (sym (if_neg (text_eq j k) n _ _))
          (ground (arith, lookup-delete k j m, d.0), delete-DistinctKeys k m d.1)
  ]

-- Every value that the map has is in the family.
module _ {ℓ κ} {V : Type ℓ} (P : V → Type κ) where
  abbrev pub AllValues : List (String × V) → Type (ℓ ⊔ κ)
  AllValues m = (k : String) (v : V) → lookup k m ≡ some v → P v

  pub insert-AllValues :
      (k : String) (v : V) (m : List (String × V)) → P v → AllValues m → AllValues (insert k v m)
  insert-AllValues k v m p all j w e = elim (text_eq k j) [
    | yes q ↦ subst P (cc (sym (lookup-insert k j v m ∙ if_pos (text_eq k j) q _ _) ∙ e)) p
    | no n ↦ all j w (sym (lookup-insert k j v m ∙ if_neg (text_eq k j) n _ _) ∙ e)
  ]

  pub delete-AllValues : (k : String) (m : List (String × V)) → AllValues m → AllValues (delete k m)
  delete-AllValues k m all j w e = elim (text_eq k j) [
    | yes q ↦ absurd (cc (sym (lookup-delete k j m ∙ if_pos (text_eq k j) q _ _) ∙ e))
    | no n ↦ all j w (sym (lookup-delete k j m ∙ if_neg (text_eq k j) n _ _) ∙ e)
  ]

-- `_, ok := m[x]` of a set of texts, `m[x] = struct{}{}` and `delete(m, x)`
abbrev pub contains : String → List String → Bool
contains x [] = false
contains x (y ∷ ys) = ite (text_eq y x) true (contains x ys)

abbrev pub add_key : String → List String → List String
add_key x xs = if contains x xs then xs else x ∷ xs

abbrev pub remove_key : String → List String → List String
remove_key x [] = []
remove_key x (y ∷ ys) = ite (text_eq y x) (remove_key x ys) (y ∷ remove_key x ys)

pub contains-add_key :
    (x y : String) (ys : List String)
    → contains y (add_key x ys) ≡ ite (text_eq x y) true (contains y ys)
contains-add_key x y ys = ground arith

pub contains-remove_key :
    (x y : String) (ys : List String)
    → contains y (remove_key x ys) ≡ ite (text_eq x y) false (contains y ys)
contains-remove_key x y [] = ground arith
contains-remove_key x y (z ∷ ys) = ground (arith, contains-remove_key x y ys)

pub contains-append :
    (x : String) (xs ys : List String) → contains x (xs ++ ys) ≡ (contains x xs || contains x ys)
contains-append x [] ys = refl
contains-append x (y ∷ xs) ys = ground (arith, contains-append x xs ys)
