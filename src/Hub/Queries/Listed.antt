-- ===== src/Hub/Queries/Listed.antt =====
-- The tasks that `handleList` of hub.go tells of.
use sticky_overseer.Base.{
  ℕ, ◌≡◌, ◌+◌, ◌≤◌, refl, sym, ap, ◌∙◌, String, Bool, true, false, Option, List, [], ◌∷◌, ◌++◌,
  text_eq, keep, contains, count_of, count_of-contains, arith, Bool-cases, inl, inr,
}
use sticky_overseer.Pool.Types.{QueuedItemInfo}
use sticky_overseer.Hub.Types.{Task, TaskInfo}
use sticky_overseer.Hub.Queries.{infos_of, ids_of, is_since, queued_info, queued_infos, listed}

abbrev pub item_ids : List QueuedItemInfo → List String
item_ids [] = []
item_ids (item ∷ items) = item.task_id ∷ item_ids items

count_of-append :
    (id : String) (xs ys : List TaskInfo)
    → count_of id (ids_of (xs ++ ys)) ≡ count_of id (ids_of xs) + count_of id (ids_of ys)
count_of-append id [] ys = omega arith
count_of-append id (x ∷ xs) ys = ground (arith, count_of-append id xs ys)

count_of-keep :
    (p : TaskInfo → Bool) (id : String) (infos : List TaskInfo)
    → count_of id (ids_of (keep p infos)) ≤ count_of id (ids_of infos)
count_of-keep p id [] = ground arith
count_of-keep p id (x ∷ infos) = ground (arith, count_of-keep p id infos)

true-false : true ≡ false → ⊥
true-false e = cc

queued_infos-new :
    (id : String) (existing : List String) (items : List QueuedItemInfo)
    → contains id existing ≡ false
    → count_of id (ids_of (queued_infos existing items)) ≡ count_of id (item_ids items)
unfolding queued_infos queued_info
queued_infos-new id existing [] h = refl
queued_infos-new id existing (item ∷ items) h = elim (text_eq item.task_id id) [
  | yes e ↦ elim (Bool-cases (contains item.task_id existing)) [
    | inl c ↦ absurd (true-false (sym c ∙ ap (λ k. contains k existing) e ∙ h))
    | inr c ↦ ground (arith, c, queued_infos-new id existing items h)
  ]
  | no n ↦ ground (arith, n, queued_infos-new id existing items h)
]

queued_infos-old :
    (id : String) (existing : List String) (items : List QueuedItemInfo)
    → contains id existing ≡ true
    → count_of id (ids_of (queued_infos existing items)) ≡ 0
unfolding queued_infos queued_info
queued_infos-old id existing [] h = refl
queued_infos-old id existing (item ∷ items) h = elim (text_eq item.task_id id) [
  | yes e ↦
      rw (ap (λ k. contains k existing) e ∙ h, queued_infos) (queued_infos-old id existing items h)
  | no n ↦ ground (arith, n, queued_infos-old id existing items h)
]

contains-count_of : (id : String) (xs : List String) → contains id xs ≡ true → 1 ≤ count_of id xs
contains-count_of id [] c = absurd (ground (arith, c))
contains-count_of id (x ∷ xs) c = ground (arith, c, contains-count_of id xs)

-- Where the tasks have an ID at most once, and the queues too, the answer to a list request
-- has it at most once, whatever `since` leaves out, and has each queued ID.
pub count_of-listed :
    (since : Option ℕ) (tasks : List (String × Task)) (items : List QueuedItemInfo) (id : String)
    → count_of id (ids_of (infos_of tasks)) ≤ 1
    → count_of id (item_ids items) ≤ 1
    → (count_of id (ids_of (listed since tasks items)) ≤ 1)
      × (count_of id (item_ids items) ≤ count_of id (ids_of (listed since tasks items)))
unfolding listed
count_of-listed since tasks items id t q =
    let kept = keep (is_since since) (infos_of tasks) in
    let both = count_of-append id kept (queued_infos (ids_of kept) items) in
    let few = count_of-keep (is_since since) id (infos_of tasks) in
    elim (Bool-cases (contains id (ids_of kept))) [
      | inl c ↦
          let old = queued_infos-old id (ids_of kept) items c in
          let some_kept = contains-count_of id (ids_of kept) c in
          (omega (arith, both, few, old), omega (arith, both, few, old, some_kept))
      | inr c ↦
          let new = queued_infos-new id (ids_of kept) items c in
          let none_kept = count_of-contains id (ids_of kept) c in
          (omega (arith, both, new, none_kept), omega (arith, both, new, none_kept))
    ]
