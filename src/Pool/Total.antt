-- ===== src/Pool/Total.antt =====
-- No queued item of pool.go is lost: `Release`, `Dequeue`, `PurgeQueue`, `DrainAll` and the sweep
-- hand back each item that they take out of a queue. A test `p` picks the items that are counted,
-- so that the equations hold of every single item.
pub mod Grows
use sticky_overseer.Base.{
  ℕ, ◌+◌, ◌≡◌, refl, ap, String, Bool, true, false, Option, none, some, List, [], ◌∷◌, ◌++◌, arith,
  inl, inr, Option-cases, count_by, count_by-append, find_first, remove_first, lookup, insert,
}
use mathlib.Core.List.{reverse, reverse-cons}
use sticky_overseer.Pool.Types.{QueuedItem}
use sticky_overseer.Pool.Queue
use sticky_overseer.Pool.Queue.{TaskQueue, dequeue, expire_old}
use sticky_overseer.Pool.Queue.Order.{arrange, to_list, dequeue-IsDequeue}
use sticky_overseer.Pool.Manager.{PoolManager, with_queue, without_task, deref}
use sticky_overseer.Pool.Release.{seat, next_from, next_queued, release_slot}
use sticky_overseer.Pool.Control.{remove_from, purge_from}

module _ {ℓ} {C : Type ℓ} (p : QueuedItem C → Bool) where
  -- How many items of all queues pass the test.
  abbrev pub total : List (String × TaskQueue C) → ℕ
  total [] = 0
  total ((a, q) ∷ m) = count_by p q.items + total m

  pub total-insert :
      (a : String) (q q' : TaskQueue C) (m : List (String × TaskQueue C))
      → lookup a m ≡ some q
      → total (insert a q' m) + count_by p q.items ≡ total m + count_by p q'.items
  unfolding lookup insert
  total-insert a q q' [] h = cc
  total-insert a q q' ((b, r) ∷ m) h = ground (arith, total-insert a q q' m)

  pub total-insert_absent :
      (a : String) (q' : TaskQueue C) (m : List (String × TaskQueue C))
      → lookup a m ≡ none
      → total (insert a q' m) ≡ total m + count_by p q'.items
  unfolding lookup insert
  total-insert_absent a q' [] h = omega arith
  total-insert_absent a q' ((b, r) ∷ m) h = ground (arith, total-insert_absent a q' m)

  count_by-reverse : (xs : List (QueuedItem C)) → count_by p (reverse xs) ≡ count_by p xs
  count_by-reverse [] = refl
  count_by-reverse (x ∷ xs) = ground (
    arith,
    ap (count_by p) (reverse-cons x xs),
    count_by-append p (reverse xs) (x ∷ []),
    count_by-reverse xs,
  )

  count_by-arrange :
      (last : Bool) (taken left : List (QueuedItem C))
      → count_by p (arrange last taken left) ≡ count_by p taken + count_by p left
  count_by-arrange true taken left =
      omega (arith, count_by-append p left (reverse taken), count_by-reverse taken)
  count_by-arrange false taken left = count_by-append p taken left

  total-next_from :
      (order : List String) (now : ℕ) (pm : PoolManager C)
      → let next = next_from order now pm in
        total pm.queues
        ≡ total next.pool.queues + count_by p next.expired + count_by p (to_list next.item)
  unfolding next_from
  total-next_from [] now pm = omega arith
  total-next_from (a ∷ order) now pm = elim (Option-cases (lookup a pm.queues)) [
    | inl e ↦ rw (e, next_from) (total-next_from order now pm)
    | inr (q, e) ↦
        let cfg = deref pm.queue_cfgs q.cfg in
        let d = dequeue cfg now q.items in
        let q' : TaskQueue C = record q { items = d.left } in
        let kept : count_by p q.items
            ≡ count_by p d.expired + count_by p (to_list d.item) + count_by p d.left =
          omega (
            arith,
            ap (count_by p) (dequeue-IsDequeue cfg now q.items).split,
            count_by-arrange (Queue.is_last cfg.order) (d.expired ++ to_list d.item) d.left,
            count_by-append p d.expired (to_list d.item),
          ) in
        let moved = total-insert a q q' pm.queues e in
        elim (Option-cases d.item) [
          | inl n ↦
              rw (e, next_from, n)
                (omega (
                  arith,
                  kept,
                  moved,
                  ap (λ o. count_by p (to_list o)) n,
                  count_by-append p d.expired (next_from order now (with_queue a q' pm)).expired,
                  total-next_from order now (with_queue a q' pm),
                ))
          | inr (x, n) ↦
              rw (e, next_from, n) (omega (arith, kept, moved, ap (λ o. count_by p (to_list o)) n))
        ]
  ]

  total-seat :
      (now : ℕ) (x : Option (QueuedItem C)) (pm : PoolManager C)
      → total (seat now x pm).queues ≡ total pm.queues
  total-seat now none pm = refl
  total-seat now (some x) pm = refl

  -- In `Release` each queued item stays queued, or is cancelled because it is expired, or is the
  -- one that takes the free slot.
  pub total-release_slot :
      (visit : List String) (now : ℕ) (id : String) (pm : PoolManager C)
      → let next = release_slot visit now id pm in
        total pm.queues
        ≡ total next.pool.queues + count_by p next.expired + count_by p (to_list next.item)
  unfolding release_slot next_queued
  total-release_slot visit now id pm =
      let next = next_from (pm.action_order ++ visit) now (without_task id pm) in
      omega (
        arith,
        total-seat now next.item next.pool,
        total-next_from (pm.action_order ++ visit) now (without_task id pm),
      )

  count_by-find_first :
      (t : QueuedItem C → Bool) (xs : List (QueuedItem C))
      → count_by p xs ≡ count_by p (remove_first t xs) + count_by p (to_list (find_first t xs))
  count_by-find_first t [] = omega arith
  count_by-find_first t (x ∷ xs) = ground (arith, count_by-find_first t xs)

  -- `Dequeue` takes out the item that it finds, and no other.
  pub total-remove_from :
      (visit : List String) (id : String) (pm : PoolManager C)
      → let (pm', found) = remove_from visit id pm in
        total pm.queues ≡ total pm'.queues + count_by p (to_list found)
  unfolding remove_from Queue.remove
  total-remove_from [] id pm = omega arith
  total-remove_from (a ∷ visit) id pm = elim (Option-cases (lookup a pm.queues)) [
    | inl e ↦ rw (e, remove_from) (total-remove_from visit id pm)
    | inr (q, e) ↦
        let q' : TaskQueue C = (Queue.remove id q).0 in
        elim (Option-cases (find_first (Queue.has_id id) q.items)) [
          | inl n ↦ rw (e, remove_from, n) (total-remove_from visit id pm)
          | inr (x, n) ↦
              rw (e, remove_from, n)
                (omega (
                  arith,
                  total-insert a q q' pm.queues e,
                  count_by-find_first (Queue.has_id id) q.items,
                  ap (λ o. count_by p (to_list o)) n,
                ))
        ]
  ]

  -- `PurgeQueue` and `DrainAll` hand back all that they take out.
  pub total-purge_from :
      (visit : List String) (pm : PoolManager C)
      → let (pm', items) = purge_from visit pm in
        total pm.queues ≡ total pm'.queues + count_by p items
  unfolding purge_from
  total-purge_from [] pm = omega arith
  total-purge_from (a ∷ visit) pm = elim (Option-cases (lookup a pm.queues)) [
    | inl e ↦ rw (e, purge_from) (total-purge_from visit pm)
    | inr (q, e) ↦
        let q' : TaskQueue C = record q { items = [] } in
        rw (e, purge_from)
          (omega (
            arith,
            total-insert a q q' pm.queues e,
            total-purge_from visit (with_queue a q' pm),
            count_by-append p q.items (purge_from visit (with_queue a q' pm)).1,
          ))
  ]
