-- ===== src/Pool/Total/Grows.antt =====
-- How far the totals over the queues of pool.go can grow: by the item of `Acquire`, if at all.
use sticky_overseer.Base.{
  ℕ, ◌+◌, ◌≤◌, ◌≡◌, refl, ap, String, Bool, some, List, [], ◌∷◌, arith, lookup, insert,
  lookup-insert_self, count_by, count_by-append, count_by-remove_first-le, count_by-keep_split,
  Bool-cases, Option-cases, inl, inr, is_zero, ℤ,
}
use sticky_overseer.Pool.Types.{QueueConfig, QueuedItem}
use sticky_overseer.Pool.Queue.{TaskQueue, enqueue, expire_old, is_before_cutoff}
use sticky_overseer.Pool.Manager.{PoolManager, with_queue, deref, queue_for, effective_queue_config}
use sticky_overseer.Pool.Acquire.{
  Arrival, new_item, queue_up, put_in_queue, try_displace, is_unforced, without_unforced,
}
use sticky_overseer.Pool.Acquire.Displace.{Displaces, displace_from-Displaces}
use sticky_overseer.Pool.Control.{sweep_expired}
use sticky_overseer.Pool.Total.{total, total-insert, total-insert_absent}

module _ {ℓ} {C : Type ℓ} (p : QueuedItem C → Bool) where
  -- At most the new item is added to a queue.
  count_by-enqueue-le :
      (cfg : QueueConfig) (x : QueuedItem C) (q : TaskQueue C)
      → count_by p (enqueue cfg x q).0.items ≤ count_by p q.items + count_by p (x ∷ [])
  unfolding enqueue
  count_by-enqueue-le cfg x q = ground (arith, count_by-append p q.items (x ∷ []))

  total-queue_for :
      (pm : PoolManager C) (a : String)
      → (total p (queue_for pm a).0.queues ≡ total p pm.queues)
        × (lookup a (queue_for pm a).0.queues ≡ some (queue_for pm a).1)
  unfolding queue_for
  total-queue_for pm a = elim (Option-cases (lookup a pm.queues)) [
    | inr (q, e) ↦ rw (e, queue_for) (refl, e)
    | inl e ↦ elim (Option-cases (effective_queue_config pm a)) [
      | inl f ↦
          rw (e, queue_for)
            (rw f (
              omega (arith, total-insert_absent p a _ pm.queues e),
              lookup-insert_self a _ pm.queues,
            ))
      | inr (c, f) ↦
          rw (e, queue_for)
            (rw f (
              omega (arith, total-insert_absent p a _ pm.queues e),
              lookup-insert_self a _ pm.queues,
            ))
    ]
  ]

  total-put_in_queue-le :
      (x : QueuedItem C) (pm : PoolManager C)
      → total p (put_in_queue x pm).queues ≤ total p pm.queues + count_by p (x ∷ [])
  unfolding put_in_queue
  total-put_in_queue-le x pm =
      let made = queue_for pm x.action in
      let (same, found) = total-queue_for pm x.action in
      let cfg = deref made.0.queue_cfgs made.1.cfg in
      omega (
        arith,
        same,
        total-insert p x.action made.1 (enqueue cfg x made.1).0 made.0.queues found,
        count_by-enqueue-le cfg x made.1,
      )

  total-displaced-le :
      (forced : Bool) (x y : QueuedItem C) (pm pm' : PoolManager C)
      → Displaces forced x pm pm' y
      → total p pm'.queues ≤ total p pm.queues + count_by p (x ∷ [])
  total-displaced-le forced x y pm pm' d =
      let moved = with_queue d.source (without_unforced d.queue) pm in
      omega (
        arith,
        ap (λ m. total p m.queues) d.result,
        total-put_in_queue-le x moved,
        total-insert p d.source d.queue (without_unforced d.queue) pm.queues d.found,
        count_by-remove_first-le is_unforced p d.queue.items,
      )

  pub total-queue_up-le :
      (visit : List String) (now : ℕ) (a : Arrival C) (pm : PoolManager C)
      → total p (queue_up visit now a pm).0.queues
        ≤ total p pm.queues + count_by p (new_item now a ∷ [])
  unfolding queue_up try_displace
  total-queue_up-le visit now a pm =
      let made = queue_for pm a.action in
      let (same, found) = total-queue_for pm a.action in
      let cfg = deref made.0.queue_cfgs made.1.cfg in
      let item = new_item now a in
      let stored = enqueue cfg item made.1 in
      let kept : total p (insert a.action stored.0 made.0.queues)
          ≤ total p pm.queues + count_by p (item ∷ []) =
        omega (
          arith,
          same,
          total-insert p a.action made.1 stored.0 made.0.queues found,
          count_by-enqueue-le cfg item made.1,
        ) in
      let unmoved : total p made.0.queues ≤ total p pm.queues + count_by p (item ∷ []) =
        omega (arith, same) in
      elim (Bool-cases cfg.enabled) [
        | inr off ↦ rw off unmoved
        | inl on ↦ elim (Bool-cases stored.1) [
          | inl b ↦ rw (on, b) kept
          | inr b ↦ elim (Option-cases (try_displace visit a.action a.forced item made.0)) [
            | inl n ↦ rw (on, b) (rw n unmoved)
            | inr ((pm', y), n) ↦
                rw (on, b)
                  (rw n (
                    omega (
                      arith,
                      same,
                      total-displaced-le a.forced item y made.0 pm'
                          (displace_from-Displaces a.forced item made.0 _ pm' y n),
                    )))
          ]
        ]
      ]

  total-expire_old-le :
      (age : ℤ) (now : ℕ) (q : TaskQueue C)
      → count_by p (expire_old age now q).0.items ≤ count_by p q.items
  unfolding expire_old
  total-expire_old-le age now q = elim (Bool-cases (is_zero age)) [
    | inl e ↦ rw e (omega arith)
    | inr e ↦
        rw e (
          omega
            (arith, count_by-keep_split (λ x. is_before_cutoff now age x.enqueued_at) p q.items))
  ]

  pub total-sweep_expired-le :
      (visit : List String) (now : ℕ) (pm : PoolManager C)
      → total p (sweep_expired visit now pm).0.queues ≤ total p pm.queues
  unfolding sweep_expired
  total-sweep_expired-le [] now pm = omega arith
  total-sweep_expired-le (a ∷ visit) now pm = elim (Option-cases (lookup a pm.queues)) [
    | inl e ↦ rw (e, sweep_expired) (total-sweep_expired-le visit now pm)
    | inr (q, e) ↦
        let age = (deref pm.queue_cfgs q.cfg).max_age in
        let q' = (expire_old age now q).0 in
        rw (e, sweep_expired)
          (omega (
            arith,
            total-insert p a q q' pm.queues e,
            total-expire_old-le age now q,
            total-sweep_expired-le visit now (with_queue a q' pm),
          ))
  ]
