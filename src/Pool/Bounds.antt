-- ===== src/Pool/Bounds.antt =====
-- The sizes of the queues of pool.go: no operation but `SetLimits` leaves a queue with more items
-- than its `Size`.
use sticky_overseer.Base.{
  ℕ, ◌≡◌, sym, subst, String, Bool, Option, none, some, List, [], ◌∷◌, ◌++◌, inl, inr, Bool-cases,
  Option-cases, length-remove_first-le, length-keep-le, ℤ, is_zero, find_first, lookup,
}
use sticky_overseer.Pool.Types.{QueueConfig, QueuedItem}
use sticky_overseer.Pool.Queue
use sticky_overseer.Pool.Queue.{TaskQueue, enqueue, dequeue, expire_old}
use sticky_overseer.Pool.Manager.{
  PoolManager, with_queue, deref, without_task, has_capacity, queue_for,
}
use sticky_overseer.Pool.Acquire.{
  Arrival, new_item, without_unforced, is_unforced, put_in_queue, try_displace, queue_up, admit,
}
use sticky_overseer.Pool.Acquire.Displace.{displace_from-Displaces}
use sticky_overseer.Pool.Release.{seat, next_from, next_queued, release_slot}
use sticky_overseer.Pool.Control.{remove_from, purge_from, sweep_expired}
use sticky_overseer.Pool.Allows.{Allows-mono, Allows-zero}
use sticky_overseer.Pool.Fits.{
  Fits, Bounded, with_queue-Bounded, found-Fits, queue_for-Bounded, stored-Fits, dequeue-Fits,
}

module _ {ℓ} {C : Type ℓ} where
  put_in_queue-Bounded :
      (x : QueuedItem C) (pm : PoolManager C) → Bounded pm → Bounded (put_in_queue x pm)
  unfolding put_in_queue
  put_in_queue-Bounded x pm v = stored-Fits pm x.action x v

  try_displace-Bounded :
      (visit : List String) (action : String) (forced : Bool) (x : QueuedItem C)
      (pm pm' : PoolManager C) (y : QueuedItem C)
      → try_displace visit action forced x pm ≡ some (pm', y)
      → Bounded pm
      → Bounded pm'
  unfolding try_displace
  try_displace-Bounded visit action forced x pm pm' y h v =
      let d = displace_from-Displaces forced x pm _ pm' y h in
      subst Bounded (sym d.result) (
        put_in_queue-Bounded x (with_queue d.source (without_unforced d.queue) pm) (
          with_queue-Bounded d.source (without_unforced d.queue) pm v (
            Allows-mono (deref pm.queue_cfgs d.queue.cfg).size _ _
              (length-remove_first-le is_unforced d.queue.items)
              (found-Fits pm d.source d.queue v d.found))))

  queue_up-Bounded :
      (visit : List String) (now : ℕ) (a : Arrival C) (pm : PoolManager C)
      → Bounded pm
      → Bounded (queue_up visit now a pm).0
  unfolding queue_up
  queue_up-Bounded visit now a pm v =
      let made = queue_for pm a.action in
      let cfg = deref made.0.queue_cfgs made.1.cfg in
      let (w, f) = queue_for-Bounded pm a.action v in
      elim (Bool-cases cfg.enabled) [
        | inr off ↦ rw off w
        | inl on ↦ rw on (elim (Bool-cases (enqueue cfg (new_item now a) made.1).1) [
          | inl stored ↦ rw stored (stored-Fits pm a.action (new_item now a) v)
          | inr full ↦
              rw full
                (elim (Option-cases
                  (try_displace visit a.action a.forced (new_item now a) made.0)) [
                    | inl e ↦ rw e w
                    | inr (r, e) ↦ rw e (
                        try_displace-Bounded visit a.action a.forced (new_item now a) made.0 r.0 r.1
                          e w)
                  ])
        ])
      ]

  -- `Acquire`, on every branch.
  pub admit-Bounded :
      (visit : List String) (now : ℕ) (a : Arrival C) (pm : PoolManager C)
      → Bounded pm
      → Bounded (admit visit now a pm).0
  unfolding admit
  admit-Bounded visit now a pm v = elim (Bool-cases (has_capacity pm a.action)) [
    | inl room ↦ rw room v
    | inr full ↦ rw full (queue_up-Bounded visit now a pm v)
  ]

  next_from-Bounded :
      (order : List String) (now : ℕ) (pm : PoolManager C)
      → Bounded pm
      → Bounded (next_from order now pm).pool
  unfolding next_from
  next_from-Bounded [] now pm v = v
  next_from-Bounded (a ∷ order) now pm v = elim (Option-cases (lookup a pm.queues)) [
    | inl e ↦ rw (e, next_from) (next_from-Bounded order now pm v)
    | inr (q, e) ↦
        let cfg = deref pm.queue_cfgs q.cfg in
        let d = dequeue cfg now q.items in
        let w =
          with_queue-Bounded a (record q { items = d.left }) pm v
            (dequeue-Fits cfg now q.items cfg.size (found-Fits pm a q v e)) in
        elim (Option-cases d.item) [
          | inl n ↦ rw (e, next_from, n) (next_from-Bounded order now _ w)
          | inr (x, n) ↦ rw (e, next_from, n) w
        ]
  ]

  seat-Bounded :
      (now : ℕ) (x : Option (QueuedItem C)) (pm : PoolManager C)
      → Bounded pm
      → Bounded (seat now x pm)
  seat-Bounded now none pm v = v
  seat-Bounded now (some x) pm v = v

  pub release_slot-Bounded :
      (visit : List String) (now : ℕ) (id : String) (pm : PoolManager C)
      → Bounded pm
      → Bounded (release_slot visit now id pm).pool
  unfolding release_slot next_queued
  release_slot-Bounded visit now id pm v =
      seat-Bounded now _ _ (next_from-Bounded (pm.action_order ++ visit) now (without_task id pm) v)

  pub remove_from-Bounded :
      (visit : List String) (id : String) (pm : PoolManager C)
      → Bounded pm
      → Bounded (remove_from visit id pm).0
  unfolding remove_from Queue.remove
  remove_from-Bounded [] id pm v = v
  remove_from-Bounded (a ∷ visit) id pm v = elim (Option-cases (lookup a pm.queues)) [
    | inl e ↦ rw (e, remove_from) (remove_from-Bounded visit id pm v)
    | inr (q, e) ↦ elim (Option-cases (find_first (Queue.has_id id) q.items)) [
      | inl n ↦ rw (e, remove_from, n) (remove_from-Bounded visit id pm v)
      | inr (x, n) ↦
          rw (e, remove_from, n)
            (with_queue-Bounded a (Queue.remove id q).0 pm v (
              Allows-mono (deref pm.queue_cfgs q.cfg).size _ _
                (length-remove_first-le (Queue.has_id id) q.items) (found-Fits pm a q v e)))
    ]
  ]

  pub purge_from-Bounded :
      (visit : List String) (pm : PoolManager C) → Bounded pm → Bounded (purge_from visit pm).0
  unfolding purge_from
  purge_from-Bounded [] pm v = v
  purge_from-Bounded (a ∷ visit) pm v = elim (Option-cases (lookup a pm.queues)) [
    | inl e ↦ rw (e, purge_from) (purge_from-Bounded visit pm v)
    | inr (q, e) ↦
        rw (e, purge_from)
          (purge_from-Bounded visit (with_queue a (record q { items = [] }) pm) (
            with_queue-Bounded a (record q { items = [] }) pm v
              (Allows-zero (deref pm.queue_cfgs q.cfg).size)))
  ]

  expire_old-Fits :
      (cfgs : List QueueConfig) (age : ℤ) (now : ℕ) (q : TaskQueue C)
      → Fits cfgs (some q)
      → Fits cfgs (some (expire_old age now q).0)
  unfolding expire_old
  expire_old-Fits cfgs age now q f = elim (Bool-cases (is_zero age)) [
    | inl z ↦ rw z f
    | inr nz ↦ rw nz (Allows-mono (deref cfgs q.cfg).size _ _ (length-keep-le _ q.items) f)
  ]

  pub sweep_expired-Bounded :
      (visit : List String) (now : ℕ) (pm : PoolManager C)
      → Bounded pm
      → Bounded (sweep_expired visit now pm).0
  unfolding sweep_expired
  sweep_expired-Bounded [] now pm v = v
  sweep_expired-Bounded (a ∷ visit) now pm v = elim (Option-cases (lookup a pm.queues)) [
    | inl e ↦ rw (e, sweep_expired) (sweep_expired-Bounded visit now pm v)
    | inr (q, e) ↦
        rw (e, sweep_expired)
          (sweep_expired-Bounded visit now _ (
            with_queue-Bounded a (expire_old (deref pm.queue_cfgs q.cfg).max_age now q).0 pm v
              (expire_old-Fits pm.queue_cfgs _ now q (found-Fits pm a q v e))))
  ]
