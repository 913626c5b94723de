-- ===== src/Pool/Displacement.antt =====
-- Displacement in pool.go: a new item takes the place of the one that it displaces, if that one
-- was in the new item's own queue. Where it was in another action's queue, there is still no room
-- in the own one, and the new item is lost.
use sticky_overseer.Base.{
  ℕ, ◌+◌, ◌≡◌, ◌≢◌, refl, ap, ◌∙◌, String, Bool, true, false, none, some, List, [], ◌∷◌, arith, inl,
  inr, ◌&&◌, Bool-cases, Option-cases, if◌then◌else◌, count_by, count_by-append,
  count_by-remove_first, length-remove_first, length, find_first, ℤ, pos, negsuc, is_positive,
  reaches, lookup, lookup-insert_self, lookup-insert_ne,
}
use sticky_overseer.Pool.Types.{QueueConfig, QueuedItem}
use sticky_overseer.Pool.Queue.{TaskQueue, enqueue}
use sticky_overseer.Pool.Manager.{PoolManager, with_queue, deref, queue_for}
use sticky_overseer.Pool.Acquire.{is_unforced, without_unforced, put_in_queue, displace_at}
use sticky_overseer.Pool.Allows.{Allows}
use sticky_overseer.Pool.Fits.{Fits}
use sticky_overseer.Pool.Total.{total, total-insert}

module _ {ℓ} {C : Type ℓ} (p : QueuedItem C → Bool) where
  -- What `Enqueue` adds.
  abbrev pub added : Bool → QueuedItem C → ℕ
  added stored x = if stored then count_by p (x ∷ []) else 0

  count_by-enqueue :
      (cfgs : List QueueConfig) (x : QueuedItem C) (q : TaskQueue C)
      → let stored = enqueue (deref cfgs q.cfg) x q in
        count_by p stored.0.items ≡ count_by p q.items + added stored.1 x
  unfolding enqueue
  count_by-enqueue cfgs x q =
      let cfg = deref cfgs q.cfg in
      elim (Bool-cases (is_positive cfg.size && reaches (length q.items) cfg.size)) [
        | inl full ↦ rw full (omega arith)
        | inr room ↦ rw room (count_by-append p q.items (x ∷ []))
      ]

  total-put_in_queue :
      (x : QueuedItem C) (pm : PoolManager C) (q : TaskQueue C)
      → lookup x.action pm.queues ≡ some q
      → total p (put_in_queue x pm).queues
        ≡ total p pm.queues + added (enqueue (deref pm.queue_cfgs q.cfg) x q).1 x
  unfolding put_in_queue queue_for
  total-put_in_queue x pm q e =
      rw (e, queue_for)
        (omega (
          arith,
          count_by-enqueue pm.queue_cfgs x q,
          total-insert p x.action q (enqueue (deref pm.queue_cfgs q.cfg) x q).0 pm.queues e,
        ))

  -- The queue from which an item was taken has room for another.
  enqueue_room :
      (cfgs : List QueueConfig) (x y : QueuedItem C) (q : TaskQueue C)
      → Fits cfgs (some q)
      → find_first is_unforced q.items ≡ some y
      → (enqueue (deref cfgs q.cfg) x (without_unforced q)).1 ≡ true
  unfolding enqueue
  enqueue_room cfgs x y q f h =
      rw (room (deref cfgs q.cfg).size _ _ f (length-remove_first is_unforced q.items y h))
    where
      room :
          (size : ℤ) (m n : ℕ)
          → Allows size n
          → n ≡ m + 1
          → (is_positive size && reaches m size) ≡ false
      room (pos k) m n a e = ground arith
      room (negsuc k) m n a e = refl

  displace_at_lem :
      (forced : Bool) (a : String) (x y : QueuedItem C) (pm pm' : PoolManager C) (q : TaskQueue C)
      → lookup a pm.queues ≡ some q
      → displace_at a forced x pm ≡ some (pm', y)
      → (find_first is_unforced q.items ≡ some y)
        × (pm' ≡ put_in_queue x (with_queue a (without_unforced q) pm))
  unfolding displace_at
  displace_at_lem forced a x y pm pm' q e h = (ground arith, ground arith)

  displace_at_absent :
      (forced : Bool) (a : String) (x : QueuedItem C) (pm : PoolManager C)
      → lookup a pm.queues ≡ none
      → displace_at a forced x pm ≡ none
  unfolding displace_at
  displace_at_absent forced a x pm e = ground arith

  -- The displaced item has left its queue.
  total_displaced :
      (a : String) (y : QueuedItem C) (pm : PoolManager C) (q : TaskQueue C)
      → lookup a pm.queues ≡ some q
      → find_first is_unforced q.items ≡ some y
      → total p (with_queue a (without_unforced q) pm).queues + count_by p (y ∷ [])
        ≡ total p pm.queues
  total_displaced a y pm q e first = omega (
    arith,
    total-insert p a q (without_unforced q) pm.queues e,
    count_by-remove_first is_unforced p q.items y first,
  )

  -- Where `tryDisplace` displaces an item of the new item's own queue, which is within its size, the
  -- queues together have the same items as before, with the new one in the place of the displaced.
  pub total-displace_own :
      (forced : Bool) (x y : QueuedItem C) (pm pm' : PoolManager C) (q : TaskQueue C)
      → lookup x.action pm.queues ≡ some q
      → Fits pm.queue_cfgs (some q)
      → displace_at x.action forced x pm ≡ some (pm', y)
      → total p pm'.queues + count_by p (y ∷ []) ≡ total p pm.queues + count_by p (x ∷ [])
  total-displace_own forced x y pm pm' q e f h =
      let (first, result) = displace_at_lem forced x.action x y pm pm' q e h in
      let moved = with_queue x.action (without_unforced q) pm in
      let stored = enqueue_room pm.queue_cfgs x y q f first in
      rw result (
        omega (
          arith,
          total_displaced x.action y pm q e first,
          total-put_in_queue x moved (without_unforced q)
              (lookup-insert_self x.action (without_unforced q) pm.queues),
          ap (λ b. added b x) stored,
        ))

  -- Where `tryDisplace` displaces an item of another action's queue, and the new item's own queue
  -- does not take it, the queues together only lose the displaced item: the new one is in none.
  pub total-displace_other :
      (forced : Bool) (a : String) (x y : QueuedItem C) (pm pm' : PoolManager C) (own : TaskQueue C)
      → lookup x.action pm.queues ≡ some own
      → (enqueue (deref pm.queue_cfgs own.cfg) x own).1 ≡ false
      → a ≢ x.action
      → displace_at a forced x pm ≡ some (pm', y)
      → total p pm'.queues + count_by p (y ∷ []) ≡ total p pm.queues
  total-displace_other forced a x y pm pm' own e full ne h =
      elim (Option-cases (lookup a pm.queues)) [
        | inl n ↦ absurd (ground (arith, displace_at_absent forced a x pm n))
        | inr (q, n) ↦
            let (first, result) = displace_at_lem forced a x y pm pm' q n h in
            let moved = with_queue a (without_unforced q) pm in
            rw result (
              omega (
                arith,
                total_displaced a y pm q n first,
                total-put_in_queue x moved own
                    (lookup-insert_ne a x.action (without_unforced q) pm.queues ne ∙ e),
                ap (λ b. added b x) full,
              ))
      ]
