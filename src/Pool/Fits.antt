-- ===== src/Pool/Fits.antt =====
-- The sizes of the queues of pool.go, and what one queue's operations make of them.
use mathlib.Core.List.{reverse}
use sticky_overseer.Base.{
  ℕ, zero, suc, ◌≤◌, ◌≡◌, refl, ap, subst, String, Bool, true, false, Option, none, some, List, [],
  ◌∷◌, ◌++◌, arith, inl, inr, ◌&&◌, Bool-cases, Option-cases, length, length-append, ℤ, is_positive,
  reaches, lookup, insert, lookup-insert_ind,
}
use sticky_overseer.Pool.Types.{QueueConfig, zero_queue_config, QueuedItem}
use sticky_overseer.Pool.Queue
use sticky_overseer.Pool.Queue.{TaskQueue, enqueue, dequeue, expire_old}
use sticky_overseer.Pool.Queue.Order.{arrange, to_list, dequeue-IsDequeue}
use sticky_overseer.Pool.Manager.{PoolManager, with_queue, deref, effective_queue_config, queue_for}
use sticky_overseer.Pool.Allows.{Allows, Allows-mono, Allows-suc, Allows-zero}

deref-append :
    (cfgs : List QueueConfig) (p : ℕ) → deref (cfgs ++ zero_queue_config ∷ []) p ≡ deref cfgs p
deref-append [] zero = refl
deref-append [] (suc p) = refl
deref-append (c ∷ cfgs) zero = refl
deref-append (c ∷ cfgs) (suc p) = deref-append cfgs p

module _ {ℓ} {C : Type ℓ} where
  -- A queue, where there is one, holds no more items than its configuration says.
  abbrev pub Fits : List QueueConfig → Option (TaskQueue C) → Type 0
  Fits cfgs none = Unit
  Fits cfgs (some q) = Allows (deref cfgs q.cfg).size (length q.items)

  abbrev pub Bounded : PoolManager C → Type 0
  Bounded pm = (a : String) → Fits pm.queue_cfgs (lookup a pm.queues)

  pub with_queue-Bounded :
      (a : String) (q : TaskQueue C) (pm : PoolManager C)
      → Bounded pm
      → Fits pm.queue_cfgs (some q)
      → Bounded (with_queue a q pm)
  with_queue-Bounded a q pm v f b = lookup-insert_ind (Fits pm.queue_cfgs) a b q pm.queues f (v b)

  Fits-append :
      (cfgs : List QueueConfig) (q : Option (TaskQueue C))
      → Fits cfgs q
      → Fits (cfgs ++ zero_queue_config ∷ []) q
  Fits-append cfgs none f = tt
  Fits-append cfgs (some q) f = rw (deref-append cfgs q.cfg) f

  pub found-Fits :
      (pm : PoolManager C) (a : String) (q : TaskQueue C)
      → Bounded pm
      → lookup a pm.queues ≡ some q
      → Fits pm.queue_cfgs (some q)
  found-Fits pm a q v e = subst (Fits pm.queue_cfgs) e (v a)

  -- `queueFor` makes empty queues, and returns what it stores.
  pub queue_for-Bounded :
      (pm : PoolManager C) (a : String)
      → Bounded pm
      → Bounded (queue_for pm a).0 × Fits (queue_for pm a).0.queue_cfgs (some (queue_for pm a).1)
  unfolding queue_for
  queue_for-Bounded pm a v = elim (Option-cases (lookup a pm.queues)) [
    | inl e ↦ elim (Option-cases (effective_queue_config pm a)) [
      | inl n ↦
          rw (e, queue_for, n)
            (
              λ b.
                  lookup-insert_ind (Fits (pm.queue_cfgs ++ zero_queue_config ∷ [])) a b _ pm.queues
                    (Allows-zero
                      (deref (pm.queue_cfgs ++ zero_queue_config ∷ []) (length pm.queue_cfgs)).size)
                    (Fits-append pm.queue_cfgs (lookup b pm.queues) (v b)),
              Allows-zero
                  (deref (pm.queue_cfgs ++ zero_queue_config ∷ []) (length pm.queue_cfgs)).size,
            )
      | inr (p, n) ↦
          rw (e, queue_for, n)
            (
              with_queue-Bounded a (record { cfg = p; items = [] }) pm v
                  (Allows-zero (deref pm.queue_cfgs p).size),
              Allows-zero (deref pm.queue_cfgs p).size,
            )
    ]
    | inr (q, e) ↦ rw (e, queue_for) (v, found-Fits pm a q v e)
  ]

  pub enqueue-Fits :
      (cfgs : List QueueConfig) (x : QueuedItem C) (q : TaskQueue C)
      → Fits cfgs (some q)
      → Fits cfgs (some (enqueue (deref cfgs q.cfg) x q).0)
  unfolding enqueue
  enqueue-Fits cfgs x q f =
      let cfg = deref cfgs q.cfg in
      elim (Bool-cases (is_positive cfg.size && reaches (length q.items) cfg.size)) [
        | inl full ↦ rw full f
        | inr room ↦ rw room (
            Allows-mono cfg.size _ _ (omega (arith, length-append q.items (x ∷ [])))
              (Allows-suc cfg.size (length q.items) room))
      ]

  -- What `Enqueue` leaves of the queue of an action.
  pub stored-Fits :
      (pm : PoolManager C) (a : String) (x : QueuedItem C)
      → Bounded pm
      → let made = queue_for pm a in
        (b : String)
        → Fits made.0.queue_cfgs (
            lookup b
              (insert a (enqueue (deref made.0.queue_cfgs made.1.cfg) x made.1).0 made.0.queues))
  stored-Fits pm a x v b =
      let made = queue_for pm a in
      let (w, f) = queue_for-Bounded pm a v in
      lookup-insert_ind (Fits made.0.queue_cfgs) a b _ made.0.queues
        (enqueue-Fits made.0.queue_cfgs x made.1 f) (w b)

  pub length-arrange :
      (last : Bool) (taken left : List (QueuedItem C))
      → length left ≤ length (arrange last taken left)
  length-arrange true taken left = omega (arith, length-append left (reverse taken))
  length-arrange false taken left = omega (arith, length-append taken left)

  pub dequeue-Fits :
      (cfg : QueueConfig) (now : ℕ) (items : List (QueuedItem C)) (size : ℤ)
      → Allows size (length items)
      → Allows size (length (dequeue cfg now items).left)
  dequeue-Fits cfg now items size f =
      let d = dequeue-IsDequeue cfg now items in
      Allows-mono size _ _
        (omega (
          arith,
          ap length d.split,
          length-arrange (Queue.is_last cfg.order)
              ((dequeue cfg now items).expired ++ to_list (dequeue cfg now items).item)
              (dequeue cfg now items).left,
        ))
        f
