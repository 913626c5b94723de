-- ===== src/Pool/Queue/Fuel.antt =====
-- The loop of `TaskQueue.Dequeue` ends: each round takes an item away.
use sticky_overseer.Base.{ℕ, zero, suc, ◌<◌, ◌≡◌, refl, inl, inr, List, arith, length}
use sticky_overseer.Pool.Types.{QueueConfig, QueuedItem}
use sticky_overseer.Pool.Queue.{dequeue_loop, dequeue}
use sticky_overseer.Pool.Queue.Order.{pop_item_lem}

module _ {ℓ} {C : Type ℓ} (cfg : QueueConfig) (now : ℕ) where
  fuel_irrelevant :
      (f g : ℕ) (items : List (QueuedItem C))
      → length items < f
      → length items < g
      → dequeue_loop f cfg now items ≡ dequeue_loop g cfg now items
  unfolding dequeue_loop
  fuel_irrelevant zero g items h k = elim h [ ]
  fuel_irrelevant (suc f) zero items h k = elim k [ ]
  fuel_irrelevant (suc f) (suc g) items h k = elim (pop_item_lem cfg.order items) [
    | inl (e, n) ↦ rw (e, dequeue_loop) refl
    | inr (x, rest, e, n, l) ↦
        let ih = fuel_irrelevant f g rest (omega arith) (omega arith) in
        rw (e, dequeue_loop, ih) refl
  ]

  -- The loop of `Dequeue` comes to its own end within as many rounds as there are items and one
  -- more: no number of rounds beyond that changes what it returns.
  pub dequeue_loop-dequeue :
      (fuel : ℕ) (items : List (QueuedItem C))
      → length items < fuel
      → dequeue_loop fuel cfg now items ≡ dequeue cfg now items
  unfolding dequeue
  dequeue_loop-dequeue fuel items h =
      fuel_irrelevant fuel (suc (length items)) items h (omega arith)
