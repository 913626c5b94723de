-- ===== src/Pool/Queue.antt =====
-- `TaskQueue` of pool.go. A method takes what its `cfg` points to, beside the queue.
pub mod Order
pub mod Fuel
use sticky_overseer.Base.{
  ℕ, zero, suc, ◌+◌, ◌*◌, String, Bool, true, false, Option, none, some, List, [], ◌∷◌, ◌++◌, ◌&&◌,
  not, ltb, if◌then◌else◌, ite, text_eq, length, keep, find_first, remove_first, ℤ, pos, negsuc,
  is_positive, is_zero, reaches,
}
use sticky_overseer.Pool.Types.{
  QueueConfig, QueueOrder, order_last, QueuedItem, QueuedItemInfo, Reason, item_expired, Call,
  cancels,
}

-- `cfg` is the index of a `QueueConfig` among those of the pool.
pub record TaskQueue {ℓ} (C : Type ℓ) : Type ℓ where
  pub cfg : ℕ
  pub items : List (QueuedItem C)

abbrev pub second : ℕ
second = 1000000000

-- `item.enqueuedAt.Before(time.Now().Add(-time.Duration(maxAge) * time.Second))`
abbrev pub is_before_cutoff : ℕ → ℤ → ℕ → Bool
is_before_cutoff now (pos age) enqueued_at = ltb (enqueued_at + age * second) now
is_before_cutoff now (negsuc n) enqueued_at = ltb enqueued_at (now + suc n * second)

abbrev pub is_last : QueueOrder → Bool
is_last order_last = true
is_last _ = false

-- What `Dequeue` returns, the items left, and the expired ones that it cancelled on the way.
pub record Dequeued {ℓ} (C : Type ℓ) : Type ℓ where
  pub item : Option (QueuedItem C)
  pub left : List (QueuedItem C)
  pub expired : List (QueuedItem C)

module _ {ℓ} {A : Type ℓ} where
  -- `items[len(items)-1]` and `items[:len(items)-1]`
  unfoldable pub pop_back : List A → Option (A × List A)
  pop_back [] = none
  pop_back (x ∷ xs) = elim (pop_back xs) [
    | none ↦ some (x, [])
    | some (y, rest) ↦ some (y, x ∷ rest)
  ]

  -- `items[0]` and `items[1:]`
  unfoldable pub pop_front : List A → Option (A × List A)
  pop_front [] = none
  pop_front (x ∷ xs) = some (x, xs)

  unfoldable pub pop_item : QueueOrder → List A → Option (A × List A)
  unfolding pop_back pop_front
  pop_item order items = if is_last order then pop_back items else pop_front items

module _ {ℓ} {C : Type ℓ} where
  -- `cancelFn(reason)`, where there is one
  abbrev pub cancel : Reason → QueuedItem C → List (Call C)
  cancel reason item = elim item.cancel_fn [ none ↦ [] | some f ↦ cancels f reason ∷ [] ]

  abbrev pub cancel_all : Reason → List (QueuedItem C) → List (Call C)
  cancel_all reason [] = []
  cancel_all reason (item ∷ items) = cancel reason item ++ cancel_all reason items

  -- The queue after `Enqueue`, and whether the item was taken.
  unfoldable pub enqueue : QueueConfig → QueuedItem C → TaskQueue C → TaskQueue C × Bool
  enqueue cfg item q =
      if is_positive cfg.size && reaches (length q.items) cfg.size
      then (q, false)
      else (record q { items = q.items ++ item ∷ [] }, true)

  -- The test of `Dequeue`, which looks at positive ages only.
  abbrev pub is_expired : QueueConfig → ℕ → QueuedItem C → Bool
  is_expired cfg now item =
      is_positive cfg.max_age && is_before_cutoff now cfg.max_age item.enqueued_at

  -- The `for` loop, on fuel.
  unfoldable pub dequeue_loop : ℕ → QueueConfig → ℕ → List (QueuedItem C) → Dequeued C
  dequeue_loop zero cfg now items = record { item = none; left = items; expired = [] }
  dequeue_loop (suc fuel) cfg now items = elim (pop_item cfg.order items) [
    | none ↦ record { item = none; left = []; expired = [] }
    | some (x, rest) ↦
        let again = dequeue_loop fuel cfg now rest in
        if is_expired cfg now x
        then record again { expired = x ∷ again.expired }
        else record { item = some x; left = rest; expired = [] }
  ]

  -- A round takes an item away, so one more round than there are items is enough.
  unfoldable pub dequeue : QueueConfig → ℕ → List (QueuedItem C) → Dequeued C
  unfolding dequeue_loop pop_item
  dequeue cfg now items = dequeue_loop (suc (length items)) cfg now items

  abbrev pub has_id : String → QueuedItem C → Bool
  has_id id item = ite (text_eq item.task_id id) true false

  -- The queue after `Remove`, and the item that it found.
  unfoldable pub remove : String → TaskQueue C → TaskQueue C × Option (QueuedItem C)
  remove id q =
      (record q { items = remove_first (has_id id) q.items }, find_first (has_id id) q.items)

  unfoldable pub info_from : ℕ → List (QueuedItem C) → List QueuedItemInfo
  info_from i [] = []
  info_from i (x ∷ xs) =
      record {
        task_id = x.task_id;
        action = x.action;
        queued_at = x.enqueued_at;
        position = i;
        forced = x.forced;
      }
      ∷ info_from (suc i) xs

  unfoldable pub info : TaskQueue C → List QueuedItemInfo
  unfolding info_from
  info q = info_from 0 q.items

  -- The queue after `expireOld`, and the items that it returns.
  unfoldable pub expire_old : ℤ → ℕ → TaskQueue C → TaskQueue C × List (QueuedItem C)
  expire_old max_age now q = if is_zero max_age then (q, []) else (
    record q { items = keep (λ x. not (is_before_cutoff now max_age x.enqueued_at)) q.items },
    keep (λ x. is_before_cutoff now max_age x.enqueued_at) q.items,
  )
