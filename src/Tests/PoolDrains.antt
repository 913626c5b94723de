-- ===== src/Tests/PoolDrains.antt =====
-- Instances of the theorems that the queues of pool.go empty.
use sticky_overseer.Base.{
  ℕ, ◌+◌, ◌*◌, ◌≤◌, ◌≡◌, refl, String, Bool, List, [], ◌∷◌, lookup, arith, All, count_by,
}
use sticky_overseer.Pool.Types.{QueuedItem}
use sticky_overseer.Pool.Total.{total}
use sticky_overseer.Pool.Queue.{dequeue, dequeue_loop}
use sticky_overseer.Pool.Queue.Fuel.{dequeue_loop-dequeue}
use sticky_overseer.Pool.Drain.Search.{waiting}
use sticky_overseer.Pool.Drain.{Covers, releases, turns, cancelled, AllReleased, releases-waiting}
use sticky_overseer.Pool.Queue.{TaskQueue, second}
use sticky_overseer.Pool.Control.{expiry_tick}
use sticky_overseer.Pool.Expiry.{expiry_tick-aged}
use sticky_overseer.Tests.PoolData.{program, full_pool, item, queue_config}

dequeue_loop-dequeue_example :
    dequeue_loop 9 queue_config 7 (item "c" "build" ∷ [])
    ≡ dequeue queue_config 7 (item "c" "build" ∷ [])
dequeue_loop-dequeue_example =
    dequeue_loop-dequeue queue_config 7 9 (item "c" "build" ∷ []) (omega arith)

full_pool-Covers : Covers ("build" ∷ []) full_pool
unfolding lookup
full_pool-Covers a h = ground (arith, h)

-- Two tasks end.
abbrev two_ends : List (ℕ × String)
two_ends = (6, "a") ∷ (7, "b") ∷ []

releases-waiting_example :
    ((a : String) → waiting (lookup a (releases ("build" ∷ []) two_ends full_pool).queues) ≡ 0)
    × ((p : QueuedItem ℕ → Bool)
        → total p full_pool.queues
          ≡ total p (releases ("build" ∷ []) two_ends full_pool).queues
            + count_by p (turns ("build" ∷ []) two_ends full_pool)
            + count_by p (cancelled ("build" ∷ []) two_ends full_pool))
    × AllReleased ("build" ∷ []) two_ends full_pool
releases-waiting_example =
    releases-waiting ("build" ∷ []) two_ends full_pool full_pool-Covers (omega arith)

abbrev queue : TaskQueue ℕ
queue = record { cfg = 0; items = item "c" "build" ∷ item "d" "build" ∷ [] }

expiry_tick-aged_example :
    All (λ x. 2 * (30 * second) ≤ 2 * x.enqueued_at + 3 * (60 * second)) queue.items
unfolding program expiry_tick
expiry_tick-aged_example =
    expiry_tick-aged ("build" ∷ []) (10 * second) (30 * second) (5 * second) 60 full_pool "build"
      queue refl refl refl refl refl (omega arith) (omega arith)
