-- ===== src/Tests/PoolQueues.antt =====
-- Instances of the theorems on the queues and on `SetLimits` of pool.go.
use sticky_overseer.Base.{
  ℕ, ◌≡◌, ◌≢◌, refl, ◌+◌, String, Bool, Option, false, none, some, ◌++◌, List, [], ◌∷◌, pos, length,
  count_by, text_eq, of_no,
}
use sticky_overseer.Pool.Types.{QueuedItem, RunningEntry}
use sticky_overseer.Pool.Queue.{TaskQueue, has_id}
use sticky_overseer.Pool.Queue.Order.{to_list}
use sticky_overseer.Pool.Manager.{PoolManager}
use sticky_overseer.Pool.Acquire.{admit}
use sticky_overseer.Pool.Release.{release_slot}
use sticky_overseer.Pool.Control.{remove_from}
use sticky_overseer.Pool.Resize.{set_limits, to_stop}
use sticky_overseer.Pool.Allows.{Allows}
use sticky_overseer.Pool.Fits.{Bounded}
use sticky_overseer.Pool.Steps
use sticky_overseer.Pool.Steps.{new_pool-Bounded}
use sticky_overseer.Pool.Total.{total, total-remove_from}
use sticky_overseer.Pool.Slots.{Released, entries_of, release_slot-Released}
use sticky_overseer.Pool.Displacement.{total-displace_own, total-displace_other}
use sticky_overseer.Pool.Victims.{Chosen, IsExcess, order_of, tasks_of, to_stop-Chosen}
use sticky_overseer.Pool.Shrink.{Stopped, set_limits-Allows}
use sticky_overseer.Tests.PoolData.{
  program, empty_pool, full_pool, arrival, item, queue_config, global_config, build_config,
}

abbrev succeeds : ℕ → Option String
succeeds c = none

abbrev is_c : QueuedItem ℕ → Bool
is_c = has_id "c"

abbrev full_queue : TaskQueue ℕ
full_queue = record { cfg = 0; items = item "c" "build" ∷ item "d" "build" ∷ [] }

-- The pool in which each of two actions has a full queue.
abbrev two_queues : PoolManager ℕ
two_queues = record full_pool {
  queues =
      ("build", full_queue)
      ∷ ("test", record { cfg = 0; items = item "e" "test" ∷ item "f" "test" ∷ [] })
      ∷ [];
}

new_pool-Bounded_example : Bounded (admit [] 7 (arrival "a" "build") empty_pool).0
new_pool-Bounded_example =
    new_pool-Bounded (queue_config ∷ []) global_config (("build", build_config) ∷ [])
      (admit [] 7 (arrival "a" "build") empty_pool).0
      (Steps.next Steps.here (Steps.admits [] 7 (arrival "a" "build")))

release_slot-Released_example : Released 9 "a" full_pool (release_slot [] 9 "a" full_pool)
release_slot-Released_example = release_slot-Released [] 9 "a" full_pool

total-remove_from_example :
    let (pm', found) = remove_from ("build" ∷ []) "c" full_pool in
    total is_c full_pool.queues ≡ total is_c pm'.queues + count_by is_c (to_list found)
total-remove_from_example = total-remove_from is_c ("build" ∷ []) "c" full_pool

abbrev displaced_pool : PoolManager ℕ
displaced_pool = record full_pool {
  queues = ("build", record { cfg = 0; items = item "d" "build" ∷ item "g" "build" ∷ [] }) ∷ [];
}

total-displace_own_example :
    total is_c displaced_pool.queues + count_by is_c (item "c" "build" ∷ [])
    ≡ total is_c full_pool.queues + count_by is_c (item "g" "build" ∷ [])
unfolding program
total-displace_own_example =
    total-displace_own is_c false (item "g" "build") (item "c" "build") full_pool displaced_pool
      full_queue refl refl refl

-- "g" of action "test" finds its own queue full: "c" makes room for it in vain.
abbrev lossy_pool : PoolManager ℕ
lossy_pool = record two_queues {
  queues =
      ("build", record { cfg = 0; items = item "d" "build" ∷ [] })
      ∷ ("test", record { cfg = 0; items = item "e" "test" ∷ item "f" "test" ∷ [] })
      ∷ [];
  action_order = "test" ∷ "build" ∷ [];
}

abbrev build : String
build = "build"

abbrev test : String
test = "test"

abbrev empty : String
empty = ""

build_ne_test : build ≢ test
unfolding text_eq
build_ne_test = of_no (text_eq build test) refl

test_ne_build : test ≢ build
unfolding text_eq
test_ne_build = of_no (text_eq test build) refl

test_ne_empty : test ≢ empty
unfolding text_eq
test_ne_empty = of_no (text_eq test empty) refl

total-displace_other_example :
    total is_c lossy_pool.queues + count_by is_c (item "c" "build" ∷ [])
    ≡ total is_c two_queues.queues
unfolding program
total-displace_other_example =
    total-displace_other is_c false "build" (item "g" "test") (item "c" "build") two_queues
      lossy_pool (record { cfg = 0; items = item "e" "test" ∷ item "f" "test" ∷ [] }) refl refl
      build_ne_test refl

to_stop-Chosen_example :
    ((spared : List (RunningEntry ℕ)) × Chosen
        (order_of "" full_pool)
        (tasks_of "" full_pool.running)
        (to_stop "" (pos 1) full_pool)
        spared)
    × IsExcess
        (pos 1)
        (length (tasks_of "" full_pool.running))
        (length (to_stop "" (pos 1) full_pool))
to_stop-Chosen_example = to_stop-Chosen "" (pos 1) full_pool

-- The pool with its tasks and nothing queued.
abbrev idle_queues : PoolManager ℕ
idle_queues = record full_pool { queues = [] }

set_limits-Allows_example :
    let (pm', calls) = set_limits succeeds (λ id. []) 9 "" (pos 1) (pos 0) none idle_queues in
    Stopped (pos 1) idle_queues.global_cfg.excess.order idle_queues.running calls
    × Allows (pos 1) (length pm'.running)
set_limits-Allows_example =
    set_limits-Allows succeeds (λ id. []) 9 (pos 1) (pos 0) none idle_queues refl refl

-- The pool with two tasks that `Release` started, and nothing queued.
abbrev released_pool : PoolManager ℕ
released_pool = record idle_queues {
  running = entries_of 5 (some (item "c" "build")) ++ entries_of 6 (some (item "d" "build"));
}
