-- ===== src/Tests/HubRuns.antt =====
-- Instances of the theorems on hub.go, metrics.go and worker.go.
use sticky_overseer.Base.{
  contains, ℕ, ◌≡◌, refl, ◌+◌, ◌≤◌, ◌<◌, true, false, some, [], ◌∷◌, ◌++◌, pos, arith, lookup, keep,
  count_by, text_eq,
}
use sticky_overseer.Metrics.Cap.{IsCapped}
use sticky_overseer.Metrics.Counters
use sticky_overseer.Metrics.Counters.{
  record_all, record_all-IsCapped, counters, tally, counters_exact,
}
use sticky_overseer.Pool.Acquire.{admit}
use sticky_overseer.Pool.Limits.{new_pool_manager-WithinLimits}
use sticky_overseer.Hub.Types.{Hub, Message, is_stopped, is_recent}
use sticky_overseer.Hub.Clients.{broadcast_to_subscribers, subscribe}
use sticky_overseer.Hub.Launch.{start_fn, new_task, stop_task, arrival_of}
use sticky_overseer.Hub.Start.{launch, is_taken}
use sticky_overseer.Hub.Exit.{exit_task, settles, delay_of}
use sticky_overseer.Hub.Window.{history_after, counted_exits-is_recent}
use sticky_overseer.Hub.Lifecycle.{here, Reach-is_stopped}
use sticky_overseer.Hub.Routing.{
  is_send_to, is_subscribed, count_by-broadcast_to_subscribers, subscribe-is_subscribed,
}
use sticky_overseer.Hub.Reserved.{start_fn-started_as, launch-is_taken}
use sticky_overseer.Hub.Admission.{OptionWithin, launch-OptionWithin}
use sticky_overseer.Hub.Delay.{delay_of-bounds}
use sticky_overseer.Tests.HubData.{
  hub_program, worker_7, world, policy, job, one_slot, pool_of, hub,
}
use sticky_overseer.Tests.PoolData.{program}

record_all-IsCapped_example :
    IsCapped (record_all (Counters.restart "job" "build" ∷ Counters.start "job" "build" ∷ []))
record_all-IsCapped_example =
    record_all-IsCapped (Counters.restart "job" "build" ∷ Counters.start "job" "build" ∷ [])

counters_exact_example :
    counters "build"
      (record_all (Counters.restart "job" "build" ∷ Counters.start "job" "build" ∷ []))
    ≡ tally "build" (Counters.restart "job" "build" ∷ Counters.start "job" "build" ∷ [])
counters_exact_example =
    counters_exact "build" (Counters.restart "job" "build" ∷ Counters.start "job" "build" ∷ [])

counted_exits-is_recent_example :
    history_after policy (20000000000 ∷ 15000000000 ∷ 1000000000 ∷ [])
    ≡ keep (is_recent 20000000000 (pos 10000000000)) (1000000000 ∷ 15000000000 ∷ [])
      ++ 20000000000 ∷ []
counted_exits-is_recent_example =
    counted_exits-is_recent policy 20000000000 (15000000000 ∷ 1000000000 ∷ []) refl refl

Reach-is_stopped_example :
    (is_stopped ((stop_task true (new_task 20 (job "job"))).0).record_.state ≡ true)
    × ((exit_task false 40 (stop_task true (new_task 20 (job "job"))).0).1 ≡ settles)
    × (((exit_task false 40 (stop_task true (new_task 20 (job "job"))).0).0).record_.exit_count ≡ 0)
    × (((exit_task false 40 (stop_task true (new_task 20 (job "job"))).0).0).exit_history ≡ [])
unfolding hub_program
Reach-is_stopped_example =
    Reach-is_stopped (stop_task true (new_task 20 (job "job"))).0
      (stop_task true (new_task 20 (job "job"))).0 false 40 here refl

count_by-broadcast_to_subscribers_example :
    count_by
      (is_send_to 1)
      (broadcast_to_subscribers world "job" (Message.errored "job" 7 2 50) hub).effects
    ≡ 0 + 1
unfolding text_eq
count_by-broadcast_to_subscribers_example =
    count_by-broadcast_to_subscribers world 1 "job" (Message.errored "job" 7 2 50) hub refl

subscribe-is_subscribed_example : is_subscribed 2 "job" (subscribe 2 "job" hub).subscriptions ≡ true
unfolding text_eq
subscribe-is_subscribed_example = subscribe-is_subscribed 2 2 "job" "job" [] hub refl

start_fn-started_as_example :
    let h' = (start_fn world 20 (job "job") hub).0 in
    (lookup "job" h'.tasks ≡ some (record (new_task 20 (job "job")) { worker = some worker_7 }))
    × (contains "job" h'.pending ≡ false)
    × (h'.pool ≡ hub.pool)
start_fn-started_as_example = start_fn-started_as world 20 (job "job") hub

launch-OptionWithin_example : OptionWithin ((launch world 20 false (job "job") hub).0).pool
launch-OptionWithin_example =
    launch-OptionWithin world 20 false (job "job") hub (new_pool_manager-WithinLimits _ _ _)

delay_of-bounds_example : (n : ℕ) × (delay_of world policy ≡ pos n) × (1000 ≤ n) × (n < 1000 + 500)
delay_of-bounds_example =
    delay_of-bounds world policy 1000 500 (λ n h. h) refl refl (omega arith) (omega arith)

-- The hub once the only slot is taken.
abbrev busy : Hub
busy = record hub { pool = some (admit [] 10 (arrival_of world false (job "other")) one_slot).0 }

launch-is_taken_example : is_taken "job" (launch world 20 false (job "job") busy).0 ≡ true
unfolding program
launch-is_taken_example =
    launch-is_taken world 20 false (job "job") (pool_of busy)
      (admit ("build" ∷ []) 20 (arrival_of world false (job "job")) (pool_of busy)).0 busy refl refl
