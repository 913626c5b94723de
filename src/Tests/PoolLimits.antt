-- ===== src/Tests/PoolLimits.antt =====
-- Instances of Pool/Limits, and runs of `acquire` and `release`.
use sticky_overseer.Base.{ℕ, ◌≤◌, ◌≡◌, refl, String, Option, none, [], ◌∷◌, pos, length}
use sticky_overseer.Pool.Types.{cancels, displaced_by_incoming}
use sticky_overseer.Pool.Manager.{running_count_for_action}
use sticky_overseer.Pool.Queue.{dequeue}
use sticky_overseer.Pool.Queue.Order.{IsDequeue, dequeue-IsDequeue}
use sticky_overseer.Pool.Acquire.{acquire}
use sticky_overseer.Pool.Release.{release_slot}
use sticky_overseer.Pool.Allows.{Allows}
use sticky_overseer.Pool.Limits.{
  WithinLimits, new_pool_manager-WithinLimits, acquire-WithinLimits, release_slot_overruns,
}
use sticky_overseer.Pool.Manager.{PoolManager}
use sticky_overseer.Pool.Acquire.{admit, new_entry}
use sticky_overseer.Pool.Steps
use sticky_overseer.Pool.Resize.{reconfigure}
use sticky_overseer.Pool.Steps.Limits
use sticky_overseer.Pool.Steps.Places
use sticky_overseer.Pool.Steps.Places.{Run, places, new_pool-places-le}
use sticky_overseer.Pool.Steps.Limits.{IsWithinGlobal, new_pool-IsWithinGlobal}
use sticky_overseer.Tests.PoolData.{
  global_config, build_config, program, empty_pool, full_pool, arrival, item, queue_config,
}

abbrev succeeds : ℕ → Option String
succeeds c = none

empty_pool-WithinLimits : WithinLimits empty_pool
empty_pool-WithinLimits = new_pool_manager-WithinLimits _ _ _

acquire-WithinLimits_example :
    WithinLimits (acquire succeeds [] 7 (arrival "a" "build") empty_pool).0
acquire-WithinLimits_example =
    acquire-WithinLimits succeeds [] 7 (arrival "a" "build") empty_pool empty_pool-WithinLimits

-- A task that starts and ends.
abbrev after_one : PoolManager ℕ
after_one = (release_slot [] 9 "a" (admit [] 7 (arrival "a" "build") empty_pool).0).pool

new_pool-IsWithinGlobal_example : IsWithinGlobal after_one
unfolding program
new_pool-IsWithinGlobal_example =
    new_pool-IsWithinGlobal (queue_config ∷ []) global_config (("build", build_config) ∷ [])
      after_one
      (Limits.next (Limits.next Limits.here (Steps.admits [] 7 (arrival "a" "build")) tt)
        (Steps.releases [] 9 "a") (new_entry 7 (arrival "a" "build"), refl))

-- "c" waits for "a" to end, and the limit of "build" is raised.
abbrev after_two : PoolManager ℕ
after_two =
    (release_slot [] 9 "a" (
      reconfigure "build" (pos 2) (pos 2) none
        (admit [] 8 (arrival "c" "build") (admit [] 7 (arrival "a" "build") empty_pool).0).0)).pool

abbrev two_calls : Run empty_pool after_two
two_calls =
    Places.next
      (Places.next
        (Places.next
          (Places.next Places.here (Places.calls (Steps.admits [] 7 (arrival "a" "build"))))
          (Places.calls (Steps.admits [] 8 (arrival "c" "build"))))
        (Places.reconfigures "build" (pos 2) (pos 2) none))
      (Places.calls (Steps.releases [] 9 "a"))

new_pool-places-le_example : places "c" after_two ≤ 1
unfolding program
new_pool-places-le_example =
    new_pool-places-le "c" (queue_config ∷ []) global_config (("build", build_config) ∷ [])
      after_two two_calls

release_slot_overruns_example :
    ¬ Allows (pos 2) (length (release_slot ("build" ∷ []) 9 "z" full_pool).pool.running)
unfolding program
release_slot_overruns_example =
    release_slot_overruns ("build" ∷ []) 9 "z" full_pool 1 (item "c" "build") refl refl refl refl

dequeue-IsDequeue_example :
    IsDequeue queue_config 90
      (item "c" "build" ∷ [])
      (dequeue queue_config 90 (item "c" "build" ∷ []))
dequeue-IsDequeue_example = dequeue-IsDequeue queue_config 90 (item "c" "build" ∷ [])

-- The queue is full: its first task makes room.
acquire_displaces :
    (acquire succeeds [] 7 (arrival "e" "build") full_pool).3 ≡ cancels 3 displaced_by_incoming ∷ []
unfolding program
acquire_displaces = refl

-- "b" ends, and "c" starts, although "a" is of the same action and its limit is 1.
release_ignores_action_limit :
    running_count_for_action (release_slot [] 9 "b" full_pool).pool "build" ≡ 2
unfolding program
release_ignores_action_limit = refl
