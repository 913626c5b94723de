-- ===== src/Hub/Admission.antt =====
-- The pool's limits, as the hub's calls of `Acquire` keep them.
use sticky_overseer.Base.{
  ℕ, ◌≡◌, refl, sym, subst, String, Bool, Option, none, some, inl, inr, Option-cases,
}
use sticky_overseer.Pool.Types.{Reason, displaced_by_incoming, QueuedItem}
use sticky_overseer.Pool.Queue.{cancel}
use sticky_overseer.Pool.Manager.{PoolManager}
use sticky_overseer.Pool.Acquire
use sticky_overseer.Pool.Acquire.{
  AcquireResult, acquire_running, acquire_queued, Admission, admit, finish_start,
}
use sticky_overseer.Pool.Limits.{WithinLimits, admit-WithinLimits, without_task-WithinLimits}
use sticky_overseer.Hub.Types.{Hub, Launch, World}
use sticky_overseer.Hub.Launch.{
  start_fn, acquire_slot, settle_start, run_calls, run_call, arrival_of, with_pool,
}
use sticky_overseer.Hub.Start.{launch, reserve, conclude_launch}
use sticky_overseer.Hub.Reserved.{start_fn-started_as, cancel_fn-contains, announce_queued-pool}

-- The hub's pool, if it has one, is within its limits.
abbrev pub OptionWithin : Option (PoolManager Launch) → Type 0
OptionWithin none = Unit
OptionWithin (some pm) = WithinLimits pm

finish_start-WithinLimits :
    (id : String) (err : Option String) (pm : PoolManager Launch)
    → WithinLimits pm
    → WithinLimits (finish_start id err pm)
unfolding finish_start
finish_start-WithinLimits id none pm v = v
finish_start-WithinLimits id (some e) pm v = without_task-WithinLimits id pm v

cancel-pool :
    (world : World) (now : ℕ) (reason : Reason) (x : QueuedItem Launch) (h : Hub)
    → (run_calls world now (cancel reason x) h).pool ≡ h.pool
unfolding run_calls run_call
cancel-pool world now reason x h = elim (Option-cases x.cancel_fn) [
  | inl e ↦ rw e refl
  | inr (l, e) ↦ rw e (cancel_fn-contains world now l reason h).2
]

acquire_slot-OptionWithin :
    (world : World) (now : ℕ) (force : Bool) (l : Launch) (pm : PoolManager Launch) (h : Hub)
    → WithinLimits pm
    → OptionWithin ((acquire_slot world now force l pm h).0).pool
unfolding acquire_slot settle_start
acquire_slot-OptionWithin world now force l pm h v =
    go (admit world.visit now (arrival_of world force l) pm).1 refl
  where
    pm' : PoolManager Launch
    pm' = (admit world.visit now (arrival_of world force l) pm).0

    w : WithinLimits pm'
    w = admit-WithinLimits world.visit now (arrival_of world force l) pm v

    go :
        (outcome : Admission Launch)
        → (admit world.visit now (arrival_of world force l) pm).1 ≡ outcome
        → OptionWithin ((acquire_slot world now force l pm h).0).pool
    go Acquire.started e =
        rw (e, acquire_slot)
          (finish_start-WithinLimits l.task_id (start_fn world now l (with_pool world pm' h)).1 pm'
            w)
    go (Acquire.queued none) e = rw (e, acquire_slot) w
    go (Acquire.queued (some x)) e =
        rw (e, acquire_slot)
          (subst OptionWithin
            (sym (cancel-pool world now displaced_by_incoming x (with_pool world pm' h))) w)
    go Acquire.rejected e = rw (e, acquire_slot) w

conclude_launch-pool :
    (world : World) (now : ℕ) (l : Launch) (h : Hub) (result : AcquireResult) (err : Option Reason)
    → ((conclude_launch world now l (h, result, err)).0).pool ≡ h.pool
unfolding conclude_launch
conclude_launch-pool world now l h result (some reason) = refl
conclude_launch-pool world now l h acquire_running none = refl
conclude_launch-pool world now l h acquire_queued none = announce_queued-pool world now l h

-- A start request, whether it comes from a client or from `Submit`, and whether the task starts,
-- fails to start, is queued or is rejected, leaves the hub's pool within its limits.
pub launch-OptionWithin :
    (world : World) (now : ℕ) (force : Bool) (l : Launch) (h : Hub)
    → OptionWithin h.pool
    → OptionWithin ((launch world now force l h).0).pool
unfolding launch reserve
launch-OptionWithin world now force l h v = elim (Option-cases h.pool) [
  | inl e ↦
      rw (e, launch)
        (subst OptionWithin (sym (start_fn-started_as world now l (reserve l.task_id h)).2) v)
  | inr (pm, e) ↦
      let a = acquire_slot world now force l pm (reserve l.task_id h) in
      rw (e, launch)
        (subst OptionWithin (sym (conclude_launch-pool world now l a.0 a.1 a.2)) (
          acquire_slot-OptionWithin world now force l pm (reserve l.task_id h)
            (subst OptionWithin e v)))
]
