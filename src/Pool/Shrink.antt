-- ===== src/Pool/Shrink.antt =====
-- `SetLimits` of pool.go from end to end, with nothing queued: whom it stops, and how many tasks stay
-- in the list of running ones. `Release` fills each free slot from the queues.
pub mod Unqueued
use sticky_overseer.Base.{
  ℕ, ◌+◌, ◌≤◌, ◌≡◌, ◌≢◌, refl, ap, ◌∙◌, String, Option, none, some, List, arith, text_eq, length,
  find_first, find_first_of_count, find_first_holds, remove_first, length-remove_first,
  count_by-remove_first, ℤ, pos, negsuc, is_positive, excess_over, lookup, lookup-insert_self,
  lookup-insert_ne, subst, inl, inr, Option-cases, Bool, true, false,
}
use sticky_overseer.Pool.Types.{RunningEntry, QueuedItem, ExcessConfig, KillOrder, Call, stops}
use sticky_overseer.Pool.Queue.Order.{to_list}
use sticky_overseer.Pool.Manager.{PoolManager, runs_task, without_task, action_limit}
use sticky_overseer.Pool.Release.{seat, next_queued, release_slot, start_next, release}
use sticky_overseer.Pool.Resize.{
  or_keep, or_zero, with_limits, reconfigure, running_count, to_stop, stop_all, set_limits,
}
use sticky_overseer.Pool.Allows.{Allows}
use sticky_overseer.Pool.Total.{total, total-release_slot}
use sticky_overseer.Pool.Victims.{
  count_by-to_stop-le, length-to_stop, Chosen, IsExcess, order_of, tasks_of, to_stop-Chosen,
}
use sticky_overseer.Pool.Limits.{next_queued-SameTasks}
use sticky_overseer.Pool.Shrink.Unqueued.{
  any_item, HasNoQueued, stops_of, AreAmong, stop_all_calls, length-stop_all,
}

settled :
    (limit : ℤ) (n m : ℕ) → is_positive limit ≡ true → n + excess_over m limit ≡ m → Allows limit n
settled (pos k) n m h e = ground arith
settled (negsuc k) n m h e = cc

module _ {ℓ} {C : Type ℓ} where
  -- `reconfigure` moves no task.
  reconfigure_tasks :
      (action : String) (limit size : ℤ) (excess : Option ExcessConfig) (pm : PoolManager C)
      → ((reconfigure action limit size excess pm).running ≡ pm.running)
        × ((reconfigure action limit size excess pm).queues ≡ pm.queues)
  unfolding reconfigure
  reconfigure_tasks action limit size excess pm = (ground arith, ground arith)

  running_count-nil : (running : List (RunningEntry C)) → running_count "" running ≡ length running
  unfolding running_count text_eq
  running_count-nil running = refl

  set_limits-within :
      (starts_with : C → Option String) (visit : String → List String) (now : ℕ) (limit size : ℤ)
      (excess : Option ExcessConfig) (pm : PoolManager C)
      → HasNoQueued pm
      → is_positive limit ≡ true
      → Allows limit (length (set_limits starts_with visit now "" limit size excess pm).0.running)
  unfolding set_limits
  set_limits-within starts_with visit now limit size excess pm h positive =
      let pm' = reconfigure "" limit size excess pm in
      let (same, queues) = reconfigure_tasks "" limit size excess pm in
      let stopped = to_stop "" limit pm' in
      settled limit _ (length pm'.running) positive (
        omega (
          arith,
          length-stop_all starts_with visit now stopped pm' (ap (total any_item) queues ∙ h)
              (λ id. count_by-to_stop-le (runs_task id) "" limit pm'),
          length-to_stop "" limit pm' positive,
          ap (λ n. excess_over n limit) (running_count-nil pm'.running),
        ))

  set_limits_calls :
      (starts_with : C → Option String) (visit : String → List String) (now : ℕ) (limit size : ℤ)
      (excess : Option ExcessConfig) (pm : PoolManager C)
      → HasNoQueued pm
      → (set_limits starts_with visit now "" limit size excess pm).1
        ≡ stops_of (to_stop "" limit (reconfigure "" limit size excess pm))
  unfolding set_limits
  set_limits_calls starts_with visit now limit size excess pm h =
      let pm' = reconfigure "" limit size excess pm in
      let (same, queues) = reconfigure_tasks "" limit size excess pm in
      stop_all_calls starts_with visit now (to_stop "" limit pm') pm'
        (ap (total any_item) queues ∙ h)

  order_of-reconfigure :
      (limit size : ℤ) (excess : Option ExcessConfig) (pm : PoolManager C)
      → order_of "" (reconfigure "" limit size excess pm)
        ≡ (or_keep pm.global_cfg.excess excess).order
  unfolding reconfigure with_limits text_eq
  order_of-reconfigure limit size excess pm = elim (Option-cases pm.global_cfg.queue) [
    | inl e ↦ rw e refl
    | inr (p, e) ↦ rw e refl
  ]

  -- What `SetLimits` stops: a choice among the running tasks, as many as run beyond the limit.
  pub record Stopped (limit : ℤ) (order : KillOrder) (running : List (RunningEntry C))
      (calls : List (Call C)) : Type ℓ where
    pub stopped : List (RunningEntry C)
    pub spared : List (RunningEntry C)
    pub chosen : Chosen order running stopped spared
    pub number : IsExcess limit (length running) (length stopped)
    pub told : calls ≡ stops_of stopped

  tasks_of-nil : (running : List (RunningEntry C)) → tasks_of "" running ≡ running
  unfolding text_eq
  tasks_of-nil running = refl

  -- With nothing queued, `SetLimits` for the whole pool calls the stop function of each task that it
  -- chooses, as far as the task has one, and calls nothing else. It chooses as many of the running
  -- tasks as run beyond its positive limit, the first in the order of the new configuration, and no
  -- more than the limit allows stay in the list of running tasks.
  pub set_limits-Allows :
      (starts_with : C → Option String) (visit : String → List String) (now : ℕ) (limit size : ℤ)
      (excess : Option ExcessConfig) (pm : PoolManager C)
      → HasNoQueued pm
      → is_positive limit ≡ true
      → let (pm', calls) = set_limits starts_with visit now "" limit size excess pm in
        Stopped limit (or_keep pm.global_cfg.excess excess).order pm.running calls
        × Allows limit (length pm'.running)
  set_limits-Allows starts_with visit now limit size excess pm h positive =
      let pm' = reconfigure "" limit size excess pm in
      let ((spared, chosen), number) = to_stop-Chosen "" limit pm' in
      let same = (reconfigure_tasks "" limit size excess pm).0 in
      (
        record {
          stopped = to_stop "" limit pm';
          spared = spared;
          chosen =
              subst (λ o. Chosen o pm.running (to_stop "" limit pm') spared)
                (order_of-reconfigure limit size excess pm)
                (subst (λ r. Chosen (order_of "" pm') r (to_stop "" limit pm') spared)
                  (tasks_of-nil pm'.running ∙ same) chosen);
          number =
              subst (λ r. IsExcess limit (length r) (length (to_stop "" limit pm')))
                (tasks_of-nil pm'.running ∙ same) number;
          told = set_limits_calls starts_with visit now limit size excess pm h;
        },
        set_limits-within starts_with visit now limit size excess pm h positive,
      )

  abbrev pub can_stop : RunningEntry C → Bool
  can_stop e = elim (e.stop) [ none ↦ false | some f ↦ true ]

  -- `SetLimits` for an action sets that action's limit; the global configuration and the limits
  -- of the other actions stay.
  pub reconfigure-action_limit :
      (action b : String) (limit size : ℤ) (excess : Option ExcessConfig) (pm : PoolManager C)
      → action ≢ ""
      → action ≢ b
      → let pm' = reconfigure action limit size excess pm in
        (action_limit pm' action ≡ limit)
        × (action_limit pm' b ≡ action_limit pm b)
        × (pm'.global_cfg ≡ pm.global_cfg)
  unfolding reconfigure action_limit with_limits
  reconfigure-action_limit action b limit size excess pm n ne =
      let own =
        with_limits limit size excess (or_zero (lookup action pm.action_cfgs)) pm.queue_cfgs in
      (
        ground (arith, lookup-insert_self action own.0 pm.action_cfgs),
        ground (arith, lookup-insert_ne action b own.0 pm.action_cfgs),
        ground arith,
      )
