-- ===== src/Pool/Steps/Limits.antt =====
-- The global limit of a pool of pool.go over the interleavings of its calls.
use sticky_overseer.Base.{
  ℕ, ◌≡◌, refl, sym, subst, ◌∙◌, String, Option, none, some, List, [], ◌∷◌, arith, lookup, length,
  length-append, length-remove_first-le, find_first, Bool-cases, Option-cases, inl, inr,
}
use sticky_overseer.Pool.Types.{QueueConfig, PoolConfig, QueuedItem, RunningEntry}
use sticky_overseer.Pool.Queue
use sticky_overseer.Pool.Queue.{TaskQueue, expire_old}
use sticky_overseer.Pool.Manager.{
  PoolManager, new_pool_manager, has_capacity, runs_task, with_queue, deref, without_task,
}
use sticky_overseer.Pool.Acquire.{Arrival, admit, finish_start, new_entry}
use sticky_overseer.Pool.Release.{release_slot, finish_release, next_queued, seat}
use sticky_overseer.Pool.Control.{remove_from, purge_from, drain_all, sweep_expired}
use sticky_overseer.Pool.Allows.{Allows, Allows-mono, Allows-zero}
use sticky_overseer.Pool.Limits.{
  SameTasks, SameTasks-trans, SameTasks-refl, next_queued-SameTasks, capacity_room,
  release_slot-within_global,
}
use sticky_overseer.Pool.Limits.Unmoved.{queue_up-SameTasks}
use sticky_overseer.Pool.Steps.{Step}

module _ {ℓ} {C : Type ℓ} where
  -- A release is of a task that runs.
  abbrev pub IsMeant : {pm pm' : PoolManager C} → Step pm pm' → Type ℓ
  IsMeant (Step.admits visit now a) = Unit
  IsMeant (Step.has_started id failure) = Unit
  IsMeant {pm} (Step.releases visit now id) =
      (e : RunningEntry C) × (find_first (runs_task id) pm.running ≡ some e)
  IsMeant (Step.has_released x failure) = Unit
  IsMeant (Step.dequeues visit id) = Unit
  IsMeant (Step.purges visit) = Unit
  IsMeant (Step.drains visit) = Unit
  IsMeant (Step.sweeps visit now) = Unit

  pub data MeantReach (pm : PoolManager C) : PoolManager C → Type ℓ where
    here : MeantReach pm pm
    next :
        {pm' pm'' : PoolManager C}
        → MeantReach pm pm'
        → (s : Step pm' pm'') → IsMeant s
        → MeantReach pm pm''

  abbrev pub IsWithinGlobal : PoolManager C → Type 0
  IsWithinGlobal pm = Allows pm.global_cfg.limit (length pm.running)

  SameTasks-IsWithinGlobal :
      (pm pm' : PoolManager C) → SameTasks pm pm' → IsWithinGlobal pm → IsWithinGlobal pm'
  SameTasks-IsWithinGlobal pm pm' s v = rw (s.same_running, s.same_global) v

  with_queue-SameTasks :
      (a : String) (q : TaskQueue C) (pm : PoolManager C) → SameTasks pm (with_queue a q pm)
  with_queue-SameTasks a q pm = record {
    same_running = refl;
    same_global = refl;
    same_actions = refl;
  }

  pub remove_from-SameTasks :
      (visit : List String) (id : String) (pm : PoolManager C)
      → SameTasks pm (remove_from visit id pm).0
  unfolding remove_from
  remove_from-SameTasks [] id pm = SameTasks-refl pm
  remove_from-SameTasks (a ∷ visit) id pm = elim (Option-cases (lookup a pm.queues)) [
    | inl e ↦ rw (e, remove_from) (remove_from-SameTasks visit id pm)
    | inr (q, e) ↦ elim (Option-cases (Queue.remove id q).1) [
      | inl f ↦ rw (e, remove_from) (rw f (remove_from-SameTasks visit id pm))
      | inr (x, f) ↦ rw (e, remove_from) (rw f (with_queue-SameTasks a (Queue.remove id q).0 pm))
    ]
  ]

  pub purge_from-SameTasks :
      (visit : List String) (pm : PoolManager C) → SameTasks pm (purge_from visit pm).0
  unfolding purge_from
  purge_from-SameTasks [] pm = SameTasks-refl pm
  purge_from-SameTasks (a ∷ visit) pm = elim (Option-cases (lookup a pm.queues)) [
    | inl e ↦ rw (e, purge_from) (purge_from-SameTasks visit pm)
    | inr (q, e) ↦
        let pm' = with_queue a (record q { items = [] }) pm in
        rw (e, purge_from)
          (SameTasks-trans pm pm' _ (with_queue-SameTasks a (record q { items = [] }) pm)
            (purge_from-SameTasks visit pm'))
  ]

  pub sweep_expired-SameTasks :
      (visit : List String) (now : ℕ) (pm : PoolManager C)
      → SameTasks pm (sweep_expired visit now pm).0
  unfolding sweep_expired
  sweep_expired-SameTasks [] now pm = SameTasks-refl pm
  sweep_expired-SameTasks (a ∷ visit) now pm = elim (Option-cases (lookup a pm.queues)) [
    | inl e ↦ rw (e, sweep_expired) (sweep_expired-SameTasks visit now pm)
    | inr (q, e) ↦
        let q' = (expire_old (deref pm.queue_cfgs q.cfg).max_age now q).0 in
        rw (e, sweep_expired)
          (SameTasks-trans pm (with_queue a q' pm) _ (with_queue-SameTasks a q' pm)
            (sweep_expired-SameTasks visit now (with_queue a q' pm)))
  ]

  admit-IsWithinGlobal :
      (visit : List String) (now : ℕ) (a : Arrival C) (pm : PoolManager C)
      → IsWithinGlobal pm
      → IsWithinGlobal (admit visit now a pm).0
  unfolding admit
  admit-IsWithinGlobal visit now a pm v = elim (Bool-cases (has_capacity pm a.action)) [
    | inl room ↦ rw room (
        Allows-mono pm.global_cfg.limit _ _
          (omega (arith, length-append pm.running (new_entry now a ∷ [])))
          (capacity_room pm a.action room).0)
    | inr full ↦ rw full (SameTasks-IsWithinGlobal pm _ (queue_up-SameTasks visit now a pm) v)
  ]

  without_task-IsWithinGlobal :
      (id : String) (pm : PoolManager C) → IsWithinGlobal pm → IsWithinGlobal (without_task id pm)
  without_task-IsWithinGlobal id pm v =
      Allows-mono pm.global_cfg.limit _ _ (length-remove_first-le (runs_task id) pm.running) v

  seat-global :
      (now : ℕ) (x : Option (QueuedItem C)) (pm : PoolManager C)
      → (seat now x pm).global_cfg ≡ pm.global_cfg
  seat-global now none pm = refl
  seat-global now (some x) pm = refl

  release_slot-global :
      (visit : List String) (now : ℕ) (id : String) (pm : PoolManager C)
      → (release_slot visit now id pm).pool.global_cfg ≡ pm.global_cfg
  unfolding release_slot
  release_slot-global visit now id pm =
      let next = next_queued visit now (without_task id pm) in
      seat-global now next.item next.pool
      ∙ (next_queued-SameTasks visit now (without_task id pm)).same_global

  Step-IsWithinGlobal :
      {pm pm' : PoolManager C} (s : Step pm pm')
      → IsMeant s
      → IsWithinGlobal pm
      → IsWithinGlobal pm'
  unfolding finish_start finish_release drain_all
  Step-IsWithinGlobal {pm} (Step.admits visit now a) m v = admit-IsWithinGlobal visit now a pm v
  Step-IsWithinGlobal (Step.has_started id none) m v = v
  Step-IsWithinGlobal {pm} (Step.has_started id (some e)) m v = without_task-IsWithinGlobal id pm v
  Step-IsWithinGlobal {pm} (Step.releases visit now id) (e, runs) v =
      subst
        (λ (g : PoolConfig). Allows g.limit (length (release_slot visit now id pm).pool.running))
        (sym (release_slot-global visit now id pm))
        (release_slot-within_global visit now id pm e runs v)
  Step-IsWithinGlobal (Step.has_released x none) m v = v
  Step-IsWithinGlobal {pm} (Step.has_released x (some e)) m v =
      without_task-IsWithinGlobal x.task_id pm v
  Step-IsWithinGlobal {pm} (Step.dequeues visit id) m v =
      SameTasks-IsWithinGlobal pm _ (remove_from-SameTasks visit id pm) v
  Step-IsWithinGlobal {pm} (Step.purges visit) m v =
      SameTasks-IsWithinGlobal pm _ (purge_from-SameTasks visit pm) v
  Step-IsWithinGlobal {pm} (Step.drains visit) m v =
      Allows-zero (drain_all visit pm).0.global_cfg.limit
  Step-IsWithinGlobal {pm} (Step.sweeps visit now) m v =
      SameTasks-IsWithinGlobal pm _ (sweep_expired-SameTasks visit now pm) v

  MeantReach-IsWithinGlobal :
      {pm pm' : PoolManager C} → MeantReach pm pm' → IsWithinGlobal pm → IsWithinGlobal pm'
  MeantReach-IsWithinGlobal here v = v
  MeantReach-IsWithinGlobal (next r s m) v = Step-IsWithinGlobal s m (MeantReach-IsWithinGlobal r v)

  -- Whatever calls a new pool gets, in whatever interleaving, no more tasks run than its positive
  -- global limit allows, as long as each release is of a task that runs and no `SetLimits` is among
  -- the calls.
  pub new_pool-IsWithinGlobal :
      (cfgs : List QueueConfig) (global_cfg : PoolConfig) (action_cfgs : List (String × PoolConfig))
      (pm : PoolManager C)
      → MeantReach (new_pool_manager cfgs global_cfg action_cfgs) pm
      → IsWithinGlobal pm
  unfolding new_pool_manager
  new_pool-IsWithinGlobal cfgs global_cfg action_cfgs pm r =
      MeantReach-IsWithinGlobal r (Allows-zero global_cfg.limit)
