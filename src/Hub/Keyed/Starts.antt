-- ===== src/Hub/Keyed/Starts.antt =====
-- The closures of a start, and the hub's calls of the pool, keep the maps of tasks apart.
use sticky_overseer.Base.{
  ℕ, ◌≡◌, refl, String, Bool, true, false, Option, none, some, List, [], ◌∷◌, lookup,
  lookup-insert_self, ◌⊎◌, inl, inr, Option-cases, arith,
}
use sticky_overseer.Worker.{Signal, Worker}
use sticky_overseer.Pool.Types.{
  Call, stops, starts, cancels, Reason, item_expired, displaced_by_incoming, QueuedItem,
}
use sticky_overseer.Pool.Queue.{cancel, cancel_all}
use sticky_overseer.Pool.Manager.{PoolManager}
use sticky_overseer.Pool.Acquire
use sticky_overseer.Pool.Acquire.{Admission, AcquireResult, acquire_running, acquire_queued, admit}
use sticky_overseer.Pool.Release.{release_slot, finish_release}
use sticky_overseer.Hub.Types.{Hub, Task, Launch, World, Effect, emit, signal}
use sticky_overseer.Hub.Launch.{
  register, unregister, set_task, start_fn, cancel_fn, new_task, stop_task, stop_worker,
  emit_signals, run_call, run_calls, with_pool, arrival_of, settle_start, acquire_slot,
  start_released, release_task,
}
use sticky_overseer.Hub.Start.{is_taken, reserve, announce_queued, conclude_launch, launch}
use sticky_overseer.Hub.Reserved.{announce_start-SameTasks, broadcast-SameTasks}
use sticky_overseer.Hub.Lifecycle.{Step, Reach}
use sticky_overseer.Hub.Keyed.{
  Keyed, SameTasks-Keyed, filed-Keyed, replaced-Keyed, forgotten-Keyed, released-Keyed,
  reserved-Keyed,
}

pub emit-Keyed : (e : Effect) (h : Hub) → Keyed h → Keyed (emit e h)
emit-Keyed e h v = record {
  disjoint = v.disjoint;
  named = v.named;
  distinct = v.distinct;
  lived = v.lived;
  once = v.once;
}

emit_signals-Keyed :
    (id : String) (signals : List Signal) (h : Hub) → Keyed h → Keyed (emit_signals id signals h)
emit_signals-Keyed id [] h v = v
emit_signals-Keyed id (s ∷ signals) h v =
    emit_signals-Keyed id signals (emit (signal id s) h) (emit-Keyed (signal id s) h v)

pub stop_worker-Keyed :
    (id : String) (intentional : Bool) (h : Hub) → Keyed h → Keyed (stop_worker id intentional h)
unfolding stop_worker set_task
stop_worker-Keyed id intentional h v = elim (Option-cases (lookup id h.tasks)) [
  | inl e ↦ rw (e, stop_worker) v
  | inr (t, e) ↦
      rw (e, stop_worker)
        (emit_signals-Keyed id (stop_task intentional t).1 _
          (replaced-Keyed id h t (stop_task intentional t).0 e (Step.stops intentional t) v))
]

module _ (world : World) where
  register-Keyed : (now : ℕ) (l : Launch) (h : Hub) → Keyed h → Keyed (register now l h)
  unfolding register
  register-Keyed now l h v = filed-Keyed l.task_id h (new_task now l) refl (now, l, Reach.here) v

  pub start_fn-Keyed : (now : ℕ) (l : Launch) (h : Hub) → Keyed h → Keyed (start_fn world now l h).0
  unfolding start_fn unregister set_task register
  start_fn-Keyed now l h v = go (l.handler.start now l.task_id l.params) refl
    where
      go :
          (r : String ⊎ Worker)
          → l.handler.start now l.task_id l.params ≡ r
          → Keyed (start_fn world now l h).0
      go (inl err) e =
          rw (e, start_fn) (forgotten-Keyed l.task_id (register now l h) (register-Keyed now l h v))
      go (inr w) e =
          let running : Task = record (new_task now l) { worker = some w } in
          rw (e, start_fn)
            (SameTasks-Keyed _ _ (announce_start-SameTasks world now l w (register now l h)) (
              replaced-Keyed l.task_id (register now l h) (new_task now l) running
                (lookup-insert_self l.task_id (new_task now l) h.tasks)
                (Step.attaches w (new_task now l)) (register-Keyed now l h v)))

  pub cancel_fn-Keyed :
      (now : ℕ) (l : Launch) (reason : Reason) (h : Hub)
      → Keyed h
      → Keyed (cancel_fn world now l reason h)
  unfolding cancel_fn
  cancel_fn-Keyed now l reason h v = SameTasks-Keyed _ _ (broadcast-SameTasks world _ _) (
      SameTasks-Keyed _ _
        (record { same_tasks = refl; same_pending = refl; same_pool = refl; kept_once = λ e. e })
        (released-Keyed l.task_id h v))

  run_call-Keyed : (now : ℕ) (c : Call Launch) (h : Hub) → Keyed h → Keyed (run_call world now c h)
  unfolding run_call
  run_call-Keyed now (stops l) h v = stop_worker-Keyed l.task_id true h v
  run_call-Keyed now (starts l) h v = start_fn-Keyed now l h v
  run_call-Keyed now (cancels l reason) h v = cancel_fn-Keyed now l reason h v

  pub run_calls-Keyed :
      (now : ℕ) (calls : List (Call Launch)) (h : Hub)
      → Keyed h
      → Keyed (run_calls world now calls h)
  unfolding run_calls
  run_calls-Keyed now [] h v = v
  run_calls-Keyed now (c ∷ calls) h v =
      run_calls-Keyed now calls (run_call world now c h) (run_call-Keyed now c h v)

  pub with_pool-Keyed : (pm : PoolManager Launch) (h : Hub) → Keyed h → Keyed (with_pool world pm h)
  with_pool-Keyed pm h v = record {
    disjoint = v.disjoint;
    named = v.named;
    distinct = v.distinct;
    lived = v.lived;
    once = v.once;
  }

  acquire_slot-Keyed :
      (now : ℕ) (force : Bool) (l : Launch) (pm : PoolManager Launch) (h : Hub)
      → Keyed h
      → Keyed (acquire_slot world now force l pm h).0
  unfolding acquire_slot settle_start
  acquire_slot-Keyed now force l pm h v =
      go (admit world.visit now (arrival_of world force l) pm).1 refl
    where
      pm' : PoolManager Launch
      pm' = (admit world.visit now (arrival_of world force l) pm).0

      w : Keyed (with_pool world pm' h)
      w = with_pool-Keyed pm' h v

      go :
          (outcome : Admission Launch)
          → (admit world.visit now (arrival_of world force l) pm).1 ≡ outcome
          → Keyed (acquire_slot world now force l pm h).0
      go Acquire.started e =
          rw (e, acquire_slot)
            (with_pool-Keyed _ _ (start_fn-Keyed now l (with_pool world pm' h) w))
      go (Acquire.queued none) e = rw (e, acquire_slot) w
      go (Acquire.queued (some x)) e =
          rw (e, acquire_slot) (run_calls-Keyed now (cancel displaced_by_incoming x) _ w)
      go Acquire.rejected e = rw (e, acquire_slot) w

  conclude_launch-Keyed :
      (now : ℕ) (l : Launch) (h : Hub) (result : AcquireResult) (err : Option Reason)
      → Keyed h
      → Keyed (conclude_launch world now l (h, result, err)).0
  unfolding conclude_launch announce_queued
  conclude_launch-Keyed now l h result (some reason) v = v
  conclude_launch-Keyed now l h acquire_running none v = v
  conclude_launch-Keyed now l h acquire_queued none v =
      SameTasks-Keyed _ _ (broadcast-SameTasks world _ _) (record {
        disjoint = v.disjoint;
        named = v.named;
        distinct = v.distinct;
        lived = v.lived;
        once = v.once;
      })

  untaken : (id : String) (h : Hub) → is_taken id h ≡ false → lookup id h.tasks ≡ none
  unfolding is_taken
  untaken id h e = ground arith

  -- A start of an ID that is not taken.
  pub launch-Keyed :
      (now : ℕ) (force : Bool) (l : Launch) (h : Hub)
      → is_taken l.task_id h ≡ false
      → Keyed h
      → Keyed (launch world now force l h).0
  unfolding launch reserve
  launch-Keyed now force l h free v =
      let w : Keyed (reserve l.task_id h) =
        reserved-Keyed l.task_id h (untaken l.task_id h free) v in
      elim (Option-cases h.pool) [
        | inl e ↦ rw (e, launch) (start_fn-Keyed now l (reserve l.task_id h) w)
        | inr (pm, e) ↦
            let a = acquire_slot world now force l pm (reserve l.task_id h) in
            rw (e, launch)
              (conclude_launch-Keyed now l a.0 a.1 a.2
                (acquire_slot-Keyed now force l pm (reserve l.task_id h) w))
      ]

  start_released-Keyed :
      (now : ℕ) (item : Option (QueuedItem Launch)) (pm : PoolManager Launch) (h : Hub)
      → Keyed h
      → Keyed (start_released world now item pm h)
  unfolding start_released
  start_released-Keyed now none pm h v = v
  start_released-Keyed now (some item) pm h v =
      let (h', err) = start_fn world now item.start_fn h in
      let (pm', calls) = finish_release item err pm in
      run_calls-Keyed now calls _ (with_pool-Keyed pm' h' (start_fn-Keyed now item.start_fn h v))

  pub release_task-Keyed :
      (now : ℕ) (id : String) (h : Hub) → Keyed h → Keyed (release_task world now id h)
  unfolding release_task
  release_task-Keyed now id h v = elim (Option-cases h.pool) [
    | inl e ↦ rw (e, release_task) v
    | inr (pm, e) ↦
        let next = release_slot world.visit now id pm in
        rw (e, release_task)
          (start_released-Keyed now next.item next.pool _ (
            run_calls-Keyed now (cancel_all item_expired next.expired) _
              (with_pool-Keyed next.pool h v)))
  ]
