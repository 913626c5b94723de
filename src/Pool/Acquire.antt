-- ===== src/Pool/Acquire.antt =====
-- `Acquire` and `tryDisplace` of pool.go. `pm.mu` is free while `startFn` runs, so `Acquire` is
-- two steps, `admit` and `finish_start`, between which other calls may come; `acquire` is the call
-- that nothing comes between. `visit` is the order in which `range pm.queues` goes.
pub mod Displace
use sticky_overseer.Base.{
  ℕ, String, Bool, true, false, Option, none, some, List, [], ◌∷◌, ◌++◌, ◌&&◌, not, if◌then◌else◌,
  ite, text_eq, keep, find_first, remove_first, lookup, insert,
}
use sticky_overseer.Pool.Types.{
  RunningEntry, QueuedItem, DisplacePolicy, displace_false, displace_true, displace_prohibit,
  Reason, displaced_by_incoming, pool_rejected, start_failed, Call, starts,
}
use sticky_overseer.Pool.Queue.{TaskQueue, enqueue, cancel}
use sticky_overseer.Pool.Manager.{
  PoolManager, deref, with_queue, displace_policy, queue_for, has_capacity, without_task,
  update_action_order,
}

-- The arguments of `Acquire`.
pub record Arrival {ℓ} (C : Type ℓ) : Type ℓ where
  pub task_id : String
  pub action : String
  pub forced : Bool
  pub stop_fn : C
  pub start_fn : C
  pub cancel_fn : Option C

pub data AcquireResult : Type 0 where
  acquire_running acquire_queued : AcquireResult

-- How the part of `Acquire` under `pm.mu` ends: on the way to `startFn`, in the queue (with the
-- item that made room, if one did), or with `errPoolRejected`.
pub data Admission {ℓ} (C : Type ℓ) : Type ℓ where
  started : Admission C
  queued : Option (QueuedItem C) → Admission C
  rejected : Admission C

-- The two guards of `tryDisplace`.
abbrev pub may_displace : DisplacePolicy → Bool → Bool
may_displace displace_prohibit forced = false
may_displace displace_false forced = forced
may_displace _ forced = true

module _ {ℓ} {C : Type ℓ} where
  abbrev pub new_item : ℕ → Arrival C → QueuedItem C
  new_item now a = record {
    task_id = a.task_id;
    action = a.action;
    enqueued_at = now;
    forced = a.forced;
    start_fn = a.start_fn;
    cancel_fn = a.cancel_fn;
  }

  abbrev pub new_entry : ℕ → Arrival C → RunningEntry C
  new_entry now a = record {
    task_id = a.task_id;
    action = a.action;
    started_at = now;
    forced = a.forced;
    stop = some a.stop_fn;
  }

  -- `newQ := pm.queueFor(action); newQ.Enqueue(item); pm.updateActionOrder(action)`, after which
  -- nobody asks whether the item was taken.
  unfoldable pub put_in_queue : QueuedItem C → PoolManager C → PoolManager C
  put_in_queue item pm =
      let made = queue_for pm item.action in
      let stored = enqueue (deref made.0.queue_cfgs made.1.cfg) item made.1 in
      record (made.0) {
        queues = insert item.action stored.0 (made.0).queues;
        action_order = update_action_order item.action (made.0).action_order;
      }

  abbrev pub is_unforced : QueuedItem C → Bool
  is_unforced item = not item.forced

  -- The queue without the item that makes room.
  abbrev pub without_unforced : TaskQueue C → TaskQueue C
  without_unforced q = record q { items = remove_first is_unforced q.items }

  -- A round of the loop over the candidates: the pool and the displaced item, or `none` where the
  -- loop goes on.
  unfoldable pub displace_at :
      String → Bool → QueuedItem C → PoolManager C → Option (PoolManager C × QueuedItem C)
  displace_at a forced item pm = elim (lookup a pm.queues) [
    | none ↦ none
    | some q ↦
        if may_displace (displace_policy pm a) forced
        then (elim (find_first is_unforced q.items) [
          | none ↦ none
          | some displaced ↦
              some (put_in_queue item (with_queue a (without_unforced q) pm), displaced)
        ])
        else none
  ]

  -- The loop; `none` is `(false, nil)`.
  unfoldable pub displace_from :
      List String → Bool → QueuedItem C → PoolManager C → Option (PoolManager C × QueuedItem C)
  displace_from [] forced item pm = none
  displace_from (a ∷ candidates) forced item pm = elim (displace_at a forced item pm) [
    | none ↦ displace_from candidates forced item pm
    | some r ↦ some r
  ]

  unfoldable pub try_displace :
      List String
      → String
      → Bool
      → QueuedItem C
      → PoolManager C
      → Option (PoolManager C × QueuedItem C)
  try_displace visit action forced item pm =
      displace_from (action ∷ keep (λ a. ite (text_eq a action) false true) visit) forced item pm

  -- The pool is full: try to queue.
  unfoldable pub queue_up :
      List String → ℕ → Arrival C → PoolManager C → PoolManager C × Admission C
  queue_up visit now a pm =
      let made = queue_for pm a.action in
      let cfg = deref made.0.queue_cfgs made.1.cfg in
      let item = new_item now a in
      let stored = enqueue cfg item made.1 in
      if cfg.enabled
      then (if stored.1
          then (
            record (made.0) {
              queues = insert a.action stored.0 (made.0).queues;
              action_order = update_action_order a.action (made.0).action_order;
            },
            queued none,
          )
          else (elim (try_displace visit a.action a.forced item made.0) [
            | none ↦ (made.0, rejected)
            | some (pm', displaced) ↦ (pm', queued (some displaced))
          ]))
      else (made.0, rejected)

  -- `Acquire` as far as the first `pm.mu.Unlock()`.
  unfoldable pub admit : List String → ℕ → Arrival C → PoolManager C → PoolManager C × Admission C
  admit visit now a pm =
      if has_capacity pm a.action
      then (record pm { running = pm.running ++ new_entry now a ∷ [] }, started)
      else queue_up visit now a pm

  -- What is left to do when `startFn` has returned.
  unfoldable pub finish_start : String → Option String → PoolManager C → PoolManager C
  finish_start id none pm = pm
  finish_start id (some e) pm = without_task id pm

  -- The rest of `Acquire`, where `failure` is what `startFn` returns.
  unfoldable pub conclude :
      Arrival C
      → Option String
      → Admission C
      → PoolManager C
      → PoolManager C × AcquireResult × Option Reason × List (Call C)
  conclude a none started pm = (pm, acquire_running, none, starts a.start_fn ∷ [])
  conclude a (some e) started pm = (
    finish_start a.task_id (some e) pm,
    acquire_running,
    some (start_failed e),
    starts a.start_fn ∷ [],
  )
  conclude a failure (queued none) pm = (pm, acquire_queued, none, [])
  conclude a failure (queued (some displaced)) pm =
      (pm, acquire_queued, none, cancel displaced_by_incoming displaced)
  conclude a failure rejected pm = (pm, acquire_running, some pool_rejected, [])

  -- The pool, `(AcquireResult, error)`, and the calls made. `starts_with` is what a `startFn`
  -- returns.
  unfoldable pub acquire :
      (C → Option String)
      → List String
      → ℕ
      → Arrival C
      → PoolManager C
      → PoolManager C × AcquireResult × Option Reason × List (Call C)
  acquire starts_with visit now a pm =
      let admitted = admit visit now a pm in
      conclude a (starts_with a.start_fn) admitted.1 admitted.0
