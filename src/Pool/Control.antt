-- ===== src/Pool/Control.antt =====
-- `Dequeue`, `PurgeQueue`, `Info`, `DrainAll` and `sweepExpired` of pool.go. `visit` is the order
-- in which `range pm.queues` goes.
use sticky_overseer.Base.{
  if◌then◌else◌, ◌==◌, ℕ, String, Bool, true, false, Option, none, some, List, [], ◌∷◌, ◌++◌, map,
  ite, text_eq, length, keep, lookup,
}
use sticky_overseer.Pool.Types.{
  PoolInfo, QueuedItem, QueuedItemInfo, item_expired, task_dequeued, queue_purged, shutdown, Call,
}
use sticky_overseer.Pool.Queue
use sticky_overseer.Pool.Queue.{TaskQueue, cancel, cancel_all, expire_old}
use sticky_overseer.Pool.Manager.{PoolManager, deref, runs_action, with_queue}

module _ {ℓ} {C : Type ℓ} where
  -- The loop of `Dequeue` over the queues visited.
  unfoldable pub remove_from :
      List String → String → PoolManager C → PoolManager C × Option (QueuedItem C)
  remove_from [] id pm = (pm, none)
  remove_from (a ∷ visit) id pm = elim (lookup a pm.queues) [
    | none ↦ remove_from visit id pm
    | some q ↦
        let (q', found) = Queue.remove id q in
        let later = remove_from visit id pm in
        elim found [ none ↦ later | some x ↦ (with_queue a q' pm, some x) ]
  ]

  unfoldable pub dequeue_task :
      List String → String → PoolManager C → PoolManager C × Bool × List (Call C)
  dequeue_task visit id pm =
      let (pm', found) = remove_from visit id pm in
      elim found [ none ↦ (pm', false, []) | some x ↦ (pm', true, cancel task_dequeued x) ]

  -- `doPurge` on the queues visited: the pool, and the items taken out.
  unfoldable pub purge_from : List String → PoolManager C → PoolManager C × List (QueuedItem C)
  purge_from [] pm = (pm, [])
  purge_from (a ∷ visit) pm = elim (lookup a pm.queues) [
    | none ↦ purge_from visit pm
    | some q ↦
        let (pm', items) = purge_from visit (with_queue a (record q { items = [] }) pm) in
        (pm', q.items ++ items)
  ]

  -- The pool, the number and the IDs of the items purged, and the calls made.
  unfoldable pub purge_queue :
      List String → String → PoolManager C → PoolManager C × ℕ × List String × List (Call C)
  purge_queue visit action pm =
      let (pm', items) = purge_from (ite (text_eq action "") visit (action ∷ [])) pm in
      (pm', length items, map (λ x. x.task_id) items, cancel_all queue_purged items)

  unfoldable pub info_over : List String → PoolManager C → List QueuedItemInfo
  info_over [] pm = []
  info_over (a ∷ visit) pm = elim (lookup a pm.queues) [
    | none ↦ info_over visit pm
    | some q ↦ Queue.info q ++ info_over visit pm
  ]

  unfoldable pub info : List String → String → PoolManager C → PoolInfo
  info visit action pm =
      let global : PoolInfo = record {
        limit = pm.global_cfg.limit;
        running = length pm.running;
        queue_depth = length (info_over visit pm);
        queue_items = info_over visit pm;
      } in
      let own : PoolInfo = record {
        limit = elim (lookup action pm.action_cfgs) [
          | none ↦ pm.global_cfg.limit
          | some ac ↦ ac.limit
        ];
        running = length (keep (runs_action action) pm.running);
        queue_depth = length (info_over (action ∷ []) pm);
        queue_items = info_over (action ∷ []) pm;
      } in
      ite (text_eq action "") global own

  unfoldable pub drain_all : List String → PoolManager C → PoolManager C × List (Call C)
  drain_all visit pm =
      let (pm', queued) = purge_from visit pm in
      (record pm' { running = []; stopped = true }, cancel_all shutdown queued)

  unfoldable pub sweep_expired : List String → ℕ → PoolManager C → PoolManager C × List (Call C)
  sweep_expired [] now pm = (pm, [])
  sweep_expired (a ∷ visit) now pm = elim (lookup a pm.queues) [
    | none ↦ sweep_expired visit now pm
    | some q ↦
        let (q', expired) = expire_old (deref pm.queue_cfgs q.cfg).max_age now q in
        let (pm', calls) = sweep_expired visit now (with_queue a q' pm) in
        (pm', cancel_all item_expired expired ++ calls)
  ]

  -- A round of `expiryLoop` at a tick: the pool, the calls, and the interval of the ticker, which is
  -- reset where the pool's interval is another.
  unfoldable pub expiry_tick :
      List String → ℕ → ℕ → PoolManager C → PoolManager C × List (Call C) × ℕ
  expiry_tick visit now interval pm =
      let (pm', calls) = sweep_expired visit now pm in
      let new_interval = pm'.tick_interval in
      (pm', calls, if new_interval == interval then interval else new_interval)
