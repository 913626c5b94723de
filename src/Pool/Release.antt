-- ===== src/Pool/Release.antt =====
-- `Release` and `nextQueued` of pool.go: a task ends, and the queues give the next one. `Release`
-- too is two steps, `release_slot` under `pm.mu` and `finish_release` once `startFn` has returned.
use sticky_overseer.Base.{ℕ, String, Option, none, some, List, [], ◌∷◌, ◌++◌, lookup, insert}
use sticky_overseer.Pool.Types.{RunningEntry, QueuedItem, item_expired, start_failed, Call, starts}
use sticky_overseer.Pool.Queue.{dequeue, cancel, cancel_all}
use sticky_overseer.Pool.Manager.{PoolManager, deref, without_task}

-- The pool, the item found, and the expired items that were cancelled on the way.
pub record Next {ℓ} (C : Type ℓ) : Type ℓ where
  pub pool : PoolManager C
  pub item : Option (QueuedItem C)
  pub expired : List (QueuedItem C)

module _ {ℓ} {C : Type ℓ} where
  -- The loop over the queues of the actions listed.
  unfoldable pub next_from : List String → ℕ → PoolManager C → Next C
  next_from [] now pm = record { pool = pm; item = none; expired = [] }
  next_from (a ∷ order) now pm = elim (lookup a pm.queues) [
    | none ↦ next_from order now pm
    | some q ↦
        let d = dequeue (deref pm.queue_cfgs q.cfg) now q.items in
        let pm' : PoolManager C = record pm {
          queues = insert a (record q { items = d.left }) pm.queues;
        } in
        let next = next_from order now pm' in
        elim (d.item) [
          | none ↦ record next { expired = d.expired ++ next.expired }
          | some x ↦ record { pool = pm'; item = some x; expired = d.expired }
        ]
  ]

  -- `visit` is the order in which the fallback's `range pm.queues` goes.
  unfoldable pub next_queued : List String → ℕ → PoolManager C → Next C
  next_queued visit now pm = next_from (pm.action_order ++ visit) now pm

  abbrev pub entry_of : ℕ → QueuedItem C → RunningEntry C
  entry_of now x = record {
    task_id = x.task_id;
    action = x.action;
    started_at = now;
    forced = x.forced;
    stop = none;
  }

  -- The next item, if there is one, takes its place among the running tasks.
  abbrev pub seat : ℕ → Option (QueuedItem C) → PoolManager C → PoolManager C
  seat now none pm = pm
  seat now (some x) pm = record pm { running = pm.running ++ entry_of now x ∷ [] }

  -- `Release` as far as the first `pm.mu.Unlock()`.
  unfoldable pub release_slot : List String → ℕ → String → PoolManager C → Next C
  release_slot visit now id pm =
      let next = next_queued visit now (without_task id pm) in
      record next { pool = seat now next.item next.pool }

  -- What is left to do when the `startFn` of the next item has returned.
  unfoldable pub finish_release :
      QueuedItem C → Option String → PoolManager C → PoolManager C × List (Call C)
  finish_release x none pm = (pm, [])
  finish_release x (some e) pm = (without_task x.task_id pm, cancel (start_failed e) x)

  -- The item found is started.
  unfoldable pub start_next :
      (C → Option String) → Option (QueuedItem C) → PoolManager C → PoolManager C × List (Call C)
  start_next starts_with none pm = (pm, [])
  start_next starts_with (some x) pm =
      let (pm', calls) = finish_release x (starts_with x.start_fn) pm in
      (pm', starts x.start_fn ∷ calls)

  -- `Release` with nothing in between.
  unfoldable pub release :
      (C → Option String) → List String → ℕ → String → PoolManager C → PoolManager C × List (Call C)
  release starts_with visit now id pm =
      let next = release_slot visit now id pm in
      let (pm', calls) = start_next starts_with next.item next.pool in
      (pm', cancel_all item_expired next.expired ++ calls)
