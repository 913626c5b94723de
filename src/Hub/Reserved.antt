-- ===== src/Hub/Reserved.antt =====
-- A task ID is taken from the start request on, until the start fails or is cancelled.
use sticky_overseer.Base.{
  add_key, contains, remove_key, contains-add_key, contains-remove_key, ℕ, ◌≡◌, refl, ap, ◌∙◌,
  String, Bool, true, false, Option, none, some, List, [], ◌∷◌, arith, lookup, insert,
  lookup-insert_self, lookup-delete, ◌⊎◌, inl, inr,
}
use sticky_overseer.Worker.{Worker}
use sticky_overseer.Pool.Types.{Reason, reason_text}
use sticky_overseer.Pool.Manager.{PoolManager}
use sticky_overseer.Pool.Acquire
use sticky_overseer.Pool.Acquire.{admit}
use sticky_overseer.Metrics
use sticky_overseer.Hub.Types
use sticky_overseer.Hub.Types.{Hub, Task, Launch, Message, World, emit}
use sticky_overseer.Hub.Once.{has_once, has_once-without_conn, has_once-change_subscriptions}
use sticky_overseer.Hub.Clients.{
  drop_dead, send_to, remove_client, broadcast, broadcast_to_subscribers, targets_of,
}
use sticky_overseer.Hub.Launch.{
  register, unregister, set_task, auto_subscribe, announce_start, start_fn, cancel_fn, new_task,
  arrival_of, acquire_slot,
}
use sticky_overseer.Hub.Start.{is_taken, reserve, launch, conclude_launch, announce_queued}

-- What messages leave alone, and that they give no connection a second set of subscriptions.
pub record SameTasks (h h' : Hub) : Type 0 where
  pub same_tasks : h'.tasks ≡ h.tasks
  pub same_pending : h'.pending ≡ h.pending
  pub same_pool : h'.pool ≡ h.pool
  pub kept_once : has_once h.subscriptions ≡ true → has_once h'.subscriptions ≡ true

pub refl-SameTasks : (h : Hub) → SameTasks h h
refl-SameTasks h = record {
  same_tasks = refl;
  same_pending = refl;
  same_pool = refl;
  kept_once = λ e. e;
}

send_to-SameTasks :
    (targets : List ℕ) (msg : Message) (h : Hub) → SameTasks h (send_to targets msg h)
unfolding send_to
send_to-SameTasks [] msg h = refl-SameTasks h
send_to-SameTasks (t ∷ targets) msg h =
    let r = send_to-SameTasks targets msg (emit (Types.send t msg) h) in
    record {
      same_tasks = r.same_tasks;
      same_pending = r.same_pending;
      same_pool = r.same_pool;
      kept_once = r.kept_once;
    }

drop_dead-SameTasks : (dead : List ℕ) (h : Hub) → SameTasks h (drop_dead dead h)
unfolding drop_dead remove_client
drop_dead-SameTasks [] h = refl-SameTasks h
drop_dead-SameTasks (d ∷ dead) h =
    let r = drop_dead-SameTasks dead (emit (Types.close d) (remove_client d h)) in
    record {
      same_tasks = r.same_tasks;
      same_pending = r.same_pending;
      same_pool = r.same_pool;
      kept_once = λ e. r.kept_once (has_once-without_conn d h.subscriptions e);
    }

pub trans-SameTasks : (a b c : Hub) → SameTasks a b → SameTasks b c → SameTasks a c
trans-SameTasks a b c r s = record {
  same_tasks = s.same_tasks ∙ r.same_tasks;
  same_pending = s.same_pending ∙ r.same_pending;
  same_pool = s.same_pool ∙ r.same_pool;
  kept_once = λ e. s.kept_once (r.kept_once e);
}

pub broadcast_to_subscribers-SameTasks :
    (world : World) (id : String) (msg : Message) (h : Hub)
    → SameTasks h (broadcast_to_subscribers world id msg h)
unfolding broadcast_to_subscribers
broadcast_to_subscribers-SameTasks world id msg h =
    trans-SameTasks h _ _ (send_to-SameTasks (targets_of id h.subscriptions) msg h)
      (drop_dead-SameTasks _ _)

pub broadcast-SameTasks :
    (world : World) (msg : Message) (h : Hub) → SameTasks h (broadcast world msg h)
unfolding broadcast
broadcast-SameTasks world msg h =
    trans-SameTasks h _ _ (send_to-SameTasks h.clients msg h) (drop_dead-SameTasks _ _)

pub auto_subscribe-SameTasks :
    (conn : Option ℕ) (id : String) (h : Hub) → SameTasks h (auto_subscribe conn id h)
unfolding auto_subscribe
auto_subscribe-SameTasks none id h = refl-SameTasks h
auto_subscribe-SameTasks (some conn) id h = record {
  same_tasks = refl;
  same_pending = refl;
  same_pool = refl;
  kept_once = has_once-change_subscriptions conn (add_key id) h.subscriptions;
}

pub announce_start-SameTasks :
    (world : World) (now : ℕ) (l : Launch) (w : Worker) (h : Hub)
    → SameTasks
        (set_task l.task_id (record (new_task now l) { worker = some w }) h)
        (announce_start world now l w h)
unfolding announce_start
announce_start-SameTasks world now l w h =
    let running = set_task l.task_id (record (new_task now l) { worker = some w }) h in
    let a = auto_subscribe-SameTasks l.conn l.task_id running in
    let b =
      broadcast_to_subscribers-SameTasks world l.task_id
        (Message.started l.id l.task_id w.pid 0 w.started_at)
        (record (auto_subscribe l.conn l.task_id running) {
          metrics =
              Metrics.record_start l.task_id l.action
                (auto_subscribe l.conn l.task_id running).metrics;
        }) in
    record {
      same_tasks = b.same_tasks ∙ a.same_tasks;
      same_pending = b.same_pending ∙ a.same_pending;
      same_pool = b.same_pool ∙ a.same_pool;
      kept_once = λ e. b.kept_once (a.kept_once e);
    }

-- The task that `startFn` leaves, by what `handler.Start` returns.
abbrev pub started_as : ℕ → Launch → String ⊎ Worker → Option Task
started_as now l (inl err) = none
started_as now l (inr w) = some (record (new_task now l) { worker = some w })

-- `startFn` turns the reservation of its task ID into an active task with the worker that the
-- handler started, or, where the handler fails, into nothing: the ID is in neither map. The pool
-- stays as it is.
pub start_fn-started_as :
    (world : World) (now : ℕ) (l : Launch) (h : Hub)
    → let h' = (start_fn world now l h).0 in
      (lookup l.task_id h'.tasks ≡ started_as now l (l.handler.start now l.task_id l.params))
      × (contains l.task_id h'.pending ≡ false)
      × (h'.pool ≡ h.pool)
unfolding start_fn unregister register set_task
start_fn-started_as world now l h = go (l.handler.start now l.task_id l.params) refl
  where
    go :
        (r : String ⊎ Worker)
        → l.handler.start now l.task_id l.params ≡ r
        → let h' = (start_fn world now l h).0 in
          (lookup l.task_id h'.tasks ≡ started_as now l (l.handler.start now l.task_id l.params))
          × (contains l.task_id h'.pending ≡ false)
          × (h'.pool ≡ h.pool)
    go (inl err) e =
        rw (e, start_fn)
          (
            ground (
              arith,
              lookup-delete l.task_id l.task_id (insert l.task_id (new_task now l) h.tasks),
            ),
            ground
                (arith, contains-remove_key l.task_id l.task_id (remove_key l.task_id h.pending)),
            refl,
          )
    go (inr w) e =
        let s = announce_start-SameTasks world now l w (register now l h) in
        rw (e, start_fn)
          (
            ap (λ t. lookup l.task_id t) s.same_tasks
                ∙ lookup-insert_self l.task_id (record (new_task now l) { worker = some w })
                    (insert l.task_id (new_task now l) h.tasks),
            ap (λ t. contains l.task_id t) s.same_pending
                ∙ ground (arith, contains-remove_key l.task_id l.task_id h.pending),
            s.same_pool,
          )

-- `cancelFn` gives the task ID back: it is no longer reserved, and the tasks stay as they are.
pub cancel_fn-contains :
    (world : World) (now : ℕ) (l : Launch) (reason : Reason) (h : Hub)
    → let h' = cancel_fn world now l reason h in
      (contains l.task_id h'.pending ≡ false) × (h'.tasks ≡ h.tasks) × (h'.pool ≡ h.pool)
unfolding cancel_fn
cancel_fn-contains world now l reason h =
    let s =
      broadcast-SameTasks world (Message.dequeued l.task_id (reason_text reason) now) (record h {
        pending = remove_key l.task_id h.pending;
        metrics = Metrics.record_dequeued h.metrics;
      }) in
    (
      ap (λ t. contains l.task_id t) s.same_pending
          ∙ ground (arith, contains-remove_key l.task_id l.task_id h.pending),
      s.same_tasks,
      s.same_pool,
    )

-- A start that the pool rejects keeps its task ID reserved, although the request has failed: the
-- ID counts as taken from then on.
pub launch-is_taken :
    (world : World) (now : ℕ) (force : Bool) (l : Launch) (pm pm' : PoolManager Launch) (h : Hub)
    → h.pool ≡ some pm
    → admit world.visit now (arrival_of world force l) pm ≡ (pm', Acquire.rejected)
    → is_taken l.task_id (launch world now force l h).0 ≡ true
unfolding launch acquire_slot conclude_launch is_taken reserve lookup
launch-is_taken world now force l pm pm' h e r =
    rw (e, r) (ground (arith, contains-add_key l.task_id l.task_id h.pending))

pub announce_queued-pool :
    (world : World) (now : ℕ) (l : Launch) (h : Hub) → (announce_queued world now l h).pool ≡ h.pool
unfolding announce_queued
announce_queued-pool world now l h = (broadcast-SameTasks world _ _).same_pool
