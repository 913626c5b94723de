-- ===== src/Hub/Start.antt =====
-- `handleStart` and `Submit` of hub.go: a task is checked, reserved and given to the pool.
use Prim.Native.String.{◌++◌ as append}
use sticky_overseer.Base.{
  sort_strings, contains, add_key, ℕ, String, Bool, true, false, Option, none, some, List, [], ◌∷◌,
  ◌||◌, ite, text_eq, lookup, if◌then◌else◌,
}
use sticky_overseer.Metrics.{record_enqueued}
use sticky_overseer.Worker.{is_running}
use sticky_overseer.Pool.Types.{Reason, reason_text}
use sticky_overseer.Pool.Control
use sticky_overseer.Pool.Acquire.{AcquireResult, acquire_running, acquire_queued}
use sticky_overseer.Hub.Types.{Hub, Task, Launch, Message, World, ActionHandler, IncomingMessage}
use sticky_overseer.Hub.Clients.{send_json, send_error, broadcast}
use sticky_overseer.Hub.Launch.{start_fn, acquire_slot}

-- `params[k]`
abbrev pub param : List (String × String) → String → String
param params k = elim (lookup k params) [ none ↦ "" | some v ↦ v ]

-- `k1=params[k1]`, each after the separator of `strings.Join`
abbrev pub join_params : List (String × String) → List String → String
join_params params [] = ""
join_params params (k ∷ ks) =
    append "\0" (append k (append "=" (append (param params k) (join_params params ks))))

unfoldable pub dedupe_fingerprint : String → List (String × String) → List String → String
dedupe_fingerprint action params [] = ""
dedupe_fingerprint action params (k ∷ ks) =
    append action (join_params params (sort_strings (k ∷ ks)))

abbrev pub has_running_worker : Task → Bool
has_running_worker task = elim (task.worker) [ none ↦ false | some w ↦ is_running w ]

-- The scan for a running task with the same fingerprint; the ID of the one found.
unfoldable pub find_duplicate : String → List String → List (String × Task) → Option String
find_duplicate fp key [] = none
find_duplicate fp key ((k, task) ∷ tasks) =
    let later = find_duplicate fp key tasks in
    let r = task.record_ in
    ite (text_eq (dedupe_fingerprint r.action r.params key) fp)
      (if has_running_worker task then some r.task_id else later) later

-- The scan, which runs only where the fingerprint is not empty.
abbrev pub duplicate_of : String → List (String × String) → List String → Hub → Option String
duplicate_of action params key h =
    let fp = dedupe_fingerprint action params key in
    ite (text_eq fp "") none (find_duplicate fp key h.tasks)

-- Is the task ID taken, by a task or by a start under way?
unfoldable pub is_taken : String → Hub → Bool
is_taken task_id h =
    (elim (lookup task_id h.tasks) [ none ↦ false | some _ ↦ true ]) || contains task_id h.pending

unfoldable pub reserve : String → Hub → Hub
reserve task_id h = record h { pending = add_key task_id h.pending }

module _ (world : World) where
  -- The handler of an action.
  abbrev pub handler_of : String → Option ActionHandler
  handler_of action = elim (world.actions) [ none ↦ none | some hs ↦ lookup action hs ]

  -- `if taskID == "" { taskID = newUUID() }`
  abbrev pub task_id_or_uuid : ℕ → String → String
  task_id_or_uuid now task_id = ite (text_eq task_id "") (world.new_uuid now) task_id

  -- `result == AcquireQueued`: the clients hear of the place in the queue.
  unfoldable pub announce_queued : ℕ → Launch → Hub → Hub
  announce_queued now l h =
      let counted : Hub = record h { metrics = record_enqueued h.metrics } in
      let position : ℕ = elim (h.pool) [
        | none ↦ 0
        | some pm ↦ (Control.info world.visit l.action pm).queue_depth
      ] in
      broadcast world (Message.queued l.id l.task_id l.action position now) counted

  -- What follows `Acquire`: the hub and the error.
  unfoldable pub conclude_launch :
      ℕ → Launch → Hub × AcquireResult × Option Reason → Hub × Option String
  conclude_launch now l (h, result, some reason) =
      (h, some (append "pool rejected task: " (reason_text reason)))
  conclude_launch now l (h, acquire_running, none) = (h, none)
  conclude_launch now l (h, acquire_queued, none) = (announce_queued now l h, none)

  -- From the reservation of the task ID on.
  unfoldable pub launch : ℕ → Bool → Launch → Hub → Hub × Option String
  launch now force l h = elim (h.pool) [
    | none ↦ start_fn world now l (reserve l.task_id h)
    | some pm ↦ conclude_launch now l (acquire_slot world now force l pm (reserve l.task_id h))
  ]

  -- The error goes to the client that asked.
  abbrev pub report : ℕ → String → Hub × Option String → Hub
  report conn id (h, none) = h
  report conn id (h, some err) = send_error conn id err h

  -- The parts of `handleStart` after the handler was found: the task ID is checked and reserved.
  unfoldable pub start_task : ℕ → ℕ → ActionHandler → IncomingMessage → Hub → Hub
  start_task now conn handler msg h =
      let task_id = task_id_or_uuid now msg.task_id in
      let l : Launch = record {
        handler = handler;
        conn = some conn;
        id = msg.id;
        task_id = task_id;
        action = msg.action;
        params = msg.params;
        retry_policy = msg.retry_policy;
      } in
      if is_taken task_id h
      then send_error conn msg.id "task already running or starting" h
      else report conn msg.id (launch now msg.force l h)

  unfoldable pub start_validated : ℕ → ℕ → ActionHandler → IncomingMessage → Hub → Hub
  start_validated now conn handler msg h =
      elim (duplicate_of msg.action msg.params handler.dedupe_key h) [
        | none ↦ start_task now conn handler msg h
        | some existing ↦
            send_json conn
              (Message.error_message msg.id (append "duplicate task: already running as " existing)
                existing)
              h
      ]

  unfoldable pub handle_start : ℕ → ℕ → IncomingMessage → Hub → Hub
  handle_start now conn msg h = elim (world.actions) [
    | none ↦ send_error conn msg.id "no actions configured" h
    | some _ ↦
        ite (text_eq msg.action "") (send_error conn msg.id "action is required" h)
          (elim (handler_of msg.action) [
            | none ↦ send_error conn msg.id (append "unknown action: " (world.quote msg.action)) h
            | some handler ↦ elim (handler.validate msg.params) [
              | some err ↦ send_error conn msg.id (append "validation error: " err) h
              | none ↦ start_validated now conn handler msg h
            ]
          ])
  ]

  -- `Submit`, and the error that it returns.
  unfoldable pub submit : ℕ → String → String → List (String × String) → Hub → Hub × Option String
  submit now action id params h = elim (world.actions) [
    | none ↦ (h, some "no actions configured")
    | some _ ↦ elim (handler_of action) [
      | none ↦ (h, some (append "unknown action: " (world.quote action)))
      | some handler ↦ elim (handler.validate params) [
        | some err ↦ (h, some (append "validation error: " err))
        | none ↦
            let task_id = task_id_or_uuid now id in
            let l : Launch = record {
              handler = handler;
              conn = none;
              id = "";
              task_id = task_id;
              action = action;
              params = params;
              retry_policy = none;
            } in
            if is_taken task_id h
            then (
              h,
              some (append "task " (append (world.quote task_id) " already running or starting")),
            )
            else launch now false l h
      ]
    ]
  ]
