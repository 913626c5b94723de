-- ===== src/Hub/Queries.antt =====
-- The requests of hub.go that only read: the tasks, the actions and the description of the protocol.
pub mod Listed
use Prim.Native.String.{◌++◌ as append}
use sticky_overseer.Base.{
  ℕ, String, Bool, true, false, Option, none, some, List, [], ◌∷◌, ◌++◌, ◌||◌, ◌&&◌, ite, text_eq,
  lookup, map, if◌then◌else◌, ◌⊎◌, inl, inr, ltb, contains, ℤ, keep, not,
}
use sticky_overseer.Worker.{Worker}
use sticky_overseer.Actions.{ActionInfo}
use sticky_overseer.Manifest.{build_manifest}
use sticky_overseer.Pool.Types.{QueuedItemInfo, PoolInfo}
use sticky_overseer.Hub.Types.{Hub, Task, TaskInfo, Message, World, ActionHandler, state_queued}
use sticky_overseer.Hub.Clients.{send_json, send_error}
use sticky_overseer.Hub.Requests.{parse_since, pool_info_of}

unfoldable pub task_info : Task → TaskInfo
task_info task =
    let r = task.record_ in
    let info : TaskInfo = record {
      task_id = r.task_id;
      action = r.action;
      params = r.params;
      queued_at = none;
      state = r.state;
      retry_policy = r.retry_policy;
      current_pid = 0;
      worker_state = none;
      restart_count = r.restart_count;
      created_at = some r.created_at;
      last_started_at = r.last_started_at;
      last_exited_at = r.last_exited_at;
      last_exit_code = none;
      error_message = r.error_message;
    } in
    elim (task.worker) [
      | none ↦ info
      | some w ↦ record info {
        current_pid = w.pid;
        worker_state = some w.state;
        last_exit_code = w.exit_code;
      }
    ]

-- `lastAt`: the later of the two instants, the start where they are the same.
abbrev pub last_at : (started exited : Option ℕ) → Option ℕ
last_at started none = started
last_at none (some exited) = some exited
last_at (some started) (some exited) = some (if ltb started exited then exited else started)

-- Does the filter of `since` keep a task?
unfoldable pub is_since : Option ℕ → TaskInfo → Bool
is_since none info = true
is_since (some since) info = elim (last_at info.last_started_at info.last_exited_at) [
  | none ↦ false
  | some t ↦ not (ltb t since)
]

abbrev pub infos_of : List (String × Task) → List TaskInfo
infos_of [] = []
infos_of ((id, task) ∷ tasks) = task_info task ∷ infos_of tasks

abbrev pub ids_of : List TaskInfo → List String
ids_of [] = []
ids_of (info ∷ infos) = info.task_id ∷ ids_of infos

unfoldable pub queued_info : QueuedItemInfo → TaskInfo
queued_info item = record {
  task_id = item.task_id;
  action = item.action;
  params = [];
  queued_at = some item.queued_at;
  state = state_queued;
  retry_policy = none;
  current_pid = 0;
  worker_state = none;
  restart_count = 0;
  created_at = none;
  last_started_at = none;
  last_exited_at = none;
  last_exit_code = none;
  error_message = "";
}

-- The loop over the queued items, but those whose IDs are among the given.
unfoldable pub queued_infos : List String → List QueuedItemInfo → List TaskInfo
queued_infos existing [] = []
queued_infos existing (item ∷ items) =
    let rest = queued_infos existing items in
    if contains item.task_id existing then rest else queued_info item ∷ rest

-- The tasks that `handleList` sends.
unfoldable pub listed : Option ℕ → List (String × Task) → List QueuedItemInfo → List TaskInfo
listed since tasks items =
    let infos = keep (is_since since) (infos_of tasks) in infos ++ queued_infos (ids_of infos) items

abbrev pub described : String × ActionHandler → String × ActionInfo
described (name, handler) = (name, handler.describe)

-- `info := handler.Describe(); info.Name = name`
abbrev pub named_info : String × ActionHandler → ActionInfo
named_info (name, handler) = record (handler.describe) { name = name }

abbrev pub described_actions :
    Option (List (String × ActionHandler)) → Option (List (String × ActionInfo))
described_actions none = none
described_actions (some handlers) = some (map described handlers)

module _ (world : World) where
  unfoldable pub handle_list : ℕ → String → String → Hub → Hub
  handle_list conn id since h = elim (parse_since world since) [
    | inl _ ↦ send_error conn id "invalid since timestamp" h
    | inr t ↦
        let items = (pool_info_of world "" h).queue_items in
        send_json conn (Message.tasks_message id (listed t h.tasks items)) h
  ]

  -- The part of `handleDescribe` where there are handlers.
  abbrev pub describe_in : ℕ → String → String → List (String × ActionHandler) → Hub → Hub
  describe_in conn id action handlers h =
      ite (text_eq action "")
        (send_json conn (Message.actions_message id (map named_info handlers)) h)
        (elim (lookup action handlers) [
          | none ↦ send_error conn id (append "unknown action: " (world.quote action)) h
          | some handler ↦
              send_json conn (Message.actions_message id (named_info (action, handler) ∷ [])) h
        ])

  unfoldable pub handle_describe : ℕ → String → String → Hub → Hub
  handle_describe conn id action h = elim (world.actions) [
    | none ↦ send_error conn id "no actions configured" h
    | some handlers ↦ describe_in conn id action handlers h
  ]

  unfoldable pub handle_manifest : ℕ → String → Hub → Hub
  handle_manifest conn id h =
      send_json conn
        (Message.manifest_message id
          (build_manifest (described_actions world.actions) world.version))
        h
