-- ===== src/Tests/HubSteps.antt =====
-- Instances of the theorems on the life of the hub, its requests and its shutdown.
use sticky_overseer.Base.{
  insert, ◌⊎◌, ◌≡◌, ◌≢◌, ◌≤◌, refl, String, true, false, none, some, List, [], ◌∷◌, lookup, text_eq,
  arith, count_of, of_no, pos,
}
use sticky_overseer.Manifest.{build_manifest_messages}
use sticky_overseer.Manifest.Responses.{has_message}
use sticky_overseer.Pool.Types.{QueuedItemInfo}
use sticky_overseer.Hub.Types.{Hub, Task, IncomingMessage}
use sticky_overseer.Hub.Clients.{send_error}
use sticky_overseer.Hub.Launch.{new_task}
use sticky_overseer.Hub.Start.{dedupe_fingerprint, handle_start, start_validated, start_task}
use sticky_overseer.Hub.Shutdown.{new_hub}
use sticky_overseer.Hub.Queries.{listed, ids_of, task_info}
use sticky_overseer.Hub.Queries.Listed.{item_ids, count_of-listed}
use sticky_overseer.Hub.Dispatch.{handle_request}
use sticky_overseer.Hub.Dispatch.Protocol.{IsServed, handle_request-has_message}
use sticky_overseer.Hub.Keyed.{Keyed}
use sticky_overseer.Hub.Steps
use sticky_overseer.Hub.Steps.{new_hub-Keyed}
use sticky_overseer.Hub.Counts.{new_hub-WellCounted}
use sticky_overseer.Hub.Lifecycle.{WellCounted}
use sticky_overseer.Tests.HubData.{hub_program, world, job, hub, one_slot, worker_7}

abbrev start_message : IncomingMessage
start_message = record {
  type_ = "start";
  id = "r1";
  task_id = "job";
  action = "build";
  params = [];
  force = false;
  limit = pos 0;
  queue_size = pos 0;
  excess = none;
  retry_policy = none;
  since = "";
}

new_hub-Keyed_example : Keyed (handle_start world 20 1 start_message (new_hub (some one_slot)))
new_hub-Keyed_example =
    new_hub-Keyed world (some one_slot)
      (handle_start world 20 1 start_message (new_hub (some one_slot)))
      (Steps.next Steps.here (Steps.start_asked 20 1 start_message))

abbrev started_hub : Hub
started_hub = handle_start world 20 1 start_message (new_hub none)

abbrev started_task : Task
started_task = record (new_task 20 (record (job "job") { id = "r1"; retry_policy = none })) {
  worker = some worker_7;
}

new_hub-WellCounted_example : WellCounted started_task
unfolding hub_program text_eq new_hub handle_start start_validated start_task lookup
    dedupe_fingerprint insert
new_hub-WellCounted_example =
    new_hub-WellCounted world none started_hub "job" started_task
      (Steps.next Steps.here (Steps.start_asked 20 1 start_message)) refl

abbrev no_id : String
no_id = ""

r1_ne_no_id : start_message.id ≢ no_id
unfolding text_eq
r1_ne_no_id = of_no (text_eq start_message.id no_id) refl

handle_request-has_message_example :
    ((has_message "c2s" "start" build_manifest_messages ≡ true)
      × IsServed world 20 1 start_message hub "start" (handle_request world 20 1 start_message hub))
    ⊎ ((has_message "c2s" "start" build_manifest_messages ≡ false)
        × (handle_request world 20 1 start_message hub
            ≡ send_error 1 "r1" "unknown message type: start" hub))
handle_request-has_message_example =
    handle_request-has_message world 20 1 start_message hub r1_ne_no_id

abbrev tasks : List (String × Task)
tasks =
    ("job", record (new_task 20 (job "job")) { worker = some worker_7 })
    ∷ ("other", new_task 20 (job "other"))
    ∷ []

abbrev waiting_item : QueuedItemInfo
waiting_item = record {
  task_id = "late";
  action = "build";
  queued_at = 30;
  position = 1;
  forced = false;
}

count_of-listed_example :
    (count_of "late" (ids_of (listed (some 25) tasks (waiting_item ∷ []))) ≤ 1)
    × (count_of "late" (item_ids (waiting_item ∷ []))
        ≤ count_of "late" (ids_of (listed (some 25) tasks (waiting_item ∷ []))))
unfolding text_eq task_info
count_of-listed_example =
    count_of-listed (some 25) tasks (waiting_item ∷ []) "late" (omega arith) (omega arith)
