-- ===== src/Tests/HubLines.antt =====
-- Instances of the theorems on the lines of workers.
use sticky_overseer.Base.{
  ◌≡◌, ◌≢◌, refl, String, true, false, none, some, List, [], ◌∷◌, arith, map, lookup, text_eq,
  of_no,
}
use sticky_overseer.Worker.{stream_stdout, stream_stderr}
use sticky_overseer.Worker.Start.{WorkerConfig}
use sticky_overseer.Hub.Types.{Hub, Task}
use sticky_overseer.Hub.Launch.{new_task, stop_worker}
use sticky_overseer.Hub.Processes.{Line, scan, scan_breaks}
use sticky_overseer.Hub.Requests.{replayed, send_all, handle_replay}
use sticky_overseer.Hub.Replays.{numbered, handle_replay-numbered}
use sticky_overseer.Hub.Broken.{stop_worker-scan_breaks}
use sticky_overseer.Tests.HubData.{world, job, hub, worker_7}

abbrev running_task : Task
running_task = record (new_task 20 (job "job")) { worker = some worker_7 }

abbrev running_hub : Hub
running_hub = record hub { tasks = ("job", running_task) ∷ [] }

abbrev lines : List Line
lines =
    record { stream = stream_stdout; text = "one"; ts = 21; forwarded = true }
    ∷ record { stream = stream_stderr; text = "two"; ts = 22; forwarded = false }
    ∷ record { stream = stream_stdout; text = "three"; ts = 23; forwarded = true }
    ∷ []

abbrev worker_config : WorkerConfig
worker_config = record {
  task_id = "job";
  command = "convert";
  args = [];
  include_stdout = true;
  include_stderr = true;
}

abbrev job_id : String
job_id = "job"

abbrev no_id : String
no_id = ""

job_ne_no_id : job_id ≢ no_id
unfolding text_eq
job_ne_no_id = of_no (text_eq job_id no_id) refl

handle_replay-numbered_example :
    handle_replay world 1 "r1" "job" "" (scan world worker_config "job" lines running_hub)
    ≡ send_all 1
        (map (replayed "job" 7) (numbered 0 lines))
        (scan world worker_config "job" lines running_hub)
unfolding lookup text_eq
handle_replay-numbered_example =
    handle_replay-numbered world worker_config lines "job" running_task worker_7 running_hub 1 "r1"
      "" none refl refl (omega arith) job_ne_no_id refl

stop_worker-scan_breaks_example :
    (stop_worker "job" true (scan_breaks "job" running_task worker_7 running_hub)).effects ≡ []
stop_worker-scan_breaks_example =
    stop_worker-scan_breaks "job" true running_task worker_7 running_hub
