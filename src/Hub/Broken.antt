-- ===== src/Hub/Broken.antt =====
-- What becomes of a worker of hub.go whose scanner has failed.
use sticky_overseer.Base.{◌≡◌, refl, String, Bool, true, false, [], arith, lookup-insert_self}
use sticky_overseer.Worker
use sticky_overseer.Worker.{Worker, WorkerState, worker_running, worker_exited, scan_failed}
use sticky_overseer.Hub.Types.{Hub, Task}
use sticky_overseer.Hub.Launch.{stop_task, stop_worker, set_task}
use sticky_overseer.Hub.Exit.{broken_task}
use sticky_overseer.Hub.Processes.{scan_breaks}

stop-scan_failed : (w : Worker) → (Worker.stop (scan_failed w)).1 ≡ []
unfolding Worker.stop scan_failed
stop-scan_failed w = go w.state refl
  where
    go : (s : WorkerState) → w.state ≡ s → (Worker.stop (scan_failed w)).1 ≡ []
    go worker_running e = ground (arith, e)
    go worker_exited e = ground (arith, e)

stop_task-broken_task :
    (intentional : Bool) (t : Task) (w : Worker) → (stop_task intentional (broken_task t w)).1 ≡ []
unfolding stop_task broken_task
stop_task-broken_task true t w = stop-scan_failed w
stop_task-broken_task false t w = stop-scan_failed w

-- Once a scanner of a task's worker has failed, a stop of the task sends the process no signal and
-- reports nothing, although the process runs on: whoever asks, and whether or not the stop is
-- intended.
pub stop_worker-scan_breaks :
    (id : String) (intentional : Bool) (t : Task) (w : Worker) (h : Hub)
    → (stop_worker id intentional (scan_breaks id t w h)).effects ≡ h.effects
unfolding stop_worker scan_breaks set_task
stop_worker-scan_breaks id intentional t w h =
    rw (lookup-insert_self id (broken_task t w) h.tasks, stop_worker)
      (rw (stop_task-broken_task intentional t w) refl)
