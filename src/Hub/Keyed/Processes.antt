-- ===== src/Hub/Keyed/Processes.antt =====
-- The reports of workers to hub.go keep the maps of tasks apart.
use sticky_overseer.Base.{ℕ, ◌≡◌, String, Bool, true, false, some, ℤ, lookup}
use sticky_overseer.Worker.{Worker, Stream}
use sticky_overseer.Hub.Types.{Hub, Task, World}
use sticky_overseer.Hub.Launch.{set_task}
use sticky_overseer.Hub.Processes.{scan_line, process_exits}
use sticky_overseer.Hub.Exit.{withheld_task, ended_task}
use sticky_overseer.Hub.Lifecycle.{Step}
use sticky_overseer.Hub.Keyed.{Keyed, replaced-Keyed}
use sticky_overseer.Hub.Keyed.Starts.{emit-Keyed}
use sticky_overseer.Hub.Keyed.Exits.{on_output-Keyed, on_worker_exited-Keyed}

module _ (world : World) where
  pub scan_line-Keyed :
      (forwarded : Bool) (now : ℕ) (stream : Stream) (line id : String) (t : Task) (w : Worker)
      (h : Hub)
      → lookup id h.tasks ≡ some t
      → Keyed h
      → Keyed (scan_line world forwarded now stream line id t w h)
  unfolding scan_line set_task
  scan_line-Keyed true now stream line id t w h e v =
      on_output-Keyed world now stream line id t w h e v
  scan_line-Keyed false now stream line id t w h e v = emit-Keyed _ _ (
      replaced-Keyed id h t (withheld_task now stream line t w) e
        (Step.withholds now stream line w t) v)

  pub process_exits-Keyed :
      (now : ℕ) (code : ℤ) (id : String) (t : Task) (w : Worker) (h : Hub)
      → lookup id h.tasks ≡ some t
      → Keyed h
      → Keyed (process_exits world now code id t w h)
  unfolding process_exits set_task
  process_exits-Keyed now code id t w h e v =
      on_worker_exited-Keyed world now id w.pid code w.intentional_stop _
        (replaced-Keyed id h t (ended_task now code t w) e (Step.ends now code w t) v)
