-- ===== src/Hub/Shutdown/Stopped.antt =====
-- What `Shutdown` of hub.go does to the tasks before it waits.
use sticky_overseer.Base.{
  ◌≡◌, String, Bool, true, false, Option, none, some, List, [], ◌∷◌, ite, text_eq, contains,
  if◌then◌else◌, ℕ,
}
use sticky_overseer.Worker
use sticky_overseer.Worker.{Signal, sigterm, sigkill, cancels_context, panics}
use sticky_overseer.Hub.Types.{Hub, Task, Effect, signal, send, log_event, restart_later, close}
use sticky_overseer.Hub.Launch.{stop_task}
use sticky_overseer.Hub.Start.{has_running_worker}

-- A task once its worker was told to stop, if it is the one.
abbrev pub told : Bool → Option Task → Option Task
told b none = none
told b (some t) = if b then some (stop_task false t).0 else some t

-- The IDs differ.
abbrev AllDiffer : List String → Type 0
AllDiffer [] = Unit
AllDiffer (id ∷ ids) = (contains id ids ≡ false) × AllDiffer ids

abbrev pub is_running_task : Option Task → Bool
is_running_task none = false
is_running_task (some t) = has_running_worker t

-- Is it a signal to the process of this task, or the cancellation of its context, that ends it?
abbrev ends_task : Signal → Bool
ends_task (sigterm pid) = true
ends_task (sigkill pid) = false
ends_task cancels_context = true
ends_task panics = false

abbrev pub is_stop_of : String → Effect → Bool
is_stop_of a (signal id s) = ite (text_eq id a) (ends_task s) false
is_stop_of a (send conn msg) = false
is_stop_of a (log_event msg) = false
is_stop_of a (restart_later id pid attempt delay) = false
is_stop_of a (close conn) = false

-- Was the worker of the task asked to stop?
abbrev pub is_asked : Option Task → Bool
is_asked none = false
is_asked (some t) = elim (t.worker) [ none ↦ false | some w ↦ w.intentional_stop ]

abbrev pub one_if : Bool → ℕ
one_if b = if b then 1 else 0
