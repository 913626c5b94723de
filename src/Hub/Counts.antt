-- ===== src/Hub/Counts.antt =====
-- The counts of exits of the tasks of hub.go, over all its methods.
use sticky_overseer.Base.{◌≡◌, String, Option, some, lookup}
use sticky_overseer.Pool.Manager.{PoolManager}
use sticky_overseer.Hub.Types.{Hub, Task, Launch, World}
use sticky_overseer.Hub.Lifecycle.{Lived, WellCounted, new_task-WellCounted}
use sticky_overseer.Hub.Shutdown.{new_hub}
use sticky_overseer.Hub.Steps.{HubReach, new_hub-Keyed}

Lived-WellCounted : (t : Task) → Lived t → WellCounted t
Lived-WellCounted t (now, l, r) = new_task-WellCounted now l t r

-- Whatever requests, exits, lines, restarts, expiries and shutdowns a new hub gets, in any order,
-- the `ExitCount` of each of its tasks is the number of the exits in the task's history, and while
-- the task is active these are fewer than a positive `ErrorThreshold` of its policy.
pub new_hub-WellCounted :
    (world : World) (pool : Option (PoolManager Launch)) (h : Hub) (id : String) (t : Task)
    → HubReach world (new_hub pool) h
    → lookup id h.tasks ≡ some t
    → WellCounted t
new_hub-WellCounted world pool h id t r e =
    Lived-WellCounted t ((new_hub-Keyed world pool h r).lived id t e)
