-- ===== src/Hub/Replays.antt =====
-- What hub.go replays of the lines that a worker has written.
use sticky_overseer.Base.{
  ℕ, ◌+◌, ◌≤◌, ◌≡◌, ◌≢◌, refl, ap, ◌∙◌, String, true, false, Option, none, some, List, [], ◌∷◌,
  ◌++◌, ◌⊎◌, inr, map, arith, lookup, lookup-insert_self, length, keep, ltb, not, if_neg, text_eq,
  if◌then◌else◌, Bool-cases, inl,
}
use sticky_overseer.Worker
use sticky_overseer.Worker.{Worker, Event, event_ts, ring_buffer_size, add_event, get_events}
use sticky_overseer.Worker.Ring.{add_events, newest, add_events-newest}
use sticky_overseer.Hub.Types.{Hub, Task, World}
use sticky_overseer.Hub.Clients.{send_error}
use sticky_overseer.Hub.Launch.{set_task}
use sticky_overseer.Hub.Exit.{on_output, output_task, withheld_task}
use sticky_overseer.Worker.Start.{WorkerConfig}
use sticky_overseer.Hub.Processes.{scan, is_included, Line, scan_line, scan_lines}
use sticky_overseer.Hub.Requests.{replayed, send_all, parse_since, replay_worker, handle_replay}
use sticky_overseer.Hub.Reserved.{broadcast_to_subscribers-SameTasks}

-- The events of lines, where the last forwarded line of the task had the number `n`: forwarded lines
-- have the numbers from there on, and the others 0.
abbrev pub line_event : ℕ → Line → Event
line_event n l = Worker.output l.stream l.text (if l.forwarded then n + 1 else 0) l.ts

abbrev pub numbered : ℕ → List Line → List Event
numbered n [] = []
numbered n (l ∷ ls) = line_event n l ∷ numbered (if l.forwarded then n + 1 else n) ls

-- The events that are not before an instant, where there is one.
abbrev pub from_instant : Option ℕ → List Event → List Event
from_instant none es = es
from_instant (some since) es = keep (λ e. not (ltb (event_ts e) since)) es

get_events-from_instant :
    (instant : Option ℕ) (w : Worker) → get_events instant w ≡ from_instant instant w.events
unfolding get_events
get_events-from_instant none w = refl
get_events-from_instant (some since) w = refl

add_event-ids :
    (e : Event) (w : Worker) → ((add_event e w).pid ≡ w.pid) × ((add_event e w).task_id ≡ w.task_id)
unfolding add_event
add_event-ids e w = ground arith

add_events-ids :
    (es : List Event) (w : Worker)
    → ((add_events es w).pid ≡ w.pid) × ((add_events es w).task_id ≡ w.task_id)
unfolding add_events
add_events-ids [] w = (refl, refl)
add_events-ids (e ∷ es) w =
    let (p, t) = add_event-ids e w in
    let (q, u) = add_events-ids es (add_event e w) in (q ∙ p, u ∙ t)

module _ (world : World) where
  -- The task of a worker after a line of it.
  abbrev after_line : Line → Task → Worker → Task
  after_line l t w = elim (l.forwarded) [
    | true ↦ output_task l.ts l.stream l.text t w
    | false ↦ withheld_task l.ts l.stream l.text t w
  ]

  scan_line-found :
      (l : Line) (id : String) (t : Task) (w : Worker) (h : Hub)
      → lookup id (scan_line world l.forwarded l.ts l.stream l.text id t w h).tasks
        ≡ some (after_line l t w)
  unfolding scan_line on_output set_task
  scan_line-found l id t w h = elim (Bool-cases l.forwarded) [
    | inl e ↦
        rw (e, scan_line)
          (ap (lookup id) (broadcast_to_subscribers-SameTasks world id _ _).same_tasks
            ∙ lookup-insert_self id (output_task l.ts l.stream l.text t w) h.tasks)
    | inr e ↦
        rw (e, scan_line) (lookup-insert_self id (withheld_task l.ts l.stream l.text t w) h.tasks)
  ]

  after_line-worker :
      (l : Line) (t : Task) (w : Worker)
      → (after_line l t w).worker ≡ some (add_event (line_event t.output_seq l) w)
  unfolding output_task withheld_task
  after_line-worker l t w = elim (Bool-cases l.forwarded) [ inl k ↦ rw k refl | inr k ↦ rw k refl ]

  after_line-output_seq :
      (l : Line) (t : Task) (w : Worker)
      → (after_line l t w).output_seq ≡ (if l.forwarded then t.output_seq + 1 else t.output_seq)
  unfolding output_task withheld_task
  after_line-output_seq l t w = elim (Bool-cases l.forwarded) [
    | inl k ↦ rw k refl
    | inr k ↦ rw k refl
  ]

  scan_lines-next :
      (l : Line) (ls : List Line) (id : String) (t : Task) (w : Worker) (h : Hub)
      → lookup id h.tasks ≡ some t
      → t.worker ≡ some w
      → scan_lines world id (l ∷ ls) h
        ≡ scan_lines world id ls (scan_line world l.forwarded l.ts l.stream l.text id t w h)
  unfolding scan_lines
  scan_lines-next l ls id t w h e f =
      rw (e, scan_lines)
        (ap
          (λ (o : Option Worker). elim o as (λ _. Hub) [
            | none ↦ h
            | some w' ↦
                scan_lines world id ls (scan_line world l.forwarded l.ts l.stream l.text id t w' h)
          ])
          f)

  -- The worker that a task has once lines of it were read.
  scan_lines-found :
      (ls : List Line) (id : String) (t : Task) (w : Worker) (h : Hub)
      → lookup id h.tasks ≡ some t
      → t.worker ≡ some w
      → (t' : Task) × (lookup id (scan_lines world id ls h).tasks ≡ some t')
        × (t'.worker ≡ some (add_events (numbered t.output_seq ls) w))
  unfolding scan_lines add_events
  scan_lines-found [] id t w h e f = (t, e, f)
  scan_lines-found (l ∷ ls) id t w h e f =
      let (t', found, has) =
        scan_lines-found ls id (after_line l t w) (add_event (line_event t.output_seq l) w)
          (scan_line world l.forwarded l.ts l.stream l.text id t w h) (scan_line-found l id t w h)
          (after_line-worker l t w) in
      (
        t',
        ap (λ g. lookup id g.tasks) (scan_lines-next l ls id t w h e f) ∙ found,
        has
            ∙ ap (λ n. some (add_events (numbered n ls) (add_event (line_event t.output_seq l) w)))
                (after_line-output_seq l t w),
      )

  handle_replay-found :
      (id : String) (t : Task) (w : Worker) (h : Hub) (conn : ℕ) (rid since : String)
      → lookup id h.tasks ≡ some t
      → t.worker ≡ some w
      → id ≢ ""
      → handle_replay world conn rid id since h ≡ replay_worker world conn rid since w h
  unfolding handle_replay
  handle_replay-found id t w h conn rid since e f n =
      if_neg (text_eq id "") n _ _
      ∙ rw e (
          ap
            (λ (o : Option Worker). elim o as (λ _. Hub) [
              | none ↦ send_error conn rid "no worker for task" h
              | some w' ↦ replay_worker world conn rid since w' h
            ])
            f)

  replay_worker-events :
      (w : Worker) (es : List Event) (h : Hub) (conn : ℕ) (rid since task_id : String) (pid : ℕ)
      (instant : Option ℕ)
      → parse_since world since ≡ inr instant
      → w.events ≡ es
      → w.pid ≡ pid
      → w.task_id ≡ task_id
      → replay_worker world conn rid since w h
        ≡ send_all conn (map (replayed task_id pid) (from_instant instant es)) h
  replay_worker-events w es h conn rid since task_id pid instant p q r s =
      ap
        (λ (o : Unit {0} ⊎ Option ℕ). elim o as (λ _. Hub) [
          | inl _ ↦ send_error conn rid "invalid since timestamp" h
          | inr i ↦ send_all conn (map (replayed w.task_id w.pid) (get_events i w)) h
        ])
        p
      ∙ ap (λ k. send_all conn (map (replayed k w.pid) (get_events instant w)) h) s
      ∙ ap (λ k. send_all conn (map (replayed task_id k) (get_events instant w)) h) r
      ∙ ap (λ k. send_all conn (map (replayed task_id pid) k) h)
          (get_events-from_instant instant w ∙ ap (from_instant instant) q)

  -- After lines of a worker with at most 100 events were read, a replay request answers with those
  -- of its last 100 events that are not before the instant asked for, in their order. The events are
  -- those that it had and then one for each line of an included stream, with the task's next numbers
  -- for the lines that were forwarded.
  pub handle_replay-numbered :
      (cfg : WorkerConfig) (ls : List Line) (id : String) (t : Task) (w : Worker) (h : Hub)
      (conn : ℕ) (rid since : String) (instant : Option ℕ)
      → lookup id h.tasks ≡ some t
      → t.worker ≡ some w
      → length w.events ≤ ring_buffer_size
      → id ≢ ""
      → parse_since world since ≡ inr instant
      → handle_replay world conn rid id since (scan world cfg id ls h)
        ≡ send_all conn
            (map (replayed w.task_id w.pid) (
              from_instant instant (
                newest ring_buffer_size
                  (w.events ++ numbered t.output_seq (keep (is_included cfg) ls)))))
            (scan world cfg id ls h)
  unfolding scan
  handle_replay-numbered cfg read id t w h conn rid since instant e f small n p =
      let ls = keep (is_included cfg) read in
      let (t', found, has) = scan_lines-found ls id t w h e f in
      let w' : Worker = add_events (numbered t.output_seq ls) w in
      let (same_pid, same_task) = add_events-ids (numbered t.output_seq ls) w in
      handle_replay-found id t' w' (scan_lines world id ls h) conn rid since found has n
      ∙ replay_worker-events w' _ (scan_lines world id ls h) conn rid since w.task_id w.pid instant
          p (add_events-newest (numbered t.output_seq ls) w small) same_pid same_task
