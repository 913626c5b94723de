-- ===== src/Hub/Lifecycle.antt =====
-- The life of a task: what its methods can make of it, in any order.
use sticky_overseer.Base.{
  ℕ, ◌≡◌, refl, ap, ◌∙◌, String, Bool, true, false, Option, none, some, List, [], ◌&&◌, ◌||◌, not,
  ℤ, pos, negsuc, is_positive, reaches, arith, length, if◌then◌else◌, inl, inr, Bool-cases,
  Option-cases,
}
use sticky_overseer.Worker.{Worker, Stream}
use sticky_overseer.Messages.{RetryPolicy}
use sticky_overseer.Hub.Types.{
  Task, TaskState, Launch, state_active, state_stopped, state_errored, state_queued, is_active,
  is_stopped, is_errored,
}
use sticky_overseer.Hub.Launch.{new_task, stop_task}
use sticky_overseer.Hub.Exit.{
  exit_task, counted_exits, reaches_threshold, restarted_task, reset_task, reset_started_task,
  output_task, settles, withheld_task, ended_task, broken_task,
}

-- A step of a method on a task. `doRestart` asks for an active task and `handleReset` for an
-- errored one. A task that starts is given its worker, whose lines are numbered or withheld and
-- whose scanner may fail, until it ends.
pub data Step : Task → Task → Type 0 where
  exits : (intentional : Bool) (now : ℕ) (t : Task) → Step t (exit_task intentional now t).0
  stops : (intentional : Bool) (t : Task) → Step t (stop_task intentional t).0
  restart :
      (now attempt : ℕ) (w : Worker) (t : Task)
      → is_active (t.record_).state ≡ true
      → Step t (restarted_task now attempt w t)
  reset : (t : Task) → is_errored (t.record_).state ≡ true → Step t (reset_task t)
  reset_start : (now : ℕ) (w : Worker) (t : Task) → Step t (reset_started_task now w t)
  attaches : (w : Worker) (t : Task) → Step t (record t { worker = some w })
  outputs :
      (now : ℕ) (stream : Stream) (line : String) (w : Worker) (t : Task)
      → Step t (output_task now stream line t w)
  withholds :
      (now : ℕ) (stream : Stream) (line : String) (w : Worker) (t : Task)
      → Step t (withheld_task now stream line t w)
  breaks : (w : Worker) (t : Task) → Step t (broken_task t w)
  ends : (now : ℕ) (code : ℤ) (w : Worker) (t : Task) → Step t (ended_task now code t w)

pub data Reach : Task → Task → Type 0 where
  here : {t : Task} → Reach t t
  next : {t t' t'' : Task} → Reach t t' → Step t' t'' → Reach t t''

-- The count of exits is that of the history, and while the task is active it has not come to a
-- threshold.
abbrev pub is_below : Option RetryPolicy → List ℕ → Bool
is_below none history = true
is_below (some rp) history = if reaches_threshold rp (length history) then false else true

pub record WellCounted (t : Task) : Type 0 where
  pub counted : (t.record_).exit_count ≡ length t.exit_history
  pub below :
      (is_active (t.record_).state && not (is_below (t.record_).retry_policy t.exit_history))
      ≡ false

-- No state is two states.
not_both : (s : TaskState) → is_stopped s ≡ true → is_active s ≡ false
not_both state_active h = cc
not_both state_stopped h = refl
not_both state_errored h = cc
not_both state_queued h = cc

not_errored : (s : TaskState) → is_stopped s ≡ true → is_errored s ≡ false
not_errored state_active h = cc
not_errored state_stopped h = refl
not_errored state_errored h = cc
not_errored state_queued h = refl

exit_task_stopped :
    (intentional : Bool) (now : ℕ) (t : Task)
    → is_stopped (t.record_).state ≡ true
    → ((exit_task intentional now t).1 ≡ settles)
      × (((exit_task intentional now t).0).record_.state ≡ (t.record_).state)
      × (((exit_task intentional now t).0).record_.exit_count ≡ (t.record_).exit_count)
      × (((exit_task intentional now t).0).exit_history ≡ t.exit_history)
unfolding exit_task
exit_task_stopped true now t h = (refl, refl, refl, refl)
exit_task_stopped false now t h = (rw h refl, rw h refl, rw h refl, rw h refl)

stop_task-state :
    (intentional : Bool) (t : Task)
    → (((stop_task intentional t).0).record_).state
      ≡ (if intentional then state_stopped else (t.record_).state)
unfolding stop_task
stop_task-state intentional t = elim (Option-cases t.worker) [
  | inl e ↦ rw e (ground arith)
  | inr (w, e) ↦ rw e (ground arith)
]

Step-is_stopped :
    {t t' : Task}
    → Step t t'
    → is_stopped (t.record_).state ≡ true
    → is_stopped (t'.record_).state ≡ true
unfolding restarted_task reset_task reset_started_task output_task withheld_task ended_task
    broken_task
Step-is_stopped (exits intentional now t) h =
    ap is_stopped (exit_task_stopped intentional now t h).1 ∙ h
Step-is_stopped (stops intentional t) h = ground (arith, stop_task-state intentional t)
Step-is_stopped (restart now attempt w t a) h = h
Step-is_stopped (reset t e) h = absurd (ground (arith, not_errored (t.record_).state h))
Step-is_stopped (reset_start now w t) h = h
Step-is_stopped (outputs now stream line w t) h = h
Step-is_stopped (attaches w t) h = h
Step-is_stopped (withholds now stream line w t) h = h
Step-is_stopped (breaks w t) h = h
Step-is_stopped (ends now code w t) h = h

-- A task that was stopped stays stopped whatever else happens to it, and when its worker exits,
-- neither the count of exits nor the history of the exits that count changes, and no restart is
-- scheduled.
pub Reach-is_stopped :
    (t t' : Task) (intentional : Bool) (now : ℕ)
    → Reach t t'
    → is_stopped (t.record_).state ≡ true
    → (is_stopped (t'.record_).state ≡ true)
      × ((exit_task intentional now t').1 ≡ settles)
      × (((exit_task intentional now t').0).record_.exit_count ≡ (t'.record_).exit_count)
      × (((exit_task intentional now t').0).exit_history ≡ t'.exit_history)
Reach-is_stopped t t' intentional now r h =
    let s = stays r h in
    let (settled, same, count, history) = exit_task_stopped intentional now t' s in
    (s, settled, count, history)
  where
    stays :
        {a b : Task}
        → Reach a b
        → is_stopped (a.record_).state ≡ true
        → is_stopped (b.record_).state ≡ true
    stays here k = k
    stays (next r s) k = Step-is_stopped s (stays r k)

exit_task-WellCounted :
    (intentional : Bool) (now : ℕ) (t : Task)
    → WellCounted t
    → WellCounted (exit_task intentional now t).0
unfolding exit_task
exit_task-WellCounted intentional now t v =
    elim (Bool-cases (intentional || is_stopped (t.record_).state)) [
      | inl e ↦ rw e (record { counted = v.counted; below = v.below })
      | inr e ↦ elim (Option-cases (t.record_).retry_policy) [
        | inl n ↦ rw (e, n) (record { counted = v.counted; below = ground arith })
        | inr (rp, n) ↦
            let history = counted_exits rp now t.exit_history in
            elim (Bool-cases (reaches_threshold rp (length history))) [
              | inl b ↦ rw (e, n, b) (record { counted = refl; below = refl })
              | inr b ↦ rw (e, n, b) (record { counted = refl; below = ground arith })
            ]
      ]
    ]

stop_task-WellCounted :
    (intentional : Bool) (t : Task) → WellCounted t → WellCounted (stop_task intentional t).0
unfolding stop_task
stop_task-WellCounted true t v = elim (Option-cases t.worker) [
  | inl e ↦ rw e (record { counted = v.counted; below = refl })
  | inr (w, e) ↦ rw e (record { counted = v.counted; below = refl })
]
stop_task-WellCounted false t v = elim (Option-cases t.worker) [
  | inl e ↦ rw e (record { counted = v.counted; below = v.below })
  | inr (w, e) ↦ rw e (record { counted = v.counted; below = v.below })
]

is_below-nil : (o : Option RetryPolicy) → is_below o [] ≡ true
is_below-nil none = refl
is_below-nil (some rp) = elim (Bool-cases (reaches_threshold rp 0)) [
  | inl e ↦ absurd (never rp.error_threshold e)
  | inr e ↦ rw e refl
]
  where
    never : (k : ℤ) → (is_positive k && reaches 0 k) ≡ true → ⊥
    never (pos k) e = ground arith
    never (negsuc k) e = cc

Step-WellCounted : {t t' : Task} → Step t t' → WellCounted t → WellCounted t'
unfolding restarted_task reset_task reset_started_task output_task withheld_task ended_task
    broken_task
Step-WellCounted (exits intentional now t) v = exit_task-WellCounted intentional now t v
Step-WellCounted (stops intentional t) v = stop_task-WellCounted intentional t v
Step-WellCounted (restart now attempt w t a) v = record { counted = v.counted; below = v.below }
Step-WellCounted (reset t e) v = record {
  counted = refl;
  below = ap not (is_below-nil (t.record_).retry_policy);
}
Step-WellCounted (reset_start now w t) v = record { counted = v.counted; below = v.below }
Step-WellCounted (outputs now stream line w t) v = record { counted = v.counted; below = v.below }
Step-WellCounted (attaches w t) v = record { counted = v.counted; below = v.below }
Step-WellCounted (withholds now stream line w t) v = record { counted = v.counted; below = v.below }
Step-WellCounted (breaks w t) v = record { counted = v.counted; below = v.below }
Step-WellCounted (ends now code w t) v = record { counted = v.counted; below = v.below }

Reach-WellCounted : {t t' : Task} → Reach t t' → WellCounted t → WellCounted t'
Reach-WellCounted here v = v
Reach-WellCounted (next r s) v = Step-WellCounted s (Reach-WellCounted r v)

-- Whatever happens to a task that was started, its `ExitCount` is the number of the exits in its
-- history, and while it is active these are fewer than a positive `ErrorThreshold` of its policy.
pub new_task-WellCounted :
    (now : ℕ) (l : Launch) (t : Task) → Reach (new_task now l) t → WellCounted t
new_task-WellCounted now l t r =
    Reach-WellCounted r (record { counted = refl; below = ap not (is_below-nil l.retry_policy) })

-- A task that is what its methods can make of the task of a start.
abbrev pub Lived : Task → Type 0
Lived t = (now : ℕ) × (l : Launch) × Reach (new_task now l) t

pub Step-Lived : {t t' : Task} → Step t t' → Lived t → Lived t'
Step-Lived s (now, l, r) = (now, l, next r s)

exit_task-task_id :
    (intentional : Bool) (now : ℕ) (t : Task)
    → (((exit_task intentional now t).0).record_).task_id ≡ (t.record_).task_id
unfolding exit_task
exit_task-task_id intentional now t =
    elim (Bool-cases (intentional || is_stopped (t.record_).state)) [
      | inl e ↦ rw e refl
      | inr e ↦ elim (Option-cases (t.record_).retry_policy) [
        | inl f ↦ rw (e, f) refl
        | inr (rp, f) ↦
            elim (Bool-cases
              (reaches_threshold rp (length (counted_exits rp now t.exit_history)))) [
                | inl g ↦ rw (e, f, g) refl
                | inr g ↦ rw (e, f, g) refl
              ]
      ]
    ]

stop_task-task_id :
    (intentional : Bool) (t : Task)
    → (((stop_task intentional t).0).record_).task_id ≡ (t.record_).task_id
unfolding stop_task
stop_task-task_id true t = elim (Option-cases t.worker) [
  | inl e ↦ rw e refl
  | inr (w, e) ↦ rw e refl
]
stop_task-task_id false t = elim (Option-cases t.worker) [
  | inl e ↦ rw e refl
  | inr (w, e) ↦ rw e refl
]

-- A task keeps its ID.
pub Step-task_id : {t t' : Task} → Step t t' → (t'.record_).task_id ≡ (t.record_).task_id
unfolding restarted_task reset_task reset_started_task output_task withheld_task ended_task
    broken_task
Step-task_id (exits intentional now t) = exit_task-task_id intentional now t
Step-task_id (stops intentional t) = stop_task-task_id intentional t
Step-task_id (restart now attempt w t a) = refl
Step-task_id (reset t e) = refl
Step-task_id (reset_start now w t) = refl
Step-task_id (attaches w t) = refl
Step-task_id (outputs now stream line w t) = refl
Step-task_id (withholds now stream line w t) = refl
Step-task_id (breaks w t) = refl
Step-task_id (ends now code w t) = refl
