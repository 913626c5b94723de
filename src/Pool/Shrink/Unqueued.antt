-- ===== src/Pool/Shrink/Unqueued.antt =====
-- The loop of `SetLimits` of pool.go over the tasks that it stops, with nothing queued.
use sticky_overseer.Base.{
  ℕ, ◌+◌, ◌≤◌, ◌≡◌, refl, ap, ◌∙◌, String, Option, none, some, List, [], ◌∷◌, arith, count_by,
  length, find_first, find_first_of_count, find_first_holds, remove_first, length-remove_first,
  count_by-remove_first, inl, inr, Option-cases, Bool, true,
}
use sticky_overseer.Pool.Types.{RunningEntry, QueuedItem, Call, stops}
use sticky_overseer.Pool.Queue.Order.{to_list}
use sticky_overseer.Pool.Manager.{PoolManager, runs_task, without_task}
use sticky_overseer.Pool.Release.{seat, next_queued, release_slot, start_next, release}
use sticky_overseer.Pool.Resize.{stop_all}
use sticky_overseer.Pool.Total.{total, total-release_slot}
use sticky_overseer.Pool.Limits.{next_queued-SameTasks}

module _ {ℓ} {C : Type ℓ} where
  abbrev pub any_item : QueuedItem C → Bool
  any_item x = true

  -- No queue holds an item.
  abbrev pub HasNoQueued : PoolManager C → Type 0
  HasNoQueued pm = total any_item pm.queues ≡ 0

  none_of_count : (o : Option (QueuedItem C)) → count_by any_item (to_list o) ≡ 0 → o ≡ none
  none_of_count none h = refl
  none_of_count (some x) h = absurd (omega arith)

  nil_of_count : (xs : List (QueuedItem C)) → count_by any_item xs ≡ 0 → xs ≡ []
  nil_of_count [] h = refl
  nil_of_count (x ∷ xs) h = absurd (omega arith)

  release_slot_unqueued :
      (visit : List String) (now : ℕ) (id : String) (pm : PoolManager C)
      → HasNoQueued pm
      → ((release_slot visit now id pm).item ≡ none)
        × HasNoQueued (release_slot visit now id pm).pool
  release_slot_unqueued visit now id pm h =
      let kept = total-release_slot any_item visit now id pm in
      (none_of_count _ (omega (arith, kept)), omega (arith, kept))

  running-release_slot :
      (visit : List String) (now : ℕ) (id : String) (pm : PoolManager C)
      → (release_slot visit now id pm).item ≡ none
      → (release_slot visit now id pm).pool.running ≡ remove_first (runs_task id) pm.running
  unfolding release_slot
  running-release_slot visit now id pm n =
      let pm' = without_task id pm in
      let next = next_queued visit now pm' in
      ap (λ o. (seat now o next.pool).running) n
      ∙ (next_queued-SameTasks visit now pm').same_running

  release_unqueued :
      (starts_with : C → Option String) (visit : List String) (now : ℕ) (id : String)
      (pm : PoolManager C)
      → HasNoQueued pm
      → HasNoQueued (release starts_with visit now id pm).0
        × ((release starts_with visit now id pm).0.running ≡ remove_first (runs_task id) pm.running)
        × ((release starts_with visit now id pm).1 ≡ [])
  unfolding release start_next
  release_unqueued starts_with visit now id pm h =
      let (n, empty) = release_slot_unqueued visit now id pm h in
      let kept = total-release_slot any_item visit now id pm in
      let gone : (release_slot visit now id pm).expired ≡ [] =
        nil_of_count _ (omega (arith, kept, h)) in
      rw (n, start_next) (empty, running-release_slot visit now id pm n, rw gone refl)

  -- Each task of the list is among the others, as often as its ID stands in the list.
  abbrev pub AreAmong : List (RunningEntry C) → List (RunningEntry C) → Type 0
  AreAmong es running = (id : String) → count_by (runs_task id) es ≤ count_by (runs_task id) running

  AreAmong-tail :
      (e : RunningEntry C) (es running : List (RunningEntry C))
      → AreAmong (e ∷ es) running
      → ((x : RunningEntry C) × (find_first (runs_task e.task_id) running ≡ some x))
        × AreAmong es (remove_first (runs_task e.task_id) running)
  AreAmong-tail e es running h =
      let (x, found) =
        find_first_of_count (runs_task e.task_id) running (ground (arith, h e.task_id)) in
      (
        (x, found),
        λ id. ground (
          arith,
          h id,
          find_first_holds (runs_task e.task_id) running x found,
          count_by-remove_first (runs_task e.task_id) (runs_task id) running x found,
        ),
      )

  -- The stop functions of the tasks that have one.
  abbrev pub stops_of : List (RunningEntry C) → List (Call C)
  stops_of [] = []
  stops_of (e ∷ es) = elim (e.stop) [ none ↦ stops_of es | some f ↦ stops f ∷ stops_of es ]

  pub stop_all_calls :
      (starts_with : C → Option String) (visit : String → List String) (now : ℕ)
      (es : List (RunningEntry C)) (pm : PoolManager C)
      → HasNoQueued pm
      → (stop_all starts_with visit now es pm).1 ≡ stops_of es
  unfolding stop_all
  stop_all_calls starts_with visit now [] pm h = refl
  stop_all_calls starts_with visit now (e ∷ es) pm h =
      let (empty, same, none_made) =
        release_unqueued starts_with (visit e.task_id) now e.task_id pm h in
      let later =
        stop_all_calls starts_with visit now es
          (release starts_with (visit e.task_id) now e.task_id pm).0 empty in
      elim (Option-cases e.stop) [
        | inl n ↦ rw (n, none_made) later
        | inr (f, n) ↦ rw (n, none_made) (ap (◌∷◌ (stops f)) later)
      ]

  pub length-stop_all :
      (starts_with : C → Option String) (visit : String → List String) (now : ℕ)
      (es : List (RunningEntry C)) (pm : PoolManager C)
      → HasNoQueued pm
      → AreAmong es pm.running
      → length (stop_all starts_with visit now es pm).0.running + length es ≡ length pm.running
  unfolding stop_all
  length-stop_all starts_with visit now [] pm h a = omega arith
  length-stop_all starts_with visit now (e ∷ es) pm h a =
      let ((x, found), rest) = AreAmong-tail e es pm.running a in
      let (empty, same, _) = release_unqueued starts_with (visit e.task_id) now e.task_id pm h in
      let pm' = (release starts_with (visit e.task_id) now e.task_id pm).0 in
      omega (
        arith,
        length-stop_all starts_with visit now es pm' empty (rw same rest),
        ap length same,
        length-remove_first (runs_task e.task_id) pm.running x found,
      )
