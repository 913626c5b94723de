-- ===== src/Hub/Keyed/Exits.antt =====
-- The exits, the restarts and the output of workers in hub.go keep the maps of tasks apart.
use sticky_overseer.Base.{
  true, arith, ℕ, ◌≡◌, sym, subst, String, Bool, some, ◌&&◌, ◌||◌, not, ℤ, lookup,
  lookup-insert_self, ◌⊎◌, inl, inr, Bool-cases, Option-cases, text_eq, ite-both, is_positive,
}
use sticky_overseer.Worker.{Worker, Stream}
use sticky_overseer.Hub.Types.{Hub, Task, Message, World, is_active, is_errored, emit, log_event}
use sticky_overseer.Hub.Clients.{broadcast_to_subscribers, send_error}
use sticky_overseer.Hub.Launch.{set_task, release_task}
use sticky_overseer.Hub.Start.{handler_of}
use sticky_overseer.Hub.Exit.{
  Outcome, settles, errs, restarts, exit_task, conclude_exit, exit_known, on_worker_exited,
  on_output, output_task, restarted, restarted_task, do_restart, reset_task, reset_started,
  reset_started_task, restart_reset, handle_reset,
}
use sticky_overseer.Hub.Reserved.{broadcast_to_subscribers-SameTasks}
use sticky_overseer.Hub.Lifecycle.{Step}
use sticky_overseer.Hub.Keyed.{Keyed, SameTasks-Keyed, replaced-Keyed}
use sticky_overseer.Hub.Keyed.Starts.{emit-Keyed, release_task-Keyed}

module _ (world : World) where
  to_subscribers-Keyed :
      (id : String) (msg : Message) (h : Hub)
      → Keyed h
      → Keyed (broadcast_to_subscribers world id msg h)
  to_subscribers-Keyed id msg h v =
      SameTasks-Keyed h _ (broadcast_to_subscribers-SameTasks world id msg h) v

  conclude_exit-Keyed :
      (now : ℕ) (id : String) (pid : ℕ) (code : ℤ) (t : Task) (o : Outcome) (h : Hub)
      → Keyed h
      → Keyed (conclude_exit world now id pid code t o h)
  unfolding conclude_exit
  conclude_exit-Keyed now id pid code t settles h v = v
  conclude_exit-Keyed now id pid code t (errs rp) h v = to_subscribers-Keyed id _ _ (record {
    disjoint = v.disjoint;
    named = v.named;
    distinct = v.distinct;
    lived = v.lived;
    once = v.once;
  })
  conclude_exit-Keyed now id pid code t (restarts rp) h v = emit-Keyed _ _ (
      to_subscribers-Keyed id _ _ (record {
        disjoint = v.disjoint;
        named = v.named;
        distinct = v.distinct;
        lived = v.lived;
        once = v.once;
      }))

  -- Counting leaves the maps alone.
  exit_known-Keyed :
      (now : ℕ) (id : String) (pid : ℕ) (code : ℤ) (intentional : Bool) (t : Task) (h : Hub)
      → lookup id h.tasks ≡ some t
      → Keyed h
      → Keyed (exit_known world now id pid code intentional t h)
  unfolding exit_known set_task
  exit_known-Keyed now id pid code intentional t h e v =
      conclude_exit-Keyed now id pid code _ (exit_task intentional now t).1 _ (
        replaced-Keyed id _ t (exit_task intentional now t).0 e (Step.exits intentional now t)
          (record {
            disjoint = v.disjoint;
            named = v.named;
            distinct = v.distinct;
            lived = v.lived;
            once = v.once;
          }))

  pub on_worker_exited-Keyed :
      (now : ℕ) (id : String) (pid : ℕ) (code : ℤ) (intentional : Bool) (h : Hub)
      → Keyed h
      → Keyed (on_worker_exited world now id pid code intentional h)
  unfolding on_worker_exited
  on_worker_exited-Keyed now id pid code intentional h v =
      let msg = Message.exited id pid code intentional now in
      let told : Hub = emit (log_event msg) (broadcast_to_subscribers world id msg h) in
      let w : Keyed (release_task world now id told) =
        release_task-Keyed world now id told (emit-Keyed _ _ (to_subscribers-Keyed id msg h v)) in
      elim (Option-cases (lookup id (release_task world now id told).tasks)) [
        | inl e ↦ rw (e, on_worker_exited) w
        | inr (t, e) ↦
            rw (e, on_worker_exited) (exit_known-Keyed now id pid code intentional t _ e w)
      ]

  pub on_output-Keyed :
      (now : ℕ) (stream : Stream) (line id : String) (t : Task) (w : Worker) (h : Hub)
      → lookup id h.tasks ≡ some t
      → Keyed h
      → Keyed (on_output world now stream line id t w h)
  unfolding on_output set_task output_task
  on_output-Keyed now stream line id t w h e v =
      let r =
        replaced-Keyed id h t (output_task now stream line t w) e (Step.outputs now stream line w t)
          v in
      emit-Keyed _ _ (
        to_subscribers-Keyed id _ _ (record {
          disjoint = r.disjoint;
          named = r.named;
          distinct = r.distinct;
          lived = r.lived;
          once = r.once;
        }))

  restarted-Keyed :
      (now old_pid attempt : ℕ) (id : String) (t : Task) (w : Worker) (h : Hub)
      → lookup id h.tasks ≡ some t
      → is_active (t.record_).state ≡ true
      → Keyed h
      → Keyed (restarted world now old_pid attempt t w h)
  unfolding restarted set_task restarted_task
  restarted-Keyed now old_pid attempt id t w h e a v =
      let own = (t.record_).task_id in
      let found : lookup own h.tasks ≡ some t =
        subst (λ a. lookup a h.tasks ≡ some t) (sym (v.named id t e)) e in
      to_subscribers-Keyed own _ _ (
        replaced-Keyed own h t (restarted_task now attempt w t) found
          (Step.restart now attempt w t a) v)

  pub do_restart-Keyed :
      (aborted : Bool) (now old_pid attempt : ℕ) (delay : ℤ) (id : String) (t : Task) (h : Hub)
      → lookup id h.tasks ≡ some t
      → Keyed h
      → Keyed (do_restart world aborted now old_pid attempt delay t h)
  unfolding do_restart
  do_restart-Keyed aborted now old_pid attempt delay id t h e v =
      elim (Bool-cases (is_positive delay && aborted || not (is_active (t.record_).state))) [
        | inl k ↦ rw k v
        | inr k ↦ elim (Option-cases (handler_of world (t.record_).action)) [
          | inl f ↦ rw (k, f) v
          | inr (handler, f) ↦
              rw (k, f)
                (go (ground arith) (handler.start now (t.record_).task_id (t.record_).params))
        ]
      ]
    where
      go :
          is_active (t.record_).state ≡ true
          → (r : String ⊎ Worker)
          → Keyed (elim r [ inl err ↦ h | inr w ↦ restarted world now old_pid attempt t w h ])
      go a (inl err) = v
      go a (inr w) = restarted-Keyed now old_pid attempt id t w h e a v

  reset_started-Keyed :
      (now conn : ℕ) (rid id : String) (t : Task) (w : Worker) (h : Hub)
      → lookup id h.tasks ≡ some t
      → Keyed h
      → Keyed (reset_started world now conn rid id t w h)
  unfolding reset_started set_task reset_started_task
  reset_started-Keyed now conn rid id t w h e v = emit-Keyed _ _ (
      emit-Keyed _ _
        (replaced-Keyed id h t (reset_started_task now w t) e (Step.reset_start now w t) v))

  restart_reset-Keyed :
      (now conn : ℕ) (rid id : String) (t : Task) (h : Hub)
      → lookup id h.tasks ≡ some t
      → Keyed h
      → Keyed (restart_reset world now conn rid id t h)
  unfolding restart_reset
  restart_reset-Keyed now conn rid id t h k v = elim (Option-cases world.actions) [
    | inl e ↦ rw (e, restart_reset) (emit-Keyed _ h v)
    | inr (hs, e) ↦ elim (Option-cases (handler_of world (t.record_).action)) [
      | inl f ↦ rw (e, restart_reset) (rw f (emit-Keyed _ h v))
      | inr (handler, f) ↦
          rw (e, restart_reset)
            (rw f (go (handler.start now (t.record_).task_id (t.record_).params)))
    ]
  ]
    where
      go :
          (r : String ⊎ Worker)
          → Keyed (elim r [
            | inl err ↦ send_error conn rid err h
            | inr w ↦ reset_started world now conn rid id t w h
          ])
      go (inl err) = emit-Keyed _ h v
      go (inr w) = reset_started-Keyed now conn rid id t w h k v

  pub handle_reset-Keyed :
      (now conn : ℕ) (rid id : String) (h : Hub)
      → Keyed h
      → Keyed (handle_reset world now conn rid id h)
  unfolding handle_reset set_task reset_task
  handle_reset-Keyed now conn rid id h v =
      ite-both Keyed (text_eq id "") _ _ (emit-Keyed _ h v)
        (elim (Option-cases (lookup id h.tasks)) [
          | inl e ↦ rw e (emit-Keyed _ h v)
          | inr (t, e) ↦ elim (Bool-cases (is_errored (t.record_).state)) [
            | inr k ↦ rw (e, k) (emit-Keyed _ h v)
            | inl k ↦
                rw (e, k)
                  (restart_reset-Keyed now conn rid id (reset_task t) _
                    (lookup-insert_self id (reset_task t) h.tasks)
                    (replaced-Keyed id h t (reset_task t) e (Step.reset t k) v))
          ]
        ])
