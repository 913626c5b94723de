-- ===== src/Hub/Keyed/Requests.antt =====
-- The requests of hub.go keep the maps of tasks apart.
use sticky_overseer.Base.{
  ℕ, String, true, false, Option, none, some, List, [], ◌∷◌, ℤ, lookup, inl, inr, Bool-cases,
  Option-cases, text_eq, ite-both,
}
use sticky_overseer.Pool.Types.{RunningEntry, ExcessConfig}
use sticky_overseer.Pool.Manager.{PoolManager}
use sticky_overseer.Pool.Control.{dequeue_task, purge_queue}
use sticky_overseer.Pool.Resize.{reconfigure, to_stop}
use sticky_overseer.Hub.Types.{Hub, Launch, Message, World, ActionHandler, IncomingMessage}
use sticky_overseer.Hub.Clients.{broadcast}
use sticky_overseer.Hub.Launch.{with_pool, run_calls}
use sticky_overseer.Hub.Start.{
  is_taken, launch, report, start_task, start_validated, handle_start, submit, duplicate_of,
  handler_of, task_id_or_uuid,
}
use sticky_overseer.Hub.Requests.{
  stop_known, stop_queued, handle_stop, broadcast_purged, handle_purge, stop_excess,
  handle_set_pool,
}
use sticky_overseer.Hub.Reserved.{broadcast-SameTasks}
use sticky_overseer.Hub.Keyed.{Keyed, SameTasks-Keyed}
use sticky_overseer.Hub.Keyed.Starts.{
  launch-Keyed, emit-Keyed, stop_worker-Keyed, run_calls-Keyed, with_pool-Keyed, release_task-Keyed,
}

module _ (world : World) where
  broadcast-Keyed : (msg : Message) (h : Hub) → Keyed h → Keyed (broadcast world msg h)
  broadcast-Keyed msg h v = SameTasks-Keyed h _ (broadcast-SameTasks world msg h) v

  report-Keyed :
      (conn : ℕ) (id : String) (r : Hub × Option String)
      → Keyed r.0
      → Keyed (report world conn id r)
  report-Keyed conn id (h, none) v = v
  report-Keyed conn id (h, some err) v = emit-Keyed _ h v

  start_task-Keyed :
      (now conn : ℕ) (handler : ActionHandler) (msg : IncomingMessage) (h : Hub)
      → Keyed h
      → Keyed (start_task world now conn handler msg h)
  unfolding start_task
  start_task-Keyed now conn handler msg h v =
      elim (Bool-cases (is_taken (task_id_or_uuid world now msg.task_id) h)) [
        | inl e ↦ rw e (emit-Keyed _ h v)
        | inr e ↦ rw e (
            report-Keyed conn msg.id (launch world now msg.force _ h)
              (launch-Keyed world now msg.force _ h e v))
      ]

  start_validated-Keyed :
      (now conn : ℕ) (handler : ActionHandler) (msg : IncomingMessage) (h : Hub)
      → Keyed h
      → Keyed (start_validated world now conn handler msg h)
  unfolding start_validated
  start_validated-Keyed now conn handler msg h v =
      elim (Option-cases (duplicate_of msg.action msg.params handler.dedupe_key h)) [
        | inl e ↦ rw (e, start_validated) (start_task-Keyed now conn handler msg h v)
        | inr (existing, e) ↦ rw (e, start_validated) (emit-Keyed _ h v)
      ]

  pub handle_start-Keyed :
      (now conn : ℕ) (msg : IncomingMessage) (h : Hub)
      → Keyed h
      → Keyed (handle_start world now conn msg h)
  unfolding handle_start
  handle_start-Keyed now conn msg h v = elim (Option-cases world.actions) [
    | inl e ↦ rw e (emit-Keyed _ h v)
    | inr (hs, e) ↦
        rw (e, handle_start)
          (ite-both Keyed (text_eq msg.action "") _ _ (emit-Keyed _ h v)
            (elim (Option-cases (lookup msg.action hs)) [
              | inl f ↦ rw (e, f) (emit-Keyed _ h v)
              | inr (handler, f) ↦ elim (Option-cases (handler.validate msg.params)) [
                | inl g ↦ rw (e, f, g) (start_validated-Keyed now conn handler msg h v)
                | inr (err, g) ↦ rw (e, f, g) (emit-Keyed _ h v)
              ]
            ]))
  ]

  pub submit-Keyed :
      (now : ℕ) (action id : String) (params : List (String × String)) (h : Hub)
      → Keyed h
      → Keyed (submit world now action id params h).0
  unfolding submit
  submit-Keyed now action id params h v = elim (Option-cases world.actions) [
    | inl e ↦ rw e v
    | inr (hs, e) ↦ elim (Option-cases (handler_of world action)) [
      | inl f ↦ rw (e, submit) (rw f v)
      | inr (handler, f) ↦ elim (Option-cases (handler.validate params)) [
        | inr (err, g) ↦ rw (e, submit) (rw (f, g) v)
        | inl g ↦ elim (Bool-cases (is_taken (task_id_or_uuid world now id) h)) [
          | inl t ↦ rw (e, submit) (rw (f, g, t) v)
          | inr t ↦ rw (e, submit) (rw (f, g, t) (launch-Keyed world now false _ h t v))
        ]
      ]
    ]
  ]

  stop_known-Keyed :
      (conn : ℕ) (id task_id : String) (h : Hub)
      → Keyed h
      → Keyed (stop_known world conn id task_id h)
  unfolding stop_known
  stop_known-Keyed conn id task_id h v = elim (Option-cases (lookup task_id h.tasks)) [
    | inl e ↦ rw (e, stop_known) (emit-Keyed _ h v)
    | inr (t, e) ↦ rw (e, stop_known) (stop_worker-Keyed task_id true h v)
  ]

  stop_queued-Keyed :
      (now conn : ℕ) (id task_id : String) (pm : PoolManager Launch) (h : Hub)
      → Keyed h
      → Keyed (stop_queued world now conn id task_id pm h)
  unfolding stop_queued
  stop_queued-Keyed now conn id task_id pm h v =
      let r = dequeue_task world.visit task_id pm in
      let w : Keyed (run_calls world now r.2 (with_pool world r.0 h)) =
        run_calls-Keyed world now r.2 _ (with_pool-Keyed world r.0 h v) in
      elim (Bool-cases r.1) [
        | inl e ↦ rw e (broadcast-Keyed _ _ w)
        | inr e ↦ rw e (stop_known-Keyed conn id task_id _ w)
      ]

  pub handle_stop-Keyed :
      (now conn : ℕ) (id task_id : String) (h : Hub)
      → Keyed h
      → Keyed (handle_stop world now conn id task_id h)
  unfolding handle_stop
  handle_stop-Keyed now conn id task_id h v =
      ite-both Keyed (text_eq task_id "") _ _ (emit-Keyed _ h v) (elim (Option-cases h.pool) [
        | inl e ↦ rw e (stop_known-Keyed conn id task_id h v)
        | inr (pm, e) ↦ rw e (stop_queued-Keyed now conn id task_id pm h v)
      ])

  broadcast_purged-Keyed :
      (now : ℕ) (ids : List String) (h : Hub) → Keyed h → Keyed (broadcast_purged world now ids h)
  unfolding broadcast_purged
  broadcast_purged-Keyed now [] h v = v
  broadcast_purged-Keyed now (id ∷ ids) h v =
      broadcast_purged-Keyed now ids _ (broadcast-Keyed (Message.dequeued id "purged" now) h v)

  pub handle_purge-Keyed :
      (now conn : ℕ) (id action : String) (h : Hub)
      → Keyed h
      → Keyed (handle_purge world now conn id action h)
  unfolding handle_purge
  handle_purge-Keyed now conn id action h v = elim (Option-cases h.pool) [
    | inl e ↦ rw (e, handle_purge) (emit-Keyed _ h v)
    | inr (pm, e) ↦
        let r = purge_queue world.visit action pm in
        rw (e, handle_purge)
          (emit-Keyed _ _ (
            broadcast_purged-Keyed now r.2 _
              (run_calls-Keyed world now r.3 _ (with_pool-Keyed world r.0 h v))))
  ]

  stop_excess-Keyed :
      (now : ℕ) (es : List (RunningEntry Launch)) (h : Hub)
      → Keyed h
      → Keyed (stop_excess world now es h)
  unfolding stop_excess
  stop_excess-Keyed now [] h v = v
  stop_excess-Keyed now (e ∷ es) h v = elim (Option-cases e.stop) [
    | inl k ↦ rw k (stop_excess-Keyed now es _ (release_task-Keyed world now e.task_id h v))
    | inr (l, k) ↦ rw k (
        stop_excess-Keyed now es _
          (release_task-Keyed world now e.task_id _ (stop_worker-Keyed l.task_id true h v)))
  ]

  pub handle_set_pool-Keyed :
      (now conn : ℕ) (id action : String) (limit size : ℤ) (excess : Option ExcessConfig) (h : Hub)
      → Keyed h
      → Keyed (handle_set_pool world now conn id action limit size excess h)
  unfolding handle_set_pool
  handle_set_pool-Keyed now conn id action limit size excess h v = elim (Option-cases h.pool) [
    | inl e ↦ rw (e, handle_set_pool) (emit-Keyed _ h v)
    | inr (pm, e) ↦
        let pm' = reconfigure action limit size excess pm in
        rw (e, handle_set_pool)
          (emit-Keyed _ _ (
            broadcast-Keyed _ _
              (stop_excess-Keyed now (to_stop action limit pm') _ (with_pool-Keyed world pm' h v))))
  ]
