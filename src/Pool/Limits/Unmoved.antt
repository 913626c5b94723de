-- ===== src/Pool/Limits/Unmoved.antt =====
-- The operations of pool.go that move queued items leave the running tasks alone.
use sticky_overseer.Base.{
  ℕ, ◌≡◌, refl, ◌∙◌, inl, inr, String, Bool, some, List, [], ◌∷◌, ◌++◌, arith, Option-cases, lookup,
}
use sticky_overseer.Pool.Types.{QueuedItem}
use sticky_overseer.Pool.Queue.{dequeue}
use sticky_overseer.Pool.Manager.{PoolManager, with_queue, queue_for, deref}
use sticky_overseer.Pool.Acquire.{
  Arrival, new_item, without_unforced, put_in_queue, displace_from, try_displace, queue_up,
}
use sticky_overseer.Pool.Acquire.Displace.{displace_from-Displaces}
use sticky_overseer.Pool.Release.{next_from, next_queued}

module _ {ℓ} {C : Type ℓ} where
  -- What an operation that only moves queued items leaves alone.
  pub record SameTasks (pm pm' : PoolManager C) : Type ℓ where
    pub same_running : pm'.running ≡ pm.running
    pub same_global : pm'.global_cfg ≡ pm.global_cfg
    pub same_actions : pm'.action_cfgs ≡ pm.action_cfgs

  pub SameTasks-trans :
      (pm pm' pm'' : PoolManager C) → SameTasks pm pm' → SameTasks pm' pm'' → SameTasks pm pm''
  SameTasks-trans pm pm' pm'' s t = record {
    same_running = t.same_running ∙ s.same_running;
    same_global = t.same_global ∙ s.same_global;
    same_actions = t.same_actions ∙ s.same_actions;
  }

  pub SameTasks-refl : (pm : PoolManager C) → SameTasks pm pm
  SameTasks-refl pm = record { same_running = refl; same_global = refl; same_actions = refl }

  pub queue_for-SameTasks : (pm : PoolManager C) (a : String) → SameTasks pm (queue_for pm a).0
  unfolding queue_for
  queue_for-SameTasks pm a = ground arith

  pub put_in_queue-SameTasks :
      (x : QueuedItem C) (pm : PoolManager C) → SameTasks pm (put_in_queue x pm)
  unfolding put_in_queue
  put_in_queue-SameTasks x pm = ground (arith, queue_for-SameTasks pm x.action)

  pub displace_from-SameTasks :
      (cs : List String) (forced : Bool) (item : QueuedItem C) (pm pm' : PoolManager C)
      (x : QueuedItem C)
      → displace_from cs forced item pm ≡ some (pm', x)
      → SameTasks pm pm'
  displace_from-SameTasks cs forced item pm pm' x h =
      let d = displace_from-Displaces forced item pm cs pm' x h in
      ground (
        arith,
        put_in_queue-SameTasks item (with_queue d.source (without_unforced d.queue) pm),
        d.result,
      )

  pub try_displace-SameTasks :
      (visit : List String) (action : String) (forced : Bool) (item : QueuedItem C)
      (pm pm' : PoolManager C) (x : QueuedItem C)
      → try_displace visit action forced item pm ≡ some (pm', x)
      → SameTasks pm pm'
  unfolding try_displace
  try_displace-SameTasks visit action forced item pm pm' x h =
      displace_from-SameTasks _ forced item pm pm' x h

  pub queue_up-SameTasks :
      (visit : List String) (now : ℕ) (a : Arrival C) (pm : PoolManager C)
      → SameTasks pm (queue_up visit now a pm).0
  unfolding queue_up
  queue_up-SameTasks visit now a pm =
      let made = queue_for pm a.action in
      elim (Option-cases (try_displace visit a.action a.forced (new_item now a) made.0)) [
        | inl e ↦ ground (arith, queue_for-SameTasks pm a.action)
        | inr (r, e) ↦ ground (
          arith,
          queue_for-SameTasks pm a.action,
          try_displace-SameTasks visit a.action a.forced (new_item now a) made.0 r.0 r.1,
        )
      ]

  pub next_from-SameTasks :
      (order : List String) (now : ℕ) (pm : PoolManager C)
      → SameTasks pm (next_from order now pm).pool
  unfolding next_from
  next_from-SameTasks [] now pm = SameTasks-refl pm
  next_from-SameTasks (a ∷ order) now pm = elim (Option-cases (lookup a pm.queues)) [
    | inl e ↦ rw (e, next_from) (next_from-SameTasks order now pm)
    | inr (q, e) ↦
        let d = dequeue (deref pm.queue_cfgs q.cfg) now q.items in
        rw (e, next_from)
          (ground
            (arith, next_from-SameTasks order now (with_queue a (record q { items = d.left }) pm)))
  ]

  pub next_queued-SameTasks :
      (visit : List String) (now : ℕ) (pm : PoolManager C)
      → SameTasks pm (next_queued visit now pm).pool
  unfolding next_queued
  next_queued-SameTasks visit now pm = next_from-SameTasks (pm.action_order ++ visit) now pm
