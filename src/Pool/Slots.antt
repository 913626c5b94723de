-- ===== src/Pool/Slots.antt =====
-- What becomes of the items that `Release` of pool.go takes out of the queues.
use sticky_overseer.Base.{
  ℕ, ◌+◌, ◌*◌, ◌≤◌, ◌<◌, ◌≡◌, refl, sym, ap, ◌∙◌, subst, ◌⊎◌, inl, inr, String, Bool, true, false,
  Option, none, some, List, [], ◌∷◌, ◌++◌, ◌&&◌, arith, ℤ, pos, negsuc, is_positive, Option-cases,
  Bool-cases, All, count_by, remove_first, lookup, lookup-insert,
}
use sticky_overseer.Pool.Types.{QueueConfig, QueuedItem, RunningEntry}
use sticky_overseer.Pool.Queue.{TaskQueue, dequeue, is_expired, is_before_cutoff}
use sticky_overseer.Pool.Queue.Order.{to_list, dequeue-IsDequeue}
use sticky_overseer.Pool.Manager.{PoolManager, with_queue, without_task, runs_task, deref}
use sticky_overseer.Pool.Release.{Next, seat, next_from, next_queued, release_slot}
use sticky_overseer.Pool.Limits.{next_queued-SameTasks}
use sticky_overseer.Pool.Total.{total, total-release_slot}

All-append {ℓ κ} :
    {A : Type ℓ} (P : A → Type κ) (xs ys : List A) → All P xs → All P ys → All P (xs ++ ys)
All-append P [] ys h k = k
All-append P (x ∷ xs) ys h k = (h.0, All-append P xs ys h.1 k)

All-map {ℓ κ λ'} :
    {A : Type ℓ} (P : A → Type κ) (Q : A → Type λ') (xs : List A)
    → ((x : A) → P x → Q x)
    → All P xs
    → All Q xs
All-map P Q [] f h = tt
All-map P Q (x ∷ xs) f h = (f x h.0, All-map P Q xs f h.1)

-- No more than a positive number of seconds has passed.
abbrev IsWithinAge : ℤ → ℕ → ℕ → Type 0
IsWithinAge (pos m) now t = (m ≡ 0) ⊎ (now ≤ t + m * 1000000000)
IsWithinAge (negsuc m) now t = Unit

module _ {ℓ} {C : Type ℓ} where
  -- The `MaxAge` of the queue of an action, in seconds, if there is such a queue.
  abbrev age_limit : PoolManager C → String → Option ℤ
  age_limit pm a = elim (lookup a pm.queues) [
    | none ↦ none
    | some q ↦ some (deref pm.queue_cfgs q.cfg).max_age
  ]

  -- The item has been queued for longer than the positive `MaxAge` of a queue of the pool.
  abbrev pub IsAged : PoolManager C → ℕ → QueuedItem C → Type 0
  IsAged pm now x =
      (a : String) × (m : ℕ) × (age_limit pm a ≡ some (pos m))
      × (0 < m)
      × (x.enqueued_at + m * 1000000000 < now)

  -- The item comes out of a queue with no positive `MaxAge`, or has been queued no longer than that.
  abbrev pub IsYoung : PoolManager C → ℕ → QueuedItem C → Type 0
  IsYoung pm now x =
      (a : String) × (age : ℤ) × (age_limit pm a ≡ some age) × IsWithinAge age now x.enqueued_at

  aged :
      (cfg : QueueConfig) (now : ℕ) (x : QueuedItem C)
      → is_expired cfg now x ≡ true
      → (m : ℕ) × (cfg.max_age ≡ pos m) × (0 < m) × (x.enqueued_at + m * 1000000000 < now)
  aged cfg now x h = go cfg.max_age refl
    where
      go :
          (age : ℤ)
          → cfg.max_age ≡ age
          → (m : ℕ) × (cfg.max_age ≡ pos m) × (0 < m) × (x.enqueued_at + m * 1000000000 < now)
      go (pos m) e =
          let old : (is_positive (pos m) && is_before_cutoff now (pos m) x.enqueued_at) ≡ true =
            subst (λ z. (is_positive z && is_before_cutoff now z x.enqueued_at) ≡ true) e h in
          (m, e, ground (arith, old), ground (arith, old))
      go (negsuc m) e = absurd (ground (arith, ap is_positive e, h))

  young :
      (cfg : QueueConfig) (now : ℕ) (x : QueuedItem C)
      → is_expired cfg now x ≡ false
      → IsWithinAge cfg.max_age now x.enqueued_at
  young cfg now x h = go cfg.max_age h
    where
      go :
          (age : ℤ)
          → (is_positive age && is_before_cutoff now age x.enqueued_at) ≡ false
          → IsWithinAge age now x.enqueued_at
      go (pos m) old = elim (Bool-cases (is_positive (pos m))) [
        | inl p ↦ inr (ground (arith, old, p))
        | inr p ↦ inl (ground (arith, p))
      ]
      go (negsuc m) old = tt

  age_limit-with_queue :
      (a b : String) (q q' : TaskQueue C) (pm : PoolManager C)
      → lookup a pm.queues ≡ some q
      → q'.cfg ≡ q.cfg
      → age_limit (with_queue a q' pm) b ≡ age_limit pm b
  age_limit-with_queue a b q q' pm e c = ground (arith, e, c, lookup-insert a b q' pm.queues)

  record Found (now : ℕ) (pm : PoolManager C) (next : Next C) : Type ℓ where
    expired : All (IsAged pm now) next.expired
    fresh : All (IsYoung pm now) (to_list next.item)

  Found-with_queue :
      (now : ℕ) (a : String) (q q' : TaskQueue C) (pm : PoolManager C) (next : Next C)
      → lookup a pm.queues ≡ some q
      → q'.cfg ≡ q.cfg
      → Found now (with_queue a q' pm) next
      → Found now pm next
  Found-with_queue now a q q' pm next e c f = record {
    expired =
        All-map (IsAged (with_queue a q' pm) now) (IsAged pm now) next.expired
          (λ x (b, m, l, p, o). (b, m, sym (age_limit-with_queue a b q q' pm e c) ∙ l, p, o))
          f.expired;
    fresh =
        All-map (IsYoung (with_queue a q' pm) now) (IsYoung pm now) (to_list next.item)
          (λ x (b, m, l, o). (b, m, sym (age_limit-with_queue a b q q' pm e c) ∙ l, o)) f.fresh;
  }

  next_from-Found :
      (order : List String) (now : ℕ) (pm : PoolManager C) → Found now pm (next_from order now pm)
  unfolding next_from
  next_from-Found [] now pm = record { expired = tt; fresh = tt }
  next_from-Found (a ∷ order) now pm = elim (Option-cases (lookup a pm.queues)) [
    | inl e ↦ rw (e, next_from) (next_from-Found order now pm)
    | inr (q, e) ↦
        let cfg = deref pm.queue_cfgs q.cfg in
        let d = dequeue cfg now q.items in
        let q' : TaskQueue C = record q { items = d.left } in
        let taken = dequeue-IsDequeue cfg now q.items in
        let limit : age_limit pm a ≡ some cfg.max_age = ground (arith, e) in
        let gone : All (IsAged pm now) d.expired =
          All-map (λ x. is_expired cfg now x ≡ true) (IsAged pm now) d.expired
            (λ x h.
              let (m, age, p, o) = aged cfg now x h in (a, m, limit ∙ ap (λ z. some z) age, p, o))
            taken.all_expired in
        let kept : All (IsYoung pm now) (to_list d.item) =
          All-map (λ x. is_expired cfg now x ≡ false) (IsYoung pm now) (to_list d.item)
            (λ x h. (a, cfg.max_age, limit, young cfg now x h)) taken.fresh in
        elim (Option-cases d.item) [
          | inl n ↦
              let later =
                Found-with_queue now a q q' pm (next_from order now (with_queue a q' pm)) e refl
                  (next_from-Found order now (with_queue a q' pm)) in
              rw (e, next_from, n)
                (record {
                  expired = All-append (IsAged pm now) d.expired _ gone later.expired;
                  fresh = later.fresh;
                })
          | inr (x, n) ↦
              rw (e, next_from, n)
                (record {
                  expired = gone;
                  fresh = subst (λ o. All (IsYoung pm now) (to_list o)) n kept;
                })
        ]
  ]

  -- The entry of a task that takes a free slot. It has no function to stop it.
  abbrev pub entries_of : ℕ → Option (QueuedItem C) → List (RunningEntry C)
  entries_of now none = []
  entries_of now (some x) =
      record {
        task_id = x.task_id;
        action = x.action;
        started_at = now;
        forced = x.forced;
        stop = none;
      }
      ∷ []

  running-seat :
      (now : ℕ) (x : Option (QueuedItem C)) (pm : PoolManager C)
      → (seat now x pm).running ≡ pm.running ++ entries_of now x
  running-seat now none pm = sym (append_nil pm.running)
    where
      append_nil : (xs : List (RunningEntry C)) → xs ++ [] ≡ xs
      append_nil [] = refl
      append_nil (x ∷ xs) = ap (◌∷◌ x) (append_nil xs)
  running-seat now (some x) pm = refl

  -- What a `Release` of the task `id` makes of a pool: no queued item is lost, `kept`; the item that
  -- it found runs in place of the task, `seated`, and was not too old; those that it cancelled were.
  pub record Released (now : ℕ) (id : String) (pm : PoolManager C) (next : Next C) : Type ℓ where
    pub kept :
        (p : QueuedItem C → Bool)
        → total p pm.queues
          ≡ total p next.pool.queues + count_by p next.expired + count_by p (to_list next.item)
    pub seated :
        next.pool.running ≡ remove_first (runs_task id) pm.running ++ entries_of now next.item
    pub expired : All (IsAged pm now) next.expired
    pub young : All (IsYoung pm now) (to_list next.item)

  -- In `Release` each queued item stays queued, or is cancelled, which it is only when it has been
  -- queued for longer than the positive `MaxAge` of a queue, or is the one that takes the free slot,
  -- which has not: its entry, with the current instant and without a stop function, comes last among
  -- the running tasks, from which the first with the ID is taken out.
  pub release_slot-Released :
      (visit : List String) (now : ℕ) (id : String) (pm : PoolManager C)
      → Released now id pm (release_slot visit now id pm)
  unfolding release_slot next_queued
  release_slot-Released visit now id pm =
      let pm' = without_task id pm in
      let next = next_queued visit now pm' in
      let found = next_from-Found (pm.action_order ++ visit) now pm' in
      record {
        kept = λ p. total-release_slot p visit now id pm;
        seated =
            running-seat now next.item next.pool
            ∙ ap (λ r. r ++ entries_of now next.item)
                (next_queued-SameTasks visit now pm').same_running;
        expired = found.expired;
        young = found.fresh;
      }
