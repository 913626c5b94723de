-- ===== src/Pool/Expiry.antt =====
-- How old items get in the queues of pool.go before the expiry loop cancels them.
use sticky_overseer.Base.{
  ℕ, ◌+◌, ◌*◌, ◌≤◌, ◌<◌, ◌≡◌, refl, sym, subst, String, Bool, true, false, Option, none, some, List,
  [], ◌∷◌, ◌&&◌, ◌||◌, not, text_eq, ℤ, pos, negsuc, is_positive, is_zero, arith, contains, lookup,
  lookup-insert_ind, lookup-insert_self, keep, All, inl, inr, Bool-cases, Option-cases, ◌==◌,
}
use sticky_overseer.Pool.Types.{QueueConfig, PoolConfig, QueuedItem}
use sticky_overseer.Pool.Queue.{TaskQueue, second, is_before_cutoff, is_expired, expire_old}
use sticky_overseer.Pool.Manager.{
  PoolManager, deref, check_age, check_queue, min_age, tick_of, compute_tick_interval, with_queue,
}
use sticky_overseer.Pool.Control.{sweep_expired, expiry_tick}

-- Does a configuration point to the queue configuration?
abbrev is_pointer : ℕ → Option ℕ → Bool
is_pointer p none = false
is_pointer p (some q) = q == p

abbrev is_pointed : ℕ → List (String × PoolConfig) → Bool
is_pointed p [] = false
is_pointed p ((a, ac) ∷ acs) = is_pointer p ac.queue || is_pointed p acs

check_age-le :
    (age : ℤ) (m min : ℕ) → 0 < min → min ≤ m → (0 < check_age age min) × (check_age age min ≤ m)
unfolding check_age
check_age-le (pos age) m min p h = ground arith
check_age-le (negsuc n) m min p h = (p, h)

check_age_own : (m min : ℕ) → 0 < m → (0 < check_age (pos m) min) × (check_age (pos m) min ≤ m)
unfolding check_age
check_age_own m min h = ground arith

module _ (cfgs : List QueueConfig) (p m : ℕ) (own : (deref cfgs p).max_age ≡ pos m)
    (some_age : 0 < m) where
  check_queue-le :
      (o : Option ℕ) (min : ℕ)
      → 0 < min
      → min ≤ m
      → (0 < check_queue cfgs o min) × (check_queue cfgs o min ≤ m)
  unfolding check_queue
  check_queue-le none min h k = (h, k)
  check_queue-le (some q) min h k = check_age-le (deref cfgs q).max_age m min h k

  check_queue_own :
      (o : Option ℕ) (min : ℕ)
      → is_pointer p o ≡ true
      → (0 < check_queue cfgs o min) × (check_queue cfgs o min ≤ m)
  unfolding check_queue
  check_queue_own none min h = cc
  check_queue_own (some q) min h =
      let same : p ≡ q = ground (arith, h) in
      let age : (deref cfgs q).max_age ≡ pos m =
        subst (λ r. (deref cfgs r).max_age ≡ pos m) same own in
      subst (λ z. (0 < check_age z min) × (check_age z min ≤ m)) (sym age)
        (check_age_own m min some_age)

  min_age-le :
      (acs : List (String × PoolConfig)) (min : ℕ)
      → 0 < min
      → min ≤ m
      → (0 < min_age cfgs acs min) × (min_age cfgs acs min ≤ m)
  unfolding min_age
  min_age-le [] min h k = (h, k)
  min_age-le ((a, ac) ∷ acs) min h k =
      let (h', k') = check_queue-le ac.queue min h k in
      min_age-le acs (check_queue cfgs ac.queue min) h' k'

  min_age_own :
      (acs : List (String × PoolConfig)) (min : ℕ)
      → is_pointed p acs ≡ true
      → (0 < min_age cfgs acs min) × (min_age cfgs acs min ≤ m)
  unfolding min_age
  min_age_own [] min h = cc
  min_age_own ((a, ac) ∷ acs) min h = elim (Bool-cases (is_pointer p ac.queue)) [
    | inl e ↦
        let (h', k') = check_queue_own ac.queue min e in
        min_age-le acs (check_queue cfgs ac.queue min) h' k'
    | inr e ↦ min_age_own acs (check_queue cfgs ac.queue min) (ground (arith, h, e))
  ]

tick_of-le : (min m : ℕ) → 0 < min → min ≤ m → 2 * tick_of min ≤ m * second
unfolding tick_of
tick_of-le min m h k = ground arith

zero_not_positive : (z : ℤ) → is_zero z ≡ true → is_positive z ≡ false
zero_not_positive (pos n) h = ground arith
zero_not_positive (negsuc n) h = refl

module _ {ℓ} {C : Type ℓ} where
  -- Does a configuration of the pool point to the queue configuration?
  abbrev pub is_used : ℕ → PoolManager C → Bool
  is_used p pm = is_pointer p pm.global_cfg.queue || is_pointed p pm.action_cfgs

  -- The ticker is at least twice as fast as the `MaxAge` of any queue of the pool.
  compute_tick_interval-le :
      (p m : ℕ) (pm : PoolManager C)
      → is_used p pm ≡ true
      → (deref pm.queue_cfgs p).max_age ≡ pos m
      → 0 < m
      → 2 * compute_tick_interval pm ≤ m * second
  unfolding compute_tick_interval
  compute_tick_interval-le p m pm u e h = elim (Bool-cases (is_pointer p pm.global_cfg.queue)) [
    | inl g ↦
        let (a, b) = check_queue_own pm.queue_cfgs p m e h pm.global_cfg.queue 0 g in
        let (c, d) = min_age-le pm.queue_cfgs p m e h pm.action_cfgs _ a b in tick_of-le _ m c d
    | inr g ↦
        let (c, d) = min_age_own pm.queue_cfgs p m e h pm.action_cfgs _ (ground (arith, u, g)) in
        tick_of-le _ m c d
  ]

  -- The test of `Dequeue` and of the sweep, for the queue that an item is in.
  abbrev IsFresh : List QueueConfig → ℕ → TaskQueue C → Type 0
  IsFresh cfgs now q = All (λ x. is_expired (deref cfgs q.cfg) now x ≡ false) q.items

  abbrev IsFreshAt : List QueueConfig → ℕ → Option (TaskQueue C) → Type 0
  IsFreshAt cfgs now none = Unit
  IsFreshAt cfgs now (some q) = IsFresh cfgs now q

  keep-fresh :
      (cfg : QueueConfig) (now : ℕ) (items : List (QueuedItem C))
      → All
          (λ x. is_expired cfg now x ≡ false)
          (keep (λ x. not (is_before_cutoff now cfg.max_age x.enqueued_at)) items)
  keep-fresh cfg now [] = tt
  keep-fresh cfg now (x ∷ items) =
      elim (Bool-cases (is_before_cutoff now cfg.max_age x.enqueued_at)) [
        | inl e ↦ rw e (keep-fresh cfg now items)
        | inr e ↦ rw e (ground (arith, e), keep-fresh cfg now items)
      ]

  unaged-fresh :
      (cfg : QueueConfig) (now : ℕ) (items : List (QueuedItem C))
      → is_zero cfg.max_age ≡ true
      → All (λ x. is_expired cfg now x ≡ false) items
  unaged-fresh cfg now [] z = tt
  unaged-fresh cfg now (x ∷ items) z =
      (ground (arith, zero_not_positive cfg.max_age z), unaged-fresh cfg now items z)

  expire_old-IsFresh :
      (cfgs : List QueueConfig) (now : ℕ) (q : TaskQueue C)
      → IsFresh cfgs now (expire_old (deref cfgs q.cfg).max_age now q).0
  unfolding expire_old
  expire_old-IsFresh cfgs now q = elim (Bool-cases (is_zero (deref cfgs q.cfg).max_age)) [
    | inl e ↦ rw e (unaged-fresh (deref cfgs q.cfg) now q.items e)
    | inr e ↦ rw e (keep-fresh (deref cfgs q.cfg) now q.items)
  ]

  -- What a sweep of an action's queue leaves of the pool.
  swept_one : String → ℕ → TaskQueue C → PoolManager C → PoolManager C
  swept_one a now q pm = with_queue a (expire_old (deref pm.queue_cfgs q.cfg).max_age now q).0 pm

  sweep_expired-IsFreshAt :
      (visit : List String) (now : ℕ) (pm : PoolManager C) (b : String)
      → IsFreshAt pm.queue_cfgs now (lookup b pm.queues)
      → IsFreshAt pm.queue_cfgs now (lookup b (sweep_expired visit now pm).0.queues)
  unfolding sweep_expired swept_one
  sweep_expired-IsFreshAt [] now pm b f = f
  sweep_expired-IsFreshAt (a ∷ visit) now pm b f = elim (Option-cases (lookup a pm.queues)) [
    | inl e ↦ rw (e, sweep_expired) (sweep_expired-IsFreshAt visit now pm b f)
    | inr (q, e) ↦
        rw (e, sweep_expired)
          (sweep_expired-IsFreshAt visit now (swept_one a now q pm) b (
            lookup-insert_ind (IsFreshAt pm.queue_cfgs now) a b _ pm.queues
              (expire_old-IsFresh pm.queue_cfgs now q) f))
  ]

  sweep_expired_visited :
      (visit : List String) (now : ℕ) (pm : PoolManager C) (b : String)
      → contains b visit ≡ true
      → IsFreshAt pm.queue_cfgs now (lookup b (sweep_expired visit now pm).0.queues)
  unfolding sweep_expired swept_one
  sweep_expired_visited [] now pm b h = cc
  sweep_expired_visited (a ∷ visit) now pm b h = elim (Option-cases (lookup a pm.queues)) [
    | inl e ↦
        rw (e, sweep_expired)
          (elim (text_eq a b) [
            | yes p ↦ sweep_expired-IsFreshAt visit now pm b (
                subst (λ o. IsFreshAt pm.queue_cfgs now o)
                  (sym (subst (λ k. lookup k pm.queues ≡ none) p e)) tt)
            | no n ↦ sweep_expired_visited visit now pm b (ground (arith, h, n))
          ])
    | inr (q, e) ↦
        rw (e, sweep_expired)
          (elim (text_eq a b) [
            | yes p ↦ sweep_expired-IsFreshAt visit now (swept_one a now q pm) b (
                subst (λ o. IsFreshAt pm.queue_cfgs now o)
                  (sym (
                    subst
                      (λ k.
                        lookup k (swept_one a now q pm).queues
                        ≡ some (expire_old (deref pm.queue_cfgs q.cfg).max_age now q).0)
                      p (lookup-insert_self a _ pm.queues)))
                  (expire_old-IsFresh pm.queue_cfgs now q))
            | no n ↦ sweep_expired_visited visit now (swept_one a now q pm) b (ground (arith, h, n))
          ])
  ]

  sweep_expired-same :
      (visit : List String) (now : ℕ) (pm : PoolManager C)
      → (sweep_expired visit now pm).0.tick_interval ≡ pm.tick_interval
  unfolding sweep_expired
  sweep_expired-same [] now pm = refl
  sweep_expired-same (a ∷ visit) now pm = elim (Option-cases (lookup a pm.queues)) [
    | inl e ↦ rw (e, sweep_expired) (sweep_expired-same visit now pm)
    | inr (q, e) ↦
        rw (e, sweep_expired)
          (sweep_expired-same visit now
            (with_queue a (expire_old (deref pm.queue_cfgs q.cfg).max_age now q).0 pm))
  ]

  aged :
      (cfg : QueueConfig) (now later m interval : ℕ) (items : List (QueuedItem C))
      → All (λ x. is_expired cfg now x ≡ false) items
      → cfg.max_age ≡ pos m
      → 0 < m
      → later ≤ now + interval
      → 2 * interval ≤ m * second
      → All (λ x. 2 * later ≤ 2 * x.enqueued_at + 3 * (m * second)) items
  aged cfg now later m interval [] f e h k i = tt
  aged cfg now later m interval (x ∷ items) f e h k i =
      let kept : (is_positive (pos m) && is_before_cutoff now (pos m) x.enqueued_at) ≡ false =
        subst (λ z. (is_positive z && is_before_cutoff now z x.enqueued_at) ≡ false) e f.0 in
      let young : now ≤ x.enqueued_at + m * second = ground (arith, kept) in
      (omega arith, aged cfg now later m interval items f.1 e h k i)

  -- From a tick of the expiry loop until its ticker's next one, an item that the tick has left in the
  -- queue of an action is at most half as old again as the positive `MaxAge` of its queue, where the
  -- loop visits the action, a configuration of the pool points to that of the queue, and the ticker
  -- has the interval that the pool last computed.
  pub expiry_tick-aged :
      (visit : List String) (now later interval m : ℕ) (pm : PoolManager C) (a : String)
      (q : TaskQueue C)
      → pm.tick_interval ≡ compute_tick_interval pm
      → contains a visit ≡ true
      → lookup a (expiry_tick visit now interval pm).0.queues ≡ some q
      → is_used q.cfg pm ≡ true
      → (deref pm.queue_cfgs q.cfg).max_age ≡ pos m
      → 0 < m
      → later ≤ now + (expiry_tick visit now interval pm).2
      → All (λ x. 2 * later ≤ 2 * x.enqueued_at + 3 * (m * second)) q.items
  unfolding expiry_tick
  expiry_tick-aged visit now later interval m pm a q timed h e u age positive k =
      let fresh : IsFresh pm.queue_cfgs now q =
        subst (λ o. IsFreshAt pm.queue_cfgs now o) e (sweep_expired_visited visit now pm a h) in
      let next : (expiry_tick visit now interval pm).2 ≡ compute_tick_interval pm =
        ground (arith, sweep_expired-same visit now pm, timed) in
      aged (deref pm.queue_cfgs q.cfg) now later m (compute_tick_interval pm) q.items fresh age
        positive (subst (λ n. later ≤ now + n) next k)
        (compute_tick_interval-le q.cfg m pm u age positive)
