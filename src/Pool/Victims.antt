-- ===== src/Pool/Victims.antt =====
-- Which running tasks `SetLimits` of pool.go stops: as many as the limit leaves no room for, and
-- those that come first in the configured order.
pub mod Sorted
use sticky_overseer.Base.{
  ℕ, zero, suc, ◌+◌, ◌-◌, ◌≤◌, ◌<◌, ◌≡◌, refl, ap, ◌∙◌, String, Bool, true, false, List, [], ◌∷◌,
  arith, inl, inr, Bool-cases, count_by, length, keep, take, All, ℤ, pos, negsuc, is_positive,
  excess_over, count_by-keep_split, subst, sym, none, some, Option-cases, lookup, ite, text_eq,
  is_zero, is_within, ◌&&◌, ◌||◌, not, ◌⊎◌,
}
use sticky_overseer.Pool.Types.{RunningEntry, KillOrder, kill_first, kill_last, zero_excess_config}
use sticky_overseer.Pool.Manager.{PoolManager, runs_action}
use sticky_overseer.Pool.Resize.{
  is_killed_before, insert_by, sort_by, candidates, running_count, excess_order, to_stop,
}
use sticky_overseer.Pool.Victims.Sorted.{
  length-take_of_le, count_by-take-le, count_by-keep-le, take-nil, count_by-take-drop,
  count_by-insert_by, count_by-sort_by, length-insert_by, length-sort_by, All-insert_by,
  All-before_trans, insert_by-IsSorted, sort_by-IsSorted, All-drop, take_before_drop, drop,
  IsSorted,
}

-- As many as run beyond a positive limit are stopped.
abbrev pub IsExcess : ℤ → ℕ → ℕ → Type 0
IsExcess (pos zero) running stopped = Unit
IsExcess (pos (suc k)) running stopped = stopped ≡ running - suc k
IsExcess (negsuc k) running stopped = Unit

module _ {ℓ} {C : Type ℓ} where
  -- With "last", `x` has not started earlier than `y`; with any other order, not later.
  abbrev pub Precedes : KillOrder → RunningEntry C → RunningEntry C → Type 0
  Precedes kill_last x y = y.started_at ≤ x.started_at
  Precedes kill_first x y = x.started_at ≤ y.started_at
  Precedes (KillOrder.other text) x y = x.started_at ≤ y.started_at

  not_killed-Precedes :
      (order : KillOrder) (x y : RunningEntry C)
      → is_killed_before order y x ≡ false
      → Precedes order x y
  not_killed-Precedes kill_last x y h = ground (arith, h)
  not_killed-Precedes kill_first x y h = ground (arith, h)
  not_killed-Precedes (KillOrder.other text) x y h = ground (arith, h)

  All-map :
      {P Q : RunningEntry C → Type 0} (xs : List (RunningEntry C))
      → ((x : RunningEntry C) → P x → Q x)
      → All P xs
      → All Q xs
  All-map [] f a = tt
  All-map (x ∷ xs) f a = (f x a.0, All-map xs f a.1)

  -- A choice among the tasks at hand: each is stopped or spared, as often as it stands among them,
  -- and no task that is stopped stands behind one that is spared, in the order of `KillOrder`.
  pub record Chosen (order : KillOrder) (tasks stopped spared : List (RunningEntry C))
      : Type ℓ where
    pub all :
        (q : RunningEntry C → Bool) → count_by q stopped + count_by q spared ≡ count_by q tasks
    pub in_order : All (λ x. All (λ y. Precedes order x y) spared) stopped

  -- The running tasks of an action, or all for "".
  abbrev pub tasks_of : String → List (RunningEntry C) → List (RunningEntry C)
  tasks_of action running =
      ite (text_eq action "") running (keep (λ e. ite (text_eq e.action action) true false) running)

  -- The order that is configured for an action, or for the whole pool for "".
  abbrev pub order_of : String → PoolManager C → KillOrder
  order_of action pm =
      ite (text_eq action "") pm.global_cfg.excess.order (elim (lookup action pm.action_cfgs) [
        | none ↦ zero_excess_config.order
        | some cfg ↦ cfg.excess.order
      ])

  length-candidates :
      (action : String) (k : ℕ) (running : List (RunningEntry C))
      → 0 < k
      → running_count action running - k ≤ length (candidates action (pos k) running)
  unfolding candidates running_count
  length-candidates action k running h = ground arith

  pub length-to_stop :
      (action : String) (limit : ℤ) (pm : PoolManager C)
      → is_positive limit ≡ true
      → length (to_stop action limit pm) ≡ excess_over (running_count action pm.running) limit
  unfolding to_stop
  length-to_stop action (pos k) pm h =
      let order = excess_order action pm in
      let tasks = candidates action (pos k) pm.running in
      length-take_of_le _ (sort_by order tasks) (
        omega
          (arith, length-sort_by order tasks, length-candidates action k pm.running (ground arith)))
  length-to_stop action (negsuc k) pm h = cc

  candidates-cases :
      (action : String) (limit : ℤ) (running : List (RunningEntry C))
      → (candidates action limit running ≡ tasks_of action running)
        ⊎ (candidates action limit running ≡ [])
  unfolding candidates
  candidates-cases action limit running = elim (text_eq action "") [
    | yes p ↦ elim (Bool-cases (is_positive limit && not (is_within (length running) limit))) [
      | inl b ↦ inl (ground (arith, p, b))
      | inr b ↦ inr (ground (arith, p, b))
    ]
    | no n ↦
        let own = keep (runs_action action) running in
        elim (Bool-cases (is_zero limit || is_within (length own) limit)) [
          | inl b ↦ inr (ground (arith, n, b))
          | inr b ↦ inl (ground (arith, n, b))
        ]
  ]

  excess_order-order_of :
      (action : String) (pm : PoolManager C) → excess_order action pm ≡ order_of action pm
  unfolding excess_order
  excess_order-order_of action pm = elim (Option-cases (lookup action pm.action_cfgs)) [
    | inl e ↦ rw e refl
    | inr (cfg, e) ↦ rw e refl
  ]

  length-to_stop-IsExcess :
      (action : String) (limit : ℤ) (pm : PoolManager C)
      → IsExcess limit (length (tasks_of action pm.running)) (length (to_stop action limit pm))
  unfolding running_count
  length-to_stop-IsExcess action (pos zero) pm = tt
  length-to_stop-IsExcess action (pos (suc k)) pm =
      ground (arith, length-to_stop action (pos (suc k)) pm)
  length-to_stop-IsExcess action (negsuc k) pm = tt

  -- The choice that `SetLimits` makes among some tasks.
  chosen :
      (order : KillOrder) (n : ℕ) (tasks : List (RunningEntry C))
      → Chosen order tasks (take n (sort_by order tasks)) (drop n (sort_by order tasks))
  chosen order n tasks = record {
    all = λ q. count_by-take-drop q n (sort_by order tasks) ∙ count_by-sort_by q order tasks;
    in_order =
        All-map (take n (sort_by order tasks))
          (λ x a. All-map (drop n (sort_by order tasks)) (λ y h. not_killed-Precedes order x y h) a)
          (take_before_drop order n (sort_by order tasks) (sort_by-IsSorted order tasks));
  }

  to_stop_none :
      (action : String) (limit : ℤ) (pm : PoolManager C)
      → candidates action limit pm.running ≡ []
      → to_stop action limit pm ≡ []
  unfolding to_stop sort_by
  to_stop_none action limit pm e = take-nil _ _ (ap (sort_by (excess_order action pm)) e)

  to_stop_spared :
      (action : String) (limit : ℤ) (pm : PoolManager C)
      → (spared : List (RunningEntry C)) × Chosen
          (order_of action pm)
          (tasks_of action pm.running)
          (to_stop action limit pm)
          spared
  unfolding to_stop
  to_stop_spared action limit pm = elim (candidates-cases action limit pm.running) [
    | inl e ↦
        let n = excess_over (running_count action pm.running) limit in
        (
          drop n (sort_by (order_of action pm) (tasks_of action pm.running)),
          subst
              (λ o.
                Chosen (order_of action pm) (tasks_of action pm.running)
                  (take n (sort_by o (candidates action limit pm.running)))
                  (drop n (sort_by (order_of action pm) (tasks_of action pm.running))))
              (sym (excess_order-order_of action pm))
              (subst
                (λ c.
                  Chosen (order_of action pm) (tasks_of action pm.running)
                    (take n (sort_by (order_of action pm) c))
                    (drop n (sort_by (order_of action pm) (tasks_of action pm.running))))
                (sym e) (chosen (order_of action pm) n (tasks_of action pm.running))),
        )
    | inr e ↦ (
      tasks_of action pm.running,
      subst
          (λ c.
            Chosen (order_of action pm) (tasks_of action pm.running) c (tasks_of action pm.running))
          (sym (to_stop_none action limit pm e)) (record { all = λ q. omega arith; in_order = tt }),
    )
  ]

  -- Of the running tasks of an action, or of all for "", `SetLimits` chooses those to stop in the
  -- order that is configured for the action, or for the pool: with "last" no task that is spared has
  -- started later than one that is stopped, and else none has started earlier. Each task is stopped or
  -- spared, and under a positive limit as many are stopped as run beyond it.
  pub to_stop-Chosen :
      (action : String) (limit : ℤ) (pm : PoolManager C)
      → ((spared : List (RunningEntry C)) × Chosen
            (order_of action pm)
            (tasks_of action pm.running)
            (to_stop action limit pm)
            spared)
        × IsExcess limit (length (tasks_of action pm.running)) (length (to_stop action limit pm))
  to_stop-Chosen action limit pm =
      (to_stop_spared action limit pm, length-to_stop-IsExcess action limit pm)

  -- Whoever is stopped runs.
  pub count_by-to_stop-le :
      (q : RunningEntry C → Bool) (action : String) (limit : ℤ) (pm : PoolManager C)
      → count_by q (to_stop action limit pm) ≤ count_by q pm.running
  unfolding to_stop candidates
  count_by-to_stop-le q action limit pm =
      let order = excess_order action pm in
      let tasks = candidates action limit pm.running in
      let n = excess_over (running_count action pm.running) limit in
      ground (
        arith,
        count_by-take-le q n (sort_by order tasks),
        count_by-sort_by q order tasks,
        count_by-keep-le q (runs_action action) pm.running,
      )
