-- ===== src/Pool/Drain.antt =====
-- The queues of pool.go empty as long as tasks end.
pub mod Search
use sticky_overseer.Base.{
  ℕ, suc, ◌≤◌, ◌≡◌, refl, sym, ap, ◌∙◌, String, Bool, true, false, Option, none, some, List, [],
  ◌∷◌, ◌++◌, text_eq, arith, inl, inr, Option-cases, Bool-cases, count_by, count_by-append, ◌+◌,
  lookup, lookup-insert, length, contains, contains-append,
}
use sticky_overseer.Pool.Types.{QueuedItem, QueueConfig}
use sticky_overseer.Pool.Queue
use sticky_overseer.Pool.Queue.{TaskQueue, dequeue}
use sticky_overseer.Pool.Queue.Order.{to_list, dequeue-IsDequeue}
use sticky_overseer.Pool.Fits.{length-arrange}
use sticky_overseer.Pool.Manager.{PoolManager, with_queue, without_task, deref}
use sticky_overseer.Pool.Release.{Next, seat, next_from, next_queued, release_slot}
use sticky_overseer.Pool.Total.{total, total-release_slot}
use sticky_overseer.Pool.Slots.{Released, release_slot-Released}
use sticky_overseer.Pool.Drain.Search.{
  any_item, waiting, is_there, waiting-le-total, Searched, next_from-Searched,
}

module _ {ℓ} {C : Type ℓ} where
  -- Does `visit` name each action that has a queue?
  abbrev pub Covers : List String → PoolManager C → Type 0
  Covers visit pm = (a : String) → is_there (lookup a pm.queues) ≡ true → contains a visit ≡ true

  seat-queues :
      (now : ℕ) (x : Option (QueuedItem C)) (pm : PoolManager C)
      → (seat now x pm).queues ≡ pm.queues
  seat-queues now none pm = refl
  seat-queues now (some x) pm = refl

  release_slot-Searched :
      (visit : List String) (now : ℕ) (id : String) (pm : PoolManager C)
      → Searched (pm.action_order ++ visit) pm (release_slot visit now id pm)
  unfolding release_slot next_queued
  release_slot-Searched visit now id pm =
      let order = pm.action_order ++ visit in
      let next = next_from order now (without_task id pm) in
      let s = next_from-Searched order now (without_task id pm) in
      let same = seat-queues now next.item next.pool in
      record {
        same_keys = λ a. ap (λ m. is_there (lookup a m)) same ∙ s.same_keys a;
        shrinks = λ a. omega (arith, s.shrinks a, ap (λ m. waiting (lookup a m)) same);
        emptied = λ a h k. ap (λ m. waiting (lookup a m)) same ∙ s.emptied a h k;
      }

  -- The pool after tasks have ended one after the other, each at its time.
  abbrev pub releases : List String → List (ℕ × String) → PoolManager C → PoolManager C
  releases visit [] pm = pm
  releases visit ((now, id) ∷ ends) pm = releases visit ends (release_slot visit now id pm).pool

  Covers-release_slot :
      (visit : List String) (now : ℕ) (id : String) (pm : PoolManager C)
      → Covers visit pm
      → Covers visit (release_slot visit now id pm).pool
  Covers-release_slot visit now id pm c a h =
      c a (sym ((release_slot-Searched visit now id pm).same_keys a) ∙ h)

  releases-shrinks :
      (visit : List String) (ends : List (ℕ × String)) (pm : PoolManager C) (a : String)
      → waiting (lookup a (releases visit ends pm).queues) ≤ waiting (lookup a pm.queues)
  releases-shrinks visit [] pm a = omega arith
  releases-shrinks visit ((now, id) ∷ ends) pm a = omega (
    arith,
    releases-shrinks visit ends (release_slot visit now id pm).pool a,
    (release_slot-Searched visit now id pm).shrinks a,
  )

  -- A release that finds nothing leaves all queues empty.
  release_slot-empty :
      (visit : List String) (now : ℕ) (id : String) (pm : PoolManager C) (a : String)
      → Covers visit pm
      → (release_slot visit now id pm).item ≡ none
      → waiting (lookup a (release_slot visit now id pm).pool.queues) ≡ 0
  release_slot-empty visit now id pm a c n =
      let s = release_slot-Searched visit now id pm in
      elim (Bool-cases (is_there (lookup a pm.queues))) [
        | inl there ↦
            s.emptied a n (contains-append a pm.action_order visit ∙ ground (arith, c a there))
        | inr gone ↦ absent _ (s.same_keys a ∙ gone)
      ]
    where
      absent : (q : Option (TaskQueue C)) → is_there q ≡ false → waiting q ≡ 0
      absent none h = refl
      absent (some q) h = cc

  -- The items that took a slot when tasks ended one after the other, and those that were cancelled.
  abbrev pub turns : List String → List (ℕ × String) → PoolManager C → List (QueuedItem C)
  turns visit [] pm = []
  turns visit ((now, id) ∷ ends) pm =
      let next = release_slot visit now id pm in to_list next.item ++ turns visit ends next.pool

  abbrev pub cancelled : List String → List (ℕ × String) → PoolManager C → List (QueuedItem C)
  cancelled visit [] pm = []
  cancelled visit ((now, id) ∷ ends) pm =
      let next = release_slot visit now id pm in next.expired ++ cancelled visit ends next.pool

  -- Each release seats its item and cancels only what is too old.
  abbrev pub AllReleased : List String → List (ℕ × String) → PoolManager C → Type ℓ
  AllReleased visit [] pm = Unit
  AllReleased visit ((now, id) ∷ ends) pm =
      let next = release_slot visit now id pm in
      Released now id pm next × AllReleased visit ends next.pool

  releases-AllReleased :
      (visit : List String) (ends : List (ℕ × String)) (pm : PoolManager C)
      → AllReleased visit ends pm
  releases-AllReleased visit [] pm = tt
  releases-AllReleased visit ((now, id) ∷ ends) pm = (
    release_slot-Released visit now id pm,
    releases-AllReleased visit ends (release_slot visit now id pm).pool,
  )

  total-releases :
      (p : QueuedItem C → Bool) (visit : List String) (ends : List (ℕ × String))
      (pm : PoolManager C)
      → total p pm.queues
        ≡ total p (releases visit ends pm).queues
          + count_by p (turns visit ends pm)
          + count_by p (cancelled visit ends pm)
  total-releases p visit [] pm = omega arith
  total-releases p visit ((now, id) ∷ ends) pm =
      let next = release_slot visit now id pm in
      omega (
        arith,
        total-release_slot p visit now id pm,
        total-releases p visit ends next.pool,
        count_by-append p (to_list next.item) (turns visit ends next.pool),
        count_by-append p next.expired (cancelled visit ends next.pool),
      )

  waiting-releases :
      (visit : List String) (ends : List (ℕ × String)) (pm : PoolManager C) (a : String)
      → Covers visit pm
      → total any_item pm.queues ≤ length ends
      → waiting (lookup a (releases visit ends pm).queues) ≡ 0
  waiting-releases visit [] pm a c h = omega (arith, waiting-le-total a pm.queues)
  waiting-releases visit ((now, id) ∷ ends) pm a c h =
      let next = release_slot visit now id pm in
      elim (Option-cases next.item) [
        | inl n ↦ omega (
          arith,
          release_slot-empty visit now id pm a c n,
          releases-shrinks visit ends next.pool a,
        )
        | inr (x, n) ↦
            waiting-releases visit ends next.pool a (Covers-release_slot visit now id pm c) (
              omega (
                arith,
                total-release_slot any_item visit now id pm,
                ap (λ o. count_by any_item (to_list o)) n,
              ))
      ]

  -- As long as tasks end, every queued task gets its turn or expires: after as many releases as
  -- items are queued, at whatever times and of whatever tasks, no queue has an item left. Each item
  -- that was queued is left, has taken a slot or was cancelled, as often as it was queued. At each
  -- release, the item that takes the slot runs in place of the task that ended, and
  -- those that are cancelled have been queued for longer than the `MaxAge` of a queue. `visit` is
  -- any order in which `range` can go over the queues, so it names each action that has one.
  pub releases-waiting :
      (visit : List String) (ends : List (ℕ × String)) (pm : PoolManager C)
      → Covers visit pm
      → total any_item pm.queues ≤ length ends
      → ((a : String) → waiting (lookup a (releases visit ends pm).queues) ≡ 0)
        × ((p : QueuedItem C → Bool)
            → total p pm.queues
              ≡ total p (releases visit ends pm).queues
                + count_by p (turns visit ends pm)
                + count_by p (cancelled visit ends pm))
        × AllReleased visit ends pm
  releases-waiting visit ends pm c h = (
    λ a. waiting-releases visit ends pm a c h,
    λ p. total-releases p visit ends pm,
    releases-AllReleased visit ends pm,
  )
