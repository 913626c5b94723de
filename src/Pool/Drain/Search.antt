-- ===== src/Pool/Drain/Search.antt =====
-- What the search of `nextQueued` of pool.go makes of the queues.
use sticky_overseer.Base.{
  ℕ, suc, ◌≤◌, ◌≡◌, refl, ap, ◌∙◌, String, Bool, true, false, Option, none, some, List, [], ◌∷◌,
  ◌++◌, text_eq, arith, inl, inr, Option-cases, count_by, lookup, lookup-insert, length, contains,
}
use sticky_overseer.Pool.Types.{QueuedItem, QueueConfig}
use sticky_overseer.Pool.Queue
use sticky_overseer.Pool.Queue.{TaskQueue, dequeue}
use sticky_overseer.Pool.Queue.Order.{to_list, dequeue-IsDequeue}
use sticky_overseer.Pool.Fits.{length-arrange}
use sticky_overseer.Pool.Manager.{PoolManager, with_queue, deref}
use sticky_overseer.Pool.Release.{Next, next_from}
use sticky_overseer.Pool.Total.{total}

module _ {ℓ} {C : Type ℓ} where
  abbrev pub any_item : QueuedItem C → Bool
  any_item x = true

  count_by-any : (xs : List (QueuedItem C)) → count_by any_item xs ≡ length xs
  count_by-any [] = refl
  count_by-any (x ∷ xs) = ap suc (count_by-any xs)

  -- How many items wait in a queue that may not be there.
  abbrev pub waiting : Option (TaskQueue C) → ℕ
  waiting none = 0
  waiting (some q) = length q.items

  abbrev pub is_there : Option (TaskQueue C) → Bool
  is_there none = false
  is_there (some q) = true

  pub waiting-le-total :
      (a : String) (m : List (String × TaskQueue C)) → waiting (lookup a m) ≤ total any_item m
  unfolding lookup
  waiting-le-total a [] = omega arith
  waiting-le-total a ((b, q) ∷ m) = ground (arith, waiting-le-total a m, count_by-any q.items)

  length-dequeue :
      (cfg : QueueConfig) (now : ℕ) (items : List (QueuedItem C))
      → length (dequeue cfg now items).left ≤ length items
  length-dequeue cfg now items =
      let d = dequeue cfg now items in
      omega (
        arith,
        ap length (dequeue-IsDequeue cfg now items).split,
        length-arrange (Queue.is_last cfg.order) (d.expired ++ to_list d.item) d.left,
      )

  -- What a search for the next item makes of each queue: no queue appears or goes, none grows, and
  -- where no item was found, all that were searched are empty.
  pub record Searched (order : List String) (pm : PoolManager C) (next : Next C) : Type ℓ where
    pub same_keys :
        (a : String) → is_there (lookup a next.pool.queues) ≡ is_there (lookup a pm.queues)
    pub shrinks : (a : String) → waiting (lookup a next.pool.queues) ≤ waiting (lookup a pm.queues)
    pub emptied :
        (a : String)
        → next.item ≡ none
        → contains a order ≡ true
        → waiting (lookup a next.pool.queues) ≡ 0

  -- The pool in which the queue of an action has the items `left`.
  abbrev dequeued : String → TaskQueue C → List (QueuedItem C) → PoolManager C → PoolManager C
  dequeued b q left pm = with_queue b (record q { items = left }) pm

  dequeued-is_there :
      (a b : String) (q : TaskQueue C) (left : List (QueuedItem C)) (pm : PoolManager C)
      → lookup b pm.queues ≡ some q
      → is_there (lookup a (dequeued b q left pm).queues) ≡ is_there (lookup a pm.queues)
  dequeued-is_there a b q left pm e =
      ground (arith, lookup-insert b a (record q { items = left }) pm.queues)

  dequeued-waiting :
      (a b : String) (q : TaskQueue C) (left : List (QueuedItem C)) (pm : PoolManager C)
      → lookup b pm.queues ≡ some q
      → length left ≤ length q.items
      → waiting (lookup a (dequeued b q left pm).queues) ≤ waiting (lookup a pm.queues)
  dequeued-waiting a b q left pm e h =
      ground (arith, lookup-insert b a (record q { items = left }) pm.queues)

  dequeued-empty :
      (a b : String) (q : TaskQueue C) (left : List (QueuedItem C)) (pm : PoolManager C)
      → lookup b pm.queues ≡ some q
      → b ≡ a
      → length left ≡ 0
      → waiting (lookup a (dequeued b q left pm).queues) ≡ 0
  dequeued-empty a b q left pm e p h =
      ground (arith, lookup-insert b a (record q { items = left }) pm.queues)

  nothing_left :
      (cfg : QueueConfig) (now : ℕ) (items : List (QueuedItem C))
      → (dequeue cfg now items).item ≡ none
      → length (dequeue cfg now items).left ≡ 0
  nothing_left cfg now items n = elim (dequeue-IsDequeue cfg now items).emptied [
    | inl (x, e) ↦ absurd (ground (arith, n, e))
    | inr e ↦ ap length e
  ]

  pub next_from-Searched :
      (order : List String) (now : ℕ) (pm : PoolManager C)
      → Searched order pm (next_from order now pm)
  unfolding next_from
  next_from-Searched [] now pm = record {
    same_keys = λ a. refl;
    shrinks = λ a. omega arith;
    emptied = λ a h k. cc;
  }
  next_from-Searched (b ∷ order) now pm = elim (Option-cases (lookup b pm.queues)) [
    | inl e ↦
        let ih = next_from-Searched order now pm in
        rw (e, next_from)
          (record {
            same_keys = ih.same_keys;
            shrinks = ih.shrinks;
            emptied = λ a h k. elim (text_eq b a) [
              | yes p ↦ ground (arith, ih.shrinks a)
              | no n ↦ ih.emptied a h (ground arith)
            ];
          })
    | inr (q, e) ↦
        let d = dequeue (deref pm.queue_cfgs q.cfg) now q.items in
        let pm' = dequeued b q d.left pm in
        let small = length-dequeue (deref pm.queue_cfgs q.cfg) now q.items in
        let ih = next_from-Searched order now pm' in
        elim (Option-cases d.item) [
          | inl n ↦
              rw (e, next_from, n)
                (record {
                  same_keys = λ a. ih.same_keys a ∙ dequeued-is_there a b q d.left pm e;
                  shrinks =
                      λ a. omega (arith, ih.shrinks a, dequeued-waiting a b q d.left pm e small);
                  emptied = λ a h k. elim (text_eq b a) [
                    | yes p ↦ omega (
                      arith,
                      ih.shrinks a,
                      dequeued-empty a b q d.left pm e p
                          (nothing_left (deref pm.queue_cfgs q.cfg) now q.items n),
                    )
                    | no n' ↦ ih.emptied a h (ground arith)
                  ];
                })
          | inr (x, n) ↦
              rw (e, next_from, n)
                (record {
                  same_keys = λ a. dequeued-is_there a b q d.left pm e;
                  shrinks = λ a. dequeued-waiting a b q d.left pm e small;
                  emptied = λ a h k. cc;
                })
        ]
  ]
