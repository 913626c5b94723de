-- ===== src/Pool/Queue/Order.antt =====
-- `TaskQueue.Dequeue` of pool.go: which item it returns, and which it cancels on the way.
use mathlib.Core.List.{reverse, reverse-cons, append_assoc}
use sticky_overseer.Base.{
  ℕ, zero, suc, ◌<◌, ◌≡◌, refl, sym, ap, ◌∙◌, ◌⊎◌, inl, inr, Bool, true, false, Option, none, some,
  List, [], ◌∷◌, ◌++◌, arith, Bool-cases, length, length-append, All,
}
use sticky_overseer.Pool.Types.{QueueConfig, QueueOrder, QueuedItem}
use sticky_overseer.Pool.Queue.{
  is_last, pop_back, pop_front, pop_item, is_expired, Dequeued, dequeue_loop, dequeue,
}

module _ {ℓ} {A : Type ℓ} where
  -- The items of a queue from which `taken` left one after the other, and `left` stayed.
  abbrev pub arrange : Bool → List A → List A → List A
  arrange true taken left = left ++ reverse taken
  arrange false taken left = taken ++ left

  abbrev pub to_list : Option A → List A
  to_list none = []
  to_list (some x) = x ∷ []

  pop_back-lem :
      (xs : List A)
      → ((pop_back xs ≡ none) × (xs ≡ []))
        ⊎ ((x : A) × (rest : List A) × (pop_back xs ≡ some (x, rest)) × (xs ≡ rest ++ x ∷ []))
  unfolding pop_back
  pop_back-lem [] = inl (refl, refl)
  pop_back-lem (x ∷ xs) = elim (pop_back-lem xs) [
    | inl (e, n) ↦ inr (x, [], rw (e, pop_back), rw n)
    | inr (y, rest, e, n) ↦ inr (y, x ∷ rest, rw (e, pop_back), ap (◌∷◌ x) n)
  ]

  pub pop_item_lem :
      (order : QueueOrder) (xs : List A)
      → ((pop_item order xs ≡ none) × (xs ≡ []))
        ⊎ ((x : A) × (rest : List A) × (pop_item order xs ≡ some (x, rest))
            × (xs ≡ arrange (is_last order) (x ∷ []) rest)
            × (length xs ≡ suc (length rest)))
  unfolding pop_item pop_front
  pop_item_lem order xs = elim (Bool-cases (is_last order)) [
    | inl last ↦ rw last (elim (pop_back-lem xs) [
      | inl h ↦ inl h
      | inr (x, rest, e, n) ↦ inr (x, rest, e, n, rw n (omega (arith, length-append rest (x ∷ []))))
    ])
    | inr first ↦ rw first (front xs)
  ]
    where
      front :
          (ys : List A)
          → ((pop_front ys ≡ none) × (ys ≡ []))
            ⊎ ((x : A) × (rest : List A) × (pop_front ys ≡ some (x, rest))
                × (ys ≡ arrange false (x ∷ []) rest)
                × (length ys ≡ suc (length rest)))
      front [] = inl (refl, refl)
      front (y ∷ ys) = inr (y, ys, refl, refl, refl)

  arrange_cons :
      (last : Bool) (x : A) (taken left : List A)
      → arrange last (x ∷ taken) left ≡ arrange last (x ∷ []) (arrange last taken left)
  arrange_cons true x taken left = rw (reverse-cons x taken, append_assoc) refl
  arrange_cons false x taken left = refl

  arrange_nil : (last : Bool) → arrange last [] [] ≡ []
  arrange_nil true = refl
  arrange_nil false = refl

module _ {ℓ} {C : Type ℓ} (cfg : QueueConfig) (now : ℕ) where
  -- The expired items that stand first in the queue's order go, the next one is returned, and the
  -- rest stay as they were; if nothing is returned, then nothing is left.
  pub record IsDequeue (items : List (QueuedItem C)) (d : Dequeued C) : Type ℓ where
    pub all_expired : All (λ x. is_expired cfg now x ≡ true) d.expired
    pub fresh : All (λ x. is_expired cfg now x ≡ false) (to_list d.item)
    pub emptied : ((x : QueuedItem C) × (d.item ≡ some x)) ⊎ (d.left ≡ [])
    pub split : arrange (is_last cfg.order) (d.expired ++ to_list d.item) d.left ≡ items

  dequeue_loop-IsDequeue :
      (fuel : ℕ) (items : List (QueuedItem C))
      → length items < fuel
      → IsDequeue items (dequeue_loop fuel cfg now items)
  unfolding dequeue_loop
  dequeue_loop-IsDequeue zero items h = elim h [ ]
  dequeue_loop-IsDequeue (suc fuel) items h = elim (pop_item_lem cfg.order items) [
    | inl (e, n) ↦
        rw (e, dequeue_loop)
          (record {
            all_expired = tt;
            fresh = tt;
            emptied = inr refl;
            split = arrange_nil (is_last cfg.order) ∙ sym n;
          })
    | inr (x, rest, e, n, l) ↦
        let ih = dequeue_loop-IsDequeue fuel rest (omega arith) in
        elim (Bool-cases (is_expired cfg now x)) [
          | inl old ↦
              rw (e, dequeue_loop, old)
                (record {
                  all_expired = (old, ih.all_expired);
                  fresh = ih.fresh;
                  emptied = ih.emptied;
                  split =
                      arrange_cons (is_last cfg.order) x _ _
                      ∙ ap (arrange (is_last cfg.order) (x ∷ [])) ih.split
                      ∙ sym n;
                })
          | inr new ↦
              rw (e, dequeue_loop, new)
                (record {
                  all_expired = tt;
                  fresh = (new, tt);
                  emptied = inl (x, refl);
                  split = sym n;
                })
        ]
  ]

  -- `Dequeue` takes items in the queue's order: it drops those that are expired, up to the first
  -- one that is not, which it returns; the others stay as they were. It returns nothing only when
  -- all are expired, and then leaves the queue empty.
  pub dequeue-IsDequeue : (items : List (QueuedItem C)) → IsDequeue items (dequeue cfg now items)
  unfolding dequeue
  dequeue-IsDequeue items = dequeue_loop-IsDequeue (suc (length items)) items (omega arith)
