-- ===== src/Metrics/Cap.antt =====
-- The registry of tasks in metrics.go: `taskOrder` lists the keys of `byTask` in the order of their
-- first record, each once, and `taskEntry` keeps no more than `maxTaskEntries` of them.
use sticky_overseer.Base.{
  ℕ, suc, ◌≤◌, ◌≡◌, ◌≢◌, refl, sym, ap, subst, ◌∙◌, String, none, some, List, [], ◌∷◌, ◌++◌, map,
  arith, inl, inr, ltb, Bool-cases, Option-cases, length, All, lookup, insert, delete,
}
use sticky_overseer.Metrics.{
  Metrics, TaskMetrics, zero_task_metrics, max_task_entries, evict, task_entry, update_task,
}

module _ {ℓ} {V : Type ℓ} where
  abbrev pub keys : List (String × V) → List String
  keys = map (λ e. e.0)

  absent_from_keys :
      (k : String) (m : List (String × V)) → lookup k m ≡ none → All (λ j. j ≢ k) (keys m)
  unfolding lookup
  absent_from_keys k [] h = tt
  absent_from_keys k ((j, v) ∷ m) h = (ground arith, absent_from_keys k m (ground arith))

  keys-insert_absent :
      (k : String) (v : V) (m : List (String × V))
      → lookup k m ≡ none
      → keys (insert k v m) ≡ keys m ++ k ∷ []
  unfolding lookup insert
  keys-insert_absent k v [] h = refl
  keys-insert_absent k v ((j, w) ∷ m) h = ground (arith, keys-insert_absent k v m)

  keys-insert_present :
      (k : String) (v w : V) (m : List (String × V))
      → lookup k m ≡ some w
      → keys (insert k v m) ≡ keys m
  unfolding lookup insert
  keys-insert_present k v w [] h = cc
  keys-insert_present k v w ((j, u) ∷ m) h = ground (arith, keys-insert_present k v w m)

  delete_absent : (k : String) (m : List (String × V)) → All (λ j. j ≢ k) (keys m) → delete k m ≡ m
  unfolding delete
  delete_absent k [] a = refl
  delete_absent k ((j, v) ∷ m) a = ground (arith, delete_absent k m)

abbrev pub Distinct : List String → Type 0
Distinct [] = Unit
Distinct (x ∷ xs) = All (λ y. y ≢ x) xs × Distinct xs

All-snoc :
    (k x : String) (xs : List String)
    → All (λ y. y ≢ x) xs
    → k ≢ x
    → All (λ y. y ≢ x) (xs ++ k ∷ [])
All-snoc k x [] a h = (h, tt)
All-snoc k x (y ∷ xs) a h = (a.0, All-snoc k x xs a.1 h)

Distinct-snoc :
    (k : String) (xs : List String) → Distinct xs → All (λ y. y ≢ k) xs → Distinct (xs ++ k ∷ [])
Distinct-snoc k [] d a = (tt, tt)
Distinct-snoc k (x ∷ xs) d a = (All-snoc k x xs d.0 (λ e. a.0 (sym e)), Distinct-snoc k xs d.1 a.1)

-- The keys of the map are those of the order, each once.
pub record IsOrdered (order : List String) (entries : List (String × TaskMetrics)) : Type 0 where
  pub same_keys : keys entries ≡ order
  pub distinct : Distinct order

length-keys : {V : Type 0} (m : List (String × V)) → length (keys m) ≡ length m
length-keys [] = refl
length-keys (e ∷ m) = ap suc (length-keys m)

IsOrdered-delete :
    (k : String) (order : List String) (entries : List (String × TaskMetrics))
    → IsOrdered (k ∷ order) entries
    → IsOrdered order (delete k entries)
unfolding delete
IsOrdered-delete k order [] o = absurd (ground (arith, o.same_keys))
IsOrdered-delete k order ((j, v) ∷ entries) o =
    let same : keys entries ≡ order = ground (arith, o.same_keys) in
    record {
      same_keys = ground (
        arith,
        o.same_keys,
        delete_absent k entries (subst (All (λ y. y ≢ k)) (sym same) o.distinct.0),
      );
      distinct = o.distinct.1;
    }

-- The eviction loop keeps map and order in step, and ends with at most `max` entries.
evict-IsOrdered :
    (max : ℕ) (order : List String) (entries : List (String × TaskMetrics))
    → IsOrdered order entries
    → let (order', entries') = evict max order entries in
      IsOrdered order' entries' × (length entries' ≤ max)
unfolding evict
evict-IsOrdered max [] entries o = (o, omega (arith, ap length o.same_keys, length-keys entries))
evict-IsOrdered max (k ∷ order) entries o = elim (Bool-cases (ltb max (length entries))) [
  | inl over ↦
      rw over (evict-IsOrdered max order (delete k entries) (IsOrdered-delete k order entries o))
  | inr fits ↦ rw fits (o, ground arith)
]

pub record IsCapped (m : Metrics) : Type 0 where
  pub ordered : IsOrdered m.task_order m.by_task
  pub capped : length m.by_task ≤ max_task_entries

length-insert_present :
    (k : String) (v w : TaskMetrics) (m : List (String × TaskMetrics))
    → lookup k m ≡ some w
    → length (insert k v m) ≡ length m
length-insert_present k v w m h =
    omega
      (arith, length-keys (insert k v m), length-keys m, ap length (keys-insert_present k v w m h))

pub task_entry-IsCapped : (id : String) (m : Metrics) → IsCapped m → IsCapped (task_entry id m).0
unfolding task_entry
task_entry-IsCapped id m c = elim (Option-cases (lookup id m.by_task)) [
  | inr (e, h) ↦ rw (h, task_entry) c
  | inl h ↦
      let same = keys-insert_absent id zero_task_metrics m.by_task h in
      let fresh = absent_from_keys id m.by_task h in
      let (o, n) =
        evict-IsOrdered max_task_entries (m.task_order ++ id ∷ [])
          (insert id zero_task_metrics m.by_task)
          (record {
            same_keys = same ∙ ap (λ ks. ks ++ id ∷ []) c.ordered.same_keys;
            distinct =
                Distinct-snoc id m.task_order c.ordered.distinct
                  (subst (All (λ y. y ≢ id)) c.ordered.same_keys fresh);
          }) in
      rw (h, task_entry) (record { ordered = o; capped = n })
]

pub update_task-IsCapped :
    (id : String) (f : TaskMetrics → TaskMetrics) (m : Metrics)
    → IsCapped m
    → IsCapped (update_task id f m)
unfolding update_task
update_task-IsCapped id f m c =
    let (m', e) = task_entry id m in
    let c' : IsCapped m' = task_entry-IsCapped id m c in
    elim (Option-cases (lookup id m'.by_task)) [
      | inl h ↦ rw (h, update_task) c'
      | inr (w, h) ↦
          rw (h, update_task)
            (record {
              ordered = record {
                same_keys = keys-insert_present id (f e) w m'.by_task h ∙ c'.ordered.same_keys;
                distinct = c'.ordered.distinct;
              };
              capped = omega (arith, length-insert_present id (f e) w m'.by_task h, c'.capped);
            })
    ]
