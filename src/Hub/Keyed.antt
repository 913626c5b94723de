-- ===== src/Hub/Keyed.antt =====
-- The maps of the hub, of the tasks that start, of those that have started and of the
-- subscriptions, over all its methods.
pub mod Starts
pub mod Requests
pub mod Exits
pub mod Processes
use sticky_overseer.Base.{
  AllValues, insert-AllValues, delete-AllValues, DistinctKeys, insert-DistinctKeys,
  delete-DistinctKeys, ℕ, ◌≡◌, ◌≢◌, refl, sym, ap, ◌∙◌, subst, String, Bool, true, false, Option,
  none, some, List, [], ◌∷◌, ite, text_eq, arith, lookup, insert, delete, lookup-insert,
  lookup-delete, ◌⊎◌, inl, inr, ◌||◌, Bool-cases, Option-cases, contains, remove_key, add_key,
  contains-add_key, contains-remove_key, ℤ,
}
use sticky_overseer.Hub.Once.{has_once}
use sticky_overseer.Hub.Types.{Hub, Task, Launch, World}
use sticky_overseer.Hub.Reserved.{SameTasks}
use sticky_overseer.Hub.Lifecycle.{Step, Lived, Step-Lived, Step-task_id}

-- No task ID is both being started and in use, each task is filed once, under its own ID, and is
-- what its methods made of it, and each connection has one set of subscriptions.
pub record Keyed (h : Hub) : Type 0 where
  pub disjoint : (a : String) → contains a h.pending ≡ true → lookup a h.tasks ≡ none
  pub named : (a : String) (t : Task) → lookup a h.tasks ≡ some t → (t.record_).task_id ≡ a
  pub distinct : DistinctKeys h.tasks
  pub lived : AllValues Lived h.tasks
  pub once : has_once h.subscriptions ≡ true

pub SameTasks-Keyed : (h h' : Hub) → SameTasks h h' → Keyed h → Keyed h'
SameTasks-Keyed h h' s v = record {
  disjoint =
      λ a p. ap (lookup a) s.same_tasks ∙ v.disjoint a (ap (contains a) (sym s.same_pending) ∙ p);
  named = λ a t e. v.named a t (ap (lookup a) (sym s.same_tasks) ∙ e);
  distinct = subst DistinctKeys (sym s.same_tasks) v.distinct;
  lived = subst (AllValues Lived) (sym s.same_tasks) v.lived;
  once = s.kept_once v.once;
}

module _ (id : String) (h : Hub) where
  -- A task is filed under an ID that is no longer reserved.
  pub filed-Keyed :
      (t : Task)
      → (t.record_).task_id ≡ id
      → Lived t
      → Keyed h
      → Keyed (record h { pending = remove_key id h.pending; tasks = insert id t h.tasks })
  filed-Keyed t n l v = record {
    disjoint = λ a p.
        ground
          (arith, lookup-insert id a t h.tasks, contains-remove_key id a h.pending, v.disjoint a);
    named = λ a u e. ground (arith, lookup-insert id a t h.tasks, v.named a u, n);
    distinct = insert-DistinctKeys id t h.tasks v.distinct;
    lived = insert-AllValues Lived id t h.tasks l v.lived;
    once = v.once;
  }

  -- What a step makes of a task takes its place.
  pub replaced-Keyed :
      (t t' : Task)
      → lookup id h.tasks ≡ some t
      → Step t t'
      → Keyed h
      → Keyed (record h { tasks = insert id t' h.tasks })
  replaced-Keyed t t' e s v = record {
    disjoint = λ a p. ground (arith, lookup-insert id a t' h.tasks, v.disjoint a p, e);
    named = λ a u k.
        ground (arith, lookup-insert id a t' h.tasks, v.named a u, Step-task_id s, v.named id t e);
    distinct = insert-DistinctKeys id t' h.tasks v.distinct;
    lived = insert-AllValues Lived id t' h.tasks (Step-Lived s (v.lived id t e)) v.lived;
    once = v.once;
  }

  pub forgotten-Keyed :
      Keyed h → Keyed (record h { tasks = delete id h.tasks; pending = remove_key id h.pending })
  forgotten-Keyed v = record {
    disjoint = λ a p.
        ground
          (arith, lookup-delete id a h.tasks, contains-remove_key id a h.pending, v.disjoint a);
    named = λ a u e. ground (arith, lookup-delete id a h.tasks, v.named a u);
    distinct = delete-DistinctKeys id h.tasks v.distinct;
    lived = delete-AllValues Lived id h.tasks v.lived;
    once = v.once;
  }

  pub released-Keyed : Keyed h → Keyed (record h { pending = remove_key id h.pending })
  released-Keyed v = record {
    disjoint = λ a p. ground (arith, contains-remove_key id a h.pending, v.disjoint a);
    named = v.named;
    distinct = v.distinct;
    lived = v.lived;
    once = v.once;
  }

  pub reserved-Keyed :
      lookup id h.tasks ≡ none → Keyed h → Keyed (record h { pending = add_key id h.pending })
  reserved-Keyed e v = record {
    disjoint = λ a p. ground (arith, contains-add_key id a h.pending, v.disjoint a, e);
    named = v.named;
    distinct = v.distinct;
    lived = v.lived;
    once = v.once;
  }
