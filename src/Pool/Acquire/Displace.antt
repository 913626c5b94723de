-- ===== src/Pool/Acquire/Displace.antt =====
-- `tryDisplace` of pool.go: what it does where it succeeds.
use sticky_overseer.Base.{
  ◌≡◌, String, Bool, true, some, List, [], ◌∷◌, inl, inr, arith, Option-cases, find_first, lookup,
}
use sticky_overseer.Pool.Types.{QueuedItem}
use sticky_overseer.Pool.Queue.{TaskQueue}
use sticky_overseer.Pool.Manager.{PoolManager, with_queue, displace_policy}
use sticky_overseer.Pool.Acquire.{
  may_displace, is_unforced, without_unforced, put_in_queue, displace_at, displace_from,
}

module _ {ℓ} {C : Type ℓ} (forced : Bool) (item : QueuedItem C) (pm : PoolManager C) where
  -- The first unforced item of a queue that allows it gives way to the new item.
  pub record Displaces (pm' : PoolManager C) (x : QueuedItem C) : Type ℓ where
    pub source : String
    pub queue : TaskQueue C
    pub found : lookup source pm.queues ≡ some queue
    pub allowed : may_displace (displace_policy pm source) forced ≡ true
    pub first : find_first is_unforced queue.items ≡ some x
    pub result : pm' ≡ put_in_queue item (with_queue source (without_unforced queue) pm)

  pub displace_at-Displaces :
      (a : String) (pm' : PoolManager C) (x : QueuedItem C)
      → displace_at a forced item pm ≡ some (pm', x)
      → Displaces pm' x
  unfolding displace_at
  displace_at-Displaces a pm' x h = elim (Option-cases (lookup a pm.queues)) [
    | inl e ↦ absurd (ground arith)
    | inr (q, e) ↦ record {
      source = a;
      queue = q;
      found = e;
      allowed = ground arith;
      first = ground arith;
      result = ground arith;
    }
  ]

  pub displace_from-Displaces :
      (cs : List String) (pm' : PoolManager C) (x : QueuedItem C)
      → displace_from cs forced item pm ≡ some (pm', x)
      → Displaces pm' x
  unfolding displace_from
  displace_from-Displaces [] pm' x h = absurd (ground arith)
  displace_from-Displaces (a ∷ cs) pm' x h = elim (Option-cases (displace_at a forced item pm)) [
    | inl e ↦ displace_from-Displaces cs pm' x (ground arith)
    | inr (r, e) ↦ displace_at-Displaces a pm' x (ground arith)
  ]
