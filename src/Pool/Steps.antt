-- ===== src/Pool/Steps.antt =====
-- The life of a pool of pool.go as steps, each of which holds `pm.mu` throughout: the calls of many
-- clients come in any order, and between the parts of one `Acquire` or `Release` others may come.
pub mod Limits
pub mod Places
use sticky_overseer.Base.{ℕ, String, Option, none, some, List, lookup}
use sticky_overseer.Pool.Types.{QueueConfig, PoolConfig, QueuedItem}
use sticky_overseer.Pool.Manager.{PoolManager, new_pool_manager}
use sticky_overseer.Pool.Acquire.{Arrival, admit, finish_start}
use sticky_overseer.Pool.Release.{release_slot, finish_release}
use sticky_overseer.Pool.Control.{remove_from, purge_from, drain_all, sweep_expired}
use sticky_overseer.Pool.Fits.{Bounded}
use sticky_overseer.Pool.Bounds.{
  admit-Bounded, release_slot-Bounded, remove_from-Bounded, purge_from-Bounded,
  sweep_expired-Bounded,
}

module _ {ℓ} {C : Type ℓ} where
  -- The steps but `SetLimits`.
  pub data Step (pm : PoolManager C) : PoolManager C → Type ℓ where
    admits : (visit : List String) (now : ℕ) (a : Arrival C) → Step pm (admit visit now a pm).0
    has_started : (id : String) (failure : Option String) → Step pm (finish_start id failure pm)
    releases :
        (visit : List String) (now : ℕ) (id : String) → Step pm (release_slot visit now id pm).pool
    has_released :
        (x : QueuedItem C) (failure : Option String) → Step pm (finish_release x failure pm).0
    dequeues : (visit : List String) (id : String) → Step pm (remove_from visit id pm).0
    purges : (visit : List String) → Step pm (purge_from visit pm).0
    drains : (visit : List String) → Step pm (drain_all visit pm).0
    sweeps : (visit : List String) (now : ℕ) → Step pm (sweep_expired visit now pm).0

  pub data Reach (pm : PoolManager C) : PoolManager C → Type ℓ where
    here : Reach pm pm
    next : {pm' pm'' : PoolManager C} → Reach pm pm' → Step pm' pm'' → Reach pm pm''

  Step-Bounded : {pm pm' : PoolManager C} → Step pm pm' → Bounded pm → Bounded pm'
  unfolding finish_start finish_release drain_all
  Step-Bounded {pm} (admits visit now a) v = admit-Bounded visit now a pm v
  Step-Bounded (has_started id none) v = v
  Step-Bounded (has_started id (some e)) v = v
  Step-Bounded {pm} (releases visit now id) v = release_slot-Bounded visit now id pm v
  Step-Bounded (has_released x none) v = v
  Step-Bounded (has_released x (some e)) v = v
  Step-Bounded {pm} (dequeues visit id) v = remove_from-Bounded visit id pm v
  Step-Bounded {pm} (purges visit) v = purge_from-Bounded visit pm v
  Step-Bounded {pm} (drains visit) v = purge_from-Bounded visit pm v
  Step-Bounded {pm} (sweeps visit now) v = sweep_expired-Bounded visit now pm v

  Reach-Bounded : {pm pm' : PoolManager C} → Reach pm pm' → Bounded pm → Bounded pm'
  Reach-Bounded here v = v
  Reach-Bounded (next r s) v = Step-Bounded s (Reach-Bounded r v)

  -- Whatever calls a new pool gets, in whatever interleaving, no queue ever holds more items than
  -- the positive `Size` of its configuration, as long as no `SetLimits` is among them.
  pub new_pool-Bounded :
      (cfgs : List QueueConfig) (global_cfg : PoolConfig) (action_cfgs : List (String × PoolConfig))
      (pm : PoolManager C)
      → Reach (new_pool_manager cfgs global_cfg action_cfgs) pm
      → Bounded pm
  unfolding new_pool_manager lookup
  new_pool-Bounded cfgs global_cfg action_cfgs pm r = Reach-Bounded r (λ a. tt)
