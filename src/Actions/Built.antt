-- ===== src/Actions/Built.antt =====
-- What the handlers are that `BuildActionHandlers` of actions.go builds.
use sticky_overseer.Base.{
  DistinctKeys, ◌≡◌, refl, sym, ◌∙◌, String, Option, none, some, List, [], ◌∷◌, ◌++◌, ◌≢◌, All, ap,
  ℤ, pos, negsuc, zero, suc, is_zero, true, text_eq, ◌⊎◌, inl, inr, lookup, insert,
  lookup-insert_self, lookup-insert_ne, arith, Option-cases, subst, if_pos, if_neg,
}
use sticky_overseer.Messages.{RetryPolicy}
use sticky_overseer.Config.{ActionConfig, Config}
use sticky_overseer.Actions.{
  or_global, merge_retry_policy, ActionHandlerFactory, BuildError, find_factory, create_action,
  build_handler, build_from, build_action_handlers,
}

module _ {ℓ} {Raw : Type 0} {Handler : Type ℓ}
    (registry : List (ActionHandlerFactory Raw Handler)) where
  -- What the loop leaves for a name: a new handler, or what the map had where no such action follows.
  abbrev IsMade :
      RetryPolicy → String → Option (ActionConfig Raw) → (before found : Option Handler) → Type ℓ
  IsMade retry name none before found = found ≡ before
  IsMade retry name (some ac) before found =
      (handler : Handler) × (f : ActionHandlerFactory Raw Handler) × (found ≡ some handler)
      × (find_factory ac.type_ registry ≡ some f)
      × (create_action retry name ac f ≡ inr handler)

  build_handler_lem :
      (retry : RetryPolicy) (name : String) (ac : ActionConfig Raw) (handler : Handler)
      → build_handler registry retry name ac ≡ inr handler
      → (f : ActionHandlerFactory Raw Handler) × (find_factory ac.type_ registry ≡ some f)
        × (create_action retry name ac f ≡ inr handler)
  unfolding build_handler
  build_handler_lem retry name ac handler h = elim (Option-cases (find_factory ac.type_ registry)) [
    | inl e ↦ absurd (ground (arith, h, e))
    | inr (f, e) ↦ (f, e, go (create_action retry name ac f) f e refl)
  ]
    where
      go :
          (r : String ⊎ Handler) (f : ActionHandlerFactory Raw Handler)
          → find_factory ac.type_ registry ≡ some f
          → create_action retry name ac f ≡ r
          → create_action retry name ac f ≡ inr handler
      go (inl err) f e k = absurd (ground (arith, h, e, k))
      go (inr handler') f e k = ground (arith, h, e, k)

  -- The handler of one more action.
  insert-IsMade :
      (retry : RetryPolicy) (n name : String) (ac : ActionConfig Raw) (handler : Handler)
      (actions : List (String × ActionConfig Raw)) (result : List (String × Handler))
      (found : Option Handler)
      → build_handler registry retry n ac ≡ inr handler
      → lookup n actions ≡ none
      → IsMade retry name (lookup name actions) (lookup name (insert n handler result)) found
      → IsMade retry name (lookup name ((n, ac) ∷ actions)) (lookup name result) found
  unfolding lookup
  insert-IsMade retry n name ac handler actions result found h d later = elim (text_eq n name) [
    | yes e ↦
        let (f, chosen, made) = build_handler_lem retry n ac handler h in
        let same : found ≡ some handler =
          subst (λ o. IsMade retry n o (lookup n (insert n handler result)) found) d
            (subst
              (λ k. IsMade retry k (lookup k actions) (lookup k (insert n handler result)) found)
              (sym e) later)
          ∙ lookup-insert_self n handler result in
        subst (λ k. IsMade retry k (lookup k ((n, ac) ∷ actions)) (lookup k result) found) e
          (subst (λ o. IsMade retry n o (lookup n result) found)
            (sym (if_pos (text_eq n n) refl _ _)) (handler, f, same, chosen, made))
    | no e ↦
        subst (λ o. IsMade retry name o (lookup name result) found)
          (sym (if_neg (text_eq n name) e _ _))
          (subst (λ b. IsMade retry name (lookup name actions) b found)
            (lookup-insert_ne n name handler result e) later)
  ]

  build_from-IsMade :
      (retry : RetryPolicy) (actions : List (String × ActionConfig Raw))
      (result handlers : List (String × Handler))
      → DistinctKeys actions
      → build_from registry retry actions result ≡ inr handlers
      → (name : String)
      → IsMade retry name (lookup name actions) (lookup name result) (lookup name handlers)
  unfolding build_from lookup
  build_from-IsMade retry [] result handlers d h name = ground (arith, h)
  build_from-IsMade retry ((n, ac) ∷ actions) result handlers d h name =
      go (build_handler registry retry n ac)
        (λ r k. build_from-IsMade retry actions r handlers d.1 k name) refl
    where
      go :
          (built : BuildError ⊎ Handler)
          → ((r : List (String × Handler))
              → build_from registry retry actions r ≡ inr handlers
              → IsMade retry name (lookup name actions) (lookup name r) (lookup name handlers))
          → build_handler registry retry n ac ≡ built
          → IsMade retry name
              (lookup name ((n, ac) ∷ actions))
              (lookup name result)
              (lookup name handlers)
      go (inl err) later e = absurd (ground (arith, h, e))
      go (inr handler) later e =
          insert-IsMade retry n name ac handler actions result _ e d.0
            (later (insert n handler result) (rw (e, build_from) at h))

-- The first registered factory of a type.
abbrev pub IsFirst {ℓ} :
    {Raw : Type 0} {Handler : Type ℓ}
    → String
    → List (ActionHandlerFactory Raw Handler)
    → ActionHandlerFactory Raw Handler
    → Type ℓ
IsFirst {Raw} {Handler} type_ registry f =
    (before : List (ActionHandlerFactory Raw Handler)) × (after : List
      (ActionHandlerFactory Raw Handler))
    × (registry ≡ before ++ f ∷ after)
    × (f.type_ ≡ type_)
    × All (λ g. g.type_ ≢ type_) before

find_factory-IsFirst {ℓ} :
    {Raw : Type 0} {Handler : Type ℓ} (type_ : String)
    (registry : List (ActionHandlerFactory Raw Handler)) (f : ActionHandlerFactory Raw Handler)
    → find_factory type_ registry ≡ some f
    → IsFirst type_ registry f
unfolding find_factory
find_factory-IsFirst type_ [] f h = cc
find_factory-IsFirst type_ (g ∷ registry) f h = elim (text_eq g.type_ type_) [
  | yes e ↦
      let same : g ≡ f = ground (arith, h, e) in
      ([], registry, ap (λ k. k ∷ registry) same, sym (ap (λ k. k.type_) same) ∙ e, tt)
  | no n ↦
      let (before, after, split, own, others) =
        find_factory-IsFirst type_ registry f (ground (arith, h, n)) in
      (g ∷ before, after, ap (◌∷◌ g) split, own, (n, others))
]

-- A field of the merged policy: that of the action where it is not 0, else the global one.
abbrev pub IsOverridden : (global override merged : ℤ) → Type 0
IsOverridden global override merged =
    ((override ≡ pos 0) × (merged ≡ global)) ⊎ ((override ≢ pos 0) × (merged ≡ override))

-- The policy of an action merged with the global one, whose jitter stays.
pub record IsMerged (global override merged : RetryPolicy) : Type 0 where
  pub delay : IsOverridden global.restart_delay override.restart_delay merged.restart_delay
  pub window : IsOverridden global.error_window override.error_window merged.error_window
  pub threshold :
      IsOverridden global.error_threshold override.error_threshold merged.error_threshold
  pub jitter : merged.restart_jitter ≡ global.restart_jitter

or_global-IsOverridden :
    (global override : ℤ) → IsOverridden global override (or_global global override)
or_global-IsOverridden global (pos zero) = inl (refl, refl)
or_global-IsOverridden global (pos (suc n)) = inr (λ e. not_zero (ap is_zero e), ground arith)
  where
    not_zero : is_zero (pos (suc n)) ≡ true → ⊥
    not_zero e = ground (arith, e)
or_global-IsOverridden global (negsuc n) = inr (λ e. cc e, refl)

merge_retry_policy-IsMerged :
    (global override : RetryPolicy) → IsMerged global override (merge_retry_policy global override)
unfolding merge_retry_policy
merge_retry_policy-IsMerged global override = record {
  delay = or_global-IsOverridden global.restart_delay override.restart_delay;
  window = or_global-IsOverridden global.error_window override.error_window;
  threshold = or_global-IsOverridden global.error_threshold override.error_threshold;
  jitter = refl;
}

-- What the map has for a name: nothing where the configuration has no such action, and else what
-- the first factory of the action's type creates under the merged policy.
abbrev pub IsBuilt {ℓ} :
    {Raw : Type 0} {Handler : Type ℓ}
    → List (ActionHandlerFactory Raw Handler)
    → RetryPolicy
    → String
    → Option (ActionConfig Raw)
    → Option Handler
    → Type ℓ
IsBuilt registry retry name none found = found ≡ none
IsBuilt {Raw} {Handler} registry retry name (some ac) found =
    (handler : Handler) × (f : ActionHandlerFactory Raw Handler) × (merged : RetryPolicy) × (found
      ≡ some handler)
    × IsFirst ac.type_ registry f
    × IsMerged retry ac.retry merged
    × (f.create ac.config name merged ac.task_pool ac.dedupe_key ≡ inr handler)

IsMade-IsBuilt {ℓ} :
    {Raw : Type 0} {Handler : Type ℓ} (registry : List (ActionHandlerFactory Raw Handler))
    (retry : RetryPolicy) (name : String) (ac : Option (ActionConfig Raw)) (found : Option Handler)
    → IsMade registry retry name ac none found
    → IsBuilt registry retry name ac found
IsMade-IsBuilt registry retry name none found m = m
IsMade-IsBuilt registry retry name (some ac) found (handler, f, is, first, made) = (
  handler,
  f,
  merge_retry_policy retry ac.retry,
  is,
  find_factory-IsFirst ac.type_ registry f first,
  merge_retry_policy-IsMerged retry ac.retry,
  made,
)

-- Where `BuildActionHandlers` returns no error, for actions of different names, its map has a
-- handler for exactly the configured actions: what `Create` of the first registered factory of the
-- action's type made of the action's name and configuration under the merged retry policy. That has
-- the action's own delay, window and threshold where these are not 0, and else the global ones, and
-- the global jitter.
pub build_action_handlers-IsBuilt {ℓ} :
    {Raw : Type 0} {Handler : Type ℓ} (registry : List (ActionHandlerFactory Raw Handler))
    (cfg : Config Raw) (handlers : List (String × Handler))
    → DistinctKeys cfg.actions
    → build_action_handlers registry cfg ≡ inr handlers
    → (name : String)
    → IsBuilt registry cfg.retry name (lookup name cfg.actions) (lookup name handlers)
unfolding build_action_handlers lookup
build_action_handlers-IsBuilt registry cfg handlers d h name =
    IsMade-IsBuilt registry cfg.retry name (lookup name cfg.actions) (lookup name handlers)
      (build_from-IsMade registry cfg.retry cfg.actions [] handlers d h name)
