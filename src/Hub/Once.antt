-- ===== src/Hub/Once.antt =====
-- The map of subscriptions of hub.go has a connection once.
use sticky_overseer.Base.{
  ℕ, ◌≡◌, refl, String, Bool, true, false, Option, none, some, List, [], ◌∷◌, ◌==◌, arith,
  if◌then◌else◌, inl, inr, Bool-cases, Option-cases,
}
use sticky_overseer.Hub.Clients.{subscriptions_of, change_subscriptions, without_conn}

abbrev pub has_once : List (ℕ × List String) → Bool
has_once [] = true
has_once ((c, subs) ∷ rest) = elim (subscriptions_of c rest) [
  | none ↦ has_once rest
  | some _ ↦ false
]

pub subscriptions_of-change :
    (c conn : ℕ) (f : List String → List String) (s : List (ℕ × List String))
    → subscriptions_of c (change_subscriptions conn f s) ≡ (
        if conn == c
        then (elim (subscriptions_of c s) as (λ _. Option (List String)) [
          | none ↦ none
          | some subs ↦ some (f subs)
        ])
        else subscriptions_of c s)
subscriptions_of-change c conn f [] = elim (Bool-cases (conn == c)) [
  | inl e ↦ rw e refl
  | inr e ↦ rw e refl
]
subscriptions_of-change c conn f ((d, subs) ∷ s) =
    ground (arith, subscriptions_of-change c conn f s)

pub has_once-change_subscriptions :
    (conn : ℕ) (f : List String → List String) (s : List (ℕ × List String))
    → has_once s ≡ true
    → has_once (change_subscriptions conn f s) ≡ true
has_once-change_subscriptions conn f [] h = refl
has_once-change_subscriptions conn f ((d, subs) ∷ s) h =
    elim (Option-cases (subscriptions_of d s)) [
      | inr (x, e) ↦ absurd (ground (arith, e, h))
      | inl e ↦
          ground (
            arith,
            h,
            e,
            has_once-change_subscriptions conn f s,
            subscriptions_of-change d conn f s,
          )
    ]

-- A connection that is removed has no set, and no connection gets one by it.
subscriptions_of-without_conn_self :
    (conn : ℕ) (s : List (ℕ × List String)) → subscriptions_of conn (without_conn conn s) ≡ none
subscriptions_of-without_conn_self conn [] = refl
subscriptions_of-without_conn_self conn ((d, subs) ∷ s) =
    ground (arith, subscriptions_of-without_conn_self conn s)

subscriptions_of-without_conn :
    (c conn : ℕ) (s : List (ℕ × List String))
    → subscriptions_of c s ≡ none
    → subscriptions_of c (without_conn conn s) ≡ none
subscriptions_of-without_conn c conn [] h = refl
subscriptions_of-without_conn c conn ((d, subs) ∷ s) h =
    ground (arith, h, subscriptions_of-without_conn c conn s)

pub has_once-without_conn :
    (conn : ℕ) (s : List (ℕ × List String))
    → has_once s ≡ true
    → has_once (without_conn conn s) ≡ true
has_once-without_conn conn [] h = refl
has_once-without_conn conn ((d, subs) ∷ s) h = elim (Option-cases (subscriptions_of d s)) [
  | inr (x, e) ↦ absurd (ground (arith, e, h))
  | inl e ↦
      ground (arith, h, e, has_once-without_conn conn s, subscriptions_of-without_conn d conn s e)
]

-- A connection that joins has one set.
pub has_once-added :
    (conn : ℕ) (s : List (ℕ × List String))
    → has_once s ≡ true
    → has_once ((conn, []) ∷ without_conn conn s) ≡ true
has_once-added conn s h =
    rw (subscriptions_of-without_conn_self conn s, has_once) (has_once-without_conn conn s h)
