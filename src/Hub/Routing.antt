-- ===== src/Hub/Routing.antt =====
-- Who gets the messages about a task.
use sticky_overseer.Base.{
  contains, add_key, contains-add_key, ℕ, ◌+◌, ◌≡◌, refl, ap, ◌∙◌, String, Bool, true, false, none,
  some, List, [], ◌∷◌, ◌==◌, ite, text_eq, arith, count_by, keep, if◌then◌else◌, inl, inr,
  Bool-cases, Option-cases, ℕ_discrete, subst,
}
use sticky_overseer.Hub.Types.{Hub, Message, Effect, World, send, close, emit}
use sticky_overseer.Hub.Once.{has_once, subscriptions_of-change}
use sticky_overseer.Hub.Clients.{
  subscriptions_of, targets_of, send_to, drop_dead, remove_client, broadcast_to_subscribers,
  is_dead, subscribe,
}

-- Is the connection subscribed to the task?
abbrev pub is_subscribed : ℕ → String → List (ℕ × List String) → Bool
is_subscribed conn id subscriptions = elim (subscriptions_of conn subscriptions) [
  | none ↦ false
  | some subs ↦ contains id subs
]

-- Writes to the connection among the effects.
abbrev pub is_send_to : ℕ → Effect → Bool
is_send_to conn (send c msg) = c == conn
is_send_to conn _ = false

count_by-send_to :
    (c : ℕ) (targets : List ℕ) (msg : Message) (h : Hub)
    → count_by (is_send_to c) (send_to targets msg h).effects
      ≡ count_by (is_send_to c) h.effects + count_by (λ t. t == c) targets
unfolding send_to
count_by-send_to c [] msg h = omega arith
count_by-send_to c (t ∷ targets) msg h =
    ground (arith, count_by-send_to c targets msg (emit (send t msg) h))

count_by-drop_dead :
    (c : ℕ) (dead : List ℕ) (h : Hub)
    → count_by (is_send_to c) (drop_dead dead h).effects ≡ count_by (is_send_to c) h.effects
unfolding drop_dead remove_client
count_by-drop_dead c [] h = refl
count_by-drop_dead c (d ∷ dead) h = count_by-drop_dead c dead (emit (close d) (remove_client d h))

-- A connection without a subscription set is no target.
count_by-targets_absent :
    (c : ℕ) (id : String) (s : List (ℕ × List String))
    → subscriptions_of c s ≡ none
    → count_by (λ t. t == c) (targets_of id s) ≡ 0
unfolding targets_of
count_by-targets_absent c id [] e = refl
count_by-targets_absent c id ((d, subs) ∷ s) e = ground (arith, count_by-targets_absent c id s)

count_by-targets_of :
    (c : ℕ) (id : String) (s : List (ℕ × List String))
    → has_once s ≡ true
    → count_by (λ t. t == c) (targets_of id s) ≡ (if is_subscribed c id s then 1 else 0)
unfolding targets_of
count_by-targets_of c id [] h = refl
count_by-targets_of c id ((d, subs) ∷ s) h = elim (Option-cases (subscriptions_of d s)) [
  | inr (x, e) ↦ absurd (ground (arith, e))
  | inl e ↦ elim (ℕ_discrete d c) [
    | yes p ↦
        let gone : count_by (λ t. t == c) (targets_of id s) ≡ 0 =
          subst (λ n. count_by (λ t. t == n) (targets_of id s) ≡ 0) p
            (count_by-targets_absent d id s e) in
        elim (Bool-cases (contains id subs)) [
          | inl b ↦ ground (arith, gone, b, p)
          | inr b ↦ ground (arith, gone, b, p)
        ]
    | no n ↦
        let rest = count_by-targets_of c id s (ground (arith, e)) in
        elim (Bool-cases (contains id subs)) [
          | inl b ↦ ground (arith, rest, b, n)
          | inr b ↦ ground (arith, rest, b, n)
        ]
  ]
]

-- Where the map of subscriptions has each connection once, a message about a task is written once
-- to each connection that is subscribed to the task, and to no other, whether or not the writes
-- succeed.
pub count_by-broadcast_to_subscribers :
    (world : World) (c : ℕ) (id : String) (msg : Message) (h : Hub)
    → has_once h.subscriptions ≡ true
    → count_by (is_send_to c) (broadcast_to_subscribers world id msg h).effects
      ≡ count_by (is_send_to c) h.effects + (if is_subscribed c id h.subscriptions then 1 else 0)
unfolding broadcast_to_subscribers
count_by-broadcast_to_subscribers world c id msg h once =
    let targets = targets_of id h.subscriptions in
    count_by-drop_dead c (keep (is_dead world msg) targets) (send_to targets msg h)
    ∙ count_by-send_to c targets msg h
    ∙ ap (λ n. count_by (is_send_to c) h.effects + n)
        (count_by-targets_of c id h.subscriptions once)

-- A subscription of a connected client adds the task to what the client is subscribed to, and
-- changes no other subscription of it or of another connection.
pub subscribe-is_subscribed :
    (conn c : ℕ) (x id : String) (subs : List String) (h : Hub)
    → subscriptions_of conn h.subscriptions ≡ some subs
    → is_subscribed c id (subscribe conn x h).subscriptions ≡ (
        if conn == c
        then ite (text_eq x id) true (is_subscribed c id h.subscriptions)
        else is_subscribed c id h.subscriptions)
unfolding subscribe
subscribe-is_subscribed conn c x id subs h e =
    rw (subscriptions_of-change c conn (add_key x) h.subscriptions, is_subscribed)
      (elim (ℕ_discrete conn c) [
        | yes p ↦
            let e' : subscriptions_of c h.subscriptions ≡ some subs =
              subst (λ n. subscriptions_of n h.subscriptions ≡ some subs) p e in
            rw (e', is_subscribed) (ground (arith, contains-add_key x id subs, p))
        | no n ↦ ground (arith, n)
      ])
