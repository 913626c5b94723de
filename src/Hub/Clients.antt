-- ===== src/Hub/Clients.antt =====
-- Connections, subscriptions and the routing of messages in hub.go.
use sticky_overseer.Base.{
  contains, add_key, remove_key, ℕ, String, Bool, Option, none, some, List, [], ◌∷◌, ◌==◌, not, ite,
  text_eq, if◌then◌else◌, keep,
}
use sticky_overseer.Hub.Types.{
  Hub, Message, send, close, World, emit, error_message, subscribed, unsubscribed,
}

abbrev pub subscriptions_of : ℕ → List (ℕ × List String) → Option (List String)
subscriptions_of conn [] = none
subscriptions_of conn ((c, subs) ∷ rest) =
    if c == conn then some subs else subscriptions_of conn rest

abbrev pub without_conn : ℕ → List (ℕ × List String) → List (ℕ × List String)
without_conn conn [] = []
without_conn conn ((c, subs) ∷ rest) =
    if c == conn then without_conn conn rest else (c, subs) ∷ without_conn conn rest

-- `if subs, ok := h.subscriptions[conn]; ok { ... }`, where the body changes the set.
abbrev pub change_subscriptions :
    ℕ → (List String → List String) → List (ℕ × List String) → List (ℕ × List String)
change_subscriptions conn f [] = []
change_subscriptions conn f ((c, subs) ∷ rest) =
    if c == conn then (c, f subs) ∷ rest else (c, subs) ∷ change_subscriptions conn f rest

unfoldable pub add_client : ℕ → Hub → Hub
add_client conn h = record h {
  clients = conn ∷ keep (λ c. not (c == conn)) h.clients;
  subscriptions = (conn, []) ∷ without_conn conn h.subscriptions;
}

unfoldable pub remove_client : ℕ → Hub → Hub
remove_client conn h = record h {
  clients = keep (λ c. not (c == conn)) h.clients;
  subscriptions = without_conn conn h.subscriptions;
}

-- The write to each target.
unfoldable pub send_to : List ℕ → Message → Hub → Hub
send_to [] msg h = h
send_to (conn ∷ targets) msg h = send_to targets msg (emit (send conn msg) h)

-- The loop that removes and closes the dead connections.
unfoldable pub drop_dead : List ℕ → Hub → Hub
drop_dead [] h = h
drop_dead (conn ∷ dead) h = drop_dead dead (emit (close conn) (remove_client conn h))

-- The connections subscribed to a task.
unfoldable pub targets_of : String → List (ℕ × List String) → List ℕ
targets_of id [] = []
targets_of id ((conn, subs) ∷ rest) =
    if contains id subs then conn ∷ targets_of id rest else targets_of id rest

module _ (world : World) where
  abbrev pub is_dead : Message → ℕ → Bool
  is_dead msg conn = not (world.write_json conn msg)

  unfoldable pub broadcast : Message → Hub → Hub
  broadcast msg h = drop_dead (keep (is_dead msg) h.clients) (send_to h.clients msg h)

  unfoldable pub broadcast_to_subscribers : String → Message → Hub → Hub
  broadcast_to_subscribers id msg h =
      let targets = targets_of id h.subscriptions in
      drop_dead (keep (is_dead msg) targets) (send_to targets msg h)

-- `sendJSON`, whose error is ignored, and `sendError`.
abbrev pub send_json : ℕ → Message → Hub → Hub
send_json conn msg h = emit (send conn msg) h

abbrev pub send_error : ℕ → String → String → Hub → Hub
send_error conn id message h = send_json conn (error_message id message "") h

unfoldable pub subscribe : ℕ → String → Hub → Hub
subscribe conn id h = record h {
  subscriptions = change_subscriptions conn (add_key id) h.subscriptions;
}

unfoldable pub handle_subscribe : ℕ → String → String → Hub → Hub
handle_subscribe conn id task_id h =
    ite (text_eq task_id "") (send_error conn id "task_id required for subscribe" h)
      (send_json conn (subscribed id task_id) (subscribe conn task_id h))

unfoldable pub handle_unsubscribe : ℕ → String → String → Hub → Hub
handle_unsubscribe conn id task_id h =
    let h' : Hub = record h {
      subscriptions = change_subscriptions conn (remove_key task_id) h.subscriptions;
    } in
    ite (text_eq task_id "") (send_error conn id "task_id required for unsubscribe" h)
      (send_json conn (unsubscribed id task_id) h')
