-- ===== src/Hub/Dispatch/Protocol.antt =====
-- What `HandleClient` of hub.go answers against the messages that manifest.go documents.
use Prim.Native.String.{◌++◌ as append}
use sticky_overseer.Base.{
  ◌⊎◌, ℕ, ◌≡◌, ◌≢◌, refl, String, Bool, true, false, none, some, List, [], ◌∷◌, ◌&&◌, ite, text_eq,
  lookup, arith, inl, inr, Option-cases, Bool-cases, if_neg, subst, sym,
}
use sticky_overseer.Manifest.{build_manifest_messages}
use sticky_overseer.Manifest.Types.{ManifestMessage}
use sticky_overseer.Manifest.Requests
use sticky_overseer.Manifest.Events
use sticky_overseer.Manifest.Answers
use sticky_overseer.Manifest.Responses.{has_message}
use sticky_overseer.Hub.Types.{Hub, IncomingMessage, World}
use sticky_overseer.Hub.Clients.{send_error}
use sticky_overseer.Hub.Clients.{handle_subscribe, handle_unsubscribe}
use sticky_overseer.Hub.Start.{handle_start}
use sticky_overseer.Hub.Exit.{handle_reset}
use sticky_overseer.Hub.Requests.{
  handle_metrics, handle_replay, handle_stop, handle_purge, handle_pool_info, handle_set_pool,
}
use sticky_overseer.Hub.Queries.{handle_list, handle_describe, handle_manifest}
use sticky_overseer.Hub.Dispatch.{
  Request, start, list, stop, reset, replay, describe, pool_info, purge, set_pool, subscribe,
  unsubscribe, metrics, manifest, requests, request_of, serve, handle_request,
}

abbrev all_entries {ℓ} : {A : Type ℓ} → (String → A → Bool) → List (String × A) → Bool
all_entries p [] = true
all_entries p ((k, a) ∷ entries) = p k a && all_entries p entries

all_entries_lem {ℓ} :
    {A : Type ℓ} (p : String → A → Bool) (k : String) (a : A) (entries : List (String × A))
    → all_entries p entries ≡ true
    → lookup k entries ≡ some a
    → p k a ≡ true
unfolding lookup
all_entries_lem p k a [] all e = absurd (ground (arith, e))
all_entries_lem p k a ((j, b) ∷ entries) all e =
    ground (arith, all, e, all_entries_lem p k a entries)

abbrev is_documented : String → Request → Bool
is_documented type_ request = has_message "c2s" type_ build_manifest_messages

abbrev is_handled : String → ManifestMessage → Bool
is_handled type_ m =
    ite (text_eq m.direction "c2s") (elim (request_of type_) [ none ↦ false | some r ↦ true ]) true

documented : all_entries is_documented requests ≡ true
unfolding has_message build_manifest_messages Requests.request_messages Events.event_messages
    Answers.answer_messages lookup text_eq
documented = refl

handled : all_entries is_handled build_manifest_messages ≡ true
unfolding build_manifest_messages Requests.request_messages Events.event_messages
    Answers.answer_messages lookup text_eq request_of
handled = refl

request_of-has_message :
    (type_ : String) (r : Request)
    → request_of type_ ≡ some r
    → has_message "c2s" type_ build_manifest_messages ≡ true
unfolding request_of
request_of-has_message type_ r e = all_entries_lem is_documented type_ r requests documented e

has_message-request_of :
    (type_ : String)
    → has_message "c2s" type_ build_manifest_messages ≡ true
    → (r : Request) × (request_of type_ ≡ some r)
unfolding has_message
has_message-request_of type_ e = elim (Option-cases (request_of type_)) [
  | inr (r, f) ↦ (r, f)
  | inl f ↦ elim (Option-cases (lookup type_ build_manifest_messages)) [
    | inl k ↦ absurd (ground (arith, e, k))
    | inr (m, k) ↦ absurd (
        ground
          (arith, e, f, k, all_entries_lem is_handled type_ m build_manifest_messages handled k))
  ]
]

not_documented :
    (type_ : String)
    → request_of type_ ≡ none
    → has_message "c2s" type_ build_manifest_messages ≡ false
not_documented type_ f = elim (Bool-cases (has_message "c2s" type_ build_manifest_messages)) [
  | inr e ↦ e
  | inl e ↦ absurd (ground (arith, f, (has_message-request_of type_ e).1))
]

-- The type that a case of the switch stands for.
abbrev type_of : Request → String
type_of start = "start"
type_of list = "list"
type_of stop = "stop"
type_of reset = "reset"
type_of replay = "replay"
type_of describe = "describe"
type_of pool_info = "pool_info"
type_of purge = "purge"
type_of set_pool = "set_pool"
type_of subscribe = "subscribe"
type_of unsubscribe = "unsubscribe"
type_of metrics = "metrics"
type_of manifest = "manifest"

abbrev is_typed : String → Request → Bool
is_typed type_ request = ite (text_eq type_ (type_of request)) true false

typed : all_entries is_typed requests ≡ true
unfolding text_eq
typed = refl

-- The types of the protocol, each with the method of the hub that is to serve it and the fields of
-- the message that the method is given.
pub data IsServed (world : World) (now conn : ℕ) (msg : IncomingMessage) (h : Hub)
    : String → Hub → Type 0 where
  starts : IsServed world now conn msg h "start" (handle_start world now conn msg h)
  lists : IsServed world now conn msg h "list" (handle_list world conn msg.id msg.since h)
  stops : IsServed world now conn msg h "stop" (handle_stop world now conn msg.id msg.task_id h)
  resets : IsServed world now conn msg h "reset" (handle_reset world now conn msg.id msg.task_id h)
  replays :
      IsServed world now conn msg h "replay"
        (handle_replay world conn msg.id msg.task_id msg.since h)
  describes :
      IsServed world now conn msg h "describe" (handle_describe world conn msg.id msg.action h)
  informs :
      IsServed world now conn msg h "pool_info" (handle_pool_info world conn msg.id msg.action h)
  purges : IsServed world now conn msg h "purge" (handle_purge world now conn msg.id msg.action h)
  sets_pool :
      IsServed world now conn msg h "set_pool"
        (handle_set_pool world now conn msg.id msg.action msg.limit msg.queue_size msg.excess h)
  subscribes :
      IsServed world now conn msg h "subscribe" (handle_subscribe conn msg.id msg.task_id h)
  unsubscribes :
      IsServed world now conn msg h "unsubscribe" (handle_unsubscribe conn msg.id msg.task_id h)
  measures :
      IsServed world now conn msg h "metrics" (handle_metrics conn msg.id msg.task_id msg.action h)
  documents : IsServed world now conn msg h "manifest" (handle_manifest world conn msg.id h)

serve-IsServed :
    (world : World) (now conn : ℕ) (r : Request) (msg : IncomingMessage) (h : Hub)
    → IsServed world now conn msg h (type_of r) (serve world now conn r msg h)
unfolding serve
serve-IsServed world now conn start msg h = starts
serve-IsServed world now conn list msg h = lists
serve-IsServed world now conn stop msg h = stops
serve-IsServed world now conn reset msg h = resets
serve-IsServed world now conn replay msg h = replays
serve-IsServed world now conn describe msg h = describes
serve-IsServed world now conn pool_info msg h = informs
serve-IsServed world now conn purge msg h = purges
serve-IsServed world now conn set_pool msg h = sets_pool
serve-IsServed world now conn subscribe msg h = subscribes
serve-IsServed world now conn unsubscribe msg h = unsubscribes
serve-IsServed world now conn metrics msg h = measures
serve-IsServed world now conn manifest msg h = documents

request_of-type_of : (type_ : String) (r : Request) → request_of type_ ≡ some r → type_of r ≡ type_
unfolding request_of
request_of-type_of type_ r e = ground (arith, all_entries_lem is_typed type_ r requests typed e)

-- A request with an ID is served by the hub's method for its type, on the fields of the message
-- that this method needs, where the document has a message of that type from the client to the
-- server; where it has none, the answer is the error that the type is unknown, and nothing else
-- happens.
pub handle_request-has_message :
    (world : World) (now conn : ℕ) (msg : IncomingMessage) (h : Hub)
    → msg.id ≢ ""
    → ((has_message "c2s" msg.type_ build_manifest_messages ≡ true)
        × IsServed world now conn msg h msg.type_ (handle_request world now conn msg h))
      ⊎ ((has_message "c2s" msg.type_ build_manifest_messages ≡ false)
          × (handle_request world now conn msg h
              ≡ send_error conn msg.id (append "unknown message type: " msg.type_) h))
unfolding handle_request
handle_request-has_message world now conn msg h n = elim (Option-cases (request_of msg.type_)) [
  | inr (r, f) ↦
      let served : IsServed world now conn msg h msg.type_ (serve world now conn r msg h) =
        subst (λ t. IsServed world now conn msg h t (serve world now conn r msg h))
          (request_of-type_of msg.type_ r f) (serve-IsServed world now conn r msg h) in
      inl (
        request_of-has_message msg.type_ r f,
        rw (f, handle_request)
            (subst (IsServed world now conn msg h msg.type_)
              (sym (if_neg (text_eq msg.id "") n _ _)) served),
      )
  | inl f ↦
      inr (not_documented msg.type_ f, rw (f, handle_request) (if_neg (text_eq msg.id "") n _ _))
]
