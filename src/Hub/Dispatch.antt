-- ===== src/Hub/Dispatch.antt =====
-- `HandleClient` of hub.go. The messages of a connection are given as a list, each with the instant
-- at which it is handled; the steps of others come between them in `Steps`.
pub mod Protocol
use Prim.Native.String.{◌++◌ as append}
use sticky_overseer.Base.{ℕ, String, Option, none, some, List, [], ◌∷◌, ite, text_eq, lookup}
use sticky_overseer.Hub.Types.{Hub, IncomingMessage, World, emit, close}
use sticky_overseer.Hub.Clients.{
  add_client, remove_client, send_error, handle_subscribe, handle_unsubscribe,
}
use sticky_overseer.Hub.Start.{handle_start}
use sticky_overseer.Hub.Exit.{handle_reset}
use sticky_overseer.Hub.Requests.{
  handle_metrics, handle_replay, handle_stop, handle_purge, handle_pool_info, handle_set_pool,
}
use sticky_overseer.Hub.Queries.{handle_list, handle_describe, handle_manifest}

-- The cases of the switch.
pub data Request : Type 0 where
  start list stop reset replay describe pool_info purge set_pool subscribe unsubscribe metrics
        manifest :
      Request

-- The types that the switch tests for, in its order.
abbrev pub requests : List (String × Request)
requests =
    ("start", start)
    ∷ ("list", list)
    ∷ ("stop", stop)
    ∷ ("reset", reset)
    ∷ ("replay", replay)
    ∷ ("describe", describe)
    ∷ ("pool_info", pool_info)
    ∷ ("purge", purge)
    ∷ ("set_pool", set_pool)
    ∷ ("subscribe", subscribe)
    ∷ ("unsubscribe", unsubscribe)
    ∷ ("metrics", metrics)
    ∷ ("manifest", manifest)
    ∷ []

unfoldable pub request_of : String → Option Request
request_of type_ = lookup type_ requests

module _ (world : World) where
  unfoldable pub serve : ℕ → ℕ → Request → IncomingMessage → Hub → Hub
  serve now conn start msg h = handle_start world now conn msg h
  serve now conn list msg h = handle_list world conn msg.id msg.since h
  serve now conn stop msg h = handle_stop world now conn msg.id msg.task_id h
  serve now conn reset msg h = handle_reset world now conn msg.id msg.task_id h
  serve now conn replay msg h = handle_replay world conn msg.id msg.task_id msg.since h
  serve now conn describe msg h = handle_describe world conn msg.id msg.action h
  serve now conn pool_info msg h = handle_pool_info world conn msg.id msg.action h
  serve now conn purge msg h = handle_purge world now conn msg.id msg.action h
  serve now conn set_pool msg h =
      handle_set_pool world now conn msg.id msg.action msg.limit msg.queue_size msg.excess h
  serve now conn subscribe msg h = handle_subscribe conn msg.id msg.task_id h
  serve now conn unsubscribe msg h = handle_unsubscribe conn msg.id msg.task_id h
  serve now conn metrics msg h = handle_metrics conn msg.id msg.task_id msg.action h
  serve now conn manifest msg h = handle_manifest world conn msg.id h

  -- A round of the loop, for a message that was read.
  unfoldable pub handle_request : ℕ → ℕ → IncomingMessage → Hub → Hub
  handle_request now conn msg h =
      ite (text_eq msg.id "") (send_error conn "" "id is required" h) (elim (request_of msg.type_) [
        | none ↦ send_error conn msg.id (append "unknown message type: " msg.type_) h
        | some request ↦ serve now conn request msg h
      ])

  unfoldable pub handle_messages : ℕ → List (ℕ × IncomingMessage) → Hub → Hub
  handle_messages conn [] h = h
  handle_messages conn ((now, msg) ∷ msgs) h =
      handle_messages conn msgs (handle_request now conn msg h)

  -- The messages are those before the error of `ReadJSON`.
  unfoldable pub handle_client : ℕ → List (ℕ × IncomingMessage) → Hub → Hub
  handle_client conn msgs h =
      emit (close conn) (remove_client conn (handle_messages conn msgs (add_client conn h)))
