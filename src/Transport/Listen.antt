-- ===== src/Transport/Listen.antt =====
-- `Listen` of the transports of transport.go: the handlers of their HTTP servers, and what their
-- goroutines do in the end. Sockets, HTTP and the upgrade of a connection are the libraries'.
use Prim.Native.String.{◌++◌ as append}
use sticky_overseer.Base.{String, Bool, Option, none, some, List, [], ◌∷◌, ◌++◌, ◌⊎◌, if◌then◌else◌}
use sticky_overseer.Actions.{ActionInfo}
use sticky_overseer.OpenApi.{SwaggerSpec, build_openapi_spec}
use sticky_overseer.Transport.{
  Transport, TcpTransport, NetLibrary, stdio_transport, unix_transport, tcp_transport, admits,
}

-- What becomes of a request to `/ws`: the answer that it is forbidden, an upgrade that failed, a
-- connection in the channel, or one that is closed because the server shuts down.
pub data Admission : Type 0 where
  forbidden : Admission
  upgrade_failed : String → Admission
  handed_over closed : Admission

-- What `select` in the goroutine received: the end of the context, or the error of `Serve`.
pub data Ending : Type 0 where
  context_done : Ending
  serve_failed : Option String → Ending

-- What `Listen` and its goroutine do to the outside, in order.
pub data Act : Type 0 where
  removes_file : (path : String) → Act
  sends_conn closes_conn shuts_down closes_listener closes_channel : Act

module _ {Ip IpNet : Type 0} (lib : NetLibrary Ip IpNet) where
  -- The handler of `/ws`. `upgraded` is the error of `Upgrade`, and `received` tells whether the
  -- channel took the connection before the end of the context.
  unfoldable pub serve_ws :
      Transport IpNet
      → (remote_addr : String) (upgraded : Option String) (received : Bool) → Admission
  serve_ws transport remote_addr upgraded received =
      if admits lib transport remote_addr
      then (elim upgraded [
        | some err ↦ upgrade_failed err
        | none ↦ if received then handed_over else closed
      ])
      else forbidden

abbrev ends : Ending → List Act
ends context_done = shuts_down ∷ []
ends (serve_failed err) = []

module _ {IpNet : Type 0} where
  -- The handler of `/openapi.json`, with the actions of the hub.
  unfoldable pub serve_openapi :
      (SwaggerSpec → String ⊎ String)
      → Option (List (String × ActionInfo))
      → TcpTransport IpNet
      → String
  serve_openapi marshal_indent actions t =
      build_openapi_spec marshal_indent (if t.has_hub then actions else none) t.version t.name

  -- The text of the error where the listener cannot be made.
  unfoldable pub listen_error : Transport IpNet → String → Option String
  listen_error stdio_transport err = none
  listen_error (tcp_transport t) err =
      some (append "tcp transport: listen " (append t.addr (append ": " err)))
  listen_error (unix_transport path nets) err =
      some (append "unix transport: listen " (append path (append ": " err)))

  -- What comes before the listener.
  unfoldable pub before_listening : Transport IpNet → List Act
  before_listening (unix_transport path nets) = removes_file path ∷ []
  before_listening _ = []

  -- The goroutine of `Listen`, with its deferred calls, the latest first. On stdio, `received` tells
  -- whether the channel took the connection.
  unfoldable pub after_listening : Transport IpNet → (received : Bool) → Ending → List Act
  after_listening stdio_transport received ending =
      (if received then sends_conn else closes_conn) ∷ closes_channel ∷ []
  after_listening (tcp_transport t) received ending =
      ends ending ++ closes_listener ∷ closes_channel ∷ []
  after_listening (unix_transport path nets) received ending =
      ends ending ++ closes_listener ∷ removes_file path ∷ closes_channel ∷ []
