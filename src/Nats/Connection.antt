-- ===== src/Nats/Connection.antt =====
-- The connection of `NatsGateway` to the queue. FastStream's broker is a parameter: each call of it is
-- recorded, and what it answers is given to the function that makes the call.
use oopsys_agent.Base.{
  String, suc, Bool, true, false, not, Option, none, some, List, [], ◌∷◌, if◌then◌else◌, Exc,
  is_exception, str, Result, ok, raised, Action, pure, raise, ◌>>=◌, ◌>>◌,
}
use oopsys_agent.Domain.{Json}
use oopsys_agent.Nats.State.{
  Broker, BrokerCall, build, connect, start, stop, Gateway, Node, Line, connect_failed, queue_ready,
  enqueue_failed, modify, say, call, set_gateway, set_runtime,
}
use oopsys_agent.Nats.State

-- `with contextlib.suppress(Exception)`
abbrev suppress : Action Node Unit → Action Node Unit
suppress m n =
    let (r, n') = m n in
    elim r [ ok _ ↦ (ok tt, n') | raised e ↦ (if is_exception e then ok tt else raised e, n') ]

abbrev set_connected : Bool → Action Node Unit
set_connected b = modify (set_runtime (λ r. record r { queue_connected = b }))

abbrev set_broker : Option Broker → Action Node Unit
set_broker b = modify (set_gateway (λ g. record g { broker = b }))

abbrev stop_held : Result Unit → Option Broker → Action Node Unit
stop_held answer none = pure tt
stop_held answer (some b) = suppress (call (stop b) answer)

-- `_safe_close`, with the answer of `stop`
unfoldable pub safe_close : Result Unit → Action Node Unit
safe_close answer n = (do stop_held answer n.gateway.broker; set_broker none) n

-- `_build_broker`: a new object, which holds no connection yet
unfoldable pub build_broker : Action Node Broker
build_broker n = (ok n.built, record n { built = suc n.built; calls = build n.built ∷ n.calls })

-- What the brokers answer during one `_connect_once`.
pub record Answers : Type 0 where
  pub stop_old : Result Unit
  pub connect : Result Unit
  pub start : Result Unit
  pub stop_new : Result Unit

-- The `except Exception` of `_connect_once`.
unfoldable pub connect_refused : Answers → Broker → Exc → Action Node Bool
connect_refused a b exc n =
    (do
      set_connected false
      suppress (call (stop b) a.stop_new)
      (λ m.
          if not m.gateway.connect_failed_logged
          then (do
            say (connect_failed (str exc))
            modify (set_gateway (λ g. record g { connect_failed_logged = true })))
              m
          else (ok tt, m))
      pure false)
      n

-- What follows a connection.
unfoldable pub connect_made : Broker → Action Node Bool
connect_made b = do
  set_broker (some b)
  set_connected true
  modify (set_gateway (λ g. record g { connect_failed_logged = false }))
  say queue_ready
  pure true

abbrev connect_tried : Answers → Broker → Result Unit → Action Node Bool
connect_tried a b (ok _) = connect_made b
connect_tried a b (raised exc) = if is_exception exc then connect_refused a b exc else raise exc

-- The body of the `try`.
abbrev try_connect : Answers → Broker → Action Node Unit
try_connect a b = do call (State.connect b) a.connect; call (State.start b) a.start

-- `_connect_once` after `_safe_close`.
unfoldable pub open_broker : Answers → Action Node Bool
unfolding build_broker connect_refused connect_made
open_broker a = do
  b ← build_broker
  (λ n. let (r, n') = try_connect a b n in connect_tried a b r n')

unfoldable pub connect_once : Answers → Action Node Bool
unfolding safe_close open_broker
connect_once a = do safe_close a.stop_old; open_broker a

-- `_retry_loop`, with the answers of its rounds. It returns when a round connects; `false` says that
-- the rounds given are over and it still waits.
unfoldable pub retry_loop : List Answers → Action Node Bool
retry_loop [] n = (ok false, n)
retry_loop (a ∷ rounds) n =
    let (r, n') = connect_once a n in
    let rest = retry_loop rounds n' in
    elim r [ ok true ↦ (ok true, n') | ok false ↦ rest | raised e ↦ (raised e, n') ]

-- `start`: without a connection the retry task is left running.
unfoldable pub start_gateway : Answers → Action Node Bool
start_gateway a = do
  connected ← connect_once a
  (if connected
      then pure true
      else (do modify (set_gateway (λ g. record g { retrying = true })); pure false))

-- The `try` of `publish`, by how the broker answered.
abbrev published : String → Result Unit → Action Node Bool
published subject (ok _) = pure true
published subject (raised exc) =
    if is_exception exc
    then (do set_connected false; say (enqueue_failed subject (str exc)); pure false)
    else raise exc

unfoldable pub publish : String → Json → Result Unit → Action Node Bool
publish subject payload answer n = elim n.gateway.broker [
  | none ↦ (ok false, n)
  | some b ↦
      published subject answer (record n { calls = State.publish b subject payload ∷ n.calls })
]

-- `close`: the retry task is cancelled and awaited, which changes nothing here.
unfoldable pub close : Result Unit → Action Node Unit
unfolding safe_close
close answer = do
  modify (set_gateway (λ g. record g { retrying = false }))
  safe_close answer
  set_connected false
