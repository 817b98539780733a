-- ===== src/Nats/Interleaved.antt =====
-- `NatsGateway` as asyncio runs it: `start` and its retry task one await at a time, with the
-- publications of other tasks and with `close` in between, which is a coroutine of its own. A call of a
-- broker is recorded where it is made; what it answers comes with the step that resumes the coroutine.
-- Log lines are written at once. `start` is called once, and `close` not again before it has ended.
mod Alone
pub mod Accounts
mod Tests
use oopsys_agent.Base.{
  ℕ, zero, suc, String, Bool, true, false, not, ◌&&◌, Option, none, some, List, [], ◌∷◌, ◌++◌, Exc,
  cancelled, str, Result, ok, raised, if◌then◌else◌,
}
use oopsys_agent.Domain.{Json}
use oopsys_agent.Nats.State.{
  Broker, BrokerCall, build, connect, start, stop, publish, Gateway, Node, Line, connect_failed,
  queue_ready, enqueue_failed, set_gateway, set_runtime,
}

-- Where `start` or the retry task awaits.
pub data Phase : Type 0 where
  -- before `start`
  fresh : Phase
  -- `_safe_close`, in `_connect_once`
  stopping : Broker → Phase
  -- `_connect_once`
  connecting starting : Broker → Phase
  -- its `except Exception`
  giving_up : Broker → Exc → Phase
  -- between two rounds of `_retry_loop`
  sleeping : Phase
  -- no coroutine: the queue is connected
  ready : Phase
  -- it was cancelled where it awaited
  aborted : Phase

-- Where `close` is.
pub data Closing : Type 0 where
  -- not called yet
  idle : Closing
  -- `_safe_close`
  stopping_held : Broker → Closing
  -- it has returned
  over : Closing
  -- it was cancelled where it awaited
  interrupted : Closing

pub record Machine : Type 0 where
  pub phase : Phase
  pub close : Closing
  pub node : Node
  -- the subjects of the publications that await their broker
  pub in_flight : List String
  -- the brokers that a coroutine was connecting when it was cancelled
  pub cut : List Broker

-- A step of the event loop.
pub data Event : Type 0 where
  begun : Event
  resumed : Result Unit → Event
  publishing : String → Json → Event
  published : ℕ → Result Unit → Event
  close_called : Event
  close_resumed : Result Unit → Event

abbrev pub called : BrokerCall → Node → Node
called c n = record n { calls = c ∷ n.calls }

abbrev pub with_broker : Option Broker → Node → Node
with_broker b = set_gateway (λ g. record g { broker = b })

abbrev pub with_connected : Bool → Node → Node
with_connected b = set_runtime (λ r. record r { queue_connected = b })

abbrev pub logged : Line → Node → Node
logged line n = record n { log = line ∷ n.log }

-- `broker = self._build_broker()`, up to `await broker.connect()`
abbrev pub broker_opened : Node → Phase × Node
broker_opened n = (
  connecting n.built,
  called (connect n.built) (called (build n.built) (record n { built = suc n.built })),
)

-- `_connect_once`, up to its first await
abbrev pub begin_connect : Option Broker → Node → Phase × Node
begin_connect none n = broker_opened n
begin_connect (some b) n = (stopping b, called (stop b) n)

-- `except Exception`, up to `await broker.stop()`
abbrev pub begin_refused : Broker → Exc → Node → Phase × Node
begin_refused b exc n = (giving_up b exc, called (stop b) (with_connected false n))

-- ... and the rest of it, with the retry task that `start` makes
abbrev pub given_up : Exc → Node → Node
given_up exc n =
    let m =
      if not n.gateway.connect_failed_logged
      then logged (connect_failed (str exc))
          (set_gateway (λ g. record g { connect_failed_logged = true }) n)
      else n in
    set_gateway (λ g. record g { retrying = true }) m

-- What follows `await broker.start()`
abbrev pub broker_made : Broker → Node → Node
broker_made b n = logged queue_ready (
    set_gateway (λ g. record g { connect_failed_logged = false })
      (with_connected true (with_broker (some b) n)))

-- A coroutine resumed with an answer.
abbrev pub resume : Result Unit → Phase → Node → Phase × Node
resume r (stopping b) n = broker_opened (with_broker none n)
resume (ok _) (connecting b) n = (starting b, called (start b) n)
resume (raised exc) (connecting b) n = begin_refused b exc n
resume (ok _) (starting b) n = (ready, broker_made b n)
resume (raised exc) (starting b) n = begin_refused b exc n
resume r (giving_up b exc) n = (sleeping, given_up exc n)
resume r p n = (p, n)

-- The broker that a coroutine lets go of if it is cancelled here.
abbrev pub let_go : Phase → List Broker
let_go (connecting b) = b ∷ []
let_go (starting b) = b ∷ []
let_go _ = []

-- A coroutine awaits here.
abbrev pub is_awaiting : Phase → Bool
is_awaiting fresh = false
is_awaiting ready = false
is_awaiting aborted = false
is_awaiting _ = true

-- A coroutine is resumed with an answer, or cancelled there: no `except Exception` catches that.
abbrev pub resume_with : Result Unit → Machine → Machine
resume_with (raised cancelled) m =
    if is_awaiting m.phase then record m { phase = aborted; cut = let_go m.phase ++ m.cut } else m
resume_with r m = let (p, n) = resume r m.phase m.node in record m { phase = p; node = n }

-- The start of `close`: the retry task, if it still runs, is cancelled where it awaits. `start` itself
-- is no such task: while it awaits its first connection, it goes on.
abbrev pub cancel_retry : Machine → Machine
cancel_retry m =
    record (if m.node.gateway.retrying && is_awaiting m.phase
      then record m { phase = aborted; cut = let_go m.phase ++ m.cut }
      else m) { node = set_gateway (λ g. record g { retrying = false }) m.node }

-- `_safe_close` in it, up to its await, or to the end of `close` where there is no broker
abbrev pub begin_close : Option Broker → Node → Closing × Node
begin_close none n = (over, with_connected false n)
begin_close (some b) n = (stopping_held b, called (stop b) n)

-- ... and after it
abbrev pub end_close : Result Unit → Closing → Node → Closing × Node
end_close (raised cancelled) (stopping_held b) n = (interrupted, n)
end_close r (stopping_held b) n = (over, with_connected false (with_broker none n))
end_close r c n = (c, n)

-- A coroutine may begin to connect.
abbrev pub may_connect : Phase → Bool
may_connect fresh = true
may_connect sleeping = true
may_connect _ = false

-- No `close` is running.
abbrev pub may_close : Closing → Bool
may_close (stopping_held b) = false
may_close _ = true

-- `publish`, up to its await
abbrev pub begin_publish : String → Json → Machine → Machine
begin_publish subject payload m = elim m.node.gateway.broker [
  | none ↦ m
  | some b ↦ record m {
    node = called (publish b subject payload) m.node;
    in_flight = subject ∷ m.in_flight;
  }
]

-- ... and after it
abbrev pub end_publish : String → Result Unit → Node → Node
end_publish subject (ok _) n = n
end_publish subject (raised cancelled) n = n
end_publish subject (raised exc) n =
    logged (enqueue_failed subject (str exc)) (with_connected false n)

-- The publication at a place among those in flight ends.
abbrev pub land : ℕ → Result Unit → List String → Node → List String × Node
land k r [] n = ([], n)
land zero r (s ∷ ss) n = (ss, end_publish s r n)
land (suc k) r (s ∷ ss) n = let (rest, n') = land k r ss n in (s ∷ rest, n')

unfoldable pub step : Event → Machine → Machine
step begun m =
    if may_connect m.phase
    then (let (p, n) = begin_connect m.node.gateway.broker m.node in
        record m { phase = p; node = n })
    else m
step (resumed r) m = resume_with r m
step (publishing subject payload) m = begin_publish subject payload m
step (published k r) m =
    let (rest, n) = land k r m.in_flight m.node in record m { node = n; in_flight = rest }
step close_called m =
    if may_close m.close
    then (let u = cancel_retry m in
        let (c, n) = begin_close u.node.gateway.broker u.node in record u { close = c; node = n })
    else m
step (close_resumed r) m =
    let (c, n) = end_close r m.close m.node in record m { close = c; node = n }

unfoldable pub run : List Event → Machine → Machine
run [] m = m
run (e ∷ events) m = run events (step e m)
