-- ===== src/Nats/Brokers.antt =====
-- `stop` is called on every broker object that the gateway makes, but for the one that it holds. How
-- `stop` ends is not asked: the source suppresses what it raises.
use oopsys_agent.Base.{
  ◌⊎◌, ℕ, String, ◌≡◌, ◌≢◌, Bool, true, false, ◌&&◌, Option, none, some, List, [], ◌∷◌,
  if◌then◌else◌, ◌==◌, cancelled, is_exception, Result, ok, raised, arith, >>=-ok,
}
use oopsys_agent.Domain.{Json}
use oopsys_agent.Nats.State.{Broker, BrokerCall, build, stop, Node}
use oopsys_agent.Nats.Connection.{Answers, safe_close, connect_once, open_broker, publish, close}

abbrev remove : Broker → List Broker → List Broker
remove b [] = []
remove b (c ∷ cs) = if b == c then cs else c ∷ remove b cs

-- The brokers that were made, and for which `stop` was not called after that.
abbrev pub unstopped : List BrokerCall → List Broker
unstopped [] = []
unstopped (build b ∷ calls) = b ∷ unstopped calls
unstopped (stop b ∷ calls) = remove b (unstopped calls)
unstopped (_ ∷ calls) = unstopped calls

abbrev pub held : Option Broker → List Broker
held none = []
held (some b) = b ∷ []

-- `stop` was called on every broker but the one held, and a queue reported as connected has one.
pub record IsTidy (n : Node) : Type 0 where
  pub no_leak : unstopped n.calls ≡ held n.gateway.broker
  pub connected : (n.runtime.queue_connected ≡ false) ⊎ (held n.gateway.broker ≢ [])

-- The call is not cancelled: it returns, or raises an `Exception`.
abbrev pub settled : Result Unit → Bool
settled (ok _) = true
settled (raised e) = is_exception e

pub record IsSettled (a : Answers) : Type 0 where
  pub stop_old : settled a.stop_old ≡ true
  pub connect : settled a.connect ≡ true
  pub start : settled a.start ≡ true
  pub stop_new : settled a.stop_new ≡ true

abbrev pub succeeded : Result Unit → Bool
succeeded (ok _) = true
succeeded (raised _) = false

-- A broker closed and none held: what `safe_close` leaves.
safe_close-closed :
    (answer : Result Unit) (n : Node)
    → settled answer ≡ true
    → IsTidy n
    → ((safe_close answer n).0 ≡ ok tt)
      × (unstopped (safe_close answer n).1.calls ≡ [])
      × ((safe_close answer n).1.gateway.broker ≡ none)
unfolding safe_close
safe_close-closed answer n s t = ground arith

abbrev pub connects : Answers → Bool
connects a = succeeded a.connect && succeeded a.start

open_broker_lem :
    (a : Answers) (n : Node)
    → IsSettled a
    → unstopped n.calls ≡ []
    → n.gateway.broker ≡ none
    → ((open_broker a n).0 ≡ ok (connects a))
      × IsTidy (open_broker a n).1
      × ((open_broker a n).1.runtime.queue_connected ≡ connects a)
unfolding open_broker
open_broker_lem a n s none_open none_held = ground arith

-- If no call of it is cancelled, `_connect_once` returns, and it returns whether the new broker
-- could be connected and started. Then the queue is reported as connected exactly in that case, and
-- `stop` has been called on every broker but the one that is held.
pub connect_once_lem :
    (a : Answers) (n : Node)
    → IsSettled a
    → IsTidy n
    → ((connect_once a n).0 ≡ ok (connects a))
      × IsTidy (connect_once a n).1
      × ((connect_once a n).1.runtime.queue_connected ≡ connects a)
unfolding connect_once
connect_once_lem a n s t =
    let (returned, closed, none_held) = safe_close-closed a.stop_old n s.stop_old t in
    rw (>>=-ok (safe_close a.stop_old) (λ _. open_broker a) n returned)
      (open_broker_lem a (safe_close a.stop_old n).1 s closed none_held)

built-safe_close : (answer : Result Unit) (n : Node) → (safe_close answer n).1.built ≡ n.built
unfolding safe_close
built-safe_close answer n = ground arith

open_broker_cancelled :
    (a : Answers) (k : ℕ) (n : Node)
    → n.built ≡ k
    → unstopped n.calls ≡ []
    → n.gateway.broker ≡ none
    → a.connect ≡ raised cancelled
    → ((open_broker a n).0 ≡ raised cancelled)
      × (unstopped (open_broker a n).1.calls ≡ k ∷ [])
      × ((open_broker a n).1.gateway.broker ≡ none)
unfolding open_broker
open_broker_cancelled a k n made none_open none_held e = ground arith

-- Cancelled while the new broker connects, as `close` cancels the retry task, `_connect_once` neither
-- stops this broker nor keeps it: it stays open and nothing holds it.
pub connect_once_cancelled :
    (a : Answers) (n : Node)
    → IsTidy n
    → settled a.stop_old ≡ true
    → a.connect ≡ raised cancelled
    → ((connect_once a n).0 ≡ raised cancelled)
      × (unstopped (connect_once a n).1.calls ≡ n.built ∷ [])
      × ((connect_once a n).1.gateway.broker ≡ none)
unfolding connect_once
connect_once_cancelled a n t s e =
    let (returned, closed, none_held) = safe_close-closed a.stop_old n s t in
    rw (>>=-ok (safe_close a.stop_old) (λ _. open_broker a) n returned) (
      open_broker_cancelled a n.built (safe_close a.stop_old n).1 (built-safe_close a.stop_old n)
        closed none_held e)

pub publish-IsTidy :
    (subject : String) (payload : Json) (answer : Result Unit) (n : Node)
    → IsTidy n
    → IsTidy (publish subject payload answer n).1
unfolding publish
publish-IsTidy subject payload answer n t = ground arith

pub close-IsTidy :
    (answer : Result Unit) (n : Node) → settled answer ≡ true → IsTidy n → IsTidy (close answer n).1
unfolding close
close-IsTidy answer n s t = ground arith

-- Closed without a cancellation: `stop` was called on every broker, none is held, and the queue is
-- reported as disconnected.
pub close-closed :
    (answer : Result Unit) (n : Node)
    → settled answer ≡ true
    → IsTidy n
    → ((close answer n).0 ≡ ok tt)
      × (unstopped (close answer n).1.calls ≡ [])
      × ((close answer n).1.gateway.broker ≡ none)
      × ((close answer n).1.runtime.queue_connected ≡ false)
unfolding close safe_close
close-closed answer n s t = ground arith
