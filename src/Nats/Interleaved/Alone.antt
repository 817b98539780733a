-- ===== src/Nats/Interleaved/Alone.antt =====
-- With nothing in between, the steps are the methods.
use oopsys_agent.Base.{
  String, ◌≡◌, refl, sym, Bool, true, false, Option, none, some, List, [], ◌∷◌, if◌then◌else◌,
  Result, ok, raised, arith, ap, ◌∙◌,
}
use oopsys_agent.Nats.State.{Broker, Node}
use oopsys_agent.Nats.Connection.{Answers, safe_close, open_broker, connect_once, start_gateway}
use oopsys_agent.Nats.Brokers.{IsSettled, settled, connects}
use oopsys_agent.Nats.Interleaved.{
  Phase, ready, sleeping, Closing, Machine, Event, begun, resumed, may_connect, step, run,
  broker_opened,
}

-- What a new broker is answered, in order.
abbrev then_answers : Answers → Result Unit → List Event
then_answers a (ok _) = resumed a.start ∷ resumed a.stop_new ∷ []
then_answers a (raised e) = resumed a.stop_new ∷ []

abbrev new_answers : Answers → List Event
new_answers a = resumed a.connect ∷ then_answers a a.connect

abbrev script : Answers → Option Broker → List Event
script a none = begun ∷ new_answers a
script a (some b) = begun ∷ resumed a.stop_old ∷ new_answers a

abbrev outcome : Bool → Phase
outcome true = ready
outcome false = sleeping

new_answers_lem :
    (a : Answers) (n : Node) (c : Closing) (in_flight : List String) (cut : List Broker)
    → IsSettled a
    → n.gateway.broker ≡ none
    → let (p, m) = broker_opened n in
      run
        (new_answers a)
        (record { phase = p; close = c; node = m; in_flight = in_flight; cut = cut })
      ≡ record {
        phase = outcome (connects a);
        close = c;
        node = if connects a then (open_broker a n).1 else record (open_broker a n).1 {
          gateway = record (open_broker a n).1.gateway { retrying = true };
        };
        in_flight = in_flight;
        cut = cut;
      }
unfolding run step open_broker
new_answers_lem a n c in_flight cut s h = ground arith

-- The node of `start_gateway`, from that of `open_broker`.
abbrev finished : Answers → Node → Node
finished a n = if connects a then (open_broker a n).1 else record (open_broker a n).1 {
  gateway = record (open_broker a n).1.gateway { retrying = true };
}

start_gateway-finished :
    (a : Answers) (n : Node)
    → IsSettled a
    → (start_gateway a n).1 ≡ finished a (safe_close a.stop_old n).1
unfolding start_gateway connect_once safe_close open_broker
start_gateway-finished a n s = ground arith

-- The machine that has just made a broker.
abbrev opening : Machine → Node → Machine
opening m n = record m { phase = (broker_opened n).0; node = (broker_opened n).1 }

opening-none :
    (r : Result Unit) (m : Machine)
    → may_connect m.phase ≡ true
    → m.node.gateway.broker ≡ none
    → step begun m ≡ opening m (safe_close r m.node).1
unfolding step safe_close
opening-none r m may h = ground arith

opening-some :
    (r : Result Unit) (b : Broker) (m : Machine)
    → settled r ≡ true
    → may_connect m.phase ≡ true
    → m.node.gateway.broker ≡ some b
    → step (resumed r) (step begun m) ≡ opening m (safe_close r m.node).1
unfolding step safe_close
opening-some r b m s may h = ground arith

safe_close-none :
    (r : Result Unit) (n : Node) → settled r ≡ true → (safe_close r n).1.gateway.broker ≡ none
unfolding safe_close
safe_close-none r n s = ground arith

run-opening :
    (a : Answers) (m : Machine)
    → IsSettled a
    → run (new_answers a) (opening m (safe_close a.stop_old m.node).1)
      ≡ record m { phase = outcome (connects a); node = (start_gateway a m.node).1 }
run-opening a m s =
    new_answers_lem a (safe_close a.stop_old m.node).1 m.close m.in_flight m.cut s
      (safe_close-none a.stop_old m.node s.stop_old)
    ∙ ap (λ n. record m { phase = outcome (connects a); node = n })
        (sym (start_gateway-finished a m.node s))

script_lem :
    (a : Answers) (o : Option Broker) (m : Machine)
    → IsSettled a
    → may_connect m.phase ≡ true
    → m.node.gateway.broker ≡ o
    → run (script a o) m
      ≡ record m { phase = outcome (connects a); node = (start_gateway a m.node).1 }
unfolding run
script_lem a none m s may h =
    ap (run (new_answers a)) (opening-none a.stop_old m may h) ∙ run-opening a m s
script_lem a (some b) m s may h =
    ap (run (new_answers a)) (opening-some a.stop_old b m s.stop_old may h) ∙ run-opening a m s

-- Resumed with uncancelled answers, and with nothing in between, the steps of one connection leave just
-- what `start` leaves, in one piece: on every branch the same calls of brokers in the same order, the
-- same log, and the same gateway and runtime; and the coroutine is over if the broker has connected,
-- and sleeps before the next round otherwise.
run-start_gateway :
    (a : Answers) (m : Machine)
    → IsSettled a
    → may_connect m.phase ≡ true
    → run (script a m.node.gateway.broker) m
      ≡ record m { phase = outcome (connects a); node = (start_gateway a m.node).1 }
run-start_gateway a m s may = script_lem a m.node.gateway.broker m s may refl
