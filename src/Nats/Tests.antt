-- ===== src/Nats/Tests.antt =====
-- The gateway at concrete data.
use oopsys_agent.Base.{
  arith, In, ℕ, ◌≡◌, ◌↔◌, refl, ◌⊎◌, inl, true, false, none, some, List, [], ◌∷◌, length, ◌+◌, ◌*◌,
  ◌≤◌, ◌<◌, ok, raised, cancelled, nack_message, other,
}
use oopsys_agent.Domain.{Json, null, AppRuntime}
use oopsys_agent.Configuration.{ServerModel, AgentModel}
use oopsys_agent.Server.{Transport, send, ingest_request, delivery_enabled}
use oopsys_agent.Server.Delivery.{send-ok_iff}
use oopsys_agent.Nats.State.{Node, new_node}
use oopsys_agent.Nats.Forward.{forward}
use oopsys_agent.Nats.Connection.{Answers, connect_once, retry_loop, start_gateway, publish}
use oopsys_agent.Nats.Delivery.{forward_outcome, IsUndelivered, Delivered, Refused}
use oopsys_agent.Nats.Warnings.{Attempt, consume, consume_log}
use oopsys_agent.Nats.Brokers.{IsTidy, IsSettled, unstopped, connect_once_cancelled}
use oopsys_agent.Nats.Reach.{Step, Reach, retry_loop-first, Reach-IsTidy}
use oopsys_agent.Nats.Reach
use oopsys_agent.Nats.Queue.{System, Move, Moves, stored_or_accepted}
use oopsys_agent.Nats.Queue
use oopsys_agent.Nats.Drain.{drain, drain-accepts}
use oopsys_agent.Nats.Publish.{publishing, forwarding, use_gateway, publish_after_failure}

abbrev pub server : ServerModel
server = record { url = "http://oopsys-server:8000"; ingest_path = "/agents/ingest"; timeout = 10 }

abbrev pub agent : AgentModel
agent = record { name = "oopsys-agent"; token = some "s3cret" }

abbrev pub answering : ℕ → Transport
answering status request = ok status

abbrev pub runtime : AppRuntime
runtime = record {
  agent_id = "6f1c";
  started_at = 5;
  docker = record { available = false; reason = none };
  queue_connected = false;
  server_reachable = false;
  last_metrics_at = none;
  last_forwarded_at = none;
}

abbrev node : Node
node = new_node runtime

abbrev pub no_failure : Answers
no_failure = record { stop_old = ok tt; connect = ok tt; start = ok tt; stop_new = ok tt }

abbrev pub no_server : Answers
no_server = record no_failure { connect = raised (other "OSError" "refused") }

abbrev cut : Answers
cut = record no_failure { connect = raised cancelled }

pub no_failure-IsSettled : IsSettled no_failure
no_failure-IsSettled = record { stop_old = refl; connect = refl; start = refl; stop_new = refl }

pub no_server-IsSettled : IsSettled no_server
no_server-IsSettled = record { stop_old = refl; connect = refl; start = refl; stop_new = refl }

node-IsTidy : IsTidy node
node-IsTidy = record { no_leak = refl; connected = inl refl }

-- A redirect is acked.
redirect_acked : (forward server agent (answering 302) 9 null node).0 ≡ ok tt
unfolding forward delivery_enabled send
redirect_acked = refl

unavailable_nacked : (forward server agent (answering 503) 9 null node).0 ≡ raised nack_message
unfolding forward delivery_enabled send
unavailable_nacked = refl

send-ok_iff_example : (send server agent (answering 302) null ≡ ok tt) ↔ (
    (status : ℕ) × (answering 302 (ingest_request server agent null) ≡ ok status) × (status < 400))
send-ok_iff_example = send-ok_iff server agent (answering 302) null

forward_outcome_example :
    ((status : ℕ) × (answering 503 (ingest_request server agent null) ≡ ok status)
      × (status < 400)
      × (delivery_enabled server agent ≡ true)
      × ((forward server agent (answering 503) 9 null node).0 ≡ ok tt)
      × Delivered 9 node (forward server agent (answering 503) 9 null node).1)
    ⊎ (IsUndelivered server agent (answering 503) 9 null node
        × ((forward server agent (answering 503) 9 null node).0 ≡ raised nack_message)
        × Refused node (forward server agent (answering 503) 9 null node).1)
    ⊎ ((delivery_enabled server agent ≡ true)
        × (answering 503 (ingest_request server agent null) ≡ raised cancelled)
        × (forward server agent (answering 503) 9 null node ≡ (raised cancelled, node)))
forward_outcome_example = forward_outcome server agent (answering 503) 9 null node

abbrev attempts : List Attempt
attempts =
    record { post = answering 503; now = 9; body = null }
    ∷ record { post = answering 401; now = 10; body = null }
    ∷ record { post = answering 202; now = 11; body = null }
    ∷ []

consume_log_example :
    let (k, m) = consume server agent attempts node in length m.log ≤ length node.log + 3 + 4 * k
consume_log_example = consume_log server agent attempts node

connect_once_cancelled_example :
    ((connect_once cut node).0 ≡ raised cancelled)
    × (unstopped (connect_once cut node).1.calls ≡ 0 ∷ [])
    × ((connect_once cut node).1.gateway.broker ≡ none)
connect_once_cancelled_example = connect_once_cancelled cut node node-IsTidy refl refl

retry_loop-first_example :
    let up = (connect_once no_failure (retry_loop (no_server ∷ []) node).1).1 in
    ((retry_loop (no_server ∷ []) node).0 ≡ ok false)
    × (retry_loop (no_server ∷ no_failure ∷ no_server ∷ []) node ≡ (ok true, up))
    × (up.runtime.queue_connected ≡ true)
    × IsTidy up
retry_loop-first_example =
    retry_loop-first (no_server ∷ []) (no_server ∷ []) no_failure node (no_server-IsSettled, tt)
      no_failure-IsSettled node-IsTidy refl refl

Reach-IsTidy_example : IsTidy (publish "s" null (ok tt) (start_gateway no_failure node).1).1
Reach-IsTidy_example = Reach-IsTidy server agent runtime refl (
    Reach.next (Reach.next Reach.here (Reach.starting no_failure no_failure-IsSettled refl))
      (Reach.publishing "s" null (ok tt) refl))

abbrev queued : System
unfolding publish start_gateway connect_once
queued = record {
  node = (publish "s" null (ok tt) (start_gateway no_failure node).1).1;
  stored = null ∷ [];
  pending = null ∷ [];
  accepted = [];
}

abbrev delivered : System
unfolding queued
delivered = record {
  node = (forward server agent (answering 202) 9 null queued.node).1;
  stored = null ∷ [];
  pending = [];
  accepted = null ∷ [];
}

stored_or_accepted_example : In null delivered.pending ⊎ In null delivered.accepted
unfolding delivered delivery_enabled forward send
stored_or_accepted_example =
    stored_or_accepted server agent (start_gateway no_failure node).1 {s = delivered}
      (Queue.next (Queue.next Queue.here (Queue.enqueued "s" null refl refl))
        (Queue.acked (answering 202) 9 [] null [] refl refl refl))
      null (inl refl)

abbrev bound : Node
unfolding start_gateway connect_once
bound = (start_gateway no_failure node).1

publish_after_failure_example :
    let m =
      use_gateway server agent
        (publishing "s" null (ok tt) ∷ forwarding (answering 202) 9 null ∷ [])
        (publish "s" null (raised (other "TimeoutError" "")) bound).1 in
    (m.runtime.queue_connected ≡ false)
    × ((publish "s" null (ok tt) m).0 ≡ ok true)
    × ((publish "s" null (ok tt) m).1.runtime.queue_connected ≡ false)
unfolding bound
publish_after_failure_example =
    publish_after_failure server agent "s" null (other "TimeoutError" "")
      (publishing "s" null (ok tt) ∷ forwarding (answering 202) 9 null ∷ []) bound refl refl

drain-accepts_example :
    let t = drain server agent (answering 202) 9 1 queued in
    (t.pending ≡ []) × ((m : Json) → In m queued.stored → In m t.accepted)
unfolding queued delivery_enabled
drain-accepts_example =
    drain-accepts server agent (answering 202) 9 refl (λ body. (202, refl, ground arith))
      (start_gateway no_failure node).1 {s = queued}
      (Queue.next Queue.here (Queue.enqueued "s" null refl refl))
