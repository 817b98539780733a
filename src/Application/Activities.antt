-- ===== src/Application/Activities.antt =====
-- What the started agent does: its tasks and its requests, each run to its end before the next.
use oopsys_agent.Base.{
  ℕ, Bool, true, false, ◌&&◌, not, Option, none, some, List, [], ◌∷◌, if◌then◌else◌, ok, Action,
}
use oopsys_agent.Domain.{Time, Json}
use oopsys_agent.Configuration.{ServerModel, AgentModel}
use oopsys_agent.Database.{Database}
use oopsys_agent.Tokens.{Reads}
use oopsys_agent.Tokens.Spec.{Call, perform}
use oopsys_agent.Server.{Transport}
use oopsys_agent.Nats.State.{Node}
use oopsys_agent.Nats.Forward.{forward}
use oopsys_agent.Nats.Connection.{Answers, connect_once}
use oopsys_agent.World.{World}
use oopsys_agent.Scheduler.Defs.{Turn, guard, collect_once}
use oopsys_agent.Api.Requests.{Request, Routers, handle}

-- How the agent is configured, with the libraries it stands on.
pub record Setup : Type 0 where
  pub server : ServerModel
  pub agent : AgentModel
  pub routers : Routers

pub data Activity : Type 0 where
  -- a request to the API
  requested : Request → Activity
  -- the guarded round of a turn of the monitoring loop
  monitored : Turn → Activity
  -- a message of the queue, handed to the consumer
  delivered : Transport → Time → Json → Activity
  -- a round of the gateway's retry task
  retried : Answers → Activity
  -- a call of the token service by another process, the command line, on the same database
  administered : Call → Reads → Activity

-- The retry task is there, and no round of it has connected yet.
abbrev pub is_waiting : Node → Bool
is_waiting n = n.gateway.retrying && not (is_broker n.gateway.broker)
  where
    is_broker : Option ℕ → Bool
    is_broker none = false
    is_broker (some b) = true

module _ (D : Database) (c : Setup) where
  -- What an activity leaves. How it ends is told to the client, the queue or no one, and stops no other.
  unfoldable pub carry_out : Activity → World D → World D
  carry_out (requested q) w = (handle D c.routers q w).1
  carry_out (monitored t) w =
      (guard D c.routers.dumps c.routers.prefix "monitor" "collect"
        (collect_once D c.routers.dumps c.routers.prefix t.round) t.fault_seen w).1
  carry_out (delivered post now body) w = record w {
    node = (forward c.server c.agent post now body w.node).1;
  }
  carry_out (retried a) w =
      if is_waiting w.node then record w { node = (connect_once a w.node).1 } else w
  carry_out (administered call reads) w = record w {
    db = (perform c.routers.sha256 D call reads w.db).1;
  }

  -- All of them, in the order given.
  unfoldable pub carry_out_all : List Activity → World D → World D
  carry_out_all [] w = w
  carry_out_all (a ∷ activities) w = carry_out_all activities (carry_out a w)

  -- As the serving of `lifespan`.
  abbrev pub serving : List Activity → Action (World D) Unit
  serving activities w = (ok tt, carry_out_all activities w)
