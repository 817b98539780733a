-- ===== src/Nats/State.antt =====
-- What `NatsGateway` keeps, beside the runtime that it shares with the rest of the agent, and what it
-- has done: the calls of brokers and the log lines, both latest first.
use oopsys_agent.Base.{ℕ, String, Bool, false, Option, none, List, [], ◌∷◌, Result, ok, Action}
use oopsys_agent.Domain.{Json, AppRuntime}

-- A broker object, by the order of its making.
abbrev pub Broker : Type 0
Broker = ℕ

-- The calls of a broker: its making by `_build_broker`, and its methods.
pub data BrokerCall : Type 0 where
  build connect start stop : Broker → BrokerCall
  publish : Broker → String → Json → BrokerCall

-- The log lines of the gateway, with the fields that vary.
pub data Line : Type 0 where
  forwarding_disabled : Line
  token_rejected : String → Line
  server_unreachable : String → Line
  forwarding_resumed : Line
  connect_failed : String → Line
  queue_ready : Line
  enqueue_failed : String → String → Line

pub record Gateway : Type 0 where
  pub broker : Option Broker
  pub retrying : Bool
  pub forward_no_token_logged : Bool
  pub forward_auth_logged : Bool
  pub forward_unreachable_logged : Bool
  pub connect_failed_logged : Bool

pub record Node : Type 0 where
  pub gateway : Gateway
  pub runtime : AppRuntime
  pub built : ℕ
  pub calls : List BrokerCall
  pub log : List Line

-- `NatsGateway.__init__`
abbrev pub new_gateway : Gateway
new_gateway = record {
  broker = none;
  retrying = false;
  forward_no_token_logged = false;
  forward_auth_logged = false;
  forward_unreachable_logged = false;
  connect_failed_logged = false;
}

-- The gateway over a runtime, before anything is called.
abbrev pub new_node : AppRuntime → Node
new_node runtime = record {
  gateway = new_gateway;
  runtime = runtime;
  built = 0;
  calls = [];
  log = [];
}

abbrev pub modify : {S : Type 0} → (S → S) → Action S Unit
modify f s = (ok tt, f s)

abbrev pub say : Line → Action Node Unit
say line n = (ok tt, record n { log = line ∷ n.log })

abbrev pub call : BrokerCall → Result Unit → Action Node Unit
call c answer n = (answer, record n { calls = c ∷ n.calls })

abbrev pub set_gateway : (Gateway → Gateway) → Node → Node
set_gateway f n = record n { gateway = f n.gateway }

abbrev pub set_runtime : (AppRuntime → AppRuntime) → Node → Node
set_runtime f n = record n { runtime = f n.runtime }
