-- ===== src/Domain/Runtime.antt =====
-- runtime.py: what the API reports of the running agent.
use oopsys_agent.Base.{String, Bool, false, Option, none}
use oopsys_agent.Domain.Values.{Time}

pub record DockerStatus : Type 0 where
  pub available : Bool
  pub reason : Option String

pub record AppRuntime : Type 0 where
  pub agent_id : String
  pub started_at : Time
  pub docker : DockerStatus
  pub queue_connected : Bool
  pub server_reachable : Bool
  pub last_metrics_at : Option Time
  pub last_forwarded_at : Option Time

-- `AppRuntime()`, made at `now`
unfoldable pub new_runtime : Time → AppRuntime
new_runtime now = record {
  agent_id = "";
  started_at = now;
  docker = record { available = false; reason = none };
  queue_connected = false;
  server_reachable = false;
  last_metrics_at = none;
  last_forwarded_at = none;
}
