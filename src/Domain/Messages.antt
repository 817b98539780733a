-- ===== src/Domain/Messages.antt =====
-- domain/enums.py, reports.py, faults.py, metrics.py and messages.py.
use oopsys_agent.Base.Int.{ℤ}
use oopsys_agent.Base.{ℕ, String, ◌<>◌, Option, List, Exc, str, type_name, is_truthy, if◌then◌else◌}
use oopsys_agent.Domain.Values.{Time, Float, Json, Fields}

pub data Severity : Type 0 where
  error critical : Severity

pub data Source : Type 0 where
  projects server docker agent : Source

-- `Severity.value`
unfoldable pub severity_value : Severity → String
severity_value error = "error"
severity_value critical = "critical"

-- `Source.value`
unfoldable pub source_value : Source → String
source_value projects = "projects"
source_value server = "server"
source_value docker = "docker"
source_value agent = "agent"

pub record ErrorReport : Type 0 where
  pub severity : Severity
  pub service : String
  pub environment : String
  pub exception_type : String
  pub message : String
  pub traceback : String
  pub timestamp : Time
  pub context : Fields

pub record AgentFault : Type 0 where
  pub component : String
  pub operation : String
  pub exception_type : String
  pub message : String
  pub traceback : String
  pub severity : Severity
  pub occurred_at : Time

-- `AgentFault.from_exception`; `tb` is what `traceback.format_exception` gives, and `now` the
-- default of `occurred_at`.
unfoldable pub from_exception : Exc → String → String → Severity → String → Time → AgentFault
from_exception exc component operation severity tb now = record {
  component = component;
  operation = operation;
  exception_type = type_name exc;
  message = if is_truthy (str exc) then str exc else type_name exc;
  traceback = tb;
  severity = severity;
  occurred_at = now;
}

pub record ServerMetrics : Type 0 where
  pub cpu_percent : Float
  pub mem_percent : Float
  pub mem_used : ℕ
  pub mem_total : ℕ
  pub net_bytes_sent : ℕ
  pub net_bytes_recv : ℕ
  pub load_1 : Float
  pub load_5 : Float
  pub load_15 : Float
  pub disk_percent : Option Float
  pub captured_at : Time

pub record ContainerState : Type 0 where
  pub container_id : String
  pub name : String
  pub image : String
  pub status : String
  pub started_at : Option Time
  pub restarts : ℤ
  pub cpu_percent : Option Float
  pub mem_percent : Option Float
  pub mem_usage : Option ℤ
  pub net_rx : Option ℤ
  pub net_tx : Option ℤ
  pub blk_read : Option ℤ
  pub blk_write : Option ℤ
  pub labels : List (String × String)
  pub ports : List String
  pub health : Option String
  pub captured_at : Time

pub record ContainerSnapshot : Type 0 where
  pub captured_at : Time
  pub containers : List ContainerState

-- The envelope's payload is a dump of one of the models.
pub record Envelope : Type 0 where
  pub schema_version : ℕ
  pub agent_id : String
  pub source : Source
  pub occurred_at : Time
  pub payload : Json

abbrev pub schema_version : ℕ
schema_version = 1

unfoldable pub build_subject : String → String → Source → String
build_subject prefix agent_id source =
    prefix <> (".agents." <> (agent_id <> ("." <> source_value source)))
