-- ===== src/Database/Models.antt =====
-- database/models.py. The `id` of a history row is assigned by SQLite and read by no code.
use oopsys_agent.Base.Int.{ℤ}
use oopsys_agent.Base.{ℕ, String, Option, List}
use oopsys_agent.Domain.{Time, Float, Fields, Severity}

pub record AgentIdentity : Type 0 where
  pub id : ℕ
  pub agent_id : String
  pub token_hash : Option String
  pub token_label : Option String
  pub token_created_at : Option Time
  pub created_at : Time

pub record ErrorReportRecord : Type 0 where
  pub severity : Severity
  pub service : String
  pub environment : String
  pub exception_type : String
  pub message : String
  pub traceback : String
  pub context : Fields
  pub occurred_at : Time
  pub received_at : Time

pub record ServerMetricRecord : Type 0 where
  pub cpu_percent : Float
  pub mem_percent : Float
  pub mem_used : ℕ
  pub mem_total : ℕ
  pub net_bytes_sent : ℕ
  pub net_bytes_recv : ℕ
  pub load_1 : Float
  pub load_5 : Float
  pub load_15 : Float
  pub disk_percent : Option Float
  pub captured_at : Time

pub record ContainerStateRecord : Type 0 where
  pub container_id : String
  pub name : String
  pub image : String
  pub status : String
  pub started_at : Option Time
  pub restarts : ℤ
  pub cpu_percent : Option Float
  pub mem_percent : Option Float
  pub mem_usage : Option ℤ
  pub net_rx : Option ℤ
  pub net_tx : Option ℤ
  pub blk_read : Option ℤ
  pub blk_write : Option ℤ
  pub labels : List (String × String)
  pub captured_at : Time

pub record AgentFaultRecord : Type 0 where
  pub component : String
  pub operation : String
  pub exception_type : String
  pub message : String
  pub traceback : String
  pub severity : Severity
  pub occurred_at : Time

pub data Row : Type 0 where
  identity : AgentIdentity → Row
  error_report : ErrorReportRecord → Row
  server_metric : ServerMetricRecord → Row
  container_state : ContainerStateRecord → Row
  agent_fault : AgentFaultRecord → Row
