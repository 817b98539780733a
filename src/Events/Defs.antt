-- ===== src/Events/Defs.antt =====
-- `EventService`: an event is committed to the local history and then enqueued. The dumps of the
-- models to JSON are pydantic's, and parameters.
use oopsys_agent.Base.{String, [], ◌∷◌, map, Result, Action, pure, ◌>>◌}
use oopsys_agent.Domain.{
  Time, Json, Source, projects, server, docker, agent, ErrorReport, AgentFault, ServerMetrics,
  ContainerState, ContainerSnapshot, Envelope, schema_version, build_subject,
}
use oopsys_agent.Database.{
  Database, Row, error_report, server_metric, container_state, agent_fault, commit,
}
use oopsys_agent.Nats.Connection.{publish}
use oopsys_agent.World.{World, on_db, on_node}

-- `model_dump(mode="json")`
pub record Dumps : Type 0 where
  pub dump_report : ErrorReport → Json
  pub dump_metrics : ServerMetrics → Json
  pub dump_snapshot : ContainerSnapshot → Json
  pub dump_state : ContainerState → Json
  pub dump_fault : AgentFault → Json
  pub dump_envelope : Envelope → Json

-- What a call reads from outside: the clock at the insert and at the envelope, and the broker's
-- answer.
pub record Stamp : Type 0 where
  pub inserted_at : Time
  pub enveloped_at : Time
  pub answer : Result Unit

abbrev pub report_row : ErrorReport → Time → Row
report_row report inserted_at = error_report (record {
  severity = report.severity;
  service = report.service;
  environment = report.environment;
  exception_type = report.exception_type;
  message = report.message;
  traceback = report.traceback;
  context = report.context;
  occurred_at = report.timestamp;
  received_at = inserted_at;
})

abbrev pub metrics_row : ServerMetrics → Row
metrics_row metrics = server_metric (record {
  cpu_percent = metrics.cpu_percent;
  mem_percent = metrics.mem_percent;
  mem_used = metrics.mem_used;
  mem_total = metrics.mem_total;
  net_bytes_sent = metrics.net_bytes_sent;
  net_bytes_recv = metrics.net_bytes_recv;
  load_1 = metrics.load_1;
  load_5 = metrics.load_5;
  load_15 = metrics.load_15;
  disk_percent = metrics.disk_percent;
  captured_at = metrics.captured_at;
})

abbrev pub state_row : ContainerState → Row
state_row state = container_state (record {
  container_id = state.container_id;
  name = state.name;
  image = state.image;
  status = state.status;
  started_at = state.started_at;
  restarts = state.restarts;
  cpu_percent = state.cpu_percent;
  mem_percent = state.mem_percent;
  mem_usage = state.mem_usage;
  net_rx = state.net_rx;
  net_tx = state.net_tx;
  blk_read = state.blk_read;
  blk_write = state.blk_write;
  labels = state.labels;
  captured_at = state.captured_at;
})

abbrev pub fault_row : AgentFault → Row
fault_row fault = agent_fault (record {
  component = fault.component;
  operation = fault.operation;
  exception_type = fault.exception_type;
  message = fault.message;
  traceback = fault.traceback;
  severity = fault.severity;
  occurred_at = fault.occurred_at;
})

-- The envelope that `_enqueue` builds.
abbrev pub envelope : String → Source → Json → Time → Envelope
envelope agent_id source payload now = record {
  schema_version = schema_version;
  agent_id = agent_id;
  source = source;
  occurred_at = now;
  payload = payload;
}

module _ (D : Database) (dumps : Dumps) (prefix : String) where
  -- `_enqueue`: what `publish` returns is not looked at.
  unfoldable pub enqueue : String → Source → Json → Stamp → Action (World D) Unit
  enqueue agent_id source payload stamp = do
    on_node (
        publish (build_subject prefix agent_id source)
          (dumps.dump_envelope (envelope agent_id source payload stamp.enveloped_at)) stamp.answer)
    pure tt

  unfoldable pub record_error_report : ErrorReport → String → Stamp → Action (World D) Unit
  record_error_report report agent_id stamp = do
    on_db (commit D (report_row report stamp.inserted_at ∷ []))
    enqueue agent_id projects (dumps.dump_report report) stamp

  unfoldable pub record_server_metrics : ServerMetrics → String → Stamp → Action (World D) Unit
  record_server_metrics metrics agent_id stamp = do
    on_db (commit D (metrics_row metrics ∷ []))
    enqueue agent_id server (dumps.dump_metrics metrics) stamp

  unfoldable pub record_container_snapshot :
      ContainerSnapshot → String → Stamp → Action (World D) Unit
  record_container_snapshot snapshot agent_id stamp = do
    on_db (commit D (map state_row snapshot.containers))
    enqueue agent_id docker (dumps.dump_snapshot snapshot) stamp

  unfoldable pub record_container_state : ContainerState → String → Stamp → Action (World D) Unit
  record_container_state state agent_id stamp = do
    on_db (commit D (state_row state ∷ []))
    enqueue agent_id docker (dumps.dump_state state) stamp

  unfoldable pub record_agent_fault : AgentFault → String → Stamp → Action (World D) Unit
  record_agent_fault fault agent_id stamp = do
    on_db (commit D (fault_row fault ∷ []))
    enqueue agent_id agent (dumps.dump_fault fault) stamp
