-- ===== src/Events/Tests.antt =====
-- Events recorded over a database in memory.
use oopsys_agent.Base.{◌≡◌, refl, ◌⊎◌, none, some, [], ◌++◌, Exc, ok, raised, false}
use oopsys_agent.Domain.{num, error, end, AppRuntime}
use oopsys_agent.Base.Int.{pos}
use oopsys_agent.Database.{AgentIdentity}
use oopsys_agent.Database.Memory.{Memory, memory, memory-IsLawful}
use oopsys_agent.Nats.State.{new_node}
use oopsys_agent.Docker.Monitor.{new_monitor}
use oopsys_agent.World.{World}
use oopsys_agent.Events.Defs.{Dumps, Stamp}
use oopsys_agent.Events.Outcome.{
  Event, report, rows_of, record_event, publish_event, record_event_outcome, record_event_unqueued,
}

-- Toy dumps: one number of each model.
abbrev pub dumps : Dumps
dumps = record {
  dump_report = λ r. num (pos r.timestamp);
  dump_metrics = λ m. num (pos m.mem_used);
  dump_snapshot = λ s. num (pos s.captured_at);
  dump_state = λ s. num (pos s.captured_at);
  dump_fault = λ f. num (pos f.occurred_at);
  dump_envelope = λ e. num (pos e.occurred_at);
}

abbrev pub stamp : Stamp
stamp = record { inserted_at = 300; enveloped_at = 301; answer = ok tt }

abbrev pub named : AgentIdentity
named = record {
  id = 1;
  agent_id = "6f1c";
  token_hash = some "aa";
  token_label = none;
  token_created_at = some 200;
  created_at = 100;
}

abbrev pub named_db : Memory
named_db = record { identities = λ key. some named; rows = []; full = false }

abbrev pub runtime : AppRuntime
runtime = record {
  agent_id = "6f1c";
  started_at = 5;
  docker = record { available = false; reason = none };
  queue_connected = false;
  server_reachable = false;
  last_metrics_at = none;
  last_forwarded_at = none;
}

-- Nothing is connected.
abbrev pub bare_world : World memory
bare_world = record { db = named_db; node = new_node runtime; monitor = new_monitor }

abbrev an_event : Event
an_event = report (record {
  severity = error;
  service = "shop";
  environment = "prod";
  exception_type = "KeyError";
  message = "'cart'";
  traceback = "";
  timestamp = 299;
  context = end;
})

record_event_outcome_example :
    ((db : Memory) × (memory.commit_rows (rows_of an_event 300) named_db ≡ ok db)
      × (db.rows ≡ [] ++ rows_of an_event 300)
      × (record_event memory dumps "oopsys" an_event "6f1c" stamp bare_world ≡ (
        ok tt,
        record bare_world {
          db = db;
          node = (publish_event memory dumps "oopsys" an_event "6f1c" stamp bare_world.node).1;
        },
      )))
    ⊎ ((x : Exc) × (memory.commit_rows (rows_of an_event 300) named_db ≡ raised x)
        × (record_event memory dumps "oopsys" an_event "6f1c" stamp bare_world
            ≡ (raised x, bare_world)))
record_event_outcome_example =
    record_event_outcome memory dumps "oopsys" memory-IsLawful an_event "6f1c" stamp bare_world refl

abbrev with_event : Memory
with_event = record named_db { rows = rows_of an_event 300 }

record_event_unqueued_example :
    (record_event memory dumps "oopsys" an_event "6f1c" stamp bare_world
      ≡ (ok tt, record bare_world { db = with_event }))
    × (with_event.rows ≡ [] ++ rows_of an_event 300)
record_event_unqueued_example =
    record_event_unqueued memory dumps "oopsys" memory-IsLawful an_event "6f1c" stamp bare_world
      {db = with_event} refl refl refl
