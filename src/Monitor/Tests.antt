-- ===== src/Monitor/Tests.antt =====
-- The monitor on a host without load averages.
use oopsys_agent.Base.{◌≡◌, Bool, true, false, some, Exc, other, str_eq, ok, raised}
use oopsys_agent.Database.Memory.{memory}
use oopsys_agent.Tokens.Tests.{empty_db}
use oopsys_agent.Api.Routes.{Rendering}
use oopsys_agent.World.{World}
use oopsys_agent.Events.Tests.{bare_world}
use oopsys_agent.Monitor.Defs.{Classes, HostReads, ProcessReads, collect_server_metrics}
use oopsys_agent.Monitor.Readings.{returned, collect_server_metrics-returns}

abbrev named_class : Exc → Prim.Native.String.String → Bool
named_class (other name message) wanted = str_eq name wanted
named_class _ wanted = false

abbrev pub classes : Classes
classes = record {
  os_error = λ e. named_class e "OSError";
  attribute_error = λ e. named_class e "AttributeError";
  psutil_error = λ e. named_class e "AccessDenied";
}

abbrev host : HostReads
host = record {
  virtual_memory = ok (record { percent = 0; used = 2048; total = 4096 });
  net_io_counters = ok (some (record { bytes_sent = 1; bytes_recv = 2 }));
  getloadavg = raised (other "AttributeError" "getloadavg");
  disk_percent = raised (other "OSError" "/");
  cpu_percent = ok 0;
  now = 350;
}

collect_server_metrics-returns_example : returned (collect_server_metrics classes host) ≡ true
collect_server_metrics-returns_example = collect_server_metrics-returns classes host

abbrev pub process : ProcessReads
process = record {
  memory_info = ok (record { rss = 10; vms = 20 });
  cpu_percent = ok 0;
  num_threads = ok 3;
  num_fds = raised (other "AccessDenied" "");
  host_cpu_percent = ok 0;
  virtual_memory = ok (record { percent = 0; used = 2048; total = 4096 });
}

abbrev render : Rendering
render = record { isoformat = λ t. ""; total_seconds = λ now then. now }

abbrev empty_world : World memory
empty_world = record bare_world { db = empty_db }
