-- ===== src/Monitor/Defs.antt =====
-- `SystemMonitor` and the handler of `POST /usage`. What psutil and the system answer is data, and so
-- is which exceptions are of the classes that the source catches.
use oopsys_agent.Base.{
  ℕ, String, Bool, Option, none, some, List, if◌then◌else◌, ◌||◌, Exc, other, Result, ok, raised,
  Action, lift, ◌>>◌,
}
use oopsys_agent.Domain.{Time, Float, Fields, end, ServerMetrics}
use oopsys_agent.Database.{Database}
use oopsys_agent.World.{World, on_db}
use oopsys_agent.Api.Security.{require_token}
use oopsys_agent.Api.Routes.{Rendering, uptime_seconds}

-- `isinstance` of an exception and a class.
pub record Classes : Type 0 where
  pub os_error : Exc → Bool
  pub attribute_error : Exc → Bool
  pub psutil_error : Exc → Bool

pub record VirtualMemory : Type 0 where
  pub percent : Float
  pub used : ℕ
  pub total : ℕ

pub record NetCounters : Type 0 where
  pub bytes_sent : ℕ
  pub bytes_recv : ℕ

pub record Load : Type 0 where
  pub load_1 : Float
  pub load_5 : Float
  pub load_15 : Float

-- What `collect_server_metrics` reads; psutil has no counters on a host without an interface.
pub record HostReads : Type 0 where
  pub virtual_memory : Result VirtualMemory
  pub net_io_counters : Result (Option NetCounters)
  pub getloadavg : Result Load
  pub disk_percent : Result Float
  pub cpu_percent : Result Float
  pub now : Time

-- `try: …` with `except classes: …`, on a single call.
abbrev pub recover : {A : Type 0} → (Exc → Bool) → A → Result A → Result A
recover caught fallback (ok a) = ok a
recover caught fallback (raised e) = if caught e then ok fallback else raised e

abbrev pub and_then : {A B : Type 0} → Result A → (A → Result B) → Result B
and_then (ok a) f = f a
and_then (raised e) f = raised e

abbrev pub no_load : Load
no_load = record { load_1 = 0; load_5 = 0; load_15 = 0 }

abbrev pub some_result : {A : Type 0} → Result A → Result (Option A)
some_result (ok a) = ok (some a)
some_result (raised e) = raised e

-- `net.bytes_sent`
abbrev pub counters : Option NetCounters → Result NetCounters
counters (some net) = ok net
counters none = raised (other "AttributeError" "'NoneType' object has no attribute 'bytes_sent'")

abbrev pub server_metrics :
    Float → VirtualMemory → NetCounters → Load → Option Float → Time → ServerMetrics
server_metrics cpu mem net load disk now = record {
  cpu_percent = cpu;
  mem_percent = mem.percent;
  mem_used = mem.used;
  mem_total = mem.total;
  net_bytes_sent = net.bytes_sent;
  net_bytes_recv = net.bytes_recv;
  load_1 = load.load_1;
  load_5 = load.load_5;
  load_15 = load.load_15;
  disk_percent = disk;
  captured_at = now;
}

unfoldable pub collect_server_metrics : Classes → HostReads → Result ServerMetrics
collect_server_metrics c r = and_then r.virtual_memory λ mem. and_then r.net_io_counters λ net.
    and_then (recover (λ e. c.os_error e || c.attribute_error e) no_load r.getloadavg) λ load.
      and_then (recover c.os_error none (some_result r.disk_percent)) λ disk.
        and_then r.cpu_percent
          λ cpu. and_then (counters net) λ net. ok (server_metrics cpu mem net load disk r.now)

-- domain/metrics.py
pub record AgentUsage : Type 0 where
  pub cpu_percent : Float
  pub rss : ℕ
  pub vms : ℕ
  pub num_threads : ℕ
  pub num_fds : Option ℕ
  pub uptime_seconds : Float
  pub host_cpu_percent : Option Float
  pub host_mem_percent : Option Float
  pub extra : Fields

pub record MemoryInfo : Type 0 where
  pub rss : ℕ
  pub vms : ℕ

-- What `collect_agent_usage` reads, of the process and of the host.
pub record ProcessReads : Type 0 where
  pub memory_info : Result MemoryInfo
  pub cpu_percent : Result Float
  pub num_threads : Result ℕ
  pub num_fds : Result ℕ
  pub host_cpu_percent : Result Float
  pub virtual_memory : Result VirtualMemory

unfoldable pub collect_agent_usage : Classes → ProcessReads → Float → Result AgentUsage
collect_agent_usage c r uptime = and_then r.memory_info λ mem. and_then r.cpu_percent λ cpu.
    and_then r.num_threads λ num_threads.
      and_then (recover (λ e. c.psutil_error e || c.attribute_error e) none (some_result r.num_fds))
        λ num_fds. and_then r.host_cpu_percent λ host_cpu. and_then r.virtual_memory λ host_mem.
          ok (record {
            cpu_percent = cpu;
            rss = mem.rss;
            vms = mem.vms;
            num_threads = num_threads;
            num_fds = num_fds;
            uptime_seconds = uptime;
            host_cpu_percent = some host_cpu;
            host_mem_percent = some host_mem.percent;
            extra = end;
          })

-- `POST /usage`
unfoldable pub post_usage :
    (D : Database)
    → (List ℕ → List ℕ)
    → Option String
    → Classes
    → Rendering
    → Time
    → ProcessReads
    → Action (World D) AgentUsage
post_usage D sha256 credentials c render now r w =
    (do
      on_db (require_token D sha256 credentials)
      lift (collect_agent_usage c r (uptime_seconds render now w.node.runtime)))
      w
