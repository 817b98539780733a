-- ===== src/Monitor/Readings.antt =====
-- Which readings the monitor can do without.
use oopsys_agent.Base.{
  ◌≡◌, Bool, true, false, ◌&&◌, ◌||◌, Option, none, some, Exc, Result, ok, raised, arith,
}
use oopsys_agent.Monitor.Defs.{Classes, NetCounters, HostReads, collect_server_metrics}

abbrev pub returned : {A : Type 0} → Result A → Bool
returned (ok _) = true
returned (raised _) = false

abbrev pub tolerated : {A : Type 0} → (Exc → Bool) → Result A → Bool
tolerated caught (ok _) = true
tolerated caught (raised e) = caught e

abbrev pub counted : Result (Option NetCounters) → Bool
counted (ok (some _)) = true
counted (ok none) = false
counted (raised _) = false

-- `collect_server_metrics` returns exactly if psutil gives the memory, the counters of an interface
-- and the load of the CPU, and the load average and the disk are read or fail in a way that is
-- caught: nothing else can be missing.
pub collect_server_metrics-returns :
    (c : Classes) (r : HostReads)
    → returned (collect_server_metrics c r)
      ≡ returned r.virtual_memory
        && counted r.net_io_counters
        && tolerated (λ e. c.os_error e || c.attribute_error e) r.getloadavg
        && tolerated c.os_error r.disk_percent
        && returned r.cpu_percent
unfolding collect_server_metrics
collect_server_metrics-returns c r = ground arith
