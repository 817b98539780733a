-- ===== src/Docker/Documented/Usage.antt =====
-- The agent's `Readings` of documented statistics.
use oopsys_agent.Base.{ℕ, ◌-◌, ◌≡◌, refl, Option, none, some, Result, ok, raised}
use oopsys_agent.Base.Results.{◌>>=◌}
use oopsys_agent.Domain.Values.{Float, Json, arr, nil, cons}
use oopsys_agent.Dynamic.Numbers.{Floats}
use oopsys_agent.Docker.State.{Readings, read_stats}
use oopsys_agent.Docker.Documented.Stats.{
  Memory, Stats, stats_json, rx_total, tx_total, op_total, unless_empty, cpu_reading, mem_share,
}
use oopsys_agent.Docker.Documented.Readings.{counted, network-stats_json, block_io-stats_json}
use oopsys_agent.Docker.Documented.Processor.{
  memory_reading, mem-stats_json, cpu_percent-stats_json,
}

-- What a running container uses.
pub record Usage : Type 0 where
  pub cpu : Option Float
  pub mem_usage : Option ℕ
  pub mem_percent : Option Float
  pub net_rx : Option ℕ
  pub net_tx : Option ℕ
  pub blk_read : Option ℕ
  pub blk_write : Option ℕ

abbrev pub no_usage : Usage
no_usage = record {
  cpu = none;
  mem_usage = none;
  mem_percent = none;
  net_rx = none;
  net_tx = none;
  blk_read = none;
  blk_write = none;
}

abbrev pub used : Option Memory → Option ℕ
used none = none
used (some m) = some (m.usage - m.inactive_file)

abbrev pub share_used : Floats → Option Memory → Result (Option Float)
share_used F none = ok none
share_used F (some m) = mem_share F m

abbrev pub usage_with : Stats → Option Float → Option Float → Usage
usage_with s cpu percent = record {
  cpu = cpu;
  mem_usage = used s.memory;
  mem_percent = percent;
  net_rx = unless_empty s.networks (rx_total s.networks);
  net_tx = unless_empty s.networks (tx_total s.networks);
  blk_read = unless_empty s.blkio (op_total "read" s.blkio);
  blk_write = unless_empty s.blkio (op_total "write" s.blkio);
}

abbrev pub usage_of : Floats → Stats → Result Usage
usage_of F s = cpu_reading F s.cpu s.precpu s.cpu.system_cpu_usage >>= λ cpu.
    share_used F s.memory >>= λ percent. ok (usage_with s cpu percent)

abbrev pub readings : Usage → Readings
readings u = record {
  cpu = u.cpu;
  mem_usage = counted u.mem_usage;
  mem_percent = u.mem_percent;
  net_rx = counted u.net_rx;
  net_tx = counted u.net_tx;
  blk_read = counted u.blk_read;
  blk_write = counted u.blk_write;
}

-- The daemon's client answers with the statistics or with a list of them.
pub data Answer : Type 0 where
  alone : Stats → Answer
  listed : Stats → Answer

abbrev pub stats_of : Answer → Stats
stats_of (alone s) = s
stats_of (listed s) = s

abbrev pub answer_json : Answer → Json
answer_json (alone s) = stats_json s
answer_json (listed s) = arr (cons (stats_json s) nil)

abbrev pub asked : Result Answer → Result Json
asked answer = answer >>= λ a. ok (answer_json a)

memory_reading-used :
    (F : Floats) (m : Option Memory)
    → memory_reading F m ≡ (share_used F m >>= λ percent. ok (counted (used m), percent))
memory_reading-used F none = refl
memory_reading-used F (some m) = refl

pub read_stats-stats_json :
    (F : Floats) (s : Stats) → read_stats F (stats_json s) ≡ (usage_of F s >>= λ u. ok (readings u))
unfolding read_stats
read_stats-stats_json F s =
    rw
      (
        cpu_percent-stats_json F s,
        mem-stats_json F s,
        network-stats_json F s,
        block_io-stats_json F s,
        memory_reading-used F s.memory,
      )
      (go (cpu_reading F s.cpu s.precpu s.cpu.system_cpu_usage) (share_used F s.memory))
  where
    go :
        (a b : Result (Option Float))
        → (a >>= λ cpu.
            (b >>= λ percent. ok (counted (used s.memory), percent)) >>= λ (usage, percent).
            ok (record (readings (usage_with s cpu percent)) { mem_usage = usage }))
          ≡ ((a >>= λ cpu. b >>= λ percent. ok (usage_with s cpu percent)) >>= λ u. ok (readings u))
    go (ok cpu) (ok percent) = refl
    go (ok cpu) (raised e) = refl
    go (raised e) b = refl
