-- ===== src/Docker/Documented/Stats.antt =====
-- The statistics of a running container, and what is to be read from them.
use oopsys_agent.Base.{
  ℕ, ◌+◌, ◌-◌, String, Option, none, some, List, [], ◌∷◌, ltb, leb, ◌==◌, if◌then◌else◌, length,
  str_eq, Result, ok, ◌||◌,
}
use oopsys_agent.Base.Int.{pos}
use oopsys_agent.Base.Text.{lower}
use oopsys_agent.Base.Results.{◌>>=◌}
use oopsys_agent.Domain.Values.{
  Float, Json, null, num, str, arr, obj, Items, nil, cons, Fields, end, field,
}
use oopsys_agent.Dynamic.Numbers.{int, flt, Floats, zero_float, hundred}

-- A network's counters.
pub record Net : Type 0 where
  pub name : String
  pub rx_bytes : ℕ
  pub tx_bytes : ℕ

-- An entry of the block I/O; the daemon has written the operation as `Read` and as `read`.
pub record Blkio : Type 0 where
  pub op : String
  pub value : ℕ

-- A sample of the CPU; the first one before a container's start has no system's usage. An old daemon
-- gives no number of CPUs, which is 0 here, but each one's usage.
pub record Cpu : Type 0 where
  pub total_usage : ℕ
  pub system_cpu_usage : Option ℕ
  pub online_cpus : ℕ
  pub percpu_usage : List ℕ

pub record Memory : Type 0 where
  pub usage : ℕ
  pub limit : ℕ
  pub inactive_file : ℕ

pub record Stats : Type 0 where
  pub cpu : Cpu
  pub precpu : Cpu
  pub memory : Option Memory
  pub networks : List Net
  pub blkio : List Blkio

abbrev pub nat_json : ℕ → Json
nat_json n = num (pos n)

abbrev pub system_fields : Option ℕ → Fields → Fields
system_fields none rest = rest
system_fields (some n) rest = field "system_cpu_usage" (nat_json n) rest

abbrev pub nat_items : List ℕ → Items
nat_items [] = nil
nat_items (n ∷ ns) = cons (nat_json n) (nat_items ns)

abbrev pub cpu_json : Cpu → Json
cpu_json c = obj (
    field "cpu_usage"
      (obj (
        field "total_usage" (nat_json c.total_usage)
          (field "percpu_usage" (arr (nat_items c.percpu_usage)) end)))
      (field "online_cpus" (nat_json c.online_cpus) (system_fields c.system_cpu_usage end)))

abbrev pub memory_json : Option Memory → Json
memory_json none = obj end
memory_json (some m) = obj (
    field "usage" (nat_json m.usage) (
      field "limit" (nat_json m.limit)
        (field "stats" (obj (field "inactive_file" (nat_json m.inactive_file) end)) end)))

abbrev pub net_fields : List Net → Fields
net_fields [] = end
net_fields (n ∷ nets) =
    field n.name
      (obj (field "rx_bytes" (nat_json n.rx_bytes) (field "tx_bytes" (nat_json n.tx_bytes) end)))
      (net_fields nets)

abbrev pub blkio_items : List Blkio → Items
blkio_items [] = nil
blkio_items (b ∷ bs) =
    cons (obj (field "op" (str b.op) (field "value" (nat_json b.value) end))) (blkio_items bs)

-- No entries are `null`.
abbrev pub blkio_json : List Blkio → Json
blkio_json [] = null
blkio_json (b ∷ bs) = arr (blkio_items (b ∷ bs))

abbrev pub stats_json : Stats → Json
stats_json s = obj (
    field "cpu_stats" (cpu_json s.cpu) (
      field "precpu_stats" (cpu_json s.precpu) (
        field "memory_stats" (memory_json s.memory) (
          field "networks" (obj (net_fields s.networks)) (
            field "blkio_stats" (obj (field "io_service_bytes_recursive" (blkio_json s.blkio) end))
              end)))))

-- The totals over the networks; with no network there are none.
abbrev pub rx_total : List Net → ℕ
rx_total [] = 0
rx_total (n ∷ nets) = n.rx_bytes + rx_total nets

abbrev pub tx_total : List Net → ℕ
tx_total [] = 0
tx_total (n ∷ nets) = n.tx_bytes + tx_total nets

-- The bytes of the operations that are called so in any case of letters.
abbrev pub op_total : String → List Blkio → ℕ
op_total name [] = 0
op_total name (b ∷ bs) = (if str_eq (lower b.op) name then b.value else 0) + op_total name bs

abbrev pub unless_empty : {A : Type 0} → List A → ℕ → Option ℕ
unless_empty [] n = none
unless_empty (x ∷ xs) n = some n

abbrev pub since : Option ℕ → ℕ
since none = 0
since (some n) = n

-- The number of CPUs, one at least.
abbrev pub cpus : Cpu → ℕ
cpus c =
    if c.online_cpus == 0
    then (if length c.percpu_usage == 0 then 1 else length c.percpu_usage)
    else c.online_cpus

module _ (F : Floats) where
  -- 100 * a / b * n, rounded to two places.
  abbrev pub percentage : ℕ → ℕ → Option ℕ → Result (Option Float)
  percentage a b none = F.true_div (int (pos a)) (int (pos b)) >>= λ ratio.
      F.mul ratio (flt hundred) >>= λ percent. F.round_2 percent >>= λ rounded. ok (some rounded)
  percentage a b (some n) = F.true_div (int (pos a)) (int (pos b)) >>= λ ratio.
      F.mul ratio (int (pos n)) >>= λ share.
      F.mul share (flt hundred) >>= λ percent. F.round_2 percent >>= λ rounded. ok (some rounded)

  abbrev pub cpu_share : Cpu → Cpu → ℕ → ℕ → Result (Option Float)
  cpu_share cpu precpu system presystem =
      if leb system presystem || ltb cpu.total_usage precpu.total_usage
      then ok (some zero_float)
      else percentage (cpu.total_usage - precpu.total_usage) (system - presystem) (some (cpus cpu))

  -- The share of the CPU between two samples, over all CPUs; nothing without the system's usage.
  abbrev pub cpu_reading : Cpu → Cpu → Option ℕ → Result (Option Float)
  cpu_reading cpu precpu none = ok none
  cpu_reading cpu precpu (some system) = cpu_share cpu precpu system (since precpu.system_cpu_usage)

  abbrev pub mem_share : Memory → Result (Option Float)
  mem_share m =
      if m.limit == 0 then ok none else percentage (m.usage - m.inactive_file) m.limit none
