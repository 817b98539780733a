-- ===== src/Docker/Stats.antt =====
-- docker.py's readings of one answer of a container's statistics: `_cpu_percent`, `_mem`, `_network`
-- and `_block_io`.
use oopsys_agent.Base.{
  String, Bool, ◌||◌, Option, none, some, List, [], ◌∷◌, if◌then◌else◌, str_eq, Result, ok, raised,
}
use oopsys_agent.Base.Int.{pos}
use oopsys_agent.Base.Text.{lower}
use oopsys_agent.Base.Results.{◌>>=◌}
use oopsys_agent.Domain.Values.{Float, Json, null, num, str}
use oopsys_agent.Dynamic.Defs.{
  get, get_or, subscript, is_key_or_type_error, truthy, or_else, empty_dict, empty_list, iterate,
  dict_values, len, text_method,
}
use oopsys_agent.Dynamic.Numbers.{
  Number, Floats, zero_float, hundred, number, subtract, is_negative, is_at_most_zero, max_zero,
  total,
}

-- `sum(e.get(key, 0) for e in entries)` reads these numbers.
unfoldable pub read_numbers : String → List Json → Result (List Number)
read_numbers key [] = ok []
read_numbers key (e ∷ entries) = get_or key (num (pos 0)) e >>= λ j.
    number "+" j >>= λ n. read_numbers key entries >>= λ ns. ok (n ∷ ns)

abbrev pub is_op : String → Json → Result Bool
is_op name e =
    get_or "op" (str "") e >>= λ j. text_method "lower" j >>= λ op. ok (str_eq (lower op) name)

-- The same with `if e.get("op", "").lower() == name`.
unfoldable pub op_numbers : String → List Json → Result (List Number)
op_numbers name [] = ok []
op_numbers name (e ∷ entries) =
    let rest = op_numbers name entries in
    is_op name e >>= λ same.
    if same
    then (get_or "value" (num (pos 0)) e >>= λ j. number "+" j >>= λ n. rest >>= λ ns. ok (n ∷ ns))
    else rest

unfoldable pub online_cpus : Json → Result Json
online_cpus cpu = get "online_cpus" cpu >>= λ online.
    if truthy online
    then ok online
    else (get_or "cpu_usage" empty_dict cpu >>= λ usage. get "percpu_usage" usage >>= λ percpu.
        len (or_else percpu empty_list) >>= λ n. ok (or_else (num (pos n)) (num (pos 1))))

module _ (F : Floats) where
  -- The `try` of `_cpu_percent`: the two deltas.
  unfoldable pub cpu_deltas : Json → Json → Result (Number × Number)
  cpu_deltas cpu precpu = subscript "cpu_usage" cpu >>= λ usage.
      subscript "total_usage" usage >>= λ now. subscript "cpu_usage" precpu >>= λ preusage.
      subscript "total_usage" preusage >>= λ before. subtract F now before >>= λ cpu_delta.
      subscript "system_cpu_usage" cpu >>= λ system.
      get_or "system_cpu_usage" (num (pos 0)) precpu >>= λ presystem.
      subtract F system presystem >>= λ system_delta. ok (cpu_delta, system_delta)

  unfoldable pub cpu_ratio : Json → Number × Number → Result (Option Float)
  cpu_ratio cpu (cpu_delta, system_delta) =
      if is_at_most_zero F system_delta || is_negative F cpu_delta
      then ok (some zero_float)
      else (online_cpus cpu >>= λ online. F.true_div cpu_delta system_delta >>= λ ratio.
          number "*" online >>= λ n. F.mul ratio n >>= λ share.
          F.mul share (Number.flt hundred) >>= λ percent.
          F.round_2 percent >>= λ rounded. ok (some rounded))

  abbrev cpu_read : Json → Result (Number × Number) → Result (Option Float)
  cpu_read cpu (ok deltas) = cpu_ratio cpu deltas
  cpu_read cpu (raised e) = if is_key_or_type_error e then ok none else raised e

  -- `_cpu_percent`
  unfoldable pub cpu_percent : Json → Result (Option Float)
  cpu_percent stats = get_or "cpu_stats" empty_dict stats >>= λ cpu.
      get_or "precpu_stats" empty_dict stats >>= λ precpu. cpu_read cpu (cpu_deltas cpu precpu)

  abbrev pub mem_percent : Number → Json → Result (Option Float)
  mem_percent real_usage limit =
      if truthy limit
      then (number "/" limit >>= λ n. F.true_div real_usage n >>= λ ratio.
          F.mul ratio (Number.flt hundred) >>= λ percent.
          F.round_2 percent >>= λ rounded. ok (some rounded))
      else ok none

  -- `_mem` once the usage is there.
  abbrev pub mem_used : Json → Json → Json → Result (Option Number × Option Float)
  mem_used memory limit usage = get_or "stats" empty_dict memory >>= λ stats.
      get_or "inactive_file" (num (pos 0)) stats >>= λ cache.
      subtract F usage cache >>= λ difference.
      mem_percent (max_zero F difference) limit >>= λ percent.
      ok (some (max_zero F difference), percent)

  abbrev pub mem_read : Json → Json → Json → Result (Option Number × Option Float)
  mem_read memory limit null = ok (none, none)
  mem_read memory limit usage = mem_used memory limit usage

  unfoldable pub memory_read : Json → Result (Option Number × Option Float)
  memory_read memory =
      get "usage" memory >>= λ usage. get "limit" memory >>= λ limit. mem_read memory limit usage

  -- `_mem`
  unfoldable pub mem : Json → Result (Option Number × Option Float)
  mem stats = get_or "memory_stats" empty_dict stats >>= memory_read

  unfoldable pub networks_read : Json → Result (Option Number × Option Number)
  unfolding read_numbers
  networks_read networks =
      if truthy networks
      then (dict_values networks >>= λ nets. read_numbers "rx_bytes" nets >>= λ rxs.
          total F rxs >>= λ rx.
          read_numbers "tx_bytes" nets >>= λ txs. total F txs >>= λ tx. ok (some rx, some tx))
      else ok (none, none)

  -- `_network`
  unfoldable pub network : Json → Result (Option Number × Option Number)
  network stats = get "networks" stats >>= networks_read

  unfoldable pub entries_read : Json → Result (Option Number × Option Number)
  unfolding op_numbers
  entries_read listed = iterate (or_else listed empty_list) >>= λ entries.
      op_numbers "read" entries >>= λ reads. total F reads >>= λ read.
      op_numbers "write" entries >>= λ writes. total F writes >>= λ write.
      ok (if truthy listed then (some read, some write) else (none, none))

  -- `_block_io`
  unfoldable pub block_io : Json → Result (Option Number × Option Number)
  block_io stats = get_or "blkio_stats" empty_dict stats >>= λ blkio.
      get "io_service_bytes_recursive" blkio >>= entries_read
