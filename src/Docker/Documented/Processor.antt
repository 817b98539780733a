-- ===== src/Docker/Documented/Processor.antt =====
-- The agent reads documented samples of the memory and the CPU as documented.
use oopsys_agent.Base.{
  ℕ, ◌-◌, ◌≡◌, refl, ap, inl, inr, false, ◌||◌, Bool-cases, Option, none, some, List, [], ◌∷◌,
  length, ltb, leb, ◌==◌, if◌then◌else◌, Result, ok, arith, type_name,
}
use oopsys_agent.Base.Int.{pos, ◌-ℤ◌}
use oopsys_agent.Base.Results.{◌>>=◌}
use oopsys_agent.Domain.Values.{Float, Json, num, arr}
use oopsys_agent.Dynamic.Defs.{items, count_items, len, or_else, empty_list}
use oopsys_agent.Dynamic.Numbers.{Number, int, Floats, max_zero, is_negative, is_at_most_zero}
use oopsys_agent.Docker.Stats.{memory_read, mem, cpu_percent, cpu_deltas, cpu_ratio, online_cpus}
use oopsys_agent.Docker.Documented.Stats.{
  Cpu, Memory, Stats, stats_json, nat_items, memory_json, cpu_json, cpus, since, cpu_share,
  cpu_reading, mem_share,
}

max_zero-difference : (F : Floats) (a b : ℕ) → max_zero F (int (pos a -ℤ pos b)) ≡ int (pos (a - b))
unfolding ◌-ℤ◌
max_zero-difference F a b = ground arith

-- What the memory is reported as.
abbrev pub memory_reading : Floats → Option Memory → Result (Option Number × Option Float)
memory_reading F none = ok (none, none)
memory_reading F (some m) =
    mem_share F m >>= λ percent. ok (some (int (pos (m.usage - m.inactive_file))), percent)

memory_read-memory_json :
    (F : Floats) (m : Option Memory) → memory_read F (memory_json m) ≡ memory_reading F m
unfolding memory_read
memory_read-memory_json F none = refl
memory_read-memory_json F (some m) = elim (Bool-cases (m.limit == 0)) [
  | inl zero_limit ↦ rw (max_zero-difference F m.usage m.inactive_file, zero_limit) refl
  | inr limited ↦ rw (max_zero-difference F m.usage m.inactive_file, limited) refl
]

pub mem-stats_json : (F : Floats) (s : Stats) → mem F (stats_json s) ≡ memory_reading F s.memory
unfolding mem
mem-stats_json F s = memory_read-memory_json F s.memory

count_items-nat_items : (ns : List ℕ) → count_items (items (nat_items ns)) ≡ length ns
count_items-nat_items [] = refl
count_items-nat_items (n ∷ ns) = rw (count_items-nat_items ns) refl

len-nat_items : (ns : List ℕ) → len (or_else (arr (nat_items ns)) empty_list) ≡ ok (length ns)
len-nat_items [] = refl
len-nat_items (n ∷ ns) = rw (count_items-nat_items ns) refl

abbrev at_least_one : ℕ → Json
at_least_one n = or_else (num (pos n)) (num (pos 1))

at_least_one_lem : (n : ℕ) → at_least_one n ≡ num (pos (if n == 0 then 1 else n))
at_least_one_lem n = ground arith

online_cpus-cpu_json : (c : Cpu) → online_cpus (cpu_json c) ≡ ok (num (pos (cpus c)))
unfolding online_cpus
online_cpus-cpu_json c = elim (Bool-cases (c.online_cpus == 0)) [
  | inl missing ↦
      rw (missing, len-nat_items c.percpu_usage) (ap ok (at_least_one_lem (length c.percpu_usage)))
  | inr known ↦ rw known refl
]

-- The deltas of two samples, of which the later has the system's usage.
cpu_deltas-cpu_json :
    (F : Floats) (c p : Cpu) (system : ℕ)
    → c.system_cpu_usage ≡ some system
    → cpu_deltas F (cpu_json c) (cpu_json p)
      ≡ ok (
        int (pos c.total_usage -ℤ pos p.total_usage),
        int (pos system -ℤ pos (since p.system_cpu_usage)),
      )
unfolding cpu_deltas
cpu_deltas-cpu_json F c p system e = go p.system_cpu_usage refl
  where
    go :
        (o : Option ℕ)
        → p.system_cpu_usage ≡ o
        → cpu_deltas F (cpu_json c) (cpu_json p)
          ≡ ok (
            int (pos c.total_usage -ℤ pos p.total_usage),
            int (pos system -ℤ pos (since p.system_cpu_usage)),
          )
    go none h = rw (e, h) refl
    go (some n) h = rw (e, h) refl

at_most_zero_difference :
    (F : Floats) (a b : ℕ) → is_at_most_zero F (int (pos a -ℤ pos b)) ≡ leb a b
unfolding ◌-ℤ◌
at_most_zero_difference F a b = ground arith

negative_difference : (F : Floats) (a b : ℕ) → is_negative F (int (pos a -ℤ pos b)) ≡ ltb a b
unfolding ◌-ℤ◌
negative_difference F a b = ground arith

difference : (a b : ℕ) → ltb a b ≡ false → pos a -ℤ pos b ≡ pos (a - b)
unfolding ◌-ℤ◌
difference a b h = ground arith

cpu_ratio-share :
    (F : Floats) (c p : Cpu) (system presystem : ℕ)
    → cpu_ratio F
        (cpu_json c)
        (int (pos c.total_usage -ℤ pos p.total_usage), int (pos system -ℤ pos presystem))
      ≡ cpu_share F c p system presystem
unfolding cpu_ratio
cpu_ratio-share F c p system presystem =
    elim (Bool-cases (leb system presystem || ltb c.total_usage p.total_usage)) [
      | inl idle ↦
          rw
            (
              at_most_zero_difference F system presystem,
              negative_difference F c.total_usage p.total_usage,
              idle,
            )
            refl
      | inr busy ↦
          rw
            (
              at_most_zero_difference F system presystem,
              negative_difference F c.total_usage p.total_usage,
              busy,
              online_cpus-cpu_json c,
              difference c.total_usage p.total_usage (ground arith),
              difference system presystem (ground arith),
            )
            refl
    ]

cpu_percent-some :
    (F : Floats) (s : Stats) (system : ℕ)
    → s.cpu.system_cpu_usage ≡ some system
    → cpu_percent F (stats_json s)
      ≡ cpu_share F s.cpu s.precpu system (since s.precpu.system_cpu_usage)
unfolding cpu_percent
cpu_percent-some F s system e =
    rw (cpu_deltas-cpu_json F s.cpu s.precpu system e)
      (cpu_ratio-share F s.cpu s.precpu system (since s.precpu.system_cpu_usage))

cpu_percent-none :
    (F : Floats) (s : Stats)
    → s.cpu.system_cpu_usage ≡ none
    → cpu_percent F (stats_json s) ≡ ok none
unfolding cpu_percent cpu_deltas type_name
cpu_percent-none F s e = rw e refl

pub cpu_percent-stats_json :
    (F : Floats) (s : Stats)
    → cpu_percent F (stats_json s) ≡ cpu_reading F s.cpu s.precpu s.cpu.system_cpu_usage
cpu_percent-stats_json F s = go s.cpu.system_cpu_usage refl
  where
    go :
        (o : Option ℕ)
        → s.cpu.system_cpu_usage ≡ o
        → cpu_percent F (stats_json s) ≡ cpu_reading F s.cpu s.precpu o
    go none missing = cpu_percent-none F s missing
    go (some system) known = cpu_percent-some F s system known
