-- ===== src/Docker/Bounds.antt =====
-- What holds of the readings of docker.py, whatever JSON the daemon answers with.
use oopsys_agent.Base.{
  ◌≡◌, refl, Bool, true, false, not, ◌&&◌, ◌||◌, Bool-cases, inl, inr, Option, none, some,
}
use oopsys_agent.Base.Results.{Holds, >>=-Holds, >>=-Holds_with, ok-Holds}
use oopsys_agent.Domain.Values.{Float, Json, null, bool, num, float, str, arr, obj}
use oopsys_agent.Dynamic.Defs.{truthy}
use oopsys_agent.Dynamic.Numbers.{Number, Floats, is_negative, max_zero}
use oopsys_agent.Docker.Stats.{
  mem, memory_read, mem_read, mem_used, network, networks_read, block_io, entries_read, cpu_percent,
}
use oopsys_agent.Docker.State.{Readings, read_stats}

abbrev pub is_there : {A : Type 0} → Option A → Bool
is_there none = false
is_there (some a) = true

abbrev pub agree : Bool → Bool → Bool
agree true b = b
agree false b = not b

abbrev pub paired : Option Number × Option Number → Bool
paired (a, b) = agree (is_there a) (is_there b)

abbrev pub not_negative : Floats → Option Number → Bool
not_negative F none = true
not_negative F (some n) = not (is_negative F n)

abbrev pub mem_sane : Floats → Option Number × Option Float → Bool
mem_sane F (usage, percent) = not_negative F usage && (not (is_there percent) || is_there usage)

abbrev pub sane : Floats → Readings → Bool
sane F r =
    mem_sane F (r.mem_usage, r.mem_percent)
    && paired (r.net_rx, r.net_tx)
    && paired (r.blk_read, r.blk_write)

max_zero-not_negative : (F : Floats) (n : Number) → not (is_negative F (max_zero F n)) ≡ true
max_zero-not_negative F n = elim (Bool-cases (is_negative F n)) [
  | inl h ↦ rw h refl
  | inr h ↦ rw (h, h) refl
]

-- A usage that is not negative, with or without a percentage.
mem_sane-some :
    (F : Floats) (usage : Number) (percent : Option Float)
    → not (is_negative F usage) ≡ true
    → mem_sane F (some usage, percent) ≡ true
mem_sane-some F usage none h = rw h refl
mem_sane-some F usage (some p) h = rw h refl

mem_used-sane :
    (F : Floats) (memory limit usage : Json) → Holds (mem_sane F) (mem_used F memory limit usage)
mem_used-sane F memory limit usage =
    search (>>=-Holds, ok-Holds, mem_sane-some, max_zero-not_negative) depth 12

mem_read-sane :
    (F : Floats) (memory limit usage : Json) → Holds (mem_sane F) (mem_read F memory limit usage)
mem_read-sane F memory limit null = ok-Holds (none, none) refl
mem_read-sane F memory limit (bool b) = mem_used-sane F memory limit (bool b)
mem_read-sane F memory limit (num z) = mem_used-sane F memory limit (num z)
mem_read-sane F memory limit (float f) = mem_used-sane F memory limit (float f)
mem_read-sane F memory limit (str s) = mem_used-sane F memory limit (str s)
mem_read-sane F memory limit (arr xs) = mem_used-sane F memory limit (arr xs)
mem_read-sane F memory limit (obj fs) = mem_used-sane F memory limit (obj fs)

memory_read-sane : (F : Floats) (memory : Json) → Holds (mem_sane F) (memory_read F memory)
unfolding memory_read
memory_read-sane F memory = search (>>=-Holds, mem_read-sane)

mem-sane : (F : Floats) (stats : Json) → Holds (mem_sane F) (mem F stats)
unfolding mem
mem-sane F stats = search (>>=-Holds, memory_read-sane)

networks_read-paired : (F : Floats) (networks : Json) → Holds paired (networks_read F networks)
unfolding networks_read
networks_read-paired F networks = elim (Bool-cases (truthy networks)) [
  | inl there ↦ rw there (search (>>=-Holds, ok-Holds) depth 12)
  | inr empty ↦ rw empty (ok-Holds (none, none) refl)
]

network-paired : (F : Floats) (stats : Json) → Holds paired (network F stats)
unfolding network
network-paired F stats = search (>>=-Holds, networks_read-paired)

entries_read-paired : (F : Floats) (entries : Json) → Holds paired (entries_read F entries)
unfolding entries_read
entries_read-paired F entries = elim (Bool-cases (truthy entries)) [
  | inl there ↦ rw there (search (>>=-Holds, ok-Holds) depth 12)
  | inr empty ↦ rw empty (search (>>=-Holds, ok-Holds) depth 12)
]

block_io-paired : (F : Floats) (stats : Json) → Holds paired (block_io F stats)
unfolding block_io
block_io-paired F stats = search (>>=-Holds, entries_read-paired)

-- Whatever JSON the daemon answers with as statistics, if they are read without an exception: the
-- memory in use is not negative, there is no percentage of memory without it, and the counters of the
-- network come both or neither, as do those of the block I/O.
pub read_stats-sane : (F : Floats) (stats : Json) → Holds (sane F) (read_stats F stats)
unfolding read_stats
read_stats-sane F stats = >>=-Holds (cpu_percent F stats) _ (λ cpu.
    >>=-Holds_with (mem F stats) _ (mem-sane F stats) (λ m m_sane.
      >>=-Holds_with (network F stats) _ (network-paired F stats) (λ n n_paired.
        >>=-Holds_with (block_io F stats) _ (block_io-paired F stats)
          (λ b b_paired. ok-Holds _ (rw (m_sane, n_paired, b_paired) refl)))))
