-- ===== src/Docker/Documented/Readings.antt =====
-- The agent reads documented statistics as documented.
use oopsys_agent.Base.{
  ℕ, ◌+◌, String, ◌≡◌, refl, inl, inr, Bool-cases, Option, none, some, List, [], ◌∷◌, if◌then◌else◌,
  str_eq, ok, arith,
}
use oopsys_agent.Base.Int.{pos, ◌+ℤ◌}
use oopsys_agent.Base.Text.{lower}
use oopsys_agent.Domain.Values.{obj}
use oopsys_agent.Dynamic.Defs.{items, field_values}
use oopsys_agent.Dynamic.Numbers.{Number, int, Floats, int_sum, total}
use oopsys_agent.Docker.Stats.{
  read_numbers, op_numbers, networks_read, network, entries_read, block_io,
}
use oopsys_agent.Docker.Documented.Stats.{
  Net, Blkio, Stats, stats_json, net_fields, blkio_items, blkio_json, rx_total, tx_total, op_total,
  unless_empty,
}

abbrev counts : List ℕ → List Number
counts [] = []
counts (n ∷ ns) = int (pos n) ∷ counts ns

abbrev add_up : List ℕ → ℕ
add_up [] = 0
add_up (n ∷ ns) = n + add_up ns

abbrev count : ℕ → Number
count n = int (pos n)

+ℤ-pos : (a b : ℕ) → pos a +ℤ pos b ≡ pos (a + b)
unfolding ◌+ℤ◌
+ℤ-pos a b = ground arith

int_sum-counts : (ns : List ℕ) → int_sum (counts ns) ≡ some (pos (add_up ns))
int_sum-counts [] = refl
int_sum-counts (n ∷ ns) = rw (int_sum-counts ns, +ℤ-pos n (add_up ns)) refl

total-counts : (F : Floats) (ns : List ℕ) → total F (counts ns) ≡ ok (count (add_up ns))
total-counts F ns = rw (int_sum-counts ns, total) refl

abbrev rxs : List Net → List ℕ
rxs [] = []
rxs (n ∷ nets) = n.rx_bytes ∷ rxs nets

abbrev txs : List Net → List ℕ
txs [] = []
txs (n ∷ nets) = n.tx_bytes ∷ txs nets

read_numbers-rx :
    (nets : List Net)
    → read_numbers "rx_bytes" (field_values (net_fields nets)) ≡ ok (counts (rxs nets))
unfolding read_numbers
read_numbers-rx [] = refl
read_numbers-rx (n ∷ nets) = rw (read_numbers-rx nets) refl

read_numbers-tx :
    (nets : List Net)
    → read_numbers "tx_bytes" (field_values (net_fields nets)) ≡ ok (counts (txs nets))
unfolding read_numbers
read_numbers-tx [] = refl
read_numbers-tx (n ∷ nets) = rw (read_numbers-tx nets) refl

add_up-rxs : (nets : List Net) → add_up (rxs nets) ≡ rx_total nets
add_up-rxs [] = refl
add_up-rxs (n ∷ nets) = rw (add_up-rxs nets) refl

add_up-txs : (nets : List Net) → add_up (txs nets) ≡ tx_total nets
add_up-txs [] = refl
add_up-txs (n ∷ nets) = rw (add_up-txs nets) refl

abbrev pub counted : Option ℕ → Option Number
counted none = none
counted (some n) = some (count n)

networks_read-net_fields :
    (F : Floats) (nets : List Net)
    → networks_read F (obj (net_fields nets))
      ≡ ok
          (counted (unless_empty nets (rx_total nets)), counted (unless_empty nets (tx_total nets)))
unfolding networks_read
networks_read-net_fields F [] = refl
networks_read-net_fields F (n ∷ nets) =
    rw
      (
        read_numbers-rx (n ∷ nets),
        total-counts F (rxs (n ∷ nets)),
        read_numbers-tx (n ∷ nets),
        total-counts F (txs (n ∷ nets)),
        add_up-rxs nets,
        add_up-txs nets,
      )
      refl

-- What `_network` reads from documented statistics.
pub network-stats_json :
    (F : Floats) (s : Stats)
    → network F (stats_json s)
      ≡ ok (
        counted (unless_empty s.networks (rx_total s.networks)),
        counted (unless_empty s.networks (tx_total s.networks)),
      )
unfolding network
network-stats_json F s = networks_read-net_fields F s.networks

op_counts : String → List Blkio → List ℕ
op_counts name [] = []
op_counts name (b ∷ bs) =
    if str_eq (lower b.op) name then b.value ∷ op_counts name bs else op_counts name bs

op_numbers-blkio_items :
    (name : String) (bs : List Blkio)
    → op_numbers name (items (blkio_items bs)) ≡ ok (counts (op_counts name bs))
unfolding op_numbers op_counts
op_numbers-blkio_items name [] = refl
op_numbers-blkio_items name (b ∷ bs) = elim (Bool-cases (str_eq (lower b.op) name)) [
  | inl same ↦ rw (same, op_numbers-blkio_items name bs) refl
  | inr other ↦ rw (other, op_numbers-blkio_items name bs) refl
]

add_up-op_counts : (name : String) (bs : List Blkio) → add_up (op_counts name bs) ≡ op_total name bs
unfolding op_counts
add_up-op_counts name [] = refl
add_up-op_counts name (b ∷ bs) = ground (arith, add_up-op_counts name bs)

entries_read-blkio_json :
    (F : Floats) (bs : List Blkio)
    → entries_read F (blkio_json bs)
      ≡ ok (
        counted (unless_empty bs (op_total "read" bs)),
        counted (unless_empty bs (op_total "write" bs)),
      )
unfolding entries_read
entries_read-blkio_json F [] = refl
entries_read-blkio_json F (b ∷ bs) =
    rw
      (
        op_numbers-blkio_items "read" (b ∷ bs),
        total-counts F (op_counts "read" (b ∷ bs)),
        op_numbers-blkio_items "write" (b ∷ bs),
        total-counts F (op_counts "write" (b ∷ bs)),
        add_up-op_counts "read" (b ∷ bs),
        add_up-op_counts "write" (b ∷ bs),
      )
      refl

pub block_io-stats_json :
    (F : Floats) (s : Stats)
    → block_io F (stats_json s)
      ≡ ok (
        counted (unless_empty s.blkio (op_total "read" s.blkio)),
        counted (unless_empty s.blkio (op_total "write" s.blkio)),
      )
unfolding block_io
block_io-stats_json F s = entries_read-blkio_json F s.blkio
