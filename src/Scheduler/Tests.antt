-- ===== src/Scheduler/Tests.antt =====
-- The monitoring run over a database in memory.
use oopsys_agent.Database.{Row}
use oopsys_agent.Base.{
  arith, List, ◌≡◌, refl, ◌⊎◌, true, false, none, some, List, [], ◌∷◌, ◌++◌, map, Exc, cancelled,
  ok, raised, other, ◌||◌,
}
use oopsys_agent.Domain.{ServerMetrics, ContainerState}
use oopsys_agent.Database.Memory.{Memory, memory, memory-IsLawful}
use oopsys_agent.Docker.Collect.{connects, survivors}
use oopsys_agent.Docker.Samples.{
  no_daemon, no_daemon-IsSettled, a_container, some_floats, strict, strict-IsFaithful, no_parser,
  listing, listing-AreDocumented, connected,
}
use oopsys_agent.Docker.Listing.{each_built}
use oopsys_agent.Docker.Documented.Collect.{inspections, reports}
use oopsys_agent.Scheduler.Containers.{IsUp, collect_once-documented}
use oopsys_agent.World.{World}
use oopsys_agent.Events.Defs.{metrics_row, state_row, fault_row}
use oopsys_agent.Events.Tests.{dumps, stamp, named_db, bare_world}
use oopsys_agent.Scheduler.Defs.{Round, FaultSeen, Turn, guard, collect_once, metrics_loop}
use oopsys_agent.Scheduler.Guard.{fault_of, guard_outcome}
use oopsys_agent.Scheduler.Survival.{is_calm, AllCalm, all_rounds, metrics_loop-returns}
use oopsys_agent.Scheduler.Watched.{status_of}
use oopsys_agent.Scheduler.Round.{collect_once_outcome}

abbrev measured : ServerMetrics
measured = record {
  cpu_percent = 0;
  mem_percent = 0;
  mem_used = 2048;
  mem_total = 4096;
  net_bytes_sent = 1;
  net_bytes_recv = 2;
  load_1 = 0;
  load_5 = 0;
  load_15 = 0;
  disk_percent = none;
  captured_at = 350;
}

abbrev pub without_docker : Round
without_docker = record {
  metrics = ok measured;
  metrics_stamp = stamp;
  metrics_at = 351;
  connecting = no_daemon;
  listed = ok (ok a_container ∷ []);
  captured_at = 360;
  snapshot_stamp = stamp;
}

abbrev pub fault_seen : FaultSeen
fault_seen = record { traceback = λ exc. "Traceback"; occurred_at = 370; stamp = stamp }

guard_outcome_example :
    let failure = other "OSError" "/proc" in
    let run =
      guard memory dumps "oopsys" "monitor" "collect"
        (λ w. (raised failure, w))
        fault_seen
        bare_world in
    let row = fault_row (fault_of memory dumps "oopsys" "monitor" "collect" fault_seen failure) in
    ((run.0 ≡ ok tt) × (run.1.db.rows ≡ [] ++ row ∷ []))
    ⊎ (((x : Exc) × (memory.commit_rows (row ∷ []) named_db ≡ raised x))
        × ((run ≡ (ok tt, bare_world))
            ⊎ ((memory.commit_rows (row ∷ []) named_db ≡ raised cancelled)
                × (run ≡ (raised cancelled, bare_world)))))
guard_outcome_example =
    guard_outcome memory dumps "oopsys" memory-IsLawful "monitor" "collect"
      (λ w. (raised (other "OSError" "/proc"), w)) fault_seen bare_world
      {exc = other "OSError" "/proc"} {v = bare_world} refl refl refl

abbrev turns : List Turn
turns =
    record { round = without_docker; fault_seen = fault_seen; slept = true }
    ∷ record {
      round = record without_docker { metrics = raised (other "OSError" "/proc") };
      fault_seen = fault_seen;
      slept = true;
    }
    ∷ record { round = without_docker; fault_seen = fault_seen; slept = false }
    ∷ []

collect_once_outcome_example :
    let v = (collect_once memory dumps "oopsys" without_docker bare_world).1 in
    ((states : List ContainerState) × (v.db.rows
        ≡ ([] ++ metrics_row measured ∷ []) ++ map state_row states))
    × (v.node.runtime.last_metrics_at ≡ some 351)
    × (v.monitor.available ≡ false || connects no_daemon)
    × (v.node.runtime.docker ≡ status_of v.monitor)
collect_once_outcome_example =
    collect_once_outcome {D = memory} dumps "oopsys" memory-IsLawful without_docker measured
      bare_world {db = record named_db { rows = metrics_row measured ∷ [] }} refl refl refl refl
      no_daemon-IsSettled

memory_calm : (rows : List Row) (db : Memory) → is_calm (memory.commit_rows rows db) ≡ true
memory_calm rows db = ground arith

abbrev two_turns : List Turn
two_turns =
    record { round = without_docker; fault_seen = fault_seen; slept = true }
    ∷ record {
      round = record without_docker { metrics = raised (other "OSError" "/proc") };
      fault_seen = fault_seen;
      slept = true;
    }
    ∷ []

two_turns-AllCalm : AllCalm two_turns
two_turns-AllCalm = (
  record {
    metrics = refl;
    metrics_answer = refl;
    connecting = no_daemon-IsSettled;
    listed = refl;
    snapshot_answer = refl;
    fault_answer = refl;
    slept = refl;
  },
  (
    record {
      metrics = refl;
      metrics_answer = refl;
      connecting = no_daemon-IsSettled;
      listed = refl;
      snapshot_answer = refl;
      fault_answer = refl;
      slept = refl;
    },
    tt,
  ),
)

metrics_loop-returns_example :
    metrics_loop memory dumps "oopsys" two_turns bare_world
    ≡ (ok tt, all_rounds memory memory-IsLawful dumps "oopsys" memory_calm two_turns bare_world)
metrics_loop-returns_example =
    metrics_loop-returns memory memory-IsLawful dumps "oopsys" memory_calm two_turns bare_world
      two_turns-AllCalm

abbrev with_docker : Round
with_docker = record without_docker {
  listed = each_built some_floats strict no_parser (ok (inspections listing));
}

abbrev watched_world : World memory
watched_world = record bare_world { monitor = connected }

connected-IsUp : IsUp connected
connected-IsUp = record { client = 4; held = refl; available = refl }

abbrev expected : List Row
expected = map state_row (survivors (reports some_floats no_parser listing))

collect_once-documented_example :
    (v : World memory) × (collect_once memory dumps "oopsys" with_docker watched_world ≡ (ok tt, v))
    × (v.db.rows ≡ ([] ++ metrics_row measured ∷ []) ++ expected)
collect_once-documented_example =
    collect_once-documented {D = memory} dumps "oopsys" memory-IsLawful with_docker some_floats
      strict no_parser strict-IsFaithful measured listing watched_world
      {db = record named_db { rows = metrics_row measured ∷ [] }}
      {db' = record named_db { rows = metrics_row measured ∷ expected }} listing-AreDocumented refl
      refl refl connected-IsUp no_daemon-IsSettled refl refl refl refl
