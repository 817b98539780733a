-- ===== src/Scheduler/Watched.antt =====
-- What watching the containers leaves in the history and in the runtime.
use mathlib.Core.List.{append-nil}
use oopsys_agent.Base.{
  String, ◌≡◌, refl, sym, inl, inr, Bool, true, false, ◌||◌, List, [], ◌++◌, map, arith, ok,
  Result-cases, >>=-ok, >>=-raised, >>=-step, pure, ◌>>◌,
}
use oopsys_agent.Domain.{DockerStatus, ContainerState}
use oopsys_agent.Database.{Database, IsLawful}
use oopsys_agent.Nats.Brokers.{settled}
use oopsys_agent.Nats.Publish.{publish-keeps}
use oopsys_agent.Docker.Monitor.{ConnectAnswers, connect, collect}
use oopsys_agent.Docker.Collect.{IsSettled, connects, connect_lem}
use oopsys_agent.World.{DockerMonitor, World, on_monitor}
use oopsys_agent.Events.Defs.{Dumps, state_row, record_container_snapshot}
use oopsys_agent.Events.Outcome.{snapshot, record_event, record_event_outcome}
use oopsys_agent.Scheduler.Defs.{
  Round, connect_unless, sync_docker, collect_containers, watch_containers,
}

abbrev pub status_of : DockerMonitor → DockerStatus
status_of m = record { available = m.available; reason = m.reason }

abbrev pub reconnected : Bool → ConnectAnswers → DockerMonitor → DockerMonitor
reconnected true a m = m
reconnected false a m = (connect a m).1

pub reconnected-available :
    (a : ConnectAnswers) (m : DockerMonitor)
    → IsSettled a
    → (reconnected m.available a m).available ≡ m.available || connects a
reconnected-available a m s = let (_, available, _) = connect_lem a m s in ground arith

module _ {D : Database} where
  abbrev pub synced : World D → DockerMonitor → World D
  synced w m = record w {
    node = record w.node { runtime = record w.node.runtime { docker = status_of m } };
    monitor = m;
  }

  connect_unless_lem :
      (b : Bool) (a : ConnectAnswers) (w : World D)
      → IsSettled a
      → connect_unless b a w ≡ (ok tt, record w { monitor = reconnected b a w.monitor })
  connect_unless_lem true a w s = refl
  connect_unless_lem false a w s =
      >>=-ok (on_monitor (connect a)) (λ _. pure tt) w (connect_lem a w.monitor s).0

  -- Only containers are added to the history, and neither the monitor nor what is said of it changes.
  pub record Watched (w v : World D) : Type 0 where
    pub last_metrics_at : v.node.runtime.last_metrics_at ≡ w.node.runtime.last_metrics_at
    pub docker : v.node.runtime.docker ≡ w.node.runtime.docker
    pub monitor : v.monitor ≡ w.monitor
    pub grown :
        (states : List ContainerState) × (D.history v.db ≡ D.history w.db ++ map state_row states)

  same-Watched : (w : World D) → Watched w w
  same-Watched w = record {
    last_metrics_at = refl;
    docker = refl;
    monitor = refl;
    grown = ([], sym (append-nil (D.history w.db)));
  }

  module _ (dumps : Dumps) (prefix : String) (L : IsLawful D) (r : Round) where
    snapshot-Watched :
        (states : List ContainerState) (agent_id : String) (w : World D)
        → settled r.snapshot_stamp.answer ≡ true
        → Watched w
            (record_container_snapshot D dumps prefix
              (record { captured_at = r.captured_at; containers = states })
              agent_id
              r.snapshot_stamp
              w).1
    unfolding record_event
    snapshot-Watched states agent_id w s =
        elim (record_event_outcome D dumps prefix L
          (snapshot (record { captured_at = r.captured_at; containers = states })) agent_id
          r.snapshot_stamp w s) [
            | inl (db, _, grown, ran) ↦ rw ran (record {
              last_metrics_at = (publish-keeps _ _ _ _).0;
              docker = (publish-keeps _ _ _ _).1;
              monitor = refl;
              grown = (states, grown);
            })
            | inr (x, _, ran) ↦ rw ran (same-Watched w)
          ]

    collect_some :
        (w : World D)
        → settled r.snapshot_stamp.answer ≡ true
        → Watched w (collect_containers D dumps prefix true r w).1
    unfolding collect
    collect_some w s = elim (Result-cases (collect r.listed w.monitor).0) [
      | inl (states, h) ↦
          rw
            (>>=-ok (on_monitor (collect r.listed))
              (λ states.
                record_container_snapshot D dumps prefix
                  (record { captured_at = r.captured_at; containers = states })
                  w.node.runtime.agent_id r.snapshot_stamp)
              w h)
            (snapshot-Watched states w.node.runtime.agent_id w s)
      | inr (e, h) ↦
          rw
            (>>=-raised (on_monitor (collect r.listed))
              (λ states.
                record_container_snapshot D dumps prefix
                  (record { captured_at = r.captured_at; containers = states })
                  w.node.runtime.agent_id r.snapshot_stamp)
              w h)
            (same-Watched w)
    ]

    pub collect_containers-Watched :
        (b : Bool) (w : World D)
        → settled r.snapshot_stamp.answer ≡ true
        → Watched w (collect_containers D dumps prefix b r w).1
    collect_containers-Watched true w s = collect_some w s
    collect_containers-Watched false w s = same-Watched w

    pub watch_containers-steps :
        (w : World D)
        → IsSettled r.connecting
        → watch_containers D dumps prefix r w
          ≡ collect_containers D dumps prefix
              (reconnected w.monitor.available r.connecting w.monitor).available
              r
              (synced w (reconnected w.monitor.available r.connecting w.monitor))
    watch_containers-steps w s =
        >>=-step (connect_unless w.monitor.available r.connecting)
          (λ _. sync_docker >> (λ w'. collect_containers D dumps prefix w'.monitor.available r w'))
          w (connect_unless_lem w.monitor.available r.connecting w s)
