-- ===== src/Scheduler/Kept.antt =====
-- What the guarded round of the monitoring keeps, however it ends.
use oopsys_agent.Base.{
  String, Bool, true, false, cancelled, some, List, Result, ok, raised, Action, pure, lift, ◌>>◌,
}
use oopsys_agent.Base.Keeps.{Keeps, >>=-Keeps, >>-Keeps}
use oopsys_agent.Domain.{
  Time, DockerStatus, AgentFault, ServerMetrics, ContainerState, from_exception, error,
}
use oopsys_agent.Database.{Database}
use oopsys_agent.Docker.Monitor.{ConnectAnswers, connect, collect}
use oopsys_agent.World.{DockerMonitor, World, on_monitor}
use oopsys_agent.Events.Defs.{
  Dumps, Stamp, record_server_metrics, record_container_snapshot, record_agent_fault,
}
use oopsys_agent.Events.Outcome.{metrics, snapshot, fault, record_event}
use oopsys_agent.Events.Kept.{BearsEvents, record_event-Keeps}
use oopsys_agent.Scheduler.Defs.{
  Round, FaultSeen, suppress, sync_docker, mark_metrics, connect_unless, record_fault, guarded,
  guard, collect_containers, watch_containers, collect_metrics, collect_once,
}

-- What a property of the state has to bear with: events, the monitor's changes, and the notes of
-- them in the runtime.
pub record BearsRounds {D : Database} (P : World D → Type 0) : Type 0 where
  pub events : BearsEvents P
  pub monitored : (m : DockerMonitor) (w : World D) → P w → P (record w { monitor = m })
  pub synced :
      (s : DockerStatus) (w : World D)
      → P w
      → P (record w { node = record w.node { runtime = record w.node.runtime { docker = s } } })
  pub marked :
      (now : Time) (w : World D)
      → P w
      → P (record w {
        node = record w.node { runtime = record w.node.runtime { last_metrics_at = some now } };
      })

module _ {D : Database} {P : World D → Type 0} (b : BearsRounds P) (dumps : Dumps)
    (prefix : String) where
  suppress-Keeps : (x : Result Unit × World D) → P x.1 → P (suppress x).1
  suppress-Keeps (raised cancelled, w) p = p
  suppress-Keeps (raised _, w) p = p
  suppress-Keeps (ok _, w) p = p

  record_fault-Keeps :
      (f : AgentFault) (stamp : Stamp) → Keeps P (record_fault D dumps prefix f stamp)
  unfolding record_fault record_event
  record_fault-Keeps f stamp w p =
      suppress-Keeps (record_agent_fault D dumps prefix f w.node.runtime.agent_id stamp w)
        (record_event-Keeps b.events dumps prefix (fault f) w.node.runtime.agent_id stamp w p)

  guarded-Keeps :
      (component operation : String) (seen : FaultSeen) (x : Result Unit × World D)
      → P x.1
      → P (guarded D dumps prefix component operation seen x).1
  guarded-Keeps component operation seen (ok _, w) p = p
  guarded-Keeps component operation seen (raised cancelled, w) p = p
  guarded-Keeps component operation seen (raised exc, w) p =
      record_fault-Keeps
        (from_exception exc component operation error (seen.traceback exc) seen.occurred_at)
        seen.stamp w p

  pub guard-Keeps :
      (component operation : String) (func : Action (World D) Unit) (seen : FaultSeen)
      → Keeps P func
      → Keeps P (guard D dumps prefix component operation func seen)
  unfolding guard
  guard-Keeps component operation func seen k w p =
      guarded-Keeps component operation seen (func w) (k w p)

  collect_metrics-Keeps :
      (m : ServerMetrics) (r : Round) → Keeps P (collect_metrics D dumps prefix m r)
  unfolding record_event
  collect_metrics-Keeps m r w p =
      let agent_id = w.node.runtime.agent_id in
      >>-Keeps P (record_server_metrics D dumps prefix m agent_id r.metrics_stamp)
        (mark_metrics r.metrics_at)
        (record_event-Keeps b.events dumps prefix (metrics m) agent_id r.metrics_stamp)
        (b.marked r.metrics_at) w p

  collect_containers-Keeps :
      (available : Bool) (r : Round) → Keeps P (collect_containers D dumps prefix available r)
  unfolding record_event
  collect_containers-Keeps false r w p = p
  collect_containers-Keeps true r w p =
      let recorded : List ContainerState → Action (World D) Unit = λ states.
        record_container_snapshot D dumps prefix
          (record { captured_at = r.captured_at; containers = states }) w.node.runtime.agent_id
          r.snapshot_stamp in
      >>=-Keeps P (on_monitor (collect r.listed)) recorded
        (λ v. b.monitored (collect r.listed v.monitor).1 v)
        (λ states.
          record_event-Keeps b.events dumps prefix
            (snapshot (record { captured_at = r.captured_at; containers = states }))
            w.node.runtime.agent_id r.snapshot_stamp)
        w p

  connect_unless-Keeps :
      (available : Bool) (a : ConnectAnswers) → Keeps P (connect_unless {D = D} available a)
  connect_unless-Keeps true a w p = p
  connect_unless-Keeps false a w p =
      >>-Keeps P (on_monitor (connect a)) (pure tt) (λ v. b.monitored (connect a v.monitor).1 v)
        (λ v q. q) w p

  watch_containers-Keeps : (r : Round) → Keeps P (watch_containers D dumps prefix r)
  watch_containers-Keeps r w p =
      >>-Keeps P (connect_unless w.monitor.available r.connecting)
        (sync_docker >> λ v. collect_containers D dumps prefix v.monitor.available r v)
        (connect_unless-Keeps w.monitor.available r.connecting)
        (>>-Keeps P sync_docker (λ v. collect_containers D dumps prefix v.monitor.available r v)
          (λ v. b.synced (record { available = v.monitor.available; reason = v.monitor.reason }) v)
          (λ v. collect_containers-Keeps v.monitor.available r v))
        w p

  pub collect_once-Keeps : (r : Round) → Keeps P (collect_once D dumps prefix r)
  unfolding collect_once
  collect_once-Keeps r =
      >>=-Keeps P (lift r.metrics)
        (λ m. collect_metrics D dumps prefix m r >> watch_containers D dumps prefix r) (λ w p. p)
        (λ m.
          >>-Keeps P (collect_metrics D dumps prefix m r) (watch_containers D dumps prefix r)
            (collect_metrics-Keeps m r) (watch_containers-Keeps r))
