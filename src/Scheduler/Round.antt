-- ===== src/Scheduler/Round.antt =====
-- What a round of the monitoring leaves in the history and in the runtime.
use oopsys_agent.Base.{
  String, ◌≡◌, ◌∙◌, sym, ap, inl, inr, true, ◌||◌, some, List, [], ◌∷◌, ◌++◌, map, Result, ok,
  >>=-step, lift, ◌>>◌,
}
use oopsys_agent.Domain.{ServerMetrics, ContainerState}
use oopsys_agent.Database.{Database, Row, IsLawful}
use oopsys_agent.Nats.State.{Node}
use oopsys_agent.Nats.Brokers.{settled}
use oopsys_agent.Docker.Collect.{IsSettled, connects}
use oopsys_agent.World.{DockerMonitor, World}
use oopsys_agent.Events.Defs.{Dumps, metrics_row, state_row, record_server_metrics}
use oopsys_agent.Events.Outcome.{metrics, record_event, record_event_outcome, publish_event}
use oopsys_agent.Scheduler.Defs.{
  Round, mark_metrics, watch_containers, collect_metrics, collect_once,
}
use oopsys_agent.Scheduler.Watched.{
  status_of, reconnected, reconnected-available, synced, collect_containers-Watched,
  watch_containers-steps,
}

abbrev done : {S : Type 0} → S → Result Unit × S
done s = (ok tt, s)

module _ {D : Database} where
  module _ (dumps : Dumps) (prefix : String) (L : IsLawful D) (r : Round) where
    -- The state after the metrics are recorded.
    abbrev pub recorded : ServerMetrics → D.Db → Node → World D → World D
    recorded m db node w = record w {
      db = db;
      node = record node { runtime = record node.runtime { last_metrics_at = some r.metrics_at } };
    }

    pub collect_metrics-steps :
        (m : ServerMetrics) (w : World D) {db : D.Db}
        → settled r.metrics_stamp.answer ≡ true
        → D.commit_rows (metrics_row m ∷ []) w.db ≡ ok db
        → (node : Node) × (D.history db ≡ D.history w.db ++ metrics_row m ∷ [])
          × (collect_metrics D dumps prefix m r w ≡ (ok tt, recorded m db node w))
    unfolding record_event
    collect_metrics-steps m w {db} s h =
        elim (record_event_outcome D dumps prefix L (metrics m) w.node.runtime.agent_id
          r.metrics_stamp w s) [
            | inl (db', committed, grown, ran) ↦
                let same : db' ≡ db = cc in
                let node : Node =
                  (publish_event D dumps prefix (metrics m) w.node.runtime.agent_id r.metrics_stamp
                    w.node).1 in
                (
                  node,
                  ap D.history (sym same) ∙ grown,
                  >>=-step
                        (record_server_metrics D dumps prefix m w.node.runtime.agent_id
                          r.metrics_stamp)
                        (λ _. mark_metrics r.metrics_at) w ran
                      ∙ ap (λ (d : D.Db). done (recorded m d node w)) same,
                )
            | inr (x, refused, ran) ↦ cc
          ]

    pub collect_once-steps :
        (m : ServerMetrics) (w : World D) {v : World D}
        → r.metrics ≡ ok m
        → collect_metrics D dumps prefix m r w ≡ (ok tt, v)
        → collect_once D dumps prefix r w ≡ watch_containers D dumps prefix r v
    unfolding collect_once
    collect_once-steps m w read ran =
        >>=-step (lift r.metrics)
          (λ m. collect_metrics D dumps prefix m r >> watch_containers D dumps prefix r) w
          (ap (λ (x : Result ServerMetrics). (x, w)) read)
        ∙ >>=-step (collect_metrics D dumps prefix m r) (λ _. watch_containers D dumps prefix r) w
            ran

    -- A round whose metrics are read and committed, with no call to Docker and to the queue
    -- cancelled: whatever Docker does then, the metrics are in the history, with nothing after them
    -- but containers, and the time of the metrics is noted; the monitor is available afterwards if
    -- it was before or if connecting succeeded, and the runtime reports just what the monitor says.
    pub collect_once_outcome :
        (m : ServerMetrics) (w : World D) {db : D.Db}
        → r.metrics ≡ ok m
        → D.commit_rows (metrics_row m ∷ []) w.db ≡ ok db
        → settled r.metrics_stamp.answer ≡ true
        → settled r.snapshot_stamp.answer ≡ true
        → IsSettled r.connecting
        → let v = (collect_once D dumps prefix r w).1 in
          ((states : List ContainerState) × (D.history v.db
              ≡ (D.history w.db ++ metrics_row m ∷ []) ++ map state_row states))
          × (v.node.runtime.last_metrics_at ≡ some r.metrics_at)
          × (v.monitor.available ≡ w.monitor.available || connects r.connecting)
          × (v.node.runtime.docker ≡ status_of v.monitor)
    collect_once_outcome m w {db} read h sm ss sc =
        let (node, grown, ran) = collect_metrics-steps m w sm h in
        let u = recorded m db node w in
        let n = reconnected w.monitor.available r.connecting w.monitor in
        let watched = collect_containers-Watched dumps prefix L r n.available (synced u n) ss in
        rw (collect_once-steps m w read ran ∙ watch_containers-steps dumps prefix L r u sc) (
          (
            watched.grown.0,
            watched.grown.1 ∙ ap (λ (old : List Row). old ++ map state_row watched.grown.0) grown,
          ),
          watched.last_metrics_at,
          ap (λ (x : DockerMonitor). x.available) watched.monitor
              ∙ reconnected-available r.connecting w.monitor sc,
          watched.docker ∙ ap status_of (sym watched.monitor),
        )
