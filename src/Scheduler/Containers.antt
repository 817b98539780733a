-- ===== src/Scheduler/Containers.antt =====
-- A round with a Docker daemon that answers: which containers come into the history.
use oopsys_agent.Base.{
  String, ◌≡◌, refl, ◌∙◌, ap, inl, inr, true, some, ℕ, Option, List, [], ◌∷◌, ◌++◌, map, Result, ok,
  >>=-step,
}
use oopsys_agent.Domain.{Time, ServerMetrics, ContainerState}
use oopsys_agent.Database.{Database, Row, IsLawful}
use oopsys_agent.Nats.Brokers.{settled}
use oopsys_agent.Dynamic.Numbers.{Floats}
use oopsys_agent.Docker.Monitor.{collect}
use oopsys_agent.Docker.Collect.{IsSettled, survivors, uncancelled, build_states-survivors}
use oopsys_agent.Docker.State.{Validator}
use oopsys_agent.Docker.Listing.{each_built}
use oopsys_agent.Docker.Documented.Build.{IsFaithful}
use oopsys_agent.Docker.Documented.Collect.{
  Listed, AreDocumented, inspections, reports, build_each-inspections,
}
use oopsys_agent.World.{DockerMonitor, World, on_monitor}
use oopsys_agent.Events.Defs.{Dumps, metrics_row, state_row, record_container_snapshot}
use oopsys_agent.Events.Outcome.{snapshot, record_event, record_event_outcome}
use oopsys_agent.Scheduler.Defs.{Round, collect_containers, watch_containers, collect_once}
use oopsys_agent.Scheduler.Round.{recorded, collect_metrics-steps, collect_once-steps}
use oopsys_agent.Scheduler.Watched.{reconnected, synced, watch_containers-steps}

-- The monitor has a client and a daemon that answers.
pub record IsUp (m : DockerMonitor) : Type 0 where
  pub client : ℕ
  pub held : m.client ≡ some client
  pub available : m.available ≡ true

collect-survivors :
    (m : DockerMonitor) (builds : List (Result ContainerState))
    → IsUp m
    → uncancelled builds ≡ true
    → collect (ok builds) m ≡ (ok (survivors builds), m)
unfolding collect
collect-survivors m builds up calm = rw (up.held, build_states-survivors builds calm) refl

reconnected-IsUp :
    (r : Round) (m : DockerMonitor) → IsUp m → reconnected m.available r.connecting m ≡ m
reconnected-IsUp r m up = rw up.available refl

module _ {D : Database} where
  on_monitor-collect :
      (r : Round) (builds : List (Result ContainerState)) (w : World D)
      → IsUp w.monitor
      → r.listed ≡ ok builds
      → uncancelled builds ≡ true
      → on_monitor (collect r.listed) w ≡ (ok (survivors builds), w)
  on_monitor-collect r builds w up listed calm =
      ap (λ (l : Result (List (Result ContainerState))). on_monitor (collect l) w) listed
      ∙ ap (λ (x : Result (List ContainerState) × DockerMonitor). (x.0, record w { monitor = x.1 }))
          (collect-survivors w.monitor builds up calm)

  module _ (dumps : Dumps) (prefix : String) (L : IsLawful D) (r : Round) where
    -- The containers are committed and published.
    collect_containers-rows :
        (builds : List (Result ContainerState)) (w : World D) {db : D.Db}
        → IsUp w.monitor
        → r.listed ≡ ok builds
        → uncancelled builds ≡ true
        → settled r.snapshot_stamp.answer ≡ true
        → D.commit_rows (map state_row (survivors builds)) w.db ≡ ok db
        → (v : World D) × (collect_containers D dumps prefix true r w ≡ (ok tt, v))
          × (D.history v.db ≡ D.history w.db ++ map state_row (survivors builds))
    unfolding record_event
    collect_containers-rows builds w {db} up listed calm s h =
        elim (record_event_outcome D dumps prefix L
          (snapshot (record { captured_at = r.captured_at; containers = survivors builds }))
          w.node.runtime.agent_id r.snapshot_stamp w s) [
            | inl (db', committed, grown, ran) ↦ (
              _,
              >>=-step (on_monitor (collect r.listed))
                    (λ states.
                      record_container_snapshot D dumps prefix
                        (record { captured_at = r.captured_at; containers = states })
                        w.node.runtime.agent_id r.snapshot_stamp)
                    w (on_monitor-collect r builds w up listed calm)
                  ∙ ran,
              grown,
            )
            | inr (x, refused, ran) ↦ cc
          ]

    watch_containers-IsUp :
        (w : World D)
        → IsUp w.monitor
        → IsSettled r.connecting
        → watch_containers D dumps prefix r w
          ≡ collect_containers D dumps prefix true r (synced w w.monitor)
    watch_containers-IsUp w up sc =
        watch_containers-steps dumps prefix L r w sc
        ∙ ap (λ (n : DockerMonitor). collect_containers D dumps prefix n.available r (synced w n))
            (reconnected-IsUp r w.monitor up)
        ∙ ap (λ b. collect_containers D dumps prefix b r (synced w w.monitor)) up.available

    collect_once-rows :
        (m : ServerMetrics) (builds : List (Result ContainerState)) (w : World D) {db db' : D.Db}
        → r.metrics ≡ ok m
        → D.commit_rows (metrics_row m ∷ []) w.db ≡ ok db
        → settled r.metrics_stamp.answer ≡ true
        → IsUp w.monitor
        → IsSettled r.connecting
        → r.listed ≡ ok builds
        → uncancelled builds ≡ true
        → settled r.snapshot_stamp.answer ≡ true
        → D.commit_rows (map state_row (survivors builds)) db ≡ ok db'
        → (v : World D) × (collect_once D dumps prefix r w ≡ (ok tt, v))
          × (D.history v.db
              ≡ (D.history w.db ++ metrics_row m ∷ []) ++ map state_row (survivors builds))
    collect_once-rows m builds w {db} {db'} read h sm up sc listed calm ss h' =
        let (node, grown, ran) = collect_metrics-steps dumps prefix L r m w sm h in
        let u = recorded dumps prefix L r m db node w in
        let (v, watched, more) =
          collect_containers-rows builds (synced u w.monitor) up listed calm ss h' in
        (
          v,
          collect_once-steps dumps prefix L r m w read ran
              ∙ watch_containers-IsUp u up sc
              ∙ watched,
          more ∙ ap (λ (old : List Row). old ++ map state_row (survivors builds)) grown,
        )

    -- In a round whose metrics are read and committed, with a Docker client that is available, with no
    -- call to Docker and to the queue cancelled and no container's either, with a validation that
    -- keeps what is of the right type, and with a listing of documented containers whose rows are
    -- committed: the round returns, and the history has the metrics more and, in the listing's order,
    -- just what each container is to be reported as, without those whose statistics raise.
    pub collect_once-documented :
        (F : Floats) (V : Validator) (fromisoformat : String → Option Time)
        → IsFaithful V
        → (m : ServerMetrics) (ls : List Listed) (w : World D) {db db' : D.Db} → AreDocumented ls
        → r.metrics ≡ ok m
        → D.commit_rows (metrics_row m ∷ []) w.db ≡ ok db
        → settled r.metrics_stamp.answer ≡ true
        → IsUp w.monitor
        → IsSettled r.connecting
        → r.listed ≡ each_built F V fromisoformat (ok (inspections ls))
        → uncancelled (reports F fromisoformat ls) ≡ true
        → settled r.snapshot_stamp.answer ≡ true
        → D.commit_rows (map state_row (survivors (reports F fromisoformat ls))) db ≡ ok db'
        → (v : World D) × (collect_once D dumps prefix r w ≡ (ok tt, v))
          × (D.history v.db
              ≡ (D.history w.db ++ metrics_row m ∷ [])
                ++ map state_row (survivors (reports F fromisoformat ls)))
    collect_once-documented F V fromisoformat faithful m ls w docs read h sm up sc listed calm ss
          h' =
        collect_once-rows m (reports F fromisoformat ls) w read h sm up sc
          (listed ∙ ap ok (build_each-inspections F fromisoformat V faithful ls docs)) calm ss h'
