-- ===== src/Events/Outcome.antt =====
-- What recording an event does to the history and to the queue, for every kind of event.
use oopsys_agent.Base.{
  String, ◌≡◌, refl, ap, ◌∙◌, ◌⊎◌, inl, inr, Bool, true, none, List, [], ◌∷◌, ◌++◌, map, arith, Exc,
  Result, ok, raised, Result-cases, Action, ◌>>◌,
}
use oopsys_agent.Domain.{
  Time, Json, Source, projects, server, docker, agent, ErrorReport, AgentFault, ServerMetrics,
  ContainerState, ContainerSnapshot, build_subject,
}
use oopsys_agent.Database.{Database, IsLawful, Row, history_rows, commit}
use oopsys_agent.Nats.State.{Node}
use oopsys_agent.Nats.Connection.{publish}
use oopsys_agent.Nats.Brokers.{settled}
use oopsys_agent.Nats.Publish.{publish_lem, publish-none}
use oopsys_agent.World.{World, on_db}
use oopsys_agent.Events.Defs.{
  Dumps, Stamp, report_row, metrics_row, state_row, fault_row, envelope, enqueue,
  record_error_report, record_server_metrics, record_container_snapshot, record_container_state,
  record_agent_fault,
}

-- An event of any kind.
pub data Event : Type 0 where
  report : ErrorReport → Event
  metrics : ServerMetrics → Event
  snapshot : ContainerSnapshot → Event
  state : ContainerState → Event
  fault : AgentFault → Event

-- What is to be in the history of it.
abbrev pub rows_of : Event → Time → List Row
rows_of (report r) now = report_row r now ∷ []
rows_of (metrics m) now = metrics_row m ∷ []
rows_of (snapshot s) now = map state_row s.containers
rows_of (state s) now = state_row s ∷ []
rows_of (fault f) now = fault_row f ∷ []

-- Where it belongs.
abbrev pub source_of : Event → Source
source_of (report r) = projects
source_of (metrics m) = server
source_of (snapshot s) = docker
source_of (state s) = docker
source_of (fault f) = agent

abbrev pub payload_of : Dumps → Event → Json
payload_of dumps (report r) = dumps.dump_report r
payload_of dumps (metrics m) = dumps.dump_metrics m
payload_of dumps (snapshot s) = dumps.dump_snapshot s
payload_of dumps (state s) = dumps.dump_state s
payload_of dumps (fault f) = dumps.dump_fault f

history_rows-map :
    (states : List ContainerState) → history_rows (map state_row states) ≡ map state_row states
history_rows-map [] = refl
history_rows-map (s ∷ states) = ap (λ rows. state_row s ∷ rows) (history_rows-map states)

history_rows-rows_of : (e : Event) (now : Time) → history_rows (rows_of e now) ≡ rows_of e now
history_rows-rows_of (report r) now = refl
history_rows-rows_of (metrics m) now = refl
history_rows-rows_of (snapshot s) now = history_rows-map s.containers
history_rows-rows_of (state s) now = refl
history_rows-rows_of (fault f) now = refl

abbrev returned : {S : Type 0} → S → Result Unit × S
returned s = (ok tt, s)

module _ (D : Database) (rows : List Row) (rest : Action (World D) Unit) (w : World D) where
  commit_then :
      {db : D.Db}
      → D.commit_rows rows w.db ≡ ok db
      → (on_db (commit D rows) >> rest) w ≡ rest (record w { db = db })
  unfolding commit
  commit_then h = ground arith

  commit_refused :
      {x : Exc}
      → D.commit_rows rows w.db ≡ raised x
      → (on_db (commit D rows) >> rest) w ≡ (raised x, w)
  unfolding commit
  commit_refused h = ground arith

module _ (D : Database) (dumps : Dumps) (prefix : String) where
  -- The method of the event's kind.
  unfoldable pub record_event : Event → String → Stamp → Action (World D) Unit
  record_event (report r) = record_error_report D dumps prefix r
  record_event (metrics m) = record_server_metrics D dumps prefix m
  record_event (snapshot s) = record_container_snapshot D dumps prefix s
  record_event (state s) = record_container_state D dumps prefix s
  record_event (fault f) = record_agent_fault D dumps prefix f

  -- The message of an event, as it is published.
  abbrev pub publish_event : Event → String → Stamp → Action Node Bool
  publish_event e agent_id stamp =
      publish (build_subject prefix agent_id (source_of e))
        (dumps.dump_envelope
          (envelope agent_id (source_of e) (payload_of dumps e) stamp.enveloped_at))
        stamp.answer

  pub record_event-steps :
      (e : Event) (agent_id : String) (stamp : Stamp) (w : World D)
      → record_event e agent_id stamp w
        ≡ (on_db (commit D (rows_of e stamp.inserted_at))
              >> enqueue D dumps prefix agent_id (source_of e) (payload_of dumps e) stamp)
            w
  unfolding record_event record_error_report record_server_metrics record_container_snapshot
      record_container_state record_agent_fault
  record_event-steps (report r) agent_id stamp w = refl
  record_event-steps (metrics m) agent_id stamp w = refl
  record_event-steps (snapshot s) agent_id stamp w = refl
  record_event-steps (state s) agent_id stamp w = refl
  record_event-steps (fault f) agent_id stamp w = refl

  enqueue_lem :
      (agent_id : String) (source : Source) (payload : Json) (stamp : Stamp) (w : World D)
      → settled stamp.answer ≡ true
      → enqueue D dumps prefix agent_id source payload stamp w ≡ (
        ok tt,
        record w {
          node =
              (publish
                (build_subject prefix agent_id source)
                (dumps.dump_envelope (envelope agent_id source payload stamp.enveloped_at))
                stamp.answer
                w.node).1;
        },
      )
  unfolding enqueue
  enqueue_lem agent_id source payload stamp w s = ground (
    arith,
    publish_lem (build_subject prefix agent_id source)
        (dumps.dump_envelope (envelope agent_id source payload stamp.enveloped_at)) stamp.answer
        w.node s,
  )

  -- Recording an event, with no publication cancelled, commits its rows and only then publishes it.
  -- Either the commit returns: then the history has just these rows more, the message of the event
  -- has been handed to the gateway, and the call returns whatever the gateway replied. Or the commit
  -- raises: then the call raises the same, and nothing has been published or changed.
  pub record_event_outcome :
      (L : IsLawful D) (e : Event) (agent_id : String) (stamp : Stamp) (w : World D)
      → settled stamp.answer ≡ true
      → ((db : D.Db) × (D.commit_rows (rows_of e stamp.inserted_at) w.db ≡ ok db)
          × (D.history db ≡ D.history w.db ++ rows_of e stamp.inserted_at)
          × (record_event e agent_id stamp w
              ≡ (ok tt, record w { db = db; node = (publish_event e agent_id stamp w.node).1 })))
        ⊎ ((x : Exc) × (D.commit_rows (rows_of e stamp.inserted_at) w.db ≡ raised x)
            × (record_event e agent_id stamp w ≡ (raised x, w)))
  record_event_outcome L e agent_id stamp w s =
      let rest = enqueue D dumps prefix agent_id (source_of e) (payload_of dumps e) stamp in
      let rows = rows_of e stamp.inserted_at in
      elim (Result-cases (D.commit_rows rows w.db)) [
        | inl (db, h) ↦ inl (
          db,
          h,
          L.history-commit rows w.db db h
              ∙ ap (λ new. D.history w.db ++ new) (history_rows-rows_of e stamp.inserted_at),
          record_event-steps e agent_id stamp w
              ∙ commit_then D rows rest w h
              ∙ enqueue_lem agent_id (source_of e) (payload_of dumps e) stamp (record w { db = db })
                  s,
        )
        | inr (x, h) ↦
            inr (x, h, record_event-steps e agent_id stamp w ∙ commit_refused D rows rest w h)
      ]

  -- While the gateway holds no broker, an event whose commit returns is written to the history and
  -- handed to no queue: the gateway is left as it was, and the call returns all the same.
  pub record_event_unqueued :
      (L : IsLawful D) (e : Event) (agent_id : String) (stamp : Stamp) (w : World D) {db : D.Db}
      → settled stamp.answer ≡ true
      → w.node.gateway.broker ≡ none
      → D.commit_rows (rows_of e stamp.inserted_at) w.db ≡ ok db
      → (record_event e agent_id stamp w ≡ (ok tt, record w { db = db }))
        × (D.history db ≡ D.history w.db ++ rows_of e stamp.inserted_at)
  record_event_unqueued L e agent_id stamp w {db} s lone h =
      let rest = enqueue D dumps prefix agent_id (source_of e) (payload_of dumps e) stamp in
      let rows = rows_of e stamp.inserted_at in
      let skipped =
        publish-none (build_subject prefix agent_id (source_of e))
          (dumps.dump_envelope
            (envelope agent_id (source_of e) (payload_of dumps e) stamp.enveloped_at))
          stamp.answer w.node lone in
      (
        record_event-steps e agent_id stamp w
            ∙ commit_then D rows rest w h
            ∙ enqueue_lem agent_id (source_of e) (payload_of dumps e) stamp (record w { db = db }) s
            ∙ ap (λ (x : Result Bool × Node). returned (record w { db = db; node = x.1 })) skipped,
        L.history-commit rows w.db db h
            ∙ ap (λ new. D.history w.db ++ new) (history_rows-rows_of e stamp.inserted_at),
      )
