-- ===== src/Events/Kept.antt =====
-- What recording an event keeps, however its commit and its publication end.
use oopsys_agent.Base.{ℕ, String, ◌≡◌, inl, inr, Option, List, Result-cases, Result, ok, pure}
use oopsys_agent.Base.Keeps.{Keeps, >>-Keeps}
use oopsys_agent.Domain.{Json, Source, build_subject}
use oopsys_agent.Database.{Database, Row, AgentIdentity, written, commit}
use oopsys_agent.Nats.Connection.{publish}
use oopsys_agent.World.{World, on_db, on_node}
use oopsys_agent.Events.Defs.{Dumps, Stamp, envelope, enqueue}
use oopsys_agent.Events.Outcome.{
  Event, rows_of, source_of, payload_of, record_event, record_event-steps,
}
use oopsys_agent.Events.Identity.{written-rows_of}

-- What a property of the state has to bear with: commits that write no identity, and publications.
pub record BearsEvents {D : Database} (P : World D → Type 0) : Type 0 where
  pub committed :
      (rows : List Row) (w : World D) (db : D.Db)
      → ((key : ℕ) (i : Option AgentIdentity) → written key rows i ≡ i)
      → D.commit_rows rows w.db ≡ ok db
      → P w
      → P (record w { db = db })
  pub published :
      (subject : String) (payload : Json) (answer : Result Unit) (w : World D)
      → P w
      → P (record w { node = (publish subject payload answer w.node).1 })

module _ {D : Database} {P : World D → Type 0} (b : BearsEvents P) (dumps : Dumps)
    (prefix : String) where
  commit-Keeps :
      (rows : List Row)
      → ((key : ℕ) (i : Option AgentIdentity) → written key rows i ≡ i)
      → Keeps P (on_db (commit D rows))
  unfolding commit
  commit-Keeps rows free w p = elim (Result-cases (D.commit_rows rows w.db)) [
    | inl (db, e) ↦ rw (commit, e) (b.committed rows w db free e p)
    | inr (x, e) ↦ rw (commit, e) p
  ]

  enqueue-Keeps :
      (agent_id : String) (source : Source) (payload : Json) (stamp : Stamp)
      → Keeps P (enqueue D dumps prefix agent_id source payload stamp)
  unfolding enqueue
  enqueue-Keeps agent_id source payload stamp =
      let subject = build_subject prefix agent_id source in
      let message = dumps.dump_envelope (envelope agent_id source payload stamp.enveloped_at) in
      >>-Keeps P (on_node (publish subject message stamp.answer)) (pure tt)
        (b.published subject message stamp.answer) (λ w p. p)

  pub record_event-Keeps :
      (e : Event) (agent_id : String) (stamp : Stamp)
      → Keeps P (record_event D dumps prefix e agent_id stamp)
  record_event-Keeps e agent_id stamp w p =
      rw (record_event-steps D dumps prefix e agent_id stamp w) (
        >>-Keeps P (on_db (commit D (rows_of e stamp.inserted_at)))
          (enqueue D dumps prefix agent_id (source_of e) (payload_of dumps e) stamp)
          (commit-Keeps (rows_of e stamp.inserted_at)
            (λ key. written-rows_of D dumps prefix key e stamp.inserted_at))
          (enqueue-Keeps agent_id (source_of e) (payload_of dumps e) stamp) w p)
