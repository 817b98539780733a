-- ===== src/Api/Reports.antt =====
-- What an accepted report means.
use oopsys_agent.Base.{
  String, ◌≡◌, ◌⊎◌, inl, inr, true, [], ◌∷◌, ◌++◌, Exc, ok, raised, pure, >>=-step, >>=-stop,
}
use oopsys_agent.Domain.{ErrorReport}
use oopsys_agent.Database.{Database, IsLawful}
use oopsys_agent.Nats.Brokers.{settled}
use oopsys_agent.World.{World}
use oopsys_agent.Events.Defs.{Dumps, Stamp, report_row, record_error_report}
use oopsys_agent.Events.Outcome.{report, record_event, publish_event, record_event_outcome}
use oopsys_agent.Api.Routes.{accepted, receive_report}

module _ (D : Database) (L : IsLawful D) (dumps : Dumps) (prefix : String) where
  -- Uncancelled, `POST /reports` says that a report is accepted exactly if the report has been
  -- committed to the history, where it is the last row; whether the queue took it makes no
  -- difference. Otherwise the commit has raised, and the same is raised with nothing changed.
  pub receive_report_outcome :
      (r : ErrorReport) (stamp : Stamp) (w : World D)
      → settled stamp.answer ≡ true
      → ((db : D.Db) × (D.history db ≡ D.history w.db ++ report_row r stamp.inserted_at ∷ [])
          × (receive_report D dumps prefix r stamp w ≡ (
            ok accepted,
            record w {
              db = db;
              node =
                  (publish_event D dumps prefix (report r) w.node.runtime.agent_id stamp w.node).1;
            },
          )))
        ⊎ ((x : Exc) × (D.commit_rows (report_row r stamp.inserted_at ∷ []) w.db ≡ raised x)
            × (receive_report D dumps prefix r stamp w ≡ (raised x, w)))
  unfolding receive_report record_event
  receive_report_outcome r stamp w s =
      let recording = record_error_report D dumps prefix r w.node.runtime.agent_id stamp in
      elim (record_event_outcome D dumps prefix L (report r) w.node.runtime.agent_id stamp w s) [
        | inl (db, _, grown, ran) ↦ inl (db, grown, >>=-step recording (λ _. pure accepted) w ran)
        | inr (x, refused, ran) ↦ inr (x, refused, >>=-stop recording (λ _. pure accepted) w ran)
      ]
