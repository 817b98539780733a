-- ===== src/Events/Identity.antt =====
-- What recording events leaves alone.
use oopsys_agent.Base.{
  ℕ, String, ◌≡◌, refl, ap, ◌∙◌, inl, inr, true, Option, List, [], ◌∷◌, map, ok,
}
use oopsys_agent.Domain.{Time, ContainerState}
use oopsys_agent.Database.{Database, IsLawful, AgentIdentity, written}
use oopsys_agent.Nats.Brokers.{settled}
use oopsys_agent.World.{World}
use oopsys_agent.Events.Defs.{Dumps, Stamp, state_row}
use oopsys_agent.Events.Outcome.{
  Event, report, metrics, snapshot, state, fault, rows_of, record_event, record_event_outcome,
}

written-map :
    (key : ℕ) (states : List ContainerState) (i : Option AgentIdentity)
    → written key (map state_row states) i ≡ i
written-map key [] i = refl
written-map key (s ∷ states) i = written-map key states i

module _ (D : Database) (dumps : Dumps) (prefix : String) where
  pub written-rows_of :
      (key : ℕ) (e : Event) (now : Time) (i : Option AgentIdentity)
      → written key (rows_of e now) i ≡ i
  written-rows_of key (report r) now i = refl
  written-rows_of key (metrics m) now i = refl
  written-rows_of key (snapshot s) now i = written-map key s.containers i
  written-rows_of key (state s) now i = refl
  written-rows_of key (fault f) now i = refl

  -- Recording an event, with no publication cancelled, does not touch the identity, nor the token
  -- with it, whether its commit returns or raises.
  select-record_event :
      (L : IsLawful D) (e : Event) (agent_id : String) (stamp : Stamp) (w : World D)
      (i : Option AgentIdentity)
      → settled stamp.answer ≡ true
      → D.select_identity 1 w.db ≡ ok i
      → D.select_identity 1 (record_event D dumps prefix e agent_id stamp w).1.db ≡ ok i
  select-record_event L e agent_id stamp w i s h =
      elim (record_event_outcome D dumps prefix L e agent_id stamp w s) [
        | inl (db, committed, _, ran) ↦ rw ran (
            L.select-commit 1 (rows_of e stamp.inserted_at) w.db db i committed h
            ∙ ap ok (written-rows_of 1 e stamp.inserted_at i))
        | inr (x, _, ran) ↦ rw ran h
      ]
