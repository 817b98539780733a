-- ===== src/Api/Kept.antt =====
-- What serving a request keeps, however it ends.
use oopsys_agent.Base.{
  ℕ, String, ◌≡◌, refl, inl, inr, not, Bool-cases, raise_if, unauthorized, Option, none, some, List,
  is_truthy, pure, Result-cases, lift,
}
use oopsys_agent.Base.Keeps.{Keeps, >>=-Keeps, >>-Keeps}
use oopsys_agent.Database.{Database}
use oopsys_agent.Tokens.{get_identity, check_token, verify_token}
use oopsys_agent.World.{World, on_db}
use oopsys_agent.Api.Security.{require_token}
use oopsys_agent.Events.Defs.{record_error_report}
use oopsys_agent.Events.Outcome.{report, record_event}
use oopsys_agent.Events.Kept.{BearsEvents, record_event-Keeps}
use oopsys_agent.Api.Routes.{
  Rendering, HealthReads, sqlite_state, health, post_health, receive_report, uptime_seconds,
  accepted,
}
use oopsys_agent.Monitor.Defs.{collect_agent_usage, post_usage}
use oopsys_agent.Api.Requests.{
  Request, Routers, get_ping, ask_health, ask_usage, send_report, route, handle,
}

module _ (D : Database) where
  require_token_same :
      (sha256 : List ℕ → List ℕ) (credentials : Option String) (db : D.Db)
      → (require_token D sha256 credentials db).1 ≡ db
  unfolding require_token verify_token get_identity
  require_token_same sha256 none db = refl
  require_token_same sha256 (some c) db = elim (Bool-cases (is_truthy c)) [
    | inl full ↦
        let Same : D.Db → Type 0 = λ other. other ≡ db in
        rw full (
          >>=-Keeps Same (verify_token D sha256 c) (λ valid. raise_if (not valid) unauthorized)
            (>>=-Keeps Same (get_identity D) (λ i. lift (check_token sha256 c i)) (λ v q. q)
              (λ i v q. q))
            (λ valid v q. q) db refl)
    | inr empty ↦ rw empty refl
  ]

module _ {D : Database} (P : World D → Type 0) where
  require_token-Keeps :
      (sha256 : List ℕ → List ℕ) (credentials : Option String)
      → Keeps P (on_db (require_token D sha256 credentials))
  require_token-Keeps sha256 credentials w p = rw (require_token_same D sha256 credentials w.db) p

  health-Keeps : (render : Rendering) (reads : HealthReads) → Keeps P (health D render reads)
  unfolding health
  health-Keeps render reads w p = elim (Result-cases (sqlite_state reads.select_one)) [
    | inl (j, e) ↦ rw e p
    | inr (x, e) ↦ rw e p
  ]

module _ {D : Database} {P : World D → Type 0} (b : BearsEvents P) (a : Routers) where
  route-Keeps : (q : Request) → Keeps P (route D a q)
  unfolding route post_health post_usage receive_report record_event
  route-Keeps get_ping w p = p
  route-Keeps (ask_health credentials reads) w p =
      >>-Keeps P (on_db (require_token D a.sha256 credentials)) (health D a.render reads)
        (require_token-Keeps P a.sha256 credentials) (health-Keeps P a.render reads) w p
  route-Keeps (ask_usage credentials now reads) w p =
      >>-Keeps P (on_db (require_token D a.sha256 credentials))
        (lift (collect_agent_usage a.classes reads (uptime_seconds a.render now w.node.runtime)))
        (require_token-Keeps P a.sha256 credentials) (λ v q. q) w p
  route-Keeps (send_report r stamp) w p =
      let agent_id = w.node.runtime.agent_id in
      >>-Keeps P (record_error_report D a.dumps a.prefix r agent_id stamp) (pure accepted)
        (record_event-Keeps b a.dumps a.prefix (report r) agent_id stamp) (λ v q. q) w p

  pub handle-Keeps : (q : Request) → Keeps P (handle D a q)
  unfolding handle
  handle-Keeps q w p = route-Keeps q w p
