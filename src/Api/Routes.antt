-- ===== src/Api/Routes.antt =====
-- api/reports.py and api/health.py: the handlers, behind `require_token` where the router says so.
-- Logging is left out; rendering times and durations is a parameter.
use oopsys_agent.Base.{
  ℕ, String, Bool, true, false, Option, none, some, List, Exc, cancelled, Result, ok, raised,
  Action, pure, ◌>>=◌, ◌>>◌,
}
use oopsys_agent.Domain.{
  Time, Float, Json, null, bool, float, obj, Fields, end, field, ErrorReport, DockerStatus,
  AppRuntime,
}
use oopsys_agent.Domain
use oopsys_agent.Base
use oopsys_agent.Database.{Database}
use oopsys_agent.World.{World, on_db}
use oopsys_agent.Events.Defs.{Dumps, Stamp, record_error_report}
use oopsys_agent.Api.Security.{require_token}

-- `isoformat`, and `(a - b).total_seconds()`
pub record Rendering : Type 0 where
  pub isoformat : Time → String
  pub total_seconds : Time → Time → Float

-- What `health` reads from outside: the answer to `SELECT 1`, the version and the clock.
pub record HealthReads : Type 0 where
  pub select_one : Result Unit
  pub version : String
  pub now : Time

abbrev pub text : String → Json
text = Domain.Json.str

-- `AppRuntime.uptime_seconds`
unfoldable pub uptime_seconds : Rendering → Time → AppRuntime → Float
uptime_seconds render now runtime = render.total_seconds now runtime.started_at

abbrev pub sqlite_state : Result Unit → Result Json
sqlite_state (ok _) = ok (obj (field "ok" (bool true) end))
sqlite_state (raised cancelled) = raised cancelled
sqlite_state (raised exc) =
    ok (obj (field "ok" (bool false) (field "error" (text (Base.str exc)) end)))

abbrev pub reason_json : Option String → Json
reason_json none = null
reason_json (some reason) = text reason

abbrev pub docker_state : DockerStatus → Json
docker_state s = obj (
    field "available" (bool s.available) (elim s.available [
      | true ↦ end
      | false ↦
          field "status" (text "docker monitor unavailable")
            (field "reason" (reason_json s.reason) end)
    ]))

abbrev pub time_json : Rendering → Option Time → Json
time_json render none = null
time_json render (some t) = text (render.isoformat t)

abbrev pub health_body : Rendering → HealthReads → AppRuntime → Json → Json
health_body render reads runtime sqlite = obj (
    field "status" (text "alive") (
      field "agent_id" (text runtime.agent_id) (
        field "version" (text reads.version) (
          field "uptime_seconds" (float (uptime_seconds render reads.now runtime)) (
            field "sqlite" sqlite (
              field "queue" (obj (field "connected" (bool runtime.queue_connected) end)) (
                field "server"
                  (obj (
                    field "reachable" (bool runtime.server_reachable)
                      (field "last_forwarded_at" (time_json render runtime.last_forwarded_at) end)))
                  (field "docker" (docker_state runtime.docker)
                    (field "last_metrics_at" (time_json render runtime.last_metrics_at) end)))))))))

abbrev pub accepted : Json
accepted = obj (field "status" (text "accepted") end)

module _ (D : Database) where
  abbrev pub health_ended : Rendering → HealthReads → Result Json → Action (World D) Json
  health_ended render reads (ok sqlite) w = (ok (health_body render reads w.node.runtime sqlite), w)
  health_ended render reads (raised e) w = (raised e, w)

  -- `health`
  unfoldable pub health : Rendering → HealthReads → Action (World D) Json
  health render reads = health_ended render reads (sqlite_state reads.select_one)

  -- `POST /health`
  unfoldable pub post_health :
      (List ℕ → List ℕ) → Option String → Rendering → HealthReads → Action (World D) Json
  post_health sha256 credentials render reads = do
    on_db (require_token D sha256 credentials)
    health render reads

  -- `receive_report`: `POST /reports`, which wants no token.
  unfoldable pub receive_report : Dumps → String → ErrorReport → Stamp → Action (World D) Json
  receive_report dumps prefix report stamp w =
      (do record_error_report D dumps prefix report w.node.runtime.agent_id stamp; pure accepted) w
