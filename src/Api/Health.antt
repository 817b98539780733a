-- ===== src/Api/Health.antt =====
-- Who is told the agent's health.
use oopsys_agent.Base.{
  ℕ, String, ◌≡◌, refl, ◌∙◌, ap, ◌⊎◌, inl, inr, true, false, Option, none, some, List, arith,
  unauthorized, cancelled, Result, ok, raised, Action, >>=-step, >>=-stop,
}
use oopsys_agent.Base
use oopsys_agent.Domain.{Time, Json, null, bool, float, obj, DockerStatus, AppRuntime}
use oopsys_agent.Dynamic.Defs.{lookup}
use oopsys_agent.Database.{Database, IsLawful, AgentIdentity}
use oopsys_agent.Tokens.Hash.{IsDigest}
use oopsys_agent.Tokens.History.{IsHashed}
use oopsys_agent.Nats.Brokers.{settled}
use oopsys_agent.World.{World, on_db}
use oopsys_agent.Api.Security.{require_token}
use oopsys_agent.Api.Security.Access.{Passes, require_token-decides}
use oopsys_agent.Api.Routes.{
  Rendering, HealthReads, text, uptime_seconds, time_json, docker_state, sqlite_state, health_body,
  health_ended, health, post_health,
}

sqlite_state-settled :
    (answer : Result Unit) → settled answer ≡ true → (j : Json) × (sqlite_state answer ≡ ok j)
sqlite_state-settled (ok _) s = (_, refl)
sqlite_state-settled (raised cancelled) s = cc
sqlite_state-settled (raised exc) s = (_, refl)

pub on_db-fixed :
    {D : Database} {A : Type 0} (m : Action D.Db A) (w : World D) {r : Result A}
    → m w.db ≡ (r, w.db)
    → on_db m w ≡ (r, w)
on_db-fixed m w h = ground arith

-- What a JSON answer has under a key, and under a key of that.
abbrev at : String → Option Json → Option Json
at key (some (obj fs)) = lookup key fs
at key _ = none

-- A time in the answer: `null` before there is one.
abbrev ShowsTime : Rendering → Option Time → Option Json → Type 0
ShowsTime render none shown = shown ≡ some null
ShowsTime render (some t) shown = shown ≡ some (text (render.isoformat t))

-- The reason is there if and only if Docker is not.
abbrev ShowsDocker : DockerStatus → Option Json → Type 0
ShowsDocker s shown =
    (at "available" shown ≡ some (bool s.available))
    × ((s.available ≡ true) → (at "status" shown ≡ none) × (at "reason" shown ≡ none))
    × ((s.available ≡ false)
        → (at "status" shown ≡ some (text "docker monitor unavailable"))
          × ((s.reason ≡ none) → at "reason" shown ≡ some null)
          × ((reason : String) → s.reason ≡ some reason → at "reason" shown ≡ some (text reason)))

-- How the check of the database went: an exception is told, as text.
abbrev ShowsCheck : Result Unit → Option Json → Type 0
ShowsCheck (ok _) shown = (at "ok" shown ≡ some (bool true)) × (at "error" shown ≡ none)
ShowsCheck (raised e) shown =
    (at "ok" shown ≡ some (bool false)) × (at "error" shown ≡ some (text (Base.str e)))

-- The answer tells the runtime's state: who the agent is, for how long it has run, whether its queue
-- and its server are reached, and when it last forwarded and measured.
pub record IsHealth (render : Rendering) (reads : HealthReads) (r : AppRuntime) (j : Json)
    : Type 0 where
  pub status : at "status" (some j) ≡ some (text "alive")
  pub agent_id : at "agent_id" (some j) ≡ some (text r.agent_id)
  pub version : at "version" (some j) ≡ some (text reads.version)
  pub uptime :
      at "uptime_seconds" (some j) ≡ some (float (render.total_seconds reads.now r.started_at))
  pub sqlite : ShowsCheck reads.select_one (at "sqlite" (some j))
  pub queue : at "connected" (at "queue" (some j)) ≡ some (bool r.queue_connected)
  pub server : at "reachable" (at "server" (some j)) ≡ some (bool r.server_reachable)
  pub forwarded :
      ShowsTime render r.last_forwarded_at (at "last_forwarded_at" (at "server" (some j)))
  pub docker : ShowsDocker r.docker (at "docker" (some j))
  pub metrics : ShowsTime render r.last_metrics_at (at "last_metrics_at" (some j))

time_json-ShowsTime :
    (render : Rendering) (o : Option Time) → ShowsTime render o (some (time_json render o))
time_json-ShowsTime render none = refl
time_json-ShowsTime render (some t) = refl

docker_state-ShowsDocker : (s : DockerStatus) → ShowsDocker s (some (docker_state s))
docker_state-ShowsDocker s = ground arith

sqlite_state-ShowsCheck :
    (answer : Result Unit) (j : Json) → sqlite_state answer ≡ ok j → ShowsCheck answer (some j)
sqlite_state-ShowsCheck (ok _) j e = ground arith
sqlite_state-ShowsCheck (raised cancelled) j e = cc
sqlite_state-ShowsCheck (raised exc) j e = ground arith

health_body-IsHealth :
    (render : Rendering) (reads : HealthReads) (r : AppRuntime) (j : Json)
    → sqlite_state reads.select_one ≡ ok j
    → IsHealth render reads r (health_body render reads r j)
unfolding uptime_seconds
health_body-IsHealth render reads r j e = record {
  status = refl;
  agent_id = refl;
  version = refl;
  uptime = refl;
  sqlite = sqlite_state-ShowsCheck reads.select_one j e;
  queue = refl;
  server = refl;
  forwarded = time_json-ShowsTime render r.last_forwarded_at;
  docker = docker_state-ShowsDocker r.docker;
  metrics = time_json-ShowsTime render r.last_metrics_at;
}

module _ (D : Database) (L : IsLawful D) (sha256 : List ℕ → List ℕ) (H : IsDigest sha256) where
  -- `POST /health` tells nothing to a request whose credentials do not pass, which is answered 401,
  -- and answers any other with the runtime's state, field by field, even if the database fails the
  -- check that it is made to do; it changes nothing. Provided that the stored identity can be read,
  -- that it holds no digest but one of a token, and that the check is not cancelled.
  pub post_health-decides :
      (credentials : Option String) (render : Rendering) (reads : HealthReads)
      (i : Option AgentIdentity) (w : World D)
      → D.select_identity 1 w.db ≡ ok i
      → IsHashed sha256 i
      → settled reads.select_one ≡ true
      → (Passes sha256 credentials i
          × ((body : Json) × IsHealth render reads w.node.runtime body
              × (post_health D sha256 credentials render reads w ≡ (ok body, w))))
        ⊎ ((¬ Passes sha256 credentials i)
            × (post_health D sha256 credentials render reads w ≡ (raised unauthorized, w)))
  unfolding post_health health
  post_health-decides credentials render reads i w h hashed s =
      elim (require_token-decides D L sha256 H credentials i w.db h hashed) [
        | inl (passes, ran) ↦
            let (sqlite, told) = sqlite_state-settled reads.select_one s in
            inl (
              passes,
              (
                health_body render reads w.node.runtime sqlite,
                health_body-IsHealth render reads w.node.runtime sqlite told,
                >>=-step (on_db (require_token D sha256 credentials)) (λ _. health D render reads) w
                      (on_db-fixed (require_token D sha256 credentials) w ran)
                    ∙ ap (λ r. health_ended D render reads r w) told,
              ),
            )
        | inr (fails, ran) ↦ inr (
          fails,
          >>=-stop (on_db (require_token D sha256 credentials)) (λ _. health D render reads) w
              (on_db-fixed (require_token D sha256 credentials) w ran),
        )
      ]
