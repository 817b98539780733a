-- ===== src/Api/Requests.antt =====
-- api/__init__.py's `include_routers`: every request that the agent serves, and what FastAPI answers
-- to it. FastAPI is a parameter: the status where a route names none, and the answer to an exception.
use oopsys_agent.Base.{
  ℕ, String, ◌≡◌, Option, List, [], ◌∷◌, Exc, unauthorized, cancelled, Result, ok, raised, Action,
}
use oopsys_agent.Domain.{Time, Json, obj, end, field, ErrorReport}
use oopsys_agent.Database.{Database}
use oopsys_agent.World.{World}
use oopsys_agent.Events.Defs.{Dumps, Stamp}
use oopsys_agent.Api.Routes.{Rendering, HealthReads, text, post_health, receive_report}
use oopsys_agent.Monitor.Defs.{Classes, ProcessReads, AgentUsage, post_usage}

-- A request that a route matches and whose body is valid, with what serving it reads from outside.
pub data Request : Type 0 where
  get_ping : Request
  ask_health : Option String → HealthReads → Request
  ask_usage : Option String → Time → ProcessReads → Request
  send_report : ErrorReport → Stamp → Request

pub record Response : Type 0 where
  pub status : ℕ
  pub headers : List (String × String)
  pub body : Json

-- `fastapi.HTTPException`
pub record HttpException : Type 0 where
  pub status_code : ℕ
  pub detail : String
  pub headers : List (String × String)

-- What FastAPI does with what a handler returns or raises, and with a model that it returns.
pub record Framework : Type 0 where
  pub default_status : ℕ
  pub http_exception : HttpException → Response
  pub server_error : Exc → Response
  pub dump_usage : AgentUsage → Json

-- What the source relies on.
pub record IsDocumented (f : Framework) : Type 0 where
  pub success : f.default_status ≡ 200
  pub refusal : (x : HttpException) → (f.http_exception x).status ≡ x.status_code
  pub failure : (e : Exc) → (f.server_error e).status ≡ 500

-- `_UNAUTHORIZED`
abbrev pub http_unauthorized : HttpException
http_unauthorized = record {
  status_code = 401;
  detail = "Invalid or missing agent token";
  headers = ("WWW-Authenticate", "Bearer") ∷ [];
}

-- What the routers need beside the state: how they are configured.
pub record Routers : Type 0 where
  pub sha256 : List ℕ → List ℕ
  pub render : Rendering
  pub classes : Classes
  pub dumps : Dumps
  pub prefix : String
  pub framework : Framework

-- `ping`
unfoldable pub ping : Json
ping = obj (field "status" (text "alive") end)

-- The answer to a request, by how its handler ended and the status that its route names.
unfoldable pub respond : Framework → ℕ → Result Json → Result Response
respond f status (ok body) = ok (record { status = status; headers = []; body = body })
respond f status (raised unauthorized) = ok (f.http_exception http_unauthorized)
respond f status (raised cancelled) = raised cancelled
respond f status (raised exc) = ok (f.server_error exc)

abbrev pub dumped : {A : Type 0} → (A → Json) → Result A → Result Json
dumped dump (ok a) = ok (dump a)
dumped dump (raised e) = raised e

module _ (D : Database) (a : Routers) where
  -- The handler of a request's route, with the dependencies of the route.
  unfoldable pub route : Request → Action (World D) Json
  route get_ping w = (ok ping, w)
  route (ask_health credentials reads) w = post_health D a.sha256 credentials a.render reads w
  route (ask_usage credentials now reads) w =
      let (r, v) = post_usage D a.sha256 credentials a.classes a.render now reads w in
      (dumped a.framework.dump_usage r, v)
  route (send_report report stamp) w = receive_report D a.dumps a.prefix report stamp w

  -- The status that the decorator of a route names, or the default.
  abbrev pub route_status : Request → ℕ
  route_status (send_report report stamp) = 202
  route_status _ = a.framework.default_status

  unfoldable pub handle : Request → Action (World D) Response
  unfolding respond
  handle q w = let (r, v) = route q w in (respond a.framework (route_status q) r, v)
