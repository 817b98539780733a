-- ===== src/Server/Defs.antt =====
-- services/server_client.py: one POST to the server, and what its status means. HTTP is a parameter:
-- what httpx gives for a request is a status, or an exception.
use oopsys_agent.Base.{
  ℕ, String, ◌<>◌, Bool, Option, none, some, List, [], ◌∷◌, ◌||◌, ◌==◌, leb, if◌then◌else◌,
  is_truthy, is_set, server_auth_error, server_delivery_error, Result, ok, raised,
}
use oopsys_agent.Domain.{Float, Json}
use oopsys_agent.Configuration.{ServerModel, AgentModel, ingest_url}

pub record Request : Type 0 where
  pub url : String
  pub timeout : Float
  pub headers : List (String × String)
  pub body : Json

abbrev pub Transport : Type 0
Transport = Request → Result ℕ

module _ (server : ServerModel) (agent : AgentModel) where
  unfoldable pub delivery_enabled : Bool
  delivery_enabled = is_set agent.token

  -- The header for a token that is there and not empty.
  abbrev bearer : Option String → List (String × String)
  bearer none = []
  bearer (some token) = if is_truthy token then ("Authorization", "Bearer " <> token) ∷ [] else []

  -- `_headers`
  unfoldable pub headers : List (String × String)
  headers = ("Content-Type", "application/json") ∷ bearer agent.token

  -- The request of `send`.
  abbrev pub ingest_request : Json → Request
  ingest_request envelope = record {
    url = ingest_url server;
    timeout = server.timeout;
    headers = headers;
    body = envelope;
  }

  -- The tests of `send` on the status.
  abbrev pub check_status : ℕ → Result Unit
  check_status status =
      if status == 401 || status == 403
      then raised (server_auth_error status)
      else if leb 400 status
      then raised (server_delivery_error status)
      else ok tt

  unfoldable pub send : Transport → Json → Result Unit
  unfolding headers
  send post envelope = elim (post (ingest_request envelope)) [
    | ok status ↦ check_status status
    | raised e ↦ raised e
  ]
