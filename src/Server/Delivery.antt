-- ===== src/Server/Delivery.antt =====
-- What `send` tells its caller, and where it posts.
use oopsys_agent.Base.{ℕ, ◌<◌, ◌≡◌, ◌↔◌, inl, inr, ok, Result-cases, arith}
use oopsys_agent.Domain.{Json}
use oopsys_agent.Configuration.{ServerModel, AgentModel}
use oopsys_agent.Server.Defs.{Transport, send, ingest_request}

module _ (server : ServerModel) (agent : AgentModel) (post : Transport) (envelope : Json) where
  -- `send` returns exactly if the server answers the request with a status below 400: a redirect
  -- counts as delivered.
  pub send-ok_iff :
      (send server agent post envelope ≡ ok tt)
      ↔ ((status : ℕ) × (post (ingest_request server agent envelope) ≡ ok status) × (status < 400))
  unfolding send
  send-ok_iff = (
    λ h. elim (Result-cases (post (ingest_request server agent envelope))) [
      | inl (status, e) ↦ (status, e, ground arith)
      | inr (x, e) ↦ absurd (ground arith)
    ],
    λ (status, e, low). ground arith,
  )
