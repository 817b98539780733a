-- ===== src/Nats/Named.antt =====
-- That the gateway leaves the name of the agent in the runtime alone.
use oopsys_agent.Base.{
  String, ◌≡◌, inl, inr, Bool-cases, arith, cancelled, server_auth_error, Result, ok, raised,
}
use oopsys_agent.Base.Keeps.{Keeps, >>-Keeps}
use oopsys_agent.Domain.{Time, Json}
use oopsys_agent.Configuration.{ServerModel, AgentModel}
use oopsys_agent.Server.{Transport, delivery_enabled, send}
use oopsys_agent.Nats.State.{Node}
use oopsys_agent.Nats.Forward.{forward, forward_sent, forward_disabled}
use oopsys_agent.Nats.Connection.{
  Answers, safe_close, open_broker, connect_once, start_gateway, publish,
}

abbrev Named : String → Node → Type 0
Named agent_id n = n.runtime.agent_id ≡ agent_id

module _ (agent_id : String) where
  pub publish-Named :
      (subject : String) (payload : Json) (answer : Result Unit)
      → Keeps (Named agent_id) (publish subject payload answer)
  unfolding publish
  publish-Named subject payload answer n h = ground arith

  safe_close-Named : (answer : Result Unit) → Keeps (Named agent_id) (safe_close answer)
  unfolding safe_close
  safe_close-Named answer n h = ground arith

  open_broker-Named : (a : Answers) → Keeps (Named agent_id) (open_broker a)
  unfolding open_broker
  open_broker-Named a n h = ground arith

  pub connect_once-Named : (a : Answers) → Keeps (Named agent_id) (connect_once a)
  unfolding connect_once
  connect_once-Named a =
      >>-Keeps (Named agent_id) (safe_close a.stop_old) (open_broker a)
        (safe_close-Named a.stop_old) (open_broker-Named a)

  pub start_gateway-Named : (a : Answers) → Keeps (Named agent_id) (start_gateway a)
  unfolding start_gateway
  start_gateway-Named a n h = ground (arith, connect_once-Named a n h)

  sent-Named : (now : Time) (r : Result Unit) → Keeps (Named agent_id) (forward_sent now r)
  unfolding forward_sent
  sent-Named now (ok _) n h = ground arith
  sent-Named now (raised (server_auth_error s)) n h = ground arith
  sent-Named now (raised cancelled) n h = h
  sent-Named now (raised exc) n h = ground arith

  disabled-Named : Keeps (Named agent_id) forward_disabled
  unfolding forward_disabled
  disabled-Named n h = ground arith

  pub forward-Named :
      (server : ServerModel) (agent : AgentModel) (post : Transport) (now : Time) (body : Json)
      → Keeps (Named agent_id) (forward server agent post now body)
  unfolding forward
  forward-Named server agent post now body = elim (Bool-cases (delivery_enabled server agent)) [
    | inl on ↦ rw on (sent-Named now (send server agent post body))
    | inr off ↦ rw off disabled-Named
  ]
