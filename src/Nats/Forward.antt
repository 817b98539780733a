-- ===== src/Nats/Forward.antt =====
-- `NatsGateway._forward`: the handler of the consumer, one message at a time.
use oopsys_agent.Base.{
  Bool, true, false, not, ◌||◌, some, if◌then◌else◌, Exc, server_auth_error, nack_message,
  cancelled, str, Result, ok, raised, Action, raise, ◌>>◌,
}
use oopsys_agent.Domain.{Time, Json}
use oopsys_agent.Configuration.{ServerModel, AgentModel}
use oopsys_agent.Server.{Transport, delivery_enabled, send}
use oopsys_agent.Nats.State.{
  Node, forwarding_disabled, token_rejected, server_unreachable, forwarding_resumed, modify, say,
  set_gateway, set_runtime,
}

abbrev when : Bool → Action Node Unit → Action Node Unit
when true m n = m n
when false m n = (ok tt, n)

abbrev set_reachable : Bool → Action Node Unit
set_reachable b = modify (set_runtime (λ r. record r { server_reachable = b }))

-- `if not self._server_client.delivery_enabled`
unfoldable pub forward_disabled : Action Node Unit
forward_disabled n =
    (do
      set_reachable false
      when (not n.gateway.forward_no_token_logged) (do
        say forwarding_disabled
        modify (set_gateway (λ g. record g { forward_no_token_logged = true })))
      raise nack_message)
      n

-- `except ServerAuthError`
unfoldable pub forward_rejected : Exc → Action Node Unit
forward_rejected exc n =
    (do
      set_reachable false
      when (not n.gateway.forward_auth_logged) (do
        say (token_rejected (str exc))
        modify (set_gateway (λ g. record g { forward_auth_logged = true })))
      raise nack_message)
      n

-- `except (ServerDeliveryError, Exception)`
unfoldable pub forward_unreachable : Exc → Action Node Unit
forward_unreachable exc n =
    (do
      set_reachable false
      when (n.runtime.server_reachable || not n.gateway.forward_unreachable_logged) (do
        say (server_unreachable (str exc))
        modify (set_gateway (λ g. record g { forward_unreachable_logged = true })))
      raise nack_message)
      n

-- What follows a delivery.
unfoldable pub forward_delivered : Time → Action Node Unit
forward_delivered now n =
    (do
      when (not n.runtime.server_reachable) (say forwarding_resumed)
      modify (
          set_gateway (λ g. record g {
            forward_no_token_logged = false;
            forward_auth_logged = false;
            forward_unreachable_logged = false;
          }))
      modify
          (set_runtime (λ r. record r { server_reachable = true; last_forwarded_at = some now })))
      n

-- The `try` statement, by how `send` ended. What is no `Exception` passes through.
unfoldable pub forward_sent : Time → Result Unit → Action Node Unit
unfolding forward_rejected forward_unreachable forward_delivered
forward_sent now (ok _) = forward_delivered now
forward_sent now (raised (server_auth_error status)) = forward_rejected (server_auth_error status)
forward_sent now (raised cancelled) = raise cancelled
forward_sent now (raised exc) = forward_unreachable exc

module _ (server : ServerModel) (agent : AgentModel) where
  -- `post` is what HTTP gives during this call, and `now` the clock at its end.
  unfoldable pub forward : Transport → Time → Json → Action Node Unit
  unfolding forward_disabled forward_sent
  forward post now body =
      if not (delivery_enabled server agent)
      then forward_disabled
      else forward_sent now (send server agent post body)
