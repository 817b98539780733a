-- ===== src/Nats/Delivery.antt =====
-- What one run of `_forward` does, on every branch, and how much it logs over many.
use oopsys_agent.Base.{
  ℕ, ◌<◌, ◌≤◌, ◌≡◌, refl, ap, ◌∙◌, ◌⊎◌, inl, inr, true, false, some, Exc, cancelled, nack_message,
  server_auth_error, is_exception, ok, raised, arith, Bool-cases, Result-cases, Exc-cases,
}
use oopsys_agent.Domain.{Time, Json}
use oopsys_agent.Configuration.{ServerModel, AgentModel}
use oopsys_agent.Server.{Transport, delivery_enabled, send, ingest_request}
use oopsys_agent.Server.Delivery.{send-ok_iff}
use oopsys_agent.Nats.State.{Node}
use oopsys_agent.Nats.Forward.{forward, forward_sent, forward_disabled}

-- The server is marked reachable at `now`, and every warning may be given again; the rest stays.
pub record Delivered (now : Time) (n n' : Node) : Type 0 where
  pub reachable : n'.runtime.server_reachable ≡ true
  pub stamped : n'.runtime.last_forwarded_at ≡ some now
  pub queue : n'.runtime.queue_connected ≡ n.runtime.queue_connected
  pub no_token : n'.gateway.forward_no_token_logged ≡ false
  pub auth : n'.gateway.forward_auth_logged ≡ false
  pub unreachable : n'.gateway.forward_unreachable_logged ≡ false
  pub broker : n'.gateway.broker ≡ n.gateway.broker
  pub calls : n'.calls ≡ n.calls

pub record Refused (n n' : Node) : Type 0 where
  pub reachable : n'.runtime.server_reachable ≡ false
  pub stamped : n'.runtime.last_forwarded_at ≡ n.runtime.last_forwarded_at
  pub queue : n'.runtime.queue_connected ≡ n.runtime.queue_connected
  pub broker : n'.gateway.broker ≡ n.gateway.broker
  pub calls : n'.calls ≡ n.calls

module _ (now : Time) (n : Node) where
  pub sent-Delivered :
      ((forward_sent now (ok tt) n).0 ≡ ok tt) × Delivered now n (forward_sent now (ok tt) n).1
  unfolding forward_sent
  sent-Delivered = ground arith

  sent-Refused :
      (exc : Exc)
      → is_exception exc ≡ true
      → ((forward_sent now (raised exc) n).0 ≡ raised nack_message)
        × Refused n (forward_sent now (raised exc) n).1
  unfolding forward_sent
  sent-Refused (server_auth_error s) h = ground arith
  sent-Refused cancelled h = cc
  sent-Refused exc h = ground arith

  sent_cancelled : forward_sent now (raised cancelled) n ≡ (raised cancelled, n)
  unfolding forward_sent
  sent_cancelled = refl

  disabled-Refused :
      ((forward_disabled n).0 ≡ raised nack_message) × Refused n (forward_disabled n).1
  unfolding forward_disabled
  disabled-Refused = ground arith

module _ (server : ServerModel) (agent : AgentModel) (post : Transport) (now : Time) (body : Json)
    (n : Node) where
  pub forward-enabled :
      delivery_enabled server agent ≡ true
      → forward server agent post now body n ≡ forward_sent now (send server agent post body) n
  unfolding forward
  forward-enabled h = rw h

  forward-disabled :
      delivery_enabled server agent ≡ false
      → forward server agent post now body n ≡ forward_disabled n
  unfolding forward
  forward-disabled h = rw h

  -- Why a message is not delivered: there is no token, the server answers with a status of 400 or
  -- more, or posting raises an `Exception`.
  abbrev pub IsUndelivered : Type 0
  IsUndelivered =
      (delivery_enabled server agent ≡ false)
      ⊎ ((status : ℕ) × (post (ingest_request server agent body) ≡ ok status) × (400 ≤ status))
      ⊎ ((exc : Exc) × (post (ingest_request server agent body) ≡ raised exc)
          × (is_exception exc ≡ true))

  -- A send that raises an `Exception` has a reason of these, and one that is cancelled was cancelled
  -- in the post.
  send-IsUndelivered :
      (exc : Exc)
      → send server agent post body ≡ raised exc
      → is_exception exc ≡ true
      → IsUndelivered
  unfolding send
  send-IsUndelivered exc h e = elim (Result-cases (post (ingest_request server agent body))) [
    | inl (status, answered) ↦ inr (inl (status, answered, ground arith))
    | inr (x, failed) ↦ inr (inr (x, failed, ground arith))
  ]

  send-cancelled :
      send server agent post body ≡ raised cancelled
      → post (ingest_request server agent body) ≡ raised cancelled
  unfolding send
  send-cancelled h = ground arith

  -- One run of the handler ends in one of three ways, by what happens to the message. Delivery is
  -- enabled and the server answers with a status below 400: then the message is acked, the server is
  -- marked reachable at `now`, and every warning may be given again. Or delivery is disabled, the
  -- server answers with 400 or more, or posting raises an `Exception`: then the message is nacked,
  -- the server is marked unreachable, and the time of the last delivery stays. Or delivery is enabled
  -- and the post is cancelled: then the handler is cancelled, and nothing has changed.
  pub forward_outcome :
      ((status : ℕ) × (post (ingest_request server agent body) ≡ ok status)
        × (status < 400)
        × (delivery_enabled server agent ≡ true)
        × ((forward server agent post now body n).0 ≡ ok tt)
        × Delivered now n (forward server agent post now body n).1)
      ⊎ (IsUndelivered
          × ((forward server agent post now body n).0 ≡ raised nack_message)
          × Refused n (forward server agent post now body n).1)
      ⊎ ((delivery_enabled server agent ≡ true)
          × (post (ingest_request server agent body) ≡ raised cancelled)
          × ((forward server agent post now body n) ≡ (raised cancelled, n)))
  forward_outcome = elim (Bool-cases (delivery_enabled server agent)) [
    | inr disabled ↦ inr (
        inl (
          inl disabled,
          rw (forward-disabled disabled) (disabled-Refused now n).0,
          rw (forward-disabled disabled) (disabled-Refused now n).1,
        ))
    | inl enabled ↦ elim (Result-cases (send server agent post body)) [
      | inl (_, sent) ↦
          let (status, answered, low) = (send-ok_iff server agent post body).0 sent in
          inl (
            status,
            answered,
            low,
            enabled,
            rw (forward-enabled enabled, sent) (sent-Delivered now n).0,
            rw (forward-enabled enabled, sent) (sent-Delivered now n).1,
          )
      | inr (exc, failed) ↦ elim (Exc-cases exc) [
        | inl e ↦ inr (
            inr (
              enabled,
              send-cancelled (failed ∙ ap raised e),
              rw (forward-enabled enabled, failed, e) (sent_cancelled now n),
            ))
        | inr e ↦ inr (
            inl (
              send-IsUndelivered exc failed e,
              rw (forward-enabled enabled, failed) (sent-Refused now n exc e).0,
              rw (forward-enabled enabled, failed) (sent-Refused now n exc e).1,
            ))
      ]
    ]
  ]
