-- ===== src/Nats/Warnings.antt =====
-- How much the handler logs over a run of messages.
use oopsys_agent.Base.{
  ℕ, ◌+◌, ◌*◌, ◌≤◌, inl, inr, not, ◌||◌, List, [], ◌∷◌, length, if◌then◌else◌, cancelled,
  server_auth_error, Result, ok, raised, arith, Bool-cases,
}
use oopsys_agent.Domain.{Time, Json}
use oopsys_agent.Configuration.{ServerModel, AgentModel}
use oopsys_agent.Server.{Transport, delivery_enabled, send}
use oopsys_agent.Nats.State.{Node}
use oopsys_agent.Nats.Forward.{forward, forward_sent, forward_disabled}

-- One message as the consumer hands it to the handler.
pub record Attempt : Type 0 where
  pub post : Transport
  pub now : Time
  pub body : Json

abbrev pub acked : Result Unit → ℕ
acked (ok _) = 1
acked (raised _) = 0

module _ (server : ServerModel) (agent : AgentModel) where
  -- The consumer's messages, one after the other: how many were acked, and what they left.
  pub consume : List Attempt → Node → ℕ × Node
  consume [] n = (0, n)
  consume (a ∷ more) n =
      let (r, n') = forward server agent a.post a.now a.body n in
      let (k, m) = consume more n' in (acked r + k, m)

-- The warnings that may still be given before the next delivery.
abbrev pending : Node → ℕ
pending n =
    (if n.gateway.forward_no_token_logged then 0 else 1)
    + (if n.gateway.forward_auth_logged then 0 else 1)
    + (if n.runtime.server_reachable || not n.gateway.forward_unreachable_logged then 1 else 0)

-- The lines that a step adds, and the warnings that it leaves, against those before it.
abbrev Spends : Node → Result Unit × Node → Type 0
Spends n (r, n') = length n'.log + pending n' ≤ length n.log + pending n + 4 * acked r

sent-Spends : (now : Time) (r : Result Unit) (n : Node) → Spends n (forward_sent now r n)
unfolding forward_sent
sent-Spends now (ok _) n = ground arith
sent-Spends now (raised (server_auth_error s)) n = ground arith
sent-Spends now (raised cancelled) n = ground arith
sent-Spends now (raised e) n = ground arith

disabled-Spends : (n : Node) → Spends n (forward_disabled n)
unfolding forward_disabled
disabled-Spends n = ground arith

module _ (server : ServerModel) (agent : AgentModel) where
  forward-Spends : (a : Attempt) (n : Node) → Spends n (forward server agent a.post a.now a.body n)
  unfolding forward
  forward-Spends a n = elim (Bool-cases (delivery_enabled server agent)) [
    | inl enabled ↦ rw enabled (sent-Spends a.now (send server agent a.post a.body) n)
    | inr disabled ↦ rw disabled (disabled-Spends n)
  ]

  consume-Spends :
      (attempts : List Attempt) (n : Node)
      → let (k, m) = consume server agent attempts n in
        length m.log + pending m ≤ length n.log + pending n + 4 * k
  unfolding consume
  consume-Spends [] n = omega arith
  consume-Spends (a ∷ more) n =
      let (r, n') = forward server agent a.post a.now a.body n in
      omega (arith, forward-Spends a n, consume-Spends more n')

  -- However long the server stays away, the handler logs three lines at most; each delivery allows
  -- four more.
  pub consume_log :
      (attempts : List Attempt) (n : Node)
      → let (k, m) = consume server agent attempts n in length m.log ≤ length n.log + 3 + 4 * k
  consume_log attempts n = ground (arith, consume-Spends attempts n)
