-- ===== src/Nats/Publish.antt =====
-- What `publish` returns and leaves.
use oopsys_agent.Base.{
  ap, is_exception, ◌∙◌, String, ◌≡◌, refl, inl, inr, Bool, true, false, Option, none, some, List,
  [], ◌∷◌, arith, Result, ok, raised, Exc,
}
use oopsys_agent.Domain.{Time, Json}
use oopsys_agent.Configuration.{ServerModel, AgentModel}
use oopsys_agent.Server.{Transport}
use oopsys_agent.Nats.State.{Broker, Node}
use oopsys_agent.Nats.Forward.{forward}
use oopsys_agent.Nats.Connection.{publish}
use oopsys_agent.Nats.Brokers.{settled, succeeded}
use oopsys_agent.Nats.Delivery.{forward_outcome}

abbrev pub publishes : Option Broker → Result Unit → Bool
publishes none answer = false
publishes (some b) answer = succeeded answer

-- Uncancelled, `publish` returns whether there is a broker that has stored the message.
pub publish_lem :
    (subject : String) (payload : Json) (answer : Result Unit) (n : Node)
    → settled answer ≡ true
    → (publish subject payload answer n).0 ≡ ok (publishes n.gateway.broker answer)
unfolding publish
publish_lem subject payload answer n s = ground arith

pub publish-none :
    (subject : String) (payload : Json) (answer : Result Unit) (n : Node)
    → n.gateway.broker ≡ none
    → publish subject payload answer n ≡ (ok false, n)
unfolding publish
publish-none subject payload answer n h = ground arith

pub publish-keeps :
    (subject : String) (payload : Json) (answer : Result Unit) (n : Node)
    → ((publish subject payload answer n).1.runtime.last_metrics_at ≡ n.runtime.last_metrics_at)
      × ((publish subject payload answer n).1.runtime.docker ≡ n.runtime.docker)
unfolding publish
publish-keeps subject payload answer n = ground arith

-- Publishing and forwarding, as the agent does until it stops.
pub data Use : Type 0 where
  publishing : String → Json → Result Unit → Use
  forwarding : Transport → Time → Json → Use

module _ (server : ServerModel) (agent : AgentModel) where
  unfoldable pub use_gateway : List Use → Node → Node
  use_gateway [] n = n
  use_gateway (publishing subject payload answer ∷ uses) n =
      use_gateway uses (publish subject payload answer n).1
  use_gateway (forwarding post now body ∷ uses) n =
      use_gateway uses (forward server agent post now body n).1

  publish_keeps_down :
      (subject : String) (payload : Json) (answer : Result Unit) (n : Node)
      → n.runtime.queue_connected ≡ false
      → ((publish subject payload answer n).1.runtime.queue_connected ≡ false)
        × ((publish subject payload answer n).1.gateway.broker ≡ n.gateway.broker)
  unfolding publish
  publish_keeps_down subject payload answer n h = ground arith

  forward_keeps :
      (post : Transport) (now : Time) (body : Json) (n : Node)
      → ((forward server agent post now body n).1.runtime.queue_connected
          ≡ n.runtime.queue_connected)
        × ((forward server agent post now body n).1.gateway.broker ≡ n.gateway.broker)
  forward_keeps post now body n = elim (forward_outcome server agent post now body n) [
    | inl (_, _, _, _, _, d) ↦ (d.queue, d.broker)
    | inr (inl (_, _, d)) ↦ (d.queue, d.broker)
    | inr (inr (_, _, same)) ↦ rw same (refl, refl)
  ]

  use_gateway_down :
      (uses : List Use) (n : Node)
      → n.runtime.queue_connected ≡ false
      → ((use_gateway uses n).runtime.queue_connected ≡ false)
        × ((use_gateway uses n).gateway.broker ≡ n.gateway.broker)
  unfolding use_gateway
  use_gateway_down [] n h = (h, refl)
  use_gateway_down (publishing subject payload answer ∷ uses) n h =
      let (down, same) = publish_keeps_down subject payload answer n h in
      let (rest, broker) = use_gateway_down uses (publish subject payload answer n).1 down in
      (rest, broker ∙ same)
  use_gateway_down (forwarding post now body ∷ uses) n h =
      let (down, same) = forward_keeps post now body n in
      let (rest, broker) =
        use_gateway_down uses (forward server agent post now body n).1 (down ∙ h) in
      (rest, broker ∙ same)

  failed_publish :
      (subject : String) (payload : Json) (exc : Exc) (n : Node) {b : Broker}
      → is_exception exc ≡ true
      → n.gateway.broker ≡ some b
      → ((publish subject payload (raised exc) n).1.runtime.queue_connected ≡ false)
        × ((publish subject payload (raised exc) n).1.gateway.broker ≡ some b)
  unfolding publish
  failed_publish subject payload exc n e held = ground arith

  -- After one publication that raises, the queue is reported as disconnected for as long as the
  -- gateway is used, whatever is published and forwarded then; and yet the broker is still held, and
  -- the next publication that it confirms returns `True`.
  pub publish_after_failure :
      (subject : String) (payload : Json) (exc : Exc) (uses : List Use) (n : Node) {b : Broker}
      → is_exception exc ≡ true
      → n.gateway.broker ≡ some b
      → let m = use_gateway uses (publish subject payload (raised exc) n).1 in
        (m.runtime.queue_connected ≡ false)
        × ((publish subject payload (ok tt) m).0 ≡ ok true)
        × ((publish subject payload (ok tt) m).1.runtime.queue_connected ≡ false)
  publish_after_failure subject payload exc uses n {b} e held =
      let (down, still) = failed_publish subject payload exc n e held in
      let (rest, broker) = use_gateway_down uses (publish subject payload (raised exc) n).1 down in
      let m = use_gateway uses (publish subject payload (raised exc) n).1 in
      (
        rest,
        publish_lem subject payload (ok tt) m refl
            ∙ ap (λ o. ok (publishes o (ok tt))) (broker ∙ still),
        (publish_keeps_down subject payload (ok tt) m rest).0,
      )
