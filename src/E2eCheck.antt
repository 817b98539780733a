-- ===== src/E2eCheck.antt =====
-- src/_e2e_check.py: the script against a gateway, the queue of Nats/Queue.antt and a server of its
-- own. What its sleeps wait for is how often the consumer is handed a message during each.
pub mod Passes
mod Tests
use oopsys_agent.Base.{
  ℕ, Option, none, some, suc, String, Bool, true, false, List, [], ◌∷◌, ◌++◌, length, if◌then◌else◌,
  leb, ◌==◌, Result, ok, raised, other,
}
use oopsys_agent.Domain.{Time, Json, obj, Fields, end, field, num, AppRuntime, new_runtime}
use oopsys_agent.Domain
use oopsys_agent.Base.Int.{pos}
use oopsys_agent.Configuration.{ServerModel, AgentModel}
use oopsys_agent.Server.{Transport}
use oopsys_agent.Nats.State.{Broker, Node, new_node}
use oopsys_agent.Nats.Connection.{Answers, start_gateway, publish}
use oopsys_agent.Nats.Queue.{System, new_system}
use oopsys_agent.Nats.Drain.{drain}

-- `Handler.do_POST`, by `ACCEPT["ok"]`: the status; `RECEIVED` is what is answered 202, and so the
-- system's `accepted`.
abbrev pub do_post : Bool → Transport
do_post accept request = ok (if accept then 202 else 503)

abbrev pub e2e_agent : AgentModel
e2e_agent = record { name = "oopsys-agent"; token = some "t" }

abbrev pub e2e_runtime : Time → AppRuntime
unfolding new_runtime
e2e_runtime now = record (new_runtime now) { agent_id = "agent-e2e" }

abbrev pub e2e_message : String → ℕ → Json
e2e_message source n = obj (field "source" (Domain.Json.str source) (field "n" (num (pos n)) end))

-- `assert`
abbrev pub asserted : Bool → String → Result Unit → Result Unit
asserted true text rest = rest
asserted false text rest = raised (other "AssertionError" text)

-- What the queue answers to a publication, and whether it has stored the message if it answers by an
-- exception.
pub record Confirmation : Type 0 where
  pub answer : Result Unit
  pub kept : Bool

-- What a script reads: the brokers, how often the consumer is handed a message while it sleeps, what
-- the queue answers to the two publications, and the clock.
pub record E2eReads : Type 0 where
  pub gateway : Answers
  pub delivered : ℕ
  pub refused : ℕ
  pub recovered : ℕ
  pub first : Confirmation
  pub second : Confirmation
  pub now : Time

-- Without a broker nothing is published.
abbrev pub is_stored : Confirmation → Option Broker → Bool
is_stored c none = false
is_stored c (some b) = elim c.answer [ ok _ ↦ true | raised _ ↦ c.kept ]

-- A statement whose value is not used.
abbrev pub told : Result Bool → Result Unit
told (ok _) = ok tt
told (raised e) = raised e

-- `await gw.publish(...)`: the script looks at no answer of it, and what it raises ends the script.
abbrev pub queue_message : String → Json → Confirmation → System → Result Unit × System
queue_message subject payload c s =
    let (r, n) = publish subject payload c.answer s.node in
    let stored = is_stored c s.node.gateway.broker in
    (
      told r,
      record {
        node = n;
        stored = if stored then payload ∷ s.stored else s.stored;
        pending = if stored then s.pending ++ payload ∷ [] else s.pending;
        accepted = s.accepted;
      },
    )

-- A statement, and what follows it if it returns.
abbrev followed : Result Unit → Result Unit → Result Unit
followed (ok _) rest = rest
followed (raised e) rest = raised e

-- The two publications and the assertions between and after them, by how the publications ended and
-- what the queue and the server held at the assertions.
abbrev pub phases_checked : Result Unit → System → Result Unit → System → Result Unit
phases_checked p1 s1 p2 s3 = followed p1 (
    asserted (length s1.accepted == 1) ""
      (followed p2 (asserted (leb 2 (length s3.accepted)) "message was lost!" (ok tt))))

module _ (server : ServerModel) (r : E2eReads) where
  abbrev pub phase : Bool → ℕ → System → System
  phase accept k s = drain server e2e_agent (do_post accept) r.now k s

  abbrev pub gateway_started : Result Bool × Node
  gateway_started = start_gateway r.gateway (new_node (e2e_runtime r.now))

  -- Server up.
  abbrev pub published1 : Result Unit × System
  published1 =
      queue_message "oopsys.agents.agent-e2e.projects" (e2e_message "projects" 1) r.first
        (new_system gateway_started.1)

  abbrev pub phase1 : System
  phase1 = phase true r.delivered published1.1

  -- Server down.
  abbrev pub published2 : Result Unit × System
  published2 =
      queue_message "oopsys.agents.agent-e2e.server" (e2e_message "server" 2) r.second phase1

  abbrev pub phase2 : System
  phase2 = phase false r.refused published2.1

  -- Server back up.
  abbrev pub phase3 : System
  phase3 = phase true r.recovered phase2

  -- What follows the start, by how that ended.
  abbrev pub checked : Result Bool → Result Unit
  checked (raised e) = raised e
  checked (ok up) =
      asserted up "gateway failed to start" (phases_checked published1.0 phase1 published2.0 phase3)

  -- `main`, up to the closing
  unfoldable pub main : Result Unit
  main = checked gateway_started.0
