-- ===== src/Nats/Queue.antt =====
-- The gateway together with the queue and the server: which messages can be lost. JetStream is not
-- under the source; the steps below are what it documents: a stored message stays until it is acked,
-- may be delivered in any order and again, and an answer to a publisher, or an ack, may get lost.
use oopsys_agent.Base.{
  String, ◌≡◌, ◌⊎◌, inl, inr, Bool, true, false, List, [], ◌∷◌, ◌++◌, if◌then◌else◌, ltb, Result,
  ok, raised, arith, In, In-append_left, In-append_right, In-middle, Bool-cases, Result-cases,
}
use oopsys_agent.Domain.{Time, Json}
use oopsys_agent.Configuration.{ServerModel, AgentModel}
use oopsys_agent.Server.{Transport, delivery_enabled, ingest_request}
use oopsys_agent.Nats.State.{Node}
use oopsys_agent.Nats.Forward.{forward}
use oopsys_agent.Nats.Connection.{publish}
use oopsys_agent.Nats.Delivery.{forward_outcome}

pub record System : Type 0 where
  pub node : Node
  pub stored : List Json  -- all that the queue has ever stored
  pub pending : List Json  -- what is not acked yet
  pub accepted : List Json  -- what the server has answered with a status below 400

abbrev pub new_system : Node → System
new_system n = record { node = n; stored = []; pending = []; accepted = [] }

module _ (server : ServerModel) (agent : AgentModel) where
  -- What the server has taken after a run of the handler.
  abbrev pub taken : Transport → Json → List Json → List Json
  taken post body accepted =
      if delivery_enabled server agent
      then (elim (post (ingest_request server agent body)) [
        | ok status ↦ if ltb status 400 then body ∷ accepted else accepted
        | raised _ ↦ accepted
      ])
      else accepted

  pub data Move (s s' : System) : Type 0 where
    -- The broker confirms that it has stored the message.
    enqueued :
        (subject : String) (payload : Json)
        → (publish subject payload (ok tt) s.node).0 ≡ ok true
        → s' ≡ record {
          node = (publish subject payload (ok tt) s.node).1;
          stored = payload ∷ s.stored;
          pending = s.pending ++ payload ∷ [];
          accepted = s.accepted;
        }
        → Move s s'
    -- Publishing fails or its confirmation is lost: the message is stored, or it is not.
    unconfirmed :
        (subject : String) (payload : Json) (answer : Result Unit) (kept : Bool)
        → s' ≡ record {
          node = (publish subject payload answer s.node).1;
          stored = if kept then payload ∷ s.stored else s.stored;
          pending = if kept then s.pending ++ payload ∷ [] else s.pending;
          accepted = s.accepted;
        }
        → Move s s'
    -- A pending message is handed to the handler, which returns: the consumer acks it.
    acked :
        (post : Transport) (now : Time) (before : List Json) (body : Json) (after : List Json)
        → s.pending ≡ before ++ body ∷ after
        → (forward server agent post now body s.node).0 ≡ ok tt
        → s' ≡ record {
          node = (forward server agent post now body s.node).1;
          stored = s.stored;
          pending = before ++ after;
          accepted = taken post body s.accepted;
        }
        → Move s s'
    -- The handler raises, or its ack is lost: the message will be delivered again.
    kept :
        (post : Transport) (now : Time) (body : Json)
        → In body s.pending
        → s' ≡ record {
          node = (forward server agent post now body s.node).1;
          stored = s.stored;
          pending = s.pending;
          accepted = taken post body s.accepted;
        }
        → Move s s'

  pub data Moves (s : System) : System → Type 0 where
    here : Moves s s
    next : {t t' : System} → Moves s t → Move t t' → Moves s t'

  -- Each stored message waits in the queue, or the server has it.
  abbrev pub NoLoss : System → Type 0
  NoLoss s = (m : Json) → In m s.stored → In m s.pending ⊎ In m s.accepted

  In-taken :
      (post : Transport) (body m : Json) (accepted : List Json)
      → In m accepted
      → In m (taken post body accepted)
  In-taken post body m accepted h = elim (Bool-cases (delivery_enabled server agent)) [
    | inr off ↦ rw off h
    | inl on ↦ elim (Result-cases (post (ingest_request server agent body))) [
      | inr (e, failed) ↦ rw (on, failed) h
      | inl (status, answered) ↦ elim (Bool-cases (ltb status 400)) [
        | inl low ↦ rw (on, answered, low) (inr h)
        | inr high ↦ rw (on, answered, high) h
      ]
    ]
  ]

  -- What the handler lets the consumer ack, the server has taken.
  taken-acked :
      (post : Transport) (now : Time) (body : Json) (n : Node) (accepted : List Json)
      → (forward server agent post now body n).0 ≡ ok tt
      → taken post body accepted ≡ body ∷ accepted
  taken-acked post now body n accepted h = elim (forward_outcome server agent post now body n) [
    | inl (status, answered, low, on, _, _) ↦ rw (on, answered) (ground arith)
    | inr (inl (_, e, _)) ↦ cc
    | inr (inr (_, _, e)) ↦ ground arith
  ]

  Move-NoLoss : {s s' : System} → Move s s' → NoLoss s → NoLoss s'
  Move-NoLoss {s} (enqueued subject payload _ e) h = rw e λ m stored. elim stored [
    | inl new ↦ inl (In-append_right m s.pending (payload ∷ []) (inl new))
    | inr old ↦ elim (h m old) [
      | inl l ↦ inl (In-append_left m s.pending (payload ∷ []) l)
      | inr r ↦ inr r
    ]
  ]
  Move-NoLoss {s} (unconfirmed subject payload answer true e) h = rw e λ m stored. elim stored [
    | inl new ↦ inl (In-append_right m s.pending (payload ∷ []) (inl new))
    | inr old ↦ elim (h m old) [
      | inl l ↦ inl (In-append_left m s.pending (payload ∷ []) l)
      | inr r ↦ inr r
    ]
  ]
  Move-NoLoss (unconfirmed subject payload answer false e) h = rw e h
  Move-NoLoss {s} (acked post now before body after p done e) h = rw e λ m stored.
      elim (h m stored) [
        | inl l ↦ elim (In-middle m body before after (rw p at l)) [
          | inl same ↦ inr (rw (taken-acked post now body s.node s.accepted done) (inl same))
          | inr rest ↦ inl rest
        ]
        | inr r ↦ inr (In-taken post body m s.accepted r)
      ]
  Move-NoLoss {s} (kept post now body _ e) h = rw e λ m stored. elim (h m stored) [
    | inl l ↦ inl l
    | inr r ↦ inr (In-taken post body m s.accepted r)
  ]

  Moves-NoLoss : {s s' : System} → NoLoss s → Moves s s' → NoLoss s'
  Moves-NoLoss h here = h
  Moves-NoLoss h (next r mv) = Move-NoLoss mv (Moves-NoLoss h r)

  -- From an empty queue, whatever the order of publishing and delivery, and whatever answers get
  -- lost: each message that the queue has stored is still pending, or the server has answered it
  -- with a status below 400.
  pub stored_or_accepted :
      (n : Node) {s : System}
      → Moves (new_system n) s
      → (m : Json) → In m s.stored
      → In m s.pending ⊎ In m s.accepted
  stored_or_accepted n moves = Moves-NoLoss (λ m h. elim h [ ]) moves
