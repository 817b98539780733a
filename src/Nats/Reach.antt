-- ===== src/Nats/Reach.antt =====
-- The gateway in use: starts, rounds of the retry task, publishing, forwarding and closing, in any
-- order, with any answers from the brokers and the server.
use oopsys_agent.Base.{
  String, ◌≡◌, refl, ◌⊎◌, inl, inr, Bool, true, false, List, [], ◌∷◌, ◌++◌, Result, ok, arith,
  Bool-cases, ◌∙◌, ap, ◌||◌,
}
use oopsys_agent.Domain.{Time, Json, AppRuntime}
use oopsys_agent.Configuration.{ServerModel, AgentModel}
use oopsys_agent.Server.{Transport}
use oopsys_agent.Nats.State.{Node, new_node}
use oopsys_agent.Nats.Forward.{forward}
use oopsys_agent.Nats.Connection.{Answers, connect_once, retry_loop, start_gateway, publish, close}
use oopsys_agent.Nats.Delivery.{forward_outcome}
use oopsys_agent.Nats.Brokers.{
  IsTidy, IsSettled, settled, connects, connect_once_lem, publish-IsTidy, close-IsTidy,
}

abbrev AllSettled : List Answers → Type 0
AllSettled [] = Unit
AllSettled (a ∷ rounds) = IsSettled a × AllSettled rounds

abbrev any_connects : List Answers → Bool
any_connects [] = false
any_connects (a ∷ rounds) = connects a || any_connects rounds

retry_loop-up :
    (a : Answers) (rounds : List Answers) (n : Node)
    → (connect_once a n).0 ≡ ok true
    → retry_loop (a ∷ rounds) n ≡ (ok true, (connect_once a n).1)
unfolding retry_loop
retry_loop-up a rounds n h = ground arith

retry_loop-down :
    (a : Answers) (rounds : List Answers) (n : Node)
    → (connect_once a n).0 ≡ ok false
    → retry_loop (a ∷ rounds) n ≡ retry_loop rounds (connect_once a n).1
unfolding retry_loop
retry_loop-down a rounds n h = ground arith

retry_loop_lem :
    (rounds : List Answers) (n : Node)
    → AllSettled rounds
    → IsTidy n
    → ((retry_loop rounds n).0 ≡ ok (any_connects rounds))
      × IsTidy (retry_loop rounds n).1
      × ((any_connects rounds ≡ false) ⊎ ((retry_loop rounds n).1.runtime.queue_connected ≡ true))
unfolding retry_loop
retry_loop_lem [] n s t = (refl, t, inl refl)
retry_loop_lem (a ∷ rounds) n s t =
    let (returned, tidy, connected) = connect_once_lem a n s.0 t in
    elim (Bool-cases (connects a)) [
      | inl up ↦
          rw (retry_loop-up a rounds n (returned ∙ ap ok up), up) (refl, tidy, inr (connected ∙ up))
      | inr down ↦
          rw (retry_loop-down a rounds n (returned ∙ ap ok down), down)
            (retry_loop_lem rounds (connect_once a n).1 s.1 tidy)
    ]

-- Nothing that a first round of two lists that connects makes is undone by the second.
retry_loop-down_first :
    (before rest : List Answers) (n : Node)
    → AllSettled before
    → IsTidy n
    → any_connects before ≡ false
    → retry_loop (before ++ rest) n ≡ retry_loop rest (retry_loop before n).1
unfolding retry_loop
retry_loop-down_first [] rest n s t h = refl
retry_loop-down_first (a ∷ before) rest n s t h =
    let (returned, tidy, _) = connect_once_lem a n s.0 t in
    elim (Bool-cases (connects a)) [
      | inl up ↦ ground (arith, up)
      | inr down ↦
          rw
            (
              retry_loop-down a (before ++ rest) n (returned ∙ ap ok down),
              retry_loop-down a before n (returned ∙ ap ok down),
            )
            (retry_loop-down_first before rest (connect_once a n).1 s.1 tidy (ground (arith, down)))
    ]

-- The retry task ends at the first round that connects. Rounds that do not connect leave it waiting;
-- the first that does is its last: the task returns then, and leaves what that round leaves, whatever
-- later rounds would have been answered. Then the queue is reported as connected, and `stop` has been
-- called on every broker that was made but the one held. Provided that no call of a broker is
-- cancelled in these rounds, and that before them `stop` has been called on every broker but the one
-- held, and a queue reported as connected has one.
pub retry_loop-first :
    (before after : List Answers) (a : Answers) (n : Node)
    → AllSettled before
    → IsSettled a
    → IsTidy n
    → any_connects before ≡ false
    → connects a ≡ true
    → let up = (connect_once a (retry_loop before n).1).1 in
      ((retry_loop before n).0 ≡ ok false)
      × (retry_loop (before ++ a ∷ after) n ≡ (ok true, up))
      × (up.runtime.queue_connected ≡ true)
      × IsTidy up
retry_loop-first before after a n s sa t down up =
    let (waits, tidy, _) = retry_loop_lem before n s t in
    let (returned, tidy_after, connected) = connect_once_lem a (retry_loop before n).1 sa tidy in
    (
      waits ∙ ap ok down,
      retry_loop-down_first before (a ∷ after) n s t down
          ∙ retry_loop-up a after (retry_loop before n).1 (returned ∙ ap ok up),
      connected ∙ up,
      tidy_after,
    )

pub start_gateway-IsTidy :
    (a : Answers) (n : Node) → IsSettled a → IsTidy n → IsTidy (start_gateway a n).1
unfolding start_gateway
start_gateway-IsTidy a n s t = ground (arith, connect_once_lem a n s t)

module _ (server : ServerModel) (agent : AgentModel) where
  pub data Step (n n' : Node) : Type 0 where
    starting : (a : Answers) → IsSettled a → n' ≡ (start_gateway a n).1 → Step n n'
    retrying :
        (a : Answers)
        → IsSettled a
        → n.gateway.retrying ≡ true
        → n' ≡ (connect_once a n).1
        → Step n n'
    publishing :
        (subject : String) (payload : Json) (answer : Result Unit)
        → n' ≡ (publish subject payload answer n).1
        → Step n n'
    forwarding :
        (post : Transport) (now : Time) (body : Json)
        → n' ≡ (forward server agent post now body n).1
        → Step n n'
    closing : (answer : Result Unit) → settled answer ≡ true → n' ≡ (close answer n).1 → Step n n'

  pub data Reach (n : Node) : Node → Type 0 where
    here : Reach n n
    next : {m m' : Node} → Reach n m → Step m m' → Reach n m'

  pub forward-IsTidy :
      (post : Transport) (now : Time) (body : Json) (n : Node)
      → IsTidy n
      → IsTidy (forward server agent post now body n).1
  forward-IsTidy post now body n t = elim (forward_outcome server agent post now body n) [
    | inl (_, _, _, _, _, d) ↦ ground arith
    | inr (inl (_, _, d)) ↦ ground arith
    | inr (inr (_, _, same)) ↦ rw same t
  ]

  Step-IsTidy : {n n' : Node} → Step n n' → IsTidy n → IsTidy n'
  Step-IsTidy (starting a s e) t = rw e (start_gateway-IsTidy a _ s t)
  Step-IsTidy (retrying a s _ e) t = rw e (connect_once_lem a _ s t).1
  Step-IsTidy (publishing subject payload answer e) t =
      rw e (publish-IsTidy subject payload answer _ t)
  Step-IsTidy (forwarding post now body e) t = rw e (forward-IsTidy post now body _ t)
  Step-IsTidy (closing answer s e) t = rw e (close-IsTidy answer _ s t)

  -- In every state that the gateway reaches from a new one, `stop` has been called on every broker
  -- that was made but the one that is held, and a queue that is reported as connected has one;
  -- provided that the queue is reported as disconnected at first, and that no call of a broker is
  -- cancelled on the way.
  pub Reach-IsTidy :
      (runtime : AppRuntime) {n : Node}
      → runtime.queue_connected ≡ false
      → Reach (new_node runtime) n
      → IsTidy n
  Reach-IsTidy runtime h here = ground arith
  Reach-IsTidy runtime h (next r s) = Step-IsTidy s (Reach-IsTidy runtime h r)
