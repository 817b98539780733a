-- ===== src/E2eCheck/Passes.antt =====
-- That the script's assertions hold.
use oopsys_agent.Base.{
  ℕ, zero, suc, ◌≤◌, ◌≡◌, ◌≢◌, refl, ap, ◌∙◌, inl, inr, Bool, true, false, Option, some, none, List,
  [], ◌∷◌, String, ok, raised, nack_message, arith,
}
use oopsys_agent.Domain.{Time, Json, new_runtime}
use oopsys_agent.Configuration.{ServerModel}
use oopsys_agent.Server.{delivery_enabled, send}
use oopsys_agent.Nats.State.{Node, Broker, new_node}
use oopsys_agent.Nats.Forward.{forward, forward_sent}
use oopsys_agent.Nats.Connection.{start_gateway, connect_once, publish}
use oopsys_agent.Nats.Brokers.{IsSettled, IsTidy, connects, held, connect_once_lem}
use oopsys_agent.Nats.Queue.{System}
use oopsys_agent.Nats.Drain.{drain}
use oopsys_agent.E2eCheck.{
  do_post, e2e_agent, e2e_runtime, queue_message, Confirmation, E2eReads, e2e_message, published1,
  published2, phase1, phase2, phase3, gateway_started, phases_checked, checked, main,
}

abbrev sys : Node → List Json → List Json → List Json → System
sys n stored pending accepted = record {
  node = n;
  stored = stored;
  pending = pending;
  accepted = accepted;
}

-- The broker is still there, and these are pending and accepted.
abbrev At : Broker → List Json → List Json → List Json → System → Type 0
At b stored pending accepted s =
    (n : Node) × (n.gateway.broker ≡ some b) × (s ≡ sys n stored pending accepted)

module _ (server : ServerModel) (now : Time) where
  forward_up :
      (body : Json) (n : Node)
      → let (r, n') = forward server e2e_agent (do_post true) now body n in
        (r ≡ ok tt) × (n'.gateway.broker ≡ n.gateway.broker)
  unfolding forward delivery_enabled send forward_sent
  forward_up body n = ground arith

  forward_down :
      (body : Json) (n : Node)
      → let (r, n') = forward server e2e_agent (do_post false) now body n in
        (r ≡ raised nack_message) × (n'.gateway.broker ≡ n.gateway.broker)
  unfolding forward delivery_enabled send forward_sent
  forward_down body n = ground arith

  drain_idle :
      (accept : Bool) (k : ℕ) (n : Node) (stored accepted : List Json)
      → drain server e2e_agent (do_post accept) now k (sys n stored [] accepted)
        ≡ sys n stored [] accepted
  unfolding drain
  drain_idle accept zero n stored accepted = refl
  drain_idle accept (suc k) n stored accepted = drain_idle accept k n stored accepted

  drain_down :
      (b : Broker) (k : ℕ) (body : Json) (n : Node) (stored accepted : List Json)
      → n.gateway.broker ≡ some b
      → At b stored
          (body ∷ [])
          accepted
          (drain server e2e_agent (do_post false) now k (sys n stored (body ∷ []) accepted))
  unfolding drain delivery_enabled
  drain_down b zero body n stored accepted h = (n, h, refl)
  drain_down b (suc k) body n stored accepted h =
      let (nacked, same) = forward_down body n in
      rw nacked (
        drain_down b k body (forward server e2e_agent (do_post false) now body n).1 stored accepted
          (same ∙ h))

  drain_up :
      (b : Broker) (k : ℕ) (body : Json) (n : Node) (stored accepted : List Json)
      → n.gateway.broker ≡ some b
      → At b stored []
          (body ∷ accepted)
          (drain server e2e_agent (do_post true) now (suc k) (sys n stored (body ∷ []) accepted))
  unfolding drain delivery_enabled
  drain_up b k body n stored accepted h =
      let (acked, same) = forward_up body n in
      rw acked (
        (forward server e2e_agent (do_post true) now body n).1,
        same ∙ h,
        drain_idle true k _ stored (body ∷ accepted),
      )

queue_message_lem :
    (b : Broker) (subject : String) (payload : Json) (c : Confirmation) (n : Node)
    (stored accepted : List Json)
    → c.answer ≡ ok tt
    → n.gateway.broker ≡ some b
    → ((queue_message subject payload c (sys n stored [] accepted)).0 ≡ ok tt)
      × At b
          (payload ∷ stored)
          (payload ∷ [])
          accepted
          (queue_message subject payload c (sys n stored [] accepted)).1
unfolding publish
queue_message_lem b subject payload c n stored accepted confirmed h =
    (ground arith, ((publish subject payload c.answer n).1, ground arith, ground arith))

positive : (k : ℕ) → 1 ≤ k → (m : ℕ) × (k ≡ suc m)
positive zero h = absurd (omega arith)
positive (suc m) h = (m, refl)

abbrev m1 : Json
m1 = e2e_message "projects" 1

abbrev m2 : Json
m2 = e2e_message "server" 2

held_broker :
    (n : Node)
    → IsTidy n
    → n.runtime.queue_connected ≡ true
    → (b : Broker) × (n.gateway.broker ≡ some b)
held_broker n t up = elim t.connected [ inl down ↦ cc | inr there ↦ is_held n.gateway.broker there ]
  where
    is_held : (o : Option Broker) → held o ≢ [] → (b : Broker) × (o ≡ some b)
    is_held none h = absurd (h refl)
    is_held (some b) h = (b, refl)

module _ (server : ServerModel) (r : E2eReads) where
  phase1_lem :
      (b : Broker)
      → (gateway_started server r).1.gateway.broker ≡ some b
      → r.first.answer ≡ ok tt
      → 1 ≤ r.delivered
      → ((published1 server r).0 ≡ ok tt) × At b (m1 ∷ []) [] (m1 ∷ []) (phase1 server r)
  phase1_lem b h c d =
      let (returned, (n, held, e)) =
        queue_message_lem b "oopsys.agents.agent-e2e.projects" m1 r.first
          (gateway_started server r).1 [] [] c h in
      let (k, some_times) = positive r.delivered d in
      (returned, rw (e, some_times) (drain_up server r.now b k m1 n (m1 ∷ []) [] held))

  phase2_lem :
      (b : Broker)
      → r.second.answer ≡ ok tt
      → At b (m1 ∷ []) [] (m1 ∷ []) (phase1 server r)
      → ((published2 server r).0 ≡ ok tt)
        × At b (m2 ∷ m1 ∷ []) (m2 ∷ []) (m1 ∷ []) (phase2 server r)
  phase2_lem b c (n, held, e) =
      let (returned, (u, still, queued)) =
        queue_message_lem b "oopsys.agents.agent-e2e.server" m2 r.second n (m1 ∷ []) (m1 ∷ []) c
          held in
      (
        rw e returned,
        rw (e, queued) (drain_down server r.now b r.refused m2 u (m2 ∷ m1 ∷ []) (m1 ∷ []) still),
      )

  phase3_lem :
      (b : Broker)
      → 1 ≤ r.recovered
      → At b (m2 ∷ m1 ∷ []) (m2 ∷ []) (m1 ∷ []) (phase2 server r)
      → At b (m2 ∷ m1 ∷ []) [] (m2 ∷ m1 ∷ []) (phase3 server r)
  phase3_lem b d (n, held, e) =
      let (k, some_times) = positive r.recovered d in
      rw (e, some_times) (drain_up server r.now b k m2 n (m2 ∷ m1 ∷ []) (m1 ∷ []) held)

  gateway_started-IsTidy : IsTidy (new_node (e2e_runtime r.now))
  unfolding e2e_runtime new_runtime
  gateway_started-IsTidy = record { no_leak = refl; connected = inl refl }

  gateway_started_lem :
      IsSettled r.gateway
      → connects r.gateway ≡ true
      → ((gateway_started server r).0 ≡ ok true)
        × ((b : Broker) × ((gateway_started server r).1.gateway.broker ≡ some b))
  unfolding start_gateway
  gateway_started_lem s up =
      let n = new_node (e2e_runtime r.now) in
      let (returned, tidy, connected) = connect_once_lem r.gateway n s gateway_started-IsTidy in
      let ran : start_gateway r.gateway n ≡ (ok true, (connect_once r.gateway n).1) =
        ground (arith, returned, up) in
      rw ran (refl, held_broker (connect_once r.gateway n).1 tidy (connected ∙ up))

  -- Provided that the gateway starts and its broker is not cancelled, that the queue confirms both
  -- publications, and that the consumer is handed a message at least once during each of the script's
  -- phases with the server up, however often it is while the server is down: every assertion of the
  -- script holds, and in the end both messages are received and none is pending.
  pub main-passes :
      IsSettled r.gateway
      → connects r.gateway ≡ true
      → r.first.answer ≡ ok tt
      → r.second.answer ≡ ok tt
      → 1 ≤ r.delivered
      → 1 ≤ r.recovered
      → (main server r ≡ ok tt)
        × ((phase3 server r).pending ≡ [])
        × ((phase3 server r).accepted ≡ e2e_message "server" 2 ∷ e2e_message "projects" 1 ∷ [])
  unfolding main
  main-passes s up c1 c2 d k =
      let (returned, (b, held)) = gateway_started_lem s up in
      let (told1, at1) = phase1_lem b held c1 d in
      let (told2, at2) = phase2_lem b c2 at1 in
      let (n, still, e) = phase3_lem b k at2 in
      (
        ap (checked server r) returned
            ∙ ap (λ p. phases_checked p (phase1 server r) (published2 server r).0 (phase3 server r))
                told1
            ∙ ap (λ s1. phases_checked (ok tt) s1 (published2 server r).0 (phase3 server r)) at1.2
            ∙ ap
                (λ p. phases_checked (ok tt) (sys at1.0 (m1 ∷ []) [] (m1 ∷ [])) p (phase3 server r))
                told2
            ∙ ap (phases_checked (ok tt) (sys at1.0 (m1 ∷ []) [] (m1 ∷ [])) (ok tt)) e,
        ap (λ (x : System). x.pending) e,
        ap (λ (x : System). x.accepted) e,
      )
