-- ===== src/Application/Tidy.antt =====
-- What the agent, from its start to its end, holds and lets go of.
use oopsys_agent.Base.{
  ℕ, String, ◌≡◌, refl, inl, arith, ap, Bool, true, false, is_set, none, some, Option, List, Result,
  ok, Action, ◌>>◌,
}
use oopsys_agent.Base.Keeps.{Keeps, >>=-Keeps, >>-Keeps}
use oopsys_agent.Domain.{Time, new_runtime}
use oopsys_agent.Database.{Database}
use oopsys_agent.Database.Engines.{Engines, EngineAnswers, open_engine, inside}
use oopsys_agent.Tokens.{Reads, get_agent_id}
use oopsys_agent.Nats.State.{new_node}
use oopsys_agent.Nats.Connection.{start_gateway}
use oopsys_agent.Nats.Brokers.{IsTidy, IsSettled, settled, connect_once_lem, publish-IsTidy}
use oopsys_agent.Nats.Reach.{start_gateway-IsTidy, forward-IsTidy}
use oopsys_agent.Docker.Monitor.{ConnectAnswers, connect, new_monitor}
use oopsys_agent.Docker
use oopsys_agent.World.{World, on_db, on_node, on_monitor}
use oopsys_agent.Scheduler.Defs.{start, sync_docker}
use oopsys_agent.Scheduler.Kept.{BearsRounds}
use oopsys_agent.Application.Defs.{
  StartReads, EndAnswers, set_agent_id, reconcile_if, bootstrap_identity, start_parts, startup,
  ended, lifespan,
}
use oopsys_agent.Application.Lifespan.{IsReleased, left_open, lifespan-IsReleased}
use oopsys_agent.Application.Activities.{Setup, Activity, carry_out_all, serving}
use oopsys_agent.Application.Kept.{AllUncancelled, BearsGateway, activities-Keep}

module _ {D : Database} where
  abbrev pub Tidy : World D → Type 0
  Tidy w = IsTidy w.node

  Tidy-rounds : BearsRounds Tidy
  Tidy-rounds = record {
    events = record {
      committed = λ rows w db free e t. t;
      published = λ subject payload answer w t. publish-IsTidy subject payload answer w.node t;
    };
    monitored = λ m w t. t;
    synced = λ s w t. record { no_leak = t.no_leak; connected = t.connected };
    marked = λ now w t. record { no_leak = t.no_leak; connected = t.connected };
  }

  Tidy-gateway : (c : Setup) → BearsGateway c IsSettled Tidy
  Tidy-gateway c = record {
    forwarded = λ post now body w t. forward-IsTidy c.server c.agent post now body w.node t;
    connected = λ a w s t. (connect_once_lem a w.node s t).1;
  }

  -- Whatever the agent does, `stop` has been called on every broker but the one that it holds.
  activities-Tidy :
      (c : Setup) (activities : List Activity) (w : World D)
      → AllUncancelled activities
      → Tidy w
      → Tidy (carry_out_all D c activities w)
  activities-Tidy c = activities-Keep Tidy-rounds (Tidy-gateway c) (λ call r w t. t)

  open_engine-Held : (a : EngineAnswers) → Keeps (λ q. Tidy q.inner) (open_engine a)
  unfolding open_engine
  open_engine-Held a q t = ground arith

  module _ (sha256 : List ℕ → List ℕ) where
    reconcile_if-Tidy :
        (b : Bool) (token : Option String) (r : Reads)
        → Keeps Tidy (reconcile_if D sha256 b token r)
    reconcile_if-Tidy true (some token) r w t = t
    reconcile_if-Tidy true none r w t = t
    reconcile_if-Tidy false token r w t = t

    bootstrap_identity-Tidy :
        (token : Option String) (reads : StartReads)
        → Keeps Tidy (bootstrap_identity D sha256 token reads)
    unfolding bootstrap_identity
    bootstrap_identity-Tidy token reads =
        let rest : String → Action (World D) Unit = λ agent_id.
          set_agent_id D sha256 agent_id
          >> reconcile_if D sha256 (is_set token) token reads.reconciling in
        >>=-Keeps Tidy (on_db (get_agent_id D reads.identity)) rest (λ w t. t)
          (λ agent_id.
            >>-Keeps Tidy (set_agent_id D sha256 agent_id)
              (reconcile_if D sha256 (is_set token) token reads.reconciling)
              (λ w t. record { no_leak = t.no_leak; connected = t.connected })
              (reconcile_if-Tidy (is_set token) token reads.reconciling))

    start-Tidy : (a : ConnectAnswers) → Keeps Tidy (start {D = D} a)
    unfolding start
    start-Tidy a =
        >>-Keeps Tidy (on_monitor (connect a)) sync_docker (λ w t. t)
          (λ w t. record { no_leak = t.no_leak; connected = t.connected })

    start_parts-Tidy :
        (token : Option String) (reads : StartReads)
        → IsSettled reads.gateway
        → Keeps Tidy (start_parts D sha256 token reads)
    unfolding start_parts
    start_parts-Tidy token reads s =
        >>-Keeps Tidy (bootstrap_identity D sha256 token reads)
          (on_node (start_gateway reads.gateway) >> start reads.docker)
          (bootstrap_identity-Tidy token reads)
          (>>-Keeps Tidy (on_node (start_gateway reads.gateway)) (start reads.docker)
            (λ w t. start_gateway-IsTidy reads.gateway w.node s t) (start-Tidy reads.docker))

    startup-Tidy :
        (token : Option String) (reads : StartReads) (p : Engines (World D)) {v : Engines (World D)}
        → IsSettled reads.gateway
        → Tidy p.inner
        → startup D sha256 token reads p ≡ (ok tt, v)
        → Tidy v.inner
    unfolding startup
    startup-Tidy token reads p {v} s t h =
        let Held : Engines (World D) → Type 0 = λ q. Tidy q.inner in
        let started : Engines (World D) = (startup D sha256 token reads p).1 in
        let same : started ≡ v = ap (λ (x : Result Unit × Engines (World D)). x.1) h in
        rw (← same) (
          >>-Keeps Held (open_engine reads.engine) (inside (start_parts D sha256 token reads))
            (open_engine-Held reads.engine) (λ q. start_parts-Tidy token reads s q.inner) p t)

-- The agent before its start: no broker, no client and no engine is there.
abbrev pub fresh : (D : Database) → D.Db → Time → Engines (World D)
fresh D db now = record {
  inner = record { db = db; node = new_node (new_runtime now); monitor = new_monitor };
  engines = 0;
}

abbrev pub left_over : Result Unit → ℕ
left_over r = left_open r 0

-- An agent that is started afresh, does any activities at all and then ends, with no call of a broker
-- or of Docker's client cancelled on the way: `stop` has been called on every broker that it has made,
-- whether or not that raised, and none is held, the queue is reported as disconnected, no Docker client
-- is held, and no engine is open, unless disposing of it has raised. It ends as closing the container
-- ends.
pub lifespan-serving :
    (D : Database) (sha256 : List ℕ → List ℕ) (c : Setup) (token : Option String)
    (reads : StartReads) (activities : List Activity) (a : EndAnswers) (db : D.Db) (now : Time)
    {v : Engines (World D)}
    → startup D sha256 token reads (fresh D db now) ≡ (ok tt, v)
    → IsSettled reads.gateway
    → AllUncancelled activities
    → Docker.Collect.settled a.docker ≡ true
    → settled a.broker ≡ true
    → let (r, p) = lifespan D sha256 token reads (serving D c activities) a (fresh D db now) in
      (r ≡ ended (ok tt) a.container) × IsReleased p.inner × (p.engines ≡ left_over a.container)
unfolding new_runtime
lifespan-serving D sha256 c token reads activities a db now {v} started s us sd sb =
    let new : IsTidy (new_node (new_runtime now)) = record {
      no_leak = refl;
      connected = inl refl;
    } in
    lifespan-IsReleased sha256 token reads (serving D c activities) a (fresh D db now) started
      (activities-Tidy c activities v.inner us (startup-Tidy sha256 token reads _ s new started)) sd
      sb
