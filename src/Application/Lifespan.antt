-- ===== src/Application/Lifespan.antt =====
-- That the end of `lifespan` lets go of what the start took.
use oopsys_agent.Base.{
  suc, ◌-◌, sym, raised, arith, Result, >>=-eq-ok, ℕ, ◌≡◌, refl, ap, ◌∙◌, true, false, none, Option,
  String, List, [], ok, Action, >>=-ok, >>=-step,
}
use oopsys_agent.Database.{Database}
use oopsys_agent.Database.Engines.{Engines, EngineAnswers, engine_disposed, inside, open_engine}
use oopsys_agent.Nats.Connection.{close}
use oopsys_agent.Nats.Brokers.{IsTidy, settled, unstopped, close-closed}
use oopsys_agent.Docker
use oopsys_agent.World.{World, on_node}
use oopsys_agent.Scheduler.Defs.{stop, stop-close}
use oopsys_agent.Application.Defs.{
  StartReads, EndAnswers, ended, finally, startup, start_parts, stop_parts, shutdown, lifespan,
}

module _ {D : Database} where
  -- `stop` was called on every broker, and nothing is held or reported as connected.
  pub record IsReleased (w : World D) : Type 0 where
    pub no_leak : unstopped w.node.calls ≡ []
    pub no_broker : w.node.gateway.broker ≡ none
    pub no_queue : w.node.runtime.queue_connected ≡ false
    pub no_client : w.monitor.client ≡ none

  stop_parts-IsReleased :
      (sha256 : List ℕ → List ℕ) (a : EndAnswers) (w : World D)
      → Docker.Collect.settled a.docker ≡ true
      → settled a.broker ≡ true
      → IsTidy w.node
      → ((stop_parts D sha256 a w).0 ≡ ok tt) × IsReleased (stop_parts D sha256 a w).1
  unfolding stop_parts
  stop_parts-IsReleased sha256 a w sd sb t =
      let (returned, gone) = Docker.Collect.close-closed a.docker w.monitor sd in
      let u : World D = record w { monitor = (Docker.Monitor.close a.docker w.monitor).1 } in
      let (ended, closed, none_held, down) = close-closed a.broker u.node sb t in
      rw
        (>>=-step (stop a.tasks a.docker) (λ _. on_node (close a.broker)) w
          (stop-close a.tasks a.docker w ∙ ap (λ r. (r, u)) returned))
        (
          ended,
          record { no_leak = closed; no_broker = none_held; no_queue = down; no_client = gone },
        )

-- The engines once the container is closed: one that cannot be disposed of stays.
abbrev pub remaining : Result Unit → ℕ → ℕ
remaining (ok _) n = n - 1
remaining (raised e) n = n

abbrev pub left_open : Result Unit → ℕ → ℕ
left_open (ok _) n = n
left_open (raised e) n = suc n

left_open-suc : (r : Result Unit) (n : ℕ) → remaining r (suc n) ≡ left_open r n
left_open-suc (ok _) n = omega arith
left_open-suc (raised e) n = refl

engine_disposed_outcome :
    {S : Type 0} (r : Result Unit) (p : Engines S)
    → ((engine_disposed r p).0 ≡ r)
      × ((engine_disposed r p).1.inner ≡ p.inner)
      × ((engine_disposed r p).1.engines ≡ remaining r p.engines)
engine_disposed_outcome (ok _) p = (refl, refl, refl)
engine_disposed_outcome (raised e) p = (refl, refl, refl)

open_engine-engines :
    {S : Type 0} (a : EngineAnswers) (p : Engines S) {q : Engines S}
    → open_engine a p ≡ (ok tt, q)
    → q.engines ≡ suc p.engines
unfolding open_engine
open_engine-engines a p h = ground arith

module _ {D : Database} (sha256 : List ℕ → List ℕ) where
  startup-engines :
      (token : Option String) (reads : StartReads) (p : Engines (World D)) {v : Engines (World D)}
      → startup D sha256 token reads p ≡ (ok tt, v)
      → v.engines ≡ suc p.engines
  unfolding startup
  startup-engines token reads p {v} h =
      let (_, q, made, ran) =
        >>=-eq-ok (open_engine reads.engine) (λ _. inside (start_parts D sha256 token reads)) p h in
      ap (λ (x : Result Unit × Engines (World D)). x.1.engines) (sym ran)
      ∙ open_engine-engines reads.engine p made

  shutdown-IsReleased :
      (a : EndAnswers) (p : Engines (World D))
      → Docker.Collect.settled a.docker ≡ true
      → settled a.broker ≡ true
      → IsTidy p.inner.node
      → ((shutdown D sha256 a p).0 ≡ a.container)
        × IsReleased (shutdown D sha256 a p).1.inner
        × ((shutdown D sha256 a p).1.engines ≡ remaining a.container p.engines)
  unfolding shutdown
  shutdown-IsReleased a p sd sb t =
      let (returned, released) = stop_parts-IsReleased sha256 a p.inner sd sb t in
      let (ended, same, left) =
        engine_disposed_outcome a.container (inside (stop_parts D sha256 a) p).1 in
      rw
        (
          >>=-ok (inside (stop_parts D sha256 a)) (λ _. engine_disposed a.container) p returned,
          same,
        )
        (ended, released, left)

  -- Once the agent has started, and however what it serves ends, returning or raising, provided that
  -- `stop` has been called by then on every broker but the one held, and no call at the end is
  -- cancelled: after `lifespan` it has been called on every broker, none is held, the queue is reported
  -- as disconnected, no Docker client is held, and the engine that the start has made is disposed of, unless disposing of it raises. It
  -- ends as the serving did, unless closing the container raises.
  pub lifespan-IsReleased :
      (token : Option String) (reads : StartReads) (serving : Action (World D) Unit)
      (a : EndAnswers) (p : Engines (World D)) {v : Engines (World D)}
      → startup D sha256 token reads p ≡ (ok tt, v)
      → IsTidy (serving v.inner).1.node
      → Docker.Collect.settled a.docker ≡ true
      → settled a.broker ≡ true
      → ((lifespan D sha256 token reads serving a p).0 ≡ ended (serving v.inner).0 a.container)
        × IsReleased (lifespan D sha256 token reads serving a p).1.inner
        × ((lifespan D sha256 token reads serving a p).1.engines ≡ left_open a.container p.engines)
  unfolding lifespan
  lifespan-IsReleased token reads serving a p {v} started t sd sb =
      let (ended_as, released, left) = shutdown-IsReleased a (inside serving v).1 sd sb t in
      rw
        (>>=-step (startup D sha256 token reads)
          (λ _. finally (inside serving) (shutdown D sha256 a)) p started)
        (
          ap (ended (serving v.inner).0) ended_as,
          released,
          left
              ∙ ap (remaining a.container) (startup-engines token reads p started)
              ∙ left_open-suc a.container p.engines,
        )
