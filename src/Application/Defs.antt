-- ===== src/Application/Defs.antt =====
-- main.py: `_bootstrap_identity` and `lifespan`, with the engine of dependency_injection/connections.py.
-- Logging is left out.
use oopsys_agent.Base.{
  ℕ, String, Bool, true, Option, some, List, is_set, Result, ok, raised, Action, ◌>>=◌, ◌>>◌,
}
use oopsys_agent.Database.{Database}
use oopsys_agent.Database.Engines.{Engines, EngineAnswers, engine_disposed, inside, open_engine}
use oopsys_agent.Tokens.{Reads, get_agent_id, reconcile_env_token}
use oopsys_agent.Nats.{Answers, start_gateway, close}
use oopsys_agent.Docker.Monitor.{ConnectAnswers}
use oopsys_agent.Scheduler.Defs.{start, stop}
use oopsys_agent.World.{World, on_db, on_node}

-- What the start reads from outside.
pub record StartReads : Type 0 where
  pub engine : EngineAnswers
  pub identity : Reads
  pub reconciling : Reads
  pub gateway : Answers
  pub docker : ConnectAnswers

-- How the scheduler's tasks and the calls at the end of `lifespan` end.
pub record EndAnswers : Type 0 where
  pub tasks : List (Result Unit)
  pub docker : Result Unit
  pub broker : Result Unit
  pub container : Result Unit

-- How a `try` ends, by how its `finally` ended.
abbrev pub ended : {A : Type 0} → Result A → Result Unit → Result A
ended r (ok _) = r
ended r (raised e) = raised e

-- `try: m` with `finally: k`
abbrev pub finally : {S A : Type 0} → Action S A → Action S Unit → Action S A
finally m k s = let (r, s') = m s in let (q, s'') = k s' in (ended r q, s'')

module _ (D : Database) (sha256 : List ℕ → List ℕ) where
  abbrev pub set_agent_id : String → Action (World D) Unit
  set_agent_id agent_id w = (
    ok tt,
    record w { node = record w.node { runtime = record w.node.runtime { agent_id = agent_id } } },
  )

  -- `if configuration.agent.token`
  abbrev pub reconcile_if : Bool → Option String → Reads → Action (World D) Unit
  reconcile_if true (some token) r w = on_db (reconcile_env_token D sha256 token r) w
  reconcile_if _ _ r w = (ok tt, w)

  -- `_bootstrap_identity`
  unfoldable pub bootstrap_identity : Option String → StartReads → Action (World D) Unit
  bootstrap_identity token reads = do
    agent_id ← on_db (get_agent_id D reads.identity)
    set_agent_id agent_id
    reconcile_if (is_set token) token reads.reconciling

  -- `lifespan` up to the `try`, from where the engine is there
  unfoldable pub start_parts : Option String → StartReads → Action (World D) Unit
  start_parts token reads = do
    bootstrap_identity token reads
    on_node (start_gateway reads.gateway)
    start reads.docker

  -- `lifespan` up to the `try`. The container makes the engine when `_bootstrap_identity` asks it for
  -- the sessions, which it does first.
  unfoldable pub startup : Option String → StartReads → Action (Engines (World D)) Unit
  startup token reads = do open_engine reads.engine; inside (start_parts token reads)

  -- its `finally`, up to the closing of the container
  unfoldable pub stop_parts : EndAnswers → Action (World D) Unit
  stop_parts a = do stop a.tasks a.docker; on_node (close a.broker)

  -- its `finally`. Closing the container goes on with the engine's provider, which disposes of it.
  unfoldable pub shutdown : EndAnswers → Action (Engines (World D)) Unit
  shutdown a = do inside (stop_parts a); engine_disposed a.container

  -- `lifespan`, around all that runs meanwhile.
  unfoldable pub lifespan :
      Option String
      → StartReads
      → Action (World D) Unit
      → EndAnswers
      → Action (Engines (World D)) Unit
  lifespan token reads serving a = do startup token reads; finally (inside serving) (shutdown a)
