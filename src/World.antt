-- ===== src/World.antt =====
-- The state that the services share: the database, the gateway with the runtime, and the Docker
-- monitor. `on_db` and the like run a part's action on its part of the state.
use oopsys_agent.Base.{ℕ, String, Bool, Option, Action}
use oopsys_agent.Database.{Database}
use oopsys_agent.Nats.State.{Node}

-- `DockerMonitor`'s fields; the client is an object of aiodocker, by the order of its making.
pub record DockerMonitor : Type 0 where
  pub client : Option ℕ
  pub available : Bool
  pub reason : Option String

pub record World (D : Database) : Type 0 where
  pub db : D.Db
  pub node : Node
  pub monitor : DockerMonitor

module _ {D : Database} {A : Type 0} where
  abbrev pub on_db : Action D.Db A → Action (World D) A
  on_db m w = let (r, db) = m w.db in (r, record w { db = db })

  abbrev pub on_node : Action Node A → Action (World D) A
  on_node m w = let (r, node) = m w.node in (r, record w { node = node })

  abbrev pub on_monitor : Action DockerMonitor A → Action (World D) A
  on_monitor m w = let (r, monitor) = m w.monitor in (r, record w { monitor = monitor })
