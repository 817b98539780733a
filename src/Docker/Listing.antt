-- ===== src/Docker/Listing.antt =====
-- `collect` of docker.py over what the daemon answers about each listed container.
use oopsys_agent.Base.{String, Option, List, [], ◌∷◌, Result, ok, raised, Action}
use oopsys_agent.Domain.Values.{Time, Json}
use oopsys_agent.Domain.{ContainerState}
use oopsys_agent.World.{DockerMonitor}
use oopsys_agent.Dynamic.Numbers.{Floats}
use oopsys_agent.Docker.Monitor.{collect}
use oopsys_agent.Docker.State.{Validator, build_state}

-- The answers to `show` and `stats`, and the clock when the state is made.
pub record Inspection : Type 0 where
  pub shown : Result Json
  pub asked : Result Json
  pub now : Time

module _ (F : Floats) (V : Validator) (fromisoformat : String → Option Time) where
  abbrev pub build_each : List Inspection → List (Result ContainerState)
  build_each [] = []
  build_each (i ∷ inspections) =
      build_state F V fromisoformat i.shown i.asked i.now ∷ build_each inspections

  abbrev pub each_built : Result (List Inspection) → Result (List (Result ContainerState))
  each_built (ok inspections) = ok (build_each inspections)
  each_built (raised e) = raised e

  -- `collect`, from the daemon's answers.
  unfoldable pub collect_inspected :
      Result (List Inspection) → Action DockerMonitor (List ContainerState)
  collect_inspected listed = collect (each_built listed)
