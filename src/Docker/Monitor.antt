-- ===== src/Docker/Monitor.antt =====
-- `DockerMonitor`: `connect`, `collect` and `close`. aiodocker is a parameter: what its calls answer is
-- given to the function that makes them.
use oopsys_agent.Base.{
  ℕ, Bool, true, false, Option, none, some, List, [], ◌∷◌, Exc, cancelled, str, Result, ok, raised,
  Action, pure, ◌>>◌,
}
use oopsys_agent.Domain.{ContainerState}
use oopsys_agent.World.{DockerMonitor}

-- `DockerMonitor.__init__`
abbrev pub new_monitor : DockerMonitor
new_monitor = record { client = none; available = false; reason = none }

-- What is answered during one `connect`; `client` is the object that is made.
pub record ConnectAnswers : Type 0 where
  pub client : ℕ
  pub construct : Result Unit
  pub version : Result Unit
  pub close : Result Unit

abbrev stop_client : Result Unit → Option ℕ → Action DockerMonitor Unit
stop_client answer none m = (ok tt, m)
stop_client (ok _) (some c) m = (ok tt, record m { client = none })
stop_client (raised cancelled) (some c) m = (raised cancelled, m)
stop_client (raised _) (some c) m = (ok tt, record m { client = none })

-- `_safe_close`
unfoldable pub safe_close : Result Unit → Action DockerMonitor Unit
safe_close answer m = stop_client answer m.client m

-- `except Exception` in `connect`
unfoldable pub connect_failed : ConnectAnswers → Exc → Action DockerMonitor Bool
unfolding safe_close
connect_failed a exc m =
    (do safe_close a.close; pure false) (record m { available = false; reason = some (str exc) })

abbrev connect_tried : ConnectAnswers → Result Unit → Action DockerMonitor Bool
connect_tried a (ok _) m = (ok true, record m { available = true; reason = none })
connect_tried a (raised cancelled) m = (raised cancelled, m)
connect_tried a (raised exc) m = connect_failed a exc m

abbrev with_client : ConnectAnswers → Result Unit → Action DockerMonitor Bool
with_client a (ok _) m = connect_tried a a.version (record m { client = some a.client })
with_client a (raised e) m = connect_tried a (raised e) m

unfoldable pub connect : ConnectAnswers → Action DockerMonitor Bool
unfolding connect_failed
connect a m = with_client a a.construct m

-- The loop of `collect`, over what `_build_state` gives for each container: a container whose state
-- cannot be built is skipped.
unfoldable pub build_states : List (Result ContainerState) → Result (List ContainerState)
build_states [] = ok []
build_states (ok state ∷ builds) = elim (build_states builds) [
  | ok states ↦ ok (state ∷ states)
  | raised e ↦ raised e
]
build_states (raised cancelled ∷ builds) = raised cancelled
build_states (raised _ ∷ builds) = build_states builds

abbrev pub collect_listed : Result (List (Result ContainerState)) → Result (List ContainerState)
collect_listed (ok builds) = build_states builds
collect_listed (raised e) = raised e

-- `listed` is what `containers.list` gives, each container with what building its state gives.
unfoldable pub collect :
    Result (List (Result ContainerState)) → Action DockerMonitor (List ContainerState)
unfolding build_states
collect listed m = (elim m.client [ none ↦ ok [] | some c ↦ collect_listed listed ], m)

unfoldable pub close : Result Unit → Action DockerMonitor Unit
unfolding safe_close
close answer = safe_close answer
