-- ===== src/Docker/Collect.antt =====
-- What `connect` and `collect` give.
use oopsys_agent.Base.{
  ◌≡◌, refl, Bool, true, false, ◌&&◌, if◌then◌else◌, none, some, List, [], ◌∷◌, arith, cancelled,
  is_exception, Result, ok, raised,
}
use oopsys_agent.Domain.{ContainerState}
use oopsys_agent.World.{DockerMonitor}
use oopsys_agent.Docker.Monitor.{
  close, ConnectAnswers, connect, connect_failed, safe_close, build_states,
}

-- The states that could be built, in order.
abbrev pub survivors : List (Result ContainerState) → List ContainerState
survivors [] = []
survivors (ok state ∷ builds) = state ∷ survivors builds
survivors (raised _ ∷ builds) = survivors builds

abbrev pub uncancelled : List (Result ContainerState) → Bool
uncancelled [] = true
uncancelled (ok _ ∷ builds) = uncancelled builds
uncancelled (raised e ∷ builds) = is_exception e && uncancelled builds

-- One container that fails costs only itself: uncancelled, the loop of `collect` returns the states
-- of the containers that could be built, in the order of the listing, whatever the others raised.
pub build_states-survivors :
    (builds : List (Result ContainerState))
    → uncancelled builds ≡ true
    → build_states builds ≡ ok (survivors builds)
unfolding build_states
build_states-survivors [] h = refl
build_states-survivors (ok state ∷ builds) h = rw (build_states-survivors builds h)
build_states-survivors (raised cancelled ∷ builds) h = cc
build_states-survivors (raised _ ∷ builds) h = build_states-survivors builds h

-- The call is not cancelled: it returns, or raises an `Exception`.
abbrev pub settled : Result Unit → Bool
settled (ok _) = true
settled (raised e) = is_exception e

pub record IsSettled (a : ConnectAnswers) : Type 0 where
  pub construct : settled a.construct ≡ true
  pub version : settled a.version ≡ true
  pub close : settled a.close ≡ true

abbrev pub succeeded : Result Unit → Bool
succeeded (ok _) = true
succeeded (raised _) = false

-- The client was made and the daemon answered it.
abbrev pub connects : ConnectAnswers → Bool
connects a = succeeded a.construct && succeeded a.version

connect_steps :
    (a : ConnectAnswers) (m : DockerMonitor)
    → settled a.construct ≡ true
    → settled a.version ≡ true
    → settled a.close ≡ true
    → ((connect a m).0 ≡ ok (connects a))
      × ((connect a m).1.available ≡ connects a)
      × ((connect a m).1.client ≡ (if connects a then some a.client else none))
unfolding connect connect_failed safe_close
connect_steps a m s1 s2 s3 = ground arith

-- Whatever the monitor held before, an uncancelled `connect` returns whether the daemon answered,
-- leaves the monitor available in just that case, and leaves it with the new client then and with
-- none otherwise: the client of a failed attempt is let go.
pub connect_lem :
    (a : ConnectAnswers) (m : DockerMonitor)
    → IsSettled a
    → ((connect a m).0 ≡ ok (connects a))
      × ((connect a m).1.available ≡ connects a)
      × ((connect a m).1.client ≡ (if connects a then some a.client else none))
connect_lem a m s = connect_steps a m s.construct s.version s.close

pub close-closed :
    (answer : Result Unit) (m : DockerMonitor)
    → settled answer ≡ true
    → ((close answer m).0 ≡ ok tt) × ((close answer m).1.client ≡ none)
unfolding close safe_close
close-closed answer m s = ground arith
