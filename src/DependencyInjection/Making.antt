-- ===== src/DependencyInjection/Making.antt =====
-- That no provider wants, itself or through others, what it provides.
use oopsys_agent.Base.{ℕ, zero, suc, ◌<◌, ◌≤◌, ◌≡◌, refl, some, List, [], ◌∷◌, arith}
use oopsys_agent.DependencyInjection.{
  engine, session_factory, session, runtime, system_monitor, docker_monitor, server_client,
  nats_gateway, scheduler, events, Key, configuration, connection, service, parameters, Object,
  Objects, made, no_more, also, make_all, container_get,
}

-- How long a chain of parameters can get.
abbrev height : Key → ℕ
height configuration = 0
height (connection engine) = 1
height (connection session_factory) = 2
height (connection session) = 3
height (service server_client) = 1
height (service nats_gateway) = 2
height (service scheduler) = 3
height (service events) = 4
height (service _) = 0

-- All of a list are below a height.
abbrev Below : ℕ → List Key → Type 0
Below h [] = Unit
Below h (k ∷ ks) = (height k < h) × Below h ks

parameters-Below : (k : Key) → Below (height k) (parameters k)
parameters-Below configuration = tt
parameters-Below (connection engine) = ground arith
parameters-Below (connection session_factory) = ground arith
parameters-Below (connection session) = ground arith
parameters-Below (service runtime) = tt
parameters-Below (service system_monitor) = tt
parameters-Below (service docker_monitor) = tt
parameters-Below (service server_client) = ground arith
parameters-Below (service nats_gateway) = ground arith
parameters-Below (service scheduler) = ground arith
parameters-Below (service events) = ground arith

Below-weaken : (h k : ℕ) (ks : List Key) → h ≤ k → Below h ks → Below k ks
Below-weaken h k [] le b = tt
Below-weaken h k (j ∷ ks) le (low, b) = (omega arith, Below-weaken h k ks le b)

make_all-some :
    (fuel : ℕ) (ks : List Key)
    → ((k : Key) → height k < fuel → (o : Object) × (container_get fuel k ≡ some o))
    → Below fuel ks
    → (os : Objects) × (make_all (container_get fuel) ks ≡ some os)
make_all-some fuel [] h b = (no_more, refl)
make_all-some fuel (k ∷ ks) h (low, b) =
    let (o, e) = h k low in let (os, es) = make_all-some fuel ks h b in (also o os, rw (e, es) refl)

-- The making of an object from those of its parameters ends, on fuel above the height of its key.
container_get-some :
    (fuel : ℕ) (k : Key) → height k < fuel → (o : Object) × (container_get fuel k ≡ some o)
unfolding container_get
container_get-some zero k h = absurd (omega arith)
container_get-some (suc fuel) k h =
    let (os, e) =
      make_all-some fuel (parameters k) (container_get-some fuel)
        (Below-weaken (height k) fuel (parameters k) (omega arith) (parameters-Below k)) in
    (made k os, rw e refl)
