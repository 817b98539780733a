-- ===== src/DependencyInjection.antt =====
-- dependency_injection/*.py: what each provider makes, of what, and for how long.
pub mod Scopes
pub mod Making
use oopsys_agent.Base.{ℕ, zero, suc, Option, none, some, List, [], ◌∷◌}

-- `dishka.Scope`: for the application, or for one request.
pub data Scope : Type 0 where
  app request : Scope

-- `ConnectionProvider`
pub data Connection : Type 0 where
  engine session_factory session : Connection

-- `ServiceProvider`
pub data Service : Type 0 where
  runtime system_monitor docker_monitor server_client nats_gateway scheduler events : Service

-- What the container of `build_container` can be asked for.
pub data Key : Type 0 where
  configuration : Key
  connection : Connection → Key
  service : Service → Key

abbrev pub connection_scope : Connection → Scope
connection_scope engine = app
connection_scope session_factory = app
connection_scope session = request

abbrev pub service_scope : Service → Scope
service_scope events = request
service_scope _ = app

abbrev pub scope : Key → Scope
scope configuration = app
scope (connection c) = connection_scope c
scope (service s) = service_scope s

-- The parameters of the methods of the providers; the runtime is given from outside.
abbrev pub connection_parameters : Connection → List Key
connection_parameters engine = configuration ∷ []
connection_parameters session_factory = connection engine ∷ []
connection_parameters session = connection session_factory ∷ []

abbrev pub service_parameters : Service → List Key
service_parameters runtime = []
service_parameters system_monitor = []
service_parameters docker_monitor = []
service_parameters server_client = configuration ∷ []
service_parameters nats_gateway = configuration ∷ service server_client ∷ service runtime ∷ []
service_parameters scheduler =
    configuration
    ∷ service runtime
    ∷ connection session_factory
    ∷ service system_monitor
    ∷ service docker_monitor
    ∷ service nats_gateway
    ∷ []
service_parameters events = connection session ∷ service nats_gateway ∷ configuration ∷ []

abbrev pub parameters : Key → List Key
parameters configuration = []
parameters (connection c) = connection_parameters c
parameters (service s) = service_parameters s

-- An object, with what it was made of.
mutual
  pub data Object : Type 0 where
    made : Key → Objects → Object

  pub data Objects : Type 0 where
    no_more : Objects
    also : Object → Objects → Objects

abbrev pub made_of : Key → Option Objects → Option Object
made_of k none = none
made_of k (some os) = some (made k os)

abbrev pub together : Option Object → Option Objects → Option Objects
together none os = none
together (some o) none = none
together (some o) (some os) = some (also o os)

-- The parameters of a provider's method, each made by `make`.
abbrev pub make_all : (Key → Option Object) → List Key → Option Objects
make_all make [] = some no_more
make_all make (k ∷ ks) = together (make k) (make_all make ks)

-- Asking the container: first what the provider's method wants, then the object. On fuel, which a
-- chain of parameters uses up.
unfoldable pub container_get : ℕ → Key → Option Object
container_get zero k = none
container_get (suc fuel) k = made_of k (make_all (container_get fuel) (parameters k))
