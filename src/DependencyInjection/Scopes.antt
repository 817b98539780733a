-- ===== src/DependencyInjection/Scopes.antt =====
-- That what lives as long as the application holds nothing of a request.
use oopsys_agent.Base.{◌≡◌, refl, inl, inr, List, [], ◌∷◌, In}
use oopsys_agent.DependencyInjection.{
  app, engine, session_factory, session, runtime, system_monitor, docker_monitor, server_client,
  nats_gateway, scheduler, events, Key, configuration, connection, service, scope, parameters,
}

-- The object for a key is made of the one for another, itself or through others.
pub data Needs (k : Key) : Key → Type 0 where
  itself : Needs k k
  through : {j l : Key} → Needs k j → In l (parameters j) → Needs k l

abbrev AllApp : List Key → Type 0
AllApp [] = Unit
AllApp (k ∷ ks) = (scope k ≡ app) × AllApp ks

In-AllApp : (l : Key) (ks : List Key) → AllApp ks → In l ks → scope l ≡ app
In-AllApp l [] a m = elim m [ ]
In-AllApp l (k ∷ ks) (a, rest_app) (inl same) = rw same a
In-AllApp l (k ∷ ks) (a, rest_app) (inr rest) = In-AllApp l ks rest_app rest

parameters-AllApp : (k : Key) → scope k ≡ app → AllApp (parameters k)
parameters-AllApp configuration h = tt
parameters-AllApp (connection engine) h = (refl, tt)
parameters-AllApp (connection session_factory) h = (refl, tt)
parameters-AllApp (connection session) h = cc
parameters-AllApp (service runtime) h = tt
parameters-AllApp (service system_monitor) h = tt
parameters-AllApp (service docker_monitor) h = tt
parameters-AllApp (service server_client) h = (refl, tt)
parameters-AllApp (service nats_gateway) h = (refl, (refl, (refl, tt)))
parameters-AllApp (service scheduler) h = (refl, (refl, (refl, (refl, (refl, (refl, tt))))))
parameters-AllApp (service events) h = cc

-- What an object of the application is made of, down to the last part, lives as long as the
-- application: neither a session nor an event service of a request is kept in one.
pub Needs-app : {k j : Key} → scope k ≡ app → Needs k j → scope j ≡ app
Needs-app h itself = h
Needs-app h (through {j} {l} n m) =
    In-AllApp l (parameters j) (parameters-AllApp j (Needs-app h n)) m
