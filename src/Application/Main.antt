-- ===== src/Application/Main.antt =====
-- main.py: `create_app`, `main` and what runs it. uvicorn is a parameter: a server, given where to listen
-- and the lifespan of the application that it serves.
use mathlib.Core.Path.{subst}
use oopsys_agent.Base.{
  ℕ, String, ◌≡◌, refl, sym, ◌∙◌, true, List, cancelled, other, str_eq, if◌then◌else◌, Result, ok,
  raised, Action, lift, ◌>>=◌,
}
use oopsys_agent.Domain.{Time}
use oopsys_agent.Configuration.{Configuration}
use oopsys_agent.Database.{Database}
use oopsys_agent.Database.Engines.{Engines}
use oopsys_agent.Nats.Brokers.{IsSettled, settled}
use oopsys_agent.Docker
use oopsys_agent.World.{World}
use oopsys_agent.Api.Requests.{Routers}
use oopsys_agent.Application.Defs.{StartReads, EndAnswers, startup, lifespan}
use oopsys_agent.Application.Lifespan.{IsReleased}
use oopsys_agent.Application.Activities.{Setup, Activity, serving}
use oopsys_agent.Application.Kept.{AllUncancelled}
use oopsys_agent.Application.Tidy.{fresh, left_over, lifespan-serving}

-- `uvicorn.Server(config=Config(app=app, host=host, port=port)).serve()`
abbrev pub Server : Type 0 → Type 0
Server S = String → ℕ → Action S Unit → Action S Unit

-- What it serves leaves the state that it leaves, however the server ends.
pub record IsServer {S : Type 0} (server : Server S) : Type 0 where
  pub law :
      (host : String) (port : ℕ) (app : Action S Unit) (s : S)
      → (server host port app s).1 ≡ (app s).1

-- `except asyncio.CancelledError`, which raises again, and nothing else is caught.
abbrev pub reraised : {S : Type 0} → Result Unit × S → Result Unit × S
reraised (raised cancelled, s) = (raised cancelled, s)
reraised (r, s) = (r, s)

-- `if __name__ == "__main__"`
abbrev pub interrupted : {S : Type 0} → Result Unit × S → Result Unit × S
interrupted (raised (other name message), s) =
    (if str_eq name "KeyboardInterrupt" then ok tt else raised (other name message), s)
interrupted (r, s) = (r, s)

-- How the agent is set up by its configuration, over the libraries.
abbrev pub setup_of : Routers → Configuration → Setup
setup_of libraries c = record {
  server = c.server;
  agent = c.agent;
  routers = record libraries { prefix = c.nats.subject_prefix };
}

module _ (D : Database) (libraries : Routers) where
  -- `create_app`: the lifespan, around the routes and the tasks.
  abbrev pub create_app :
      Configuration → StartReads → List Activity → EndAnswers → Action (Engines (World D)) Unit
  create_app c reads activities a =
      lifespan D libraries.sha256 c.agent.token reads (serving D (setup_of libraries c) activities)
        a

  -- `main`, once the configuration is read
  abbrev pub serve_app :
      Server (Engines (World D))
      → StartReads
      → List Activity
      → EndAnswers
      → Configuration
      → Action (Engines (World D)) Unit
  serve_app server reads activities a c p =
      reraised (server c.application.host c.application.port (create_app c reads activities a) p)

  -- `main`, as it is run
  unfoldable pub main :
      Server (Engines (World D))
      → Result Configuration
      → StartReads
      → List Activity
      → EndAnswers
      → Action (Engines (World D)) Unit
  main server configuration reads activities a p =
      interrupted ((lift configuration >>= serve_app server reads activities a) p)

  state-reraised : {S : Type 0} (x : Result Unit × S) → (reraised x).1 ≡ x.1
  state-reraised (ok _, s) = refl
  state-reraised (raised cancelled, s) = refl
  state-reraised (raised e, s) = refl

  state-interrupted : {S : Type 0} (x : Result Unit × S) → (interrupted x).1 ≡ x.1
  state-interrupted (ok _, s) = refl
  state-interrupted (raised (other name message), s) = refl
  state-interrupted (raised e, s) = refl

  main-serve_app :
      (server : Server (Engines (World D))) (c : Configuration) (reads : StartReads)
      (activities : List Activity) (a : EndAnswers) (p : Engines (World D))
      → IsServer server
      → (main server (ok c) reads activities a p).1 ≡ (create_app c reads activities a p).1
  unfolding main
  main-serve_app server c reads activities a p h =
      state-interrupted (serve_app server reads activities a c p)
      ∙ state-reraised
          (server c.application.host c.application.port (create_app c reads activities a) p)
      ∙ h.law c.application.host c.application.port (create_app c reads activities a) p

  -- The agent run on a configuration, with the server of uvicorn leaving what the application leaves: if
  -- it starts, then whatever it does until it ends, and however that ends, `stop` has been called on every
  -- broker that it has made and none is held, the queue is reported as disconnected, no Docker client is
  -- held, and no engine is open, unless disposing of it has raised; provided that no call of a broker or of Docker's client
  -- is cancelled on the way.
  pub main-IsReleased :
      (server : Server (Engines (World D))) (c : Configuration) (reads : StartReads)
      (activities : List Activity) (a : EndAnswers) (db : D.Db) (now : Time) {v : Engines (World D)}
      → IsServer server
      → startup D libraries.sha256 c.agent.token reads (fresh D db now) ≡ (ok tt, v)
      → IsSettled reads.gateway
      → AllUncancelled activities
      → Docker.Collect.settled a.docker ≡ true
      → settled a.broker ≡ true
      → let p = (main server (ok c) reads activities a (fresh D db now)).1 in
        IsReleased p.inner × (p.engines ≡ left_over a.container)
  main-IsReleased server c reads activities a db now h started s us sd sb =
      let (_, released, engines) =
        lifespan-serving D libraries.sha256 (setup_of libraries c) c.agent.token reads activities a
          db now started s us sd sb in
      subst (λ (p : Engines (World D)). IsReleased p.inner × (p.engines ≡ left_over a.container))
        (sym (main-serve_app server c reads activities a (fresh D db now) h)) (released, engines)
