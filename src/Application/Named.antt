-- ===== src/Application/Named.antt =====
-- Under which name the agent goes, from its start on.
use mathlib.Core.Path.{subst}
use oopsys_agent.Base.{
  ℕ, String, ◌≡◌, sym, ap, ◌∙◌, Bool, true, false, is_set, none, some, Option, List, [], ◌∷◌,
  Result, ok, Action, ◌>>◌, >>=-eq-ok,
}
use oopsys_agent.Base.Keeps.{Keeps, >>-Keeps, state->>=-pure}
use oopsys_agent.Database.{Database, IsLawful, AgentIdentity, Row, written}
use oopsys_agent.Database.Engines.{Engines, open_engine, inside}
use oopsys_agent.Tokens.{Reads, get_agent_id, reconcile_env_token}
use oopsys_agent.Tokens.Spec.{Call, reconcile_env, perform, done}
use oopsys_agent.Tokens.History.{serve, serve-Continues}
use oopsys_agent.Nats.Connection.{Answers, start_gateway}
use oopsys_agent.Nats.Named.{publish-Named, forward-Named, connect_once-Named, start_gateway-Named}
use oopsys_agent.Docker.Monitor.{ConnectAnswers, connect}
use oopsys_agent.World.{World, on_db, on_node, on_monitor}
use oopsys_agent.Scheduler.Defs.{start, sync_docker}
use oopsys_agent.Scheduler.Kept.{BearsRounds}
use oopsys_agent.Application.Defs.{
  StartReads, set_agent_id, reconcile_if, bootstrap_identity, start_parts, startup,
}
use oopsys_agent.Application.Bootstrap.{
  IsNamed, get_agent_id-IsNamed, on_db-inverse, set_agent_id-inverse,
}
use oopsys_agent.Application.Activities.{Setup}
use oopsys_agent.Application.Touches.{Touches, touches-Keep}
use oopsys_agent.Application.Kept.{IsAny, BearsGateway}

module _ (D : Database) (L : IsLawful D) (sha256 : List ℕ → List ℕ) where
  -- The runtime and the stored identity have the agent id.
  abbrev Goes : String → World D → Type 0
  Goes agent_id w = (w.node.runtime.agent_id ≡ agent_id) × IsNamed D L sha256 agent_id w.db

  IsNamed-written :
      (agent_id : String) (rows : List Row) (db db' : D.Db)
      → ((key : ℕ) (i : Option AgentIdentity) → written key rows i ≡ i)
      → D.commit_rows rows db ≡ ok db'
      → IsNamed D L sha256 agent_id db
      → IsNamed D L sha256 agent_id db'
  IsNamed-written agent_id rows db db' free e (a, stored, same) =
      (a, L.select-commit 1 rows db db' (some a) e stored ∙ ap ok (free 1 (some a)), same)

  IsNamed-perform :
      (agent_id : String) (c : Call) (r : Reads) (db : D.Db)
      → IsNamed D L sha256 agent_id db
      → IsNamed D L sha256 agent_id (perform sha256 D c r db).1
  unfolding serve
  IsNamed-perform agent_id c r db (a, stored, same) =
      let (b, kept, continued, _) = serve-Continues sha256 D L ((c, r) ∷ []) a db stored in
      (b, kept, continued ∙ same)

  Goes-rounds : (agent_id : String) → BearsRounds (Goes agent_id)
  Goes-rounds agent_id = record {
    events = record {
      committed = λ rows w db free e (n, s). (n, IsNamed-written agent_id rows w.db db free e s);
      published = λ subject payload answer w (n, s).
          (publish-Named agent_id subject payload answer w.node n, s);
    };
    monitored = λ m w g. g;
    synced = λ s w g. g;
    marked = λ now w g. g;
  }

  Goes-gateway : (c : Setup) (agent_id : String) → BearsGateway c IsAny (Goes agent_id)
  Goes-gateway c agent_id = record {
    forwarded = λ post now body w (n, s).
        (forward-Named agent_id c.server c.agent post now body w.node n, s);
    connected = λ a w settled (n, s). (connect_once-Named agent_id a w.node n, s);
  }

  reconcile_if-Goes :
      (agent_id : String) (b : Bool) (token : Option String) (r : Reads)
      → Keeps (Goes agent_id) (reconcile_if D sha256 b token r)
  unfolding perform
  reconcile_if-Goes agent_id true (some token) r w (n, s) = (
    n,
    rw (← state->>=-pure (reconcile_env_token D sha256 token r) (λ _. done) w.db)
        (IsNamed-perform agent_id (reconcile_env token) r w.db s),
  )
  reconcile_if-Goes agent_id true none r w g = g
  reconcile_if-Goes agent_id false token r w g = g

  start_gateway-Goes :
      (agent_id : String) (a : Answers) → Keeps (Goes agent_id) (on_node (start_gateway a))
  start_gateway-Goes agent_id a w (n, s) = (start_gateway-Named agent_id a w.node n, s)

  start-Goes : (agent_id : String) (a : ConnectAnswers) → Keeps (Goes agent_id) (start {D = D} a)
  unfolding start
  start-Goes agent_id a =
      >>-Keeps (Goes agent_id) (on_monitor (connect a)) sync_docker (λ w g. g) (λ w g. g)

  -- The bootstrap gives the agent its name.
  bootstrap_identity-Goes :
      (token : Option String) (reads : StartReads) (w : World D) {v : World D}
      → bootstrap_identity D sha256 token reads w ≡ (ok tt, v)
      → (agent_id : String) × Goes agent_id v
  unfolding bootstrap_identity
  bootstrap_identity-Goes token reads w {v} h =
      let reconciling = reconcile_if D sha256 (is_set token) token reads.reconciling in
      let rest : String → Action (World D) Unit =
        λ agent_id. set_agent_id D sha256 agent_id >> reconciling in
      let (agent_id, u, got, more) = >>=-eq-ok (on_db (get_agent_id D reads.identity)) rest w h in
      let (_, t, set, last) =
        >>=-eq-ok (set_agent_id D sha256 agent_id) (λ _. reconciling) u more in
      let (found, _) = on_db-inverse D L sha256 (get_agent_id D reads.identity) w u got in
      let (same_db, named) = set_agent_id-inverse D L sha256 agent_id u t set in
      let known = get_agent_id-IsNamed D L sha256 reads.identity w.db found in
      (
        agent_id,
        subst (Goes agent_id) (ap (λ (x : Result Unit × World D). x.1) last) (
            reconcile_if-Goes agent_id (is_set token) token reads.reconciling t
              (named, rw same_db known)),
      )

  startup-Goes :
      (token : Option String) (reads : StartReads) (p : Engines (World D)) {v : Engines (World D)}
      → startup D sha256 token reads p ≡ (ok tt, v)
      → (agent_id : String) × Goes agent_id v.inner
  unfolding startup start_parts
  startup-Goes token reads p {v} h =
      let rest : Action (World D) Unit =
        on_node (start_gateway reads.gateway) >> start reads.docker in
      let (_, q, _, ran) =
        >>=-eq-ok (open_engine reads.engine) (λ _. inside (start_parts D sha256 token reads)) p h in
      let inner : start_parts D sha256 token reads q.inner ≡ (ok tt, v.inner) =
        ap (λ (x : Result Unit × Engines (World D)). (x.0, x.1.inner)) ran in
      let (_, u, named, last) =
        >>=-eq-ok (bootstrap_identity D sha256 token reads) (λ _. rest) q.inner inner in
      let (agent_id, goes) = bootstrap_identity-Goes token reads q.inner named in
      (
        agent_id,
        subst (Goes agent_id) (ap (λ (x : Result Unit × World D). x.1) last) (
            >>-Keeps (Goes agent_id) (on_node (start_gateway reads.gateway)) (start reads.docker)
              (start_gateway-Goes agent_id reads.gateway) (start-Goes agent_id reads.docker) u
              goes),
      )

-- Once the agent has started, whatever its tasks do then and whatever the command line does meanwhile,
-- in steps that interleave in any order: the agent id in its runtime, which `/health` tells and every
-- event carries, stays the one that it was started with, and this is the agent id of the stored
-- identity.
pub agent_id-Touches :
    (D : Database) (L : IsLawful D) (c : Setup) (token : Option String) (reads : StartReads)
    (p : Engines (World D)) {v : Engines (World D)} {w : World D}
    → startup D c.routers.sha256 token reads p ≡ (ok tt, v)
    → Touches c v.inner w
    → (w.node.runtime.agent_id ≡ v.inner.node.runtime.agent_id)
      × IsNamed D L c.routers.sha256 v.inner.node.runtime.agent_id w.db
agent_id-Touches D L c token reads p {v} {w} started touches =
    let (agent_id, (named, known)) = startup-Goes D L c.routers.sha256 token reads p started in
    let (same, kept) =
      touches-Keep c (Goes-rounds D L c.routers.sha256 agent_id)
        (Goes-gateway D L c.routers.sha256 c agent_id)
        (λ call r u (n, i). (n, IsNamed-perform D L c.routers.sha256 agent_id call r u.db i))
        touches (named, known) in
    (same ∙ sym named, subst (λ id. IsNamed D L c.routers.sha256 id w.db) (sym named) kept)
