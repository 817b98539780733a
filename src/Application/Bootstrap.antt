-- ===== src/Application/Bootstrap.antt =====
-- What the agent knows of itself once it has started.
use oopsys_agent.Base.{
  ℕ, String, ◌≡◌, ◌∙◌, sym, ap, Bool, true, false, some, List, [], ◌∷◌, is_truthy, arith, Result,
  ok, Action, pure, >>=-eq-ok, >>=-step, ◌>>◌,
}
use oopsys_agent.Database.{Database, IsLawful, AgentIdentity}
use oopsys_agent.Tokens.{Reads, ensure_identity, get_agent_id, reconcile_env_token, verify_token}
use oopsys_agent.Tokens.Hash.{IsDigest}
use oopsys_agent.Tokens.Verify.{select-ensure_identity, verify_token-reconcile_env_token}
use oopsys_agent.Tokens.Spec.{Reply, reconcile_env, perform, done}
use oopsys_agent.Tokens.History.{serve, serve-Continues}
use oopsys_agent.World.{World, on_db}
use oopsys_agent.Application.Defs.{StartReads, set_agent_id, reconcile_if, bootstrap_identity}

module _ (D : Database) (L : IsLawful D) (sha256 : List ℕ → List ℕ) where
  -- The stored identity has this agent id.
  abbrev pub IsNamed : String → D.Db → Type 0
  IsNamed agent_id db =
      (a : AgentIdentity) × (D.select_identity 1 db ≡ ok (some a)) × (a.agent_id ≡ agent_id)

  pub get_agent_id-IsNamed :
      (r : Reads) (db : D.Db) {agent_id : String} {db' : D.Db}
      → get_agent_id D r db ≡ (ok agent_id, db')
      → IsNamed agent_id db'
  unfolding get_agent_id
  get_agent_id-IsNamed r db {agent_id} {db'} e =
      let (a, mid, made, kept) = >>=-eq-ok (ensure_identity D r) (λ a. pure a.agent_id) db e in
      let same : mid ≡ db' = ap (λ (x : Result String × D.Db). x.1) kept in
      (a, ap (D.select_identity 1) (sym same) ∙ select-ensure_identity D L r db made, ground arith)

  reconcile-IsNamed :
      (token : String) (r : Reads) (agent_id : String) (db : D.Db) {db' : D.Db}
      → reconcile_env_token D sha256 token r db ≡ (ok tt, db')
      → IsNamed agent_id db
      → IsNamed agent_id db'
  unfolding serve perform
  reconcile-IsNamed token r agent_id db e (a, stored, same) =
      let ran =
        ap (λ (x : Result Reply × D.Db). x.1)
          (>>=-step (reconcile_env_token D sha256 token r) (λ _. pure done) db e) in
      let (b, kept, continued, _) =
        serve-Continues sha256 D L ((reconcile_env token, r) ∷ []) a db stored in
      (b, rw (sym ran) kept, continued ∙ same)

  pub on_db-inverse :
      {A : Type 0} (m : Action D.Db A) (w v : World D) {a : A}
      → on_db m w ≡ (ok a, v)
      → (m w.db ≡ (ok a, v.db)) × (v.node ≡ w.node)
  on_db-inverse m w v h = ground arith

  pub set_agent_id-inverse :
      (agent_id : String) (w v : World D)
      → set_agent_id D sha256 agent_id w ≡ (ok tt, v)
      → (v.db ≡ w.db) × (v.node.runtime.agent_id ≡ agent_id)
  set_agent_id-inverse agent_id w v h = ground arith

  reconcile_if-inverse :
      (token : String) (r : Reads) (b : Bool) (w v : World D)
      → b ≡ true
      → reconcile_if D sha256 b (some token) r w ≡ (ok tt, v)
      → (reconcile_env_token D sha256 token r w.db ≡ (ok tt, v.db)) × (v.node ≡ w.node)
  reconcile_if-inverse token r true w v h e =
      on_db-inverse (reconcile_env_token D sha256 token r) w v e
  reconcile_if-inverse token r false w v h e = cc

  -- Once the agent has been bootstrapped with a token configured, the runtime has the agent id of the
  -- stored identity, whether that was found or made, and the configured token is the one that is
  -- accepted: it was stored, or it is the stored one.
  pub bootstrap_identity-accepts :
      (H : IsDigest sha256) (token : String) (reads : StartReads) (w : World D) {v : World D}
      → is_truthy token ≡ true
      → bootstrap_identity D sha256 (some token) reads w ≡ (ok tt, v)
      → IsNamed v.node.runtime.agent_id v.db × (verify_token D sha256 token v.db ≡ (ok true, v.db))
  unfolding bootstrap_identity
  bootstrap_identity-accepts H token reads w {v} full e =
      let rest : String → Action (World D) Unit = λ agent_id.
        set_agent_id D sha256 agent_id
        >> reconcile_if D sha256 (is_truthy token) (some token) reads.reconciling in
      let (agent_id, u, got, more) = >>=-eq-ok (on_db (get_agent_id D reads.identity)) rest w e in
      let (_, t, set, last) =
        >>=-eq-ok (set_agent_id D sha256 agent_id)
          (λ _. reconcile_if D sha256 (is_truthy token) (some token) reads.reconciling) u more in
      let (found, _) = on_db-inverse (get_agent_id D reads.identity) w u got in
      let (same_db, named) = set_agent_id-inverse agent_id u t set in
      let (reconciled, same_node) =
        reconcile_if-inverse token reads.reconciling (is_truthy token) t v full last in
      let known = get_agent_id-IsNamed reads.identity w.db found in
      (
        rw (same_node, named)
            (reconcile-IsNamed token reads.reconciling agent_id t.db reconciled (rw same_db known)),
        verify_token-reconcile_env_token D L sha256 H token reads.reconciling t.db reconciled,
      )
