-- ===== src/Tokens/Kept.antt =====
-- That the token service leaves the history alone.
use mathlib.Core.List.{append-nil}
use oopsys_agent.Base.{
  ℕ, String, ◌≡◌, refl, ◌∙◌, inl, inr, Bool, true, false, if◌then◌else◌, Bool-cases, Option, none,
  some, List, [], ◌∷◌, is_set, not, ◌&&◌, ok, Result-cases, raise_if, token_exists_error, lift,
  ◌>>◌, token_mismatch_error, pure, token_urlsafe,
}
use oopsys_agent.Base.Keeps.{Keeps, >>=-Keeps, >>-Keeps}
use oopsys_agent.Database.{Database, IsLawful, AgentIdentity, identity, commit}
use oopsys_agent.Tokens.Defs.{
  Reads, active, new_identity, with_token, without_token, refresh, insert_identity, ensure_identity,
  get_identity, issue_token, reconcile, check_token, revoke_token, get_agent_id, has_active_token,
  create_token, verify_token, reconcile_env_token,
}
use oopsys_agent.Tokens.Spec.{
  Call, agent_id, has_active, revoke, create, verify, reconcile_env, perform, text, flag, created,
  done,
}

module _ (D : Database) where
  -- What a property of the database has to bear with: the commits of rows of no history table.
  pub record BearsIdentities (P : D.Db → Type 0) : Type 0 where
    pub law :
        (a : AgentIdentity) (db db' : D.Db)
        → D.commit_rows (identity a ∷ []) db ≡ ok db'
        → P db
        → P db'

  module _ {P : D.Db → Type 0} (b : BearsIdentities P) where
    commit-Keeps : (a : AgentIdentity) → Keeps P (commit D (identity a ∷ []))
    unfolding commit
    commit-Keeps a db p = elim (Result-cases (D.commit_rows (identity a ∷ []) db)) [
      | inl (db', e) ↦ rw (commit, e) (b.law a db db' e p)
      | inr (x, e) ↦ rw (commit, e) p
    ]

    insert_identity-Keeps : (r : Reads) (i : Option AgentIdentity) → Keeps P (insert_identity D r i)
    unfolding refresh
    insert_identity-Keeps r (some a) = λ db p. p
    insert_identity-Keeps r none =
        >>-Keeps P (commit D (identity (new_identity r) ∷ [])) (refresh D (new_identity r))
          (commit-Keeps (new_identity r)) (λ db p. p)

    ensure_identity-Keeps : (r : Reads) → Keeps P (ensure_identity D r)
    unfolding ensure_identity get_identity
    ensure_identity-Keeps r =
        >>=-Keeps P (get_identity D) (insert_identity D r) (λ db p. p) (insert_identity-Keeps r)

    issue_token-Keeps :
        (label : Option String) (force : Bool) (sha256 : List ℕ → List ℕ) (r : Reads)
        (a : AgentIdentity)
        → Keeps P (issue_token D label force sha256 r a)
    issue_token-Keeps label force sha256 r a =
        let new = with_token sha256 (token_urlsafe r.urandom) label r.now a in
        >>-Keeps P (raise_if (is_set a.token_hash && not force) token_exists_error) _ (λ db p. p)
          (>>-Keeps P (commit D (identity new ∷ []))
            (pure (record { token = token_urlsafe r.urandom; label = label })) (commit-Keeps new)
            (λ db p. p))

    reconcile-Keeps :
        (sha256 : List ℕ → List ℕ) (token : String) (r : Reads) (a : AgentIdentity)
        → Keeps P (reconcile D sha256 token r a)
    reconcile-Keeps sha256 token r a = elim (Bool-cases (is_set a.token_hash)) [
      | inl held ↦ rw held (
          >>=-Keeps P (lift (check_token sha256 token (some a)))
            (λ same. raise_if (not same) token_mismatch_error) (λ db p. p) (λ same db p. p))
      | inr free ↦ rw free (commit-Keeps (with_token sha256 token a.token_label r.now a))
    ]

    revoke_token-Keeps : Keeps P (revoke_token D)
    unfolding revoke_token get_identity
    revoke_token-Keeps = >>=-Keeps P (get_identity D) _ (λ db p. p) revoked-Keeps
      where
        revoked-Keeps :
            (i : Option AgentIdentity)
            → Keeps P (elim i [
              | none ↦ pure false
              | some a ↦
                  if not (is_set a.token_hash)
                  then pure false
                  else do commit D (identity (without_token a) ∷ []); pure true
            ])
        revoked-Keeps none = λ db p. p
        revoked-Keeps (some a) = elim (Bool-cases (is_set a.token_hash)) [
          | inl held ↦ rw held (
              >>-Keeps P (commit D (identity (without_token a) ∷ [])) (pure true)
                (commit-Keeps (without_token a)) (λ db p. p))
          | inr free ↦ rw free (λ db p. p)
        ]

    -- Whatever bears the identity's commits is kept by every call, however it ends.
    pub perform-Keeps :
        (sha256 : List ℕ → List ℕ) (c : Call) (r : Reads) → Keeps P (perform sha256 D c r)
    unfolding perform get_agent_id has_active_token create_token verify_token reconcile_env_token
        get_identity
    perform-Keeps sha256 agent_id r =
        >>=-Keeps P (get_agent_id D r) (λ a. pure (text a))
          (>>=-Keeps P (ensure_identity D r) (λ a. pure a.agent_id) (ensure_identity-Keeps r)
            (λ a db p. p))
          (λ a db p. p)
    perform-Keeps sha256 has_active r =
        >>=-Keeps P (has_active_token D) (λ b. pure (flag b))
          (>>=-Keeps P (get_identity D) (λ i. pure (active i)) (λ db p. p) (λ i db p. p))
          (λ b db p. p)
    perform-Keeps sha256 revoke r =
        >>=-Keeps P (revoke_token D) (λ b. pure (flag b)) revoke_token-Keeps (λ b db p. p)
    perform-Keeps sha256 (create label force) r =
        >>=-Keeps P (create_token D label force sha256 r) (λ c. pure (created c))
          (>>=-Keeps P (ensure_identity D r) (issue_token D label force sha256 r)
            (ensure_identity-Keeps r) (issue_token-Keeps label force sha256 r))
          (λ c db p. p)
    perform-Keeps sha256 (verify token) r =
        >>=-Keeps P (verify_token D sha256 token) (λ b. pure (flag b))
          (>>=-Keeps P (get_identity D) (λ i. lift (check_token sha256 token i)) (λ db p. p)
            (λ i db p. p))
          (λ b db p. p)
    perform-Keeps sha256 (reconcile_env token) r =
        >>-Keeps P (reconcile_env_token D sha256 token r) (pure done)
          (>>=-Keeps P (ensure_identity D r) (reconcile D sha256 token r) (ensure_identity-Keeps r)
            (reconcile-Keeps sha256 token r))
          (λ db p. p)

-- No call of the token service writes to the history.
pub history-perform :
    (D : Database) (L : IsLawful D) (sha256 : List ℕ → List ℕ) (c : Call) (r : Reads) (db : D.Db)
    → D.history (perform sha256 D c r db).1 ≡ D.history db
history-perform D L sha256 c r db =
    perform-Keeps D {P = λ new. D.history new ≡ D.history db}
      (record {
        law = λ a old new e same.
            L.history-commit (identity a ∷ []) old new e ∙ append-nil (D.history old) ∙ same;
      })
      sha256 c r db refl
