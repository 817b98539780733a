-- ===== src/Tokens/Refinement.antt =====
-- `TokenService` over any lawful database does what `Tokens/Spec.antt` says, or a commit has failed.
use oopsys_agent.Base.{
  ℕ, String, ◌≡◌, refl, ◌⊎◌, inl, inr, Bool, Option, none, some, List, [], ◌∷◌, arith, Exc, Result,
  ok, raised, Action, pure, ◌>>=◌, Result-cases, >>=-ok, >>=-raised, Bool-cases, is_set, not, ◌&&◌,
  token_urlsafe, true,
}
use oopsys_agent.Database.{Database, IsLawful, AgentIdentity, Row, identity, commit}
use oopsys_agent.Tokens.Defs.{
  Reads, new_identity, hash_token, with_token, without_token, issue_token, ensure_identity,
  get_agent_id, has_active_token, create_token, revoke_token, verify_token, reconcile,
  reconcile_env_token,
}
use oopsys_agent.Tokens.Spec.{
  Call, agent_id, has_active, revoke, create, verify, reconcile_env, text, flag, created, done,
  replied, create_spec, revoke_spec, reconcile_spec, perform, spec, ensured,
}

-- The call has the reply and leaves the identity that the specification gives.
pub record Agrees {A : Type 0} (D : Database) (y : Result A × Option AgentIdentity)
    (x : Result A × D.Db) : Type 0 where
  pub reply : x.0 ≡ y.0
  pub stored : D.select_identity 1 x.1 ≡ ok y.1

-- A commit has raised: the call raises that, and the identity is as before, or was just made.
pub record Fails {A : Type 0} (D : Database) (before after : Option AgentIdentity)
    (x : Result A × D.Db) : Type 0 where
  pub rows : List Row
  pub at : D.Db
  pub error : Exc
  pub refused : D.commit_rows rows at ≡ raised error
  pub reply : x.0 ≡ raised error
  pub stored : (D.select_identity 1 x.1 ≡ ok before) ⊎ (D.select_identity 1 x.1 ≡ ok after)

module _ (D : Database) (L : IsLawful D) where
  ensure_identity-refines :
      (r : Reads) (i : Option AgentIdentity) (db : D.Db)
      → D.select_identity 1 db ≡ ok i
      → Agrees D (ok (ensured r i), some (ensured r i)) (ensure_identity D r db)
        ⊎ Fails D i (some (ensured r i)) (ensure_identity D r db)
  unfolding ensure_identity
  ensure_identity-refines r (some a) db h = inl (ground arith)
  ensure_identity-refines r none db h =
      elim (Result-cases (D.commit_rows (identity (new_identity r) ∷ []) db)) [
        | inl (db', e) ↦
            inl (ground (arith, L.select-commit 1 (identity (new_identity r) ∷ []) db db' none))
        | inr (x, e) ↦ inr (record {
          rows = identity (new_identity r) ∷ [];
          at = db;
          error = x;
          refused = e;
          reply = ground arith;
          stored = inl (ground arith);
        })
      ]

  -- What holds after a first step that refines, and of every rest from there, holds of both.
  bind-refines :
      {A B : Type 0} (m : Action D.Db A) (f : A → Action D.Db B) (i : Option AgentIdentity) (a : A)
      (j : Option AgentIdentity) (y : Result B × Option AgentIdentity) (db : D.Db)
      → Agrees D (ok a, j) (m db) ⊎ Fails D i j (m db)
      → ((mid : D.Db)
          → D.select_identity 1 mid ≡ ok j
          → Agrees D y (f a mid) ⊎ Fails D i j (f a mid))
      → Agrees D y ((m >>= f) db) ⊎ Fails D i j ((m >>= f) db)
  bind-refines m f i a j y db (inl s) next = rw (>>=-ok m f db s.reply) (next (m db).1 s.stored)
  bind-refines m f i a j y db (inr s) next = rw (>>=-raised m f db s.reply) (
      inr (record {
        rows = s.rows;
        at = s.at;
        error = s.error;
        refused = s.refused;
        reply = refl;
        stored = s.stored;
      }))

  replied-refines :
      {A B : Type 0} (m : Action D.Db A) (g : A → B) (i j : Option AgentIdentity)
      (y : Result A × Option AgentIdentity) (db : D.Db)
      → Agrees D y (m db) ⊎ Fails D i j (m db)
      → Agrees D (replied g y) ((m >>= λ a. pure (g a)) db)
        ⊎ Fails D i j ((m >>= λ a. pure (g a)) db)
  replied-refines m g i j (ok a, k) db (inl s) =
      rw (>>=-ok m (λ a. pure (g a)) db s.reply) (inl (record { reply = refl; stored = s.stored }))
  replied-refines m g i j (raised e, k) db (inl s) =
      rw (>>=-raised m (λ a. pure (g a)) db s.reply)
        (inl (record { reply = refl; stored = s.stored }))
  replied-refines m g i j y db (inr s) = rw (>>=-raised m (λ a. pure (g a)) db s.reply) (
      inr (record {
        rows = s.rows;
        at = s.at;
        error = s.error;
        refused = s.refused;
        reply = refl;
        stored = s.stored;
      }))

  -- A commit of the identity, as the last step of a call.
  commit-refines :
      (a b : AgentIdentity) (i : Option AgentIdentity) (db : D.Db)
      → D.select_identity 1 db ≡ ok (some a)
      → b.id ≡ 1
      → Agrees D (ok tt, some b) (commit D (identity b ∷ []) db)
        ⊎ Fails D i (some a) (commit D (identity b ∷ []) db)
  unfolding commit
  commit-refines a b i db h one = elim (Result-cases (D.commit_rows (identity b ∷ []) db)) [
    | inl (db', e) ↦ inl (ground (arith, L.select-commit 1 (identity b ∷ []) db db' (some a)))
    | inr (x, e) ↦ inr (record {
      rows = identity b ∷ [];
      at = db;
      error = x;
      refused = e;
      reply = ground arith;
      stored = inr (ground arith);
    })
  ]

  -- A failure that has made nothing.
  Fails-same :
      {A : Type 0} (i j : Option AgentIdentity) (x : Result A × D.Db)
      → Fails D i i x
      → Fails D i j x
  Fails-same i j x s = record {
    rows = s.rows;
    at = s.at;
    error = s.error;
    refused = s.refused;
    reply = s.reply;
    stored = inl (elim s.stored [ inl e ↦ e | inr e ↦ e ]);
  }

  revoke_token-refines :
      (i : Option AgentIdentity) (db : D.Db)
      → D.select_identity 1 db ≡ ok i
      → Agrees D (revoke_spec i) (revoke_token D db) ⊎ Fails D i i (revoke_token D db)
  unfolding revoke_token
  revoke_token-refines none db h = inl (record { reply = ground arith; stored = ground arith })
  revoke_token-refines (some a) db h = elim (Bool-cases (is_set a.token_hash)) [
    | inl held ↦
        rw (h, held)
          (replied-refines (commit D (identity (without_token a) ∷ [])) (λ _. true) (some a)
            (some a) (ok tt, some (without_token a)) db
            (commit-refines a (without_token a) (some a) db h (L.select-id 1 db a h)))
    | inr free ↦ inl (record { reply = ground arith; stored = ground arith })
  ]

  module _ (sha256 : List ℕ → List ℕ) where
    issue_token-refines :
        (label : Option String) (force : Bool) (r : Reads) (a : AgentIdentity)
        (i : Option AgentIdentity) (db : D.Db)
        → D.select_identity 1 db ≡ ok (some a)
        → Agrees D (create_spec sha256 label force r a) (issue_token D label force sha256 r a db)
          ⊎ Fails D i (some a) (issue_token D label force sha256 r a db)
    unfolding hash_token
    issue_token-refines label force r a i db h =
        elim (Bool-cases (is_set a.token_hash && not force)) [
          | inl held ↦ rw held (inl (record { reply = refl; stored = h }))
          | inr free ↦
              let new : AgentIdentity = with_token sha256 (token_urlsafe r.urandom) label r.now a in
              rw free (
                replied-refines (commit D (identity new ∷ [])) _ i (some a) (ok tt, some new) db
                  (commit-refines a new i db h (L.select-id 1 db a h)))
        ]

    reconcile-refines :
        (token : String) (r : Reads) (a : AgentIdentity) (i : Option AgentIdentity) (db : D.Db)
        → D.select_identity 1 db ≡ ok (some a)
        → Agrees D (reconcile_spec sha256 token r a) (reconcile D sha256 token r a db)
          ⊎ Fails D i (some a) (reconcile D sha256 token r a db)
    unfolding hash_token
    reconcile-refines token r a i db h = elim (Bool-cases (is_set a.token_hash)) [
      | inl held ↦ rw held (inl (record { reply = ground arith; stored = ground arith }))
      | inr free ↦ rw free (
          commit-refines a (with_token sha256 token a.token_label r.now a) i db h
            (L.select-id 1 db a h))
    ]

    -- Where the identity can be read, every call replies what the specification says and leaves the
    -- identity that it says, or a commit has raised: then the call raises the same, and the identity
    -- is as it was before, or as it is when it has just been made. The specification is of one
    -- identity in memory, in its own words: which digest is stored when, under which label and since
    -- when, what revoking clears, and which token is told to match.
    pub perform-refines :
        (c : Call) (r : Reads) (i : Option AgentIdentity) (db : D.Db)
        → D.select_identity 1 db ≡ ok i
        → Agrees D (spec sha256 c r i) (perform sha256 D c r db)
          ⊎ Fails D i (some (ensured r i)) (perform sha256 D c r db)
    unfolding perform spec get_agent_id has_active_token create_token verify_token
        reconcile_env_token hash_token
    perform-refines agent_id r i db h =
        let a : AgentIdentity = ensured r i in
        replied-refines (get_agent_id D r) text i (some a) (ok a.agent_id, some a) db
          (replied-refines (ensure_identity D r) (λ b. b.agent_id) i (some a) (ok a, some a) db
            (ensure_identity-refines r i db h))
    perform-refines has_active r i db h =
        inl (record { reply = ground arith; stored = ground arith })
    perform-refines revoke r i db h =
        replied-refines (revoke_token D) flag i (some (ensured r i)) (revoke_spec i) db
          (elim (revoke_token-refines i db h) [ inl s ↦ inl s | inr s ↦ inr (Fails-same i _ _ s) ])
    perform-refines (create label force) r i db h =
        let a : AgentIdentity = ensured r i in
        replied-refines (create_token D label force sha256 r) created i (some a)
          (create_spec sha256 label force r a) db
          (bind-refines (ensure_identity D r) (issue_token D label force sha256 r) i a (some a) _ db
            (ensure_identity-refines r i db h) (issue_token-refines label force r a i))
    perform-refines (verify token) r i db h =
        inl (record { reply = ground arith; stored = ground arith })
    perform-refines (reconcile_env token) r i db h =
        let a : AgentIdentity = ensured r i in
        replied-refines (reconcile_env_token D sha256 token r) (λ _. done) i (some a)
          (reconcile_spec sha256 token r a) db
          (bind-refines (ensure_identity D r) (reconcile D sha256 token r) i a (some a) _ db
            (ensure_identity-refines r i db h) (reconcile-refines token r a i))
