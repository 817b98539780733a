-- ===== src/Cli/Create.antt =====
-- What `oopsys-agent token create` does.
use oopsys_agent.Base.{
  ℕ, String, ◌≡◌, refl, sym, ap, ◌∙◌, ◌⊎◌, inl, inr, Bool, true, false, Option, some, List, is_set,
  arith, token_exists_error, Result, ok, raised, pure, >>=-step,
}
use text.Mathlib.TextPositions.{eq_refl}
use oopsys_agent.Database.{Database, IsLawful, AgentIdentity}
use oopsys_agent.Tokens.{
  Reads, CreatedToken, hash_token, issue_token, create_token, ensure_identity, get_agent_id,
  verify_token,
}
use oopsys_agent.Tokens.Hash.{IsDigest}
use oopsys_agent.Tokens.Verify.{
  ensure_identity-found, select-create_token, verify_token-create_token,
}
use oopsys_agent.Cli.Defs.{Exit, refused_lines, created_lines, create_ended, run_token_create}

module _ (D : Database) (L : IsLawful D) (sha256 : List ℕ → List ℕ) where
  get_agent_id-found :
      (r : Reads) (db : D.Db) {a : AgentIdentity}
      → D.select_identity 1 db ≡ ok (some a)
      → get_agent_id D r db ≡ (ok a.agent_id, db)
  unfolding get_agent_id
  get_agent_id-found r db {a} h =
      >>=-step (ensure_identity D r) (λ a. pure a.agent_id) db (ensure_identity-found D L r db h)

  create_ended-ok :
      (r : Reads) (db : D.Db) (c : CreatedToken) {a : AgentIdentity}
      → D.select_identity 1 db ≡ ok (some a)
      → create_ended D sha256 r (ok c) db
        ≡ (ok (record { code = 0; output = created_lines a.agent_id c }), db)
  create_ended-ok r db c {a} h =
      >>=-step (get_agent_id D r)
        (λ agent_id. pure (record { code = 0; output = created_lines agent_id c })) db
        (get_agent_id-found r db h)

  abbrev Ends : Reads → D.Db → Exit → D.Db → Type 0
  Ends r db x db' =
      ((c : CreatedToken) × (a : AgentIdentity) × (D.select_identity 1 db' ≡ ok (some a))
        × (x ≡ record { code = 0; output = created_lines a.agent_id c })
        × (verify_token D sha256 c.token db' ≡ (ok true, db')))
      ⊎ (x ≡ record { code = 1; output = refused_lines })

  -- When `token create` returns, it has either printed the agent id that is stored and a token that
  -- the API accepts from then on, and exits with 0, or it has printed the refusal and exits with 1.
  pub run_token_create-accepts :
      (H : IsDigest sha256) (label : Option String) (force : Bool) (r : Reads) (db : D.Db)
      {x : Exit} {db' : D.Db}
      → run_token_create D sha256 label force r db ≡ (ok x, db')
      → ((c : CreatedToken) × (a : AgentIdentity) × (D.select_identity 1 db' ≡ ok (some a))
          × (x ≡ record { code = 0; output = created_lines a.agent_id c })
          × (verify_token D sha256 c.token db' ≡ (ok true, db')))
        ⊎ (x ≡ record { code = 1; output = refused_lines })
  unfolding run_token_create
  run_token_create-accepts H label force r db {x} {db'} e =
      go (create_token D label force sha256 r db) refl e
    where
      go :
          (y : Result CreatedToken × D.Db)
          → create_token D label force sha256 r db ≡ y
          → create_ended D sha256 r y.0 y.1 ≡ (ok x, db')
          → Ends r db x db'
      go (ok c, mid) made e =
          let (a, stored, _, _) = select-create_token D L label force sha256 r db made in
          let ran = sym (create_ended-ok r mid c stored) ∙ e in
          let same : mid ≡ db' = ap (λ (z : Result Exit × D.Db). z.1) ran in
          let accepted =
            verify_token-create_token D L sha256 H label force r c.token db made
            ∙ rw (eq_refl (hash_token sha256 c.token)) in
          inl (c, a, rw (sym same) stored, cc, rw (sym same) accepted)
      go (raised token_exists_error, mid) made e = inr (ground arith)
      go (raised exc, mid) made e = cc

  issue_token-refused :
      (label : Option String) (r : Reads) (a : AgentIdentity) (db : D.Db)
      → is_set a.token_hash ≡ true
      → issue_token D label false sha256 r a db ≡ (raised token_exists_error, db)
  issue_token-refused label r a db known = ground arith

  -- With a token stored and without `--force`, `token create` prints the refusal, exits with 1 and
  -- changes nothing.
  run_token_create-refuses :
      (label : Option String) (r : Reads) (db : D.Db) (a : AgentIdentity)
      → D.select_identity 1 db ≡ ok (some a)
      → is_set a.token_hash ≡ true
      → run_token_create D sha256 label false r db
        ≡ (ok (record { code = 1; output = refused_lines }), db)
  unfolding run_token_create create_token
  run_token_create-refuses label r db a h known =
      ap (λ (z : Result CreatedToken × D.Db). create_ended D sha256 r z.0 z.1)
        (>>=-step (ensure_identity D r) (issue_token D label false sha256 r) db
            (ensure_identity-found D L r db h)
          ∙ issue_token-refused label r a db known)
