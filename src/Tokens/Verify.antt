-- ===== src/Tokens/Verify.antt =====
-- Which tokens `verify_token` accepts, after each call that sets one.
use text.Mathlib.TextPositions.{eq_refl}
use oopsys_agent.Base.{
  ℕ, String, ◌≡◌, refl, Bool, true, false, Option, none, some, List, [], ◌∷◌, arith, is_set,
  token_urlsafe, str_eq, ok, >>=-eq-ok, Result-cases, Bool-cases, inl, inr, ◌∙◌, compare_digest,
}
use oopsys_agent.Database.{Database, IsLawful, AgentIdentity, identity, commit}
use oopsys_agent.Tokens.Hash.{IsDigest, hash_token-is_truthy, hash_token-is_ascii}
use oopsys_agent.Tokens.Defs.{
  Reads, CreatedToken, hash_token, ensure_identity, create_token, verify_token, reconcile,
  reconcile_env_token, revoke_token, new_identity, issue_token, with_token, without_token,
}

module _ (D : Database) (L : IsLawful D) where
  pub select-ensure_identity :
      (r : Reads) (db : D.Db) {a : AgentIdentity} {db' : D.Db}
      → ensure_identity D r db ≡ (ok a, db')
      → D.select_identity 1 db' ≡ ok (some a)
  unfolding ensure_identity
  select-ensure_identity r db h = ground arith

  -- The identity that was there is returned as it is; a missing one is made from the reads.
  pub ensure_identity-found :
      (r : Reads) (db : D.Db) {b : AgentIdentity}
      → D.select_identity 1 db ≡ ok (some b)
      → ensure_identity D r db ≡ (ok b, db)
  unfolding ensure_identity
  ensure_identity-found r db h = ground arith

  pub ensure_identity-made :
      (r : Reads) (db : D.Db) {a : AgentIdentity} {db' : D.Db}
      → D.select_identity 1 db ≡ ok none
      → ensure_identity D r db ≡ (ok a, db')
      → a ≡ new_identity r
  unfolding ensure_identity
  ensure_identity-made r db {a} {db'} h e =
      ground (arith, L.select-commit 1 (identity (new_identity r) ∷ []) db db' none)

  -- What `issue_token` leaves when it returns.
  select-issue_token :
      (label : Option String) (force : Bool) (sha256 : List ℕ → List ℕ) (r : Reads)
      (a : AgentIdentity) (db : D.Db) {c : CreatedToken} {db' : D.Db}
      → D.select_identity 1 db ≡ ok (some a)
      → issue_token D label force sha256 r a db ≡ (ok c, db')
      → (D.select_identity 1 db' ≡ ok (some (with_token sha256 c.token c.label r.now a)))
        × (c.token ≡ token_urlsafe r.urandom)
  unfolding commit
  select-issue_token label force sha256 r a db {c} {db'} h e = ground (
    arith,
    L.select-id 1 db a h,
    L.select-commit 1 (identity (with_token sha256 (token_urlsafe r.urandom) label r.now a) ∷ []) db
        db' (some a),
  )

  -- What a successful `create_token` leaves.
  pub select-create_token :
      (label : Option String) (force : Bool) (sha256 : List ℕ → List ℕ) (r : Reads) (db : D.Db)
      {c : CreatedToken} {db' : D.Db}
      → create_token D label force sha256 r db ≡ (ok c, db')
      → (a : AgentIdentity) × (D.select_identity 1 db' ≡ ok (some a))
        × (a.token_hash ≡ some (hash_token sha256 c.token))
        × (c.token ≡ token_urlsafe r.urandom)
  unfolding create_token
  select-create_token label force sha256 r db {c} {db'} e =
      let (a, mid, made, issued) =
        >>=-eq-ok (ensure_identity D r) (issue_token D label force sha256 r) db e in
      let (stored, drawn) =
        select-issue_token label force sha256 r a mid (select-ensure_identity r db made) issued in
      (with_token sha256 c.token c.label r.now a, stored, refl, drawn)

module _ (D : Database) (L : IsLawful D) (sha256 : List ℕ → List ℕ) (H : IsDigest sha256) where
  -- Against a stored digest the answer is the comparison of the two digests; nothing is written.
  pub verify_token-stored :
      (s t : String) (db : D.Db) {a : AgentIdentity}
      → D.select_identity 1 db ≡ ok (some a)
      → a.token_hash ≡ some (hash_token sha256 s)
      → verify_token D sha256 t db ≡ (ok (str_eq (hash_token sha256 s) (hash_token sha256 t)), db)
  unfolding verify_token compare_digest
  verify_token-stored s t db h e = ground (
    arith,
    hash_token-is_truthy sha256 H s,
    hash_token-is_ascii sha256 H s,
    hash_token-is_ascii sha256 H t,
  )

  -- Once `create_token` has returned, `verify_token` accepts exactly the tokens that have the digest
  -- of the new one.
  pub verify_token-create_token :
      (label : Option String) (force : Bool) (r : Reads) (t : String) (db : D.Db) {c : CreatedToken}
      {db' : D.Db}
      → create_token D label force sha256 r db ≡ (ok c, db')
      → verify_token D sha256 t db'
        ≡ (ok (str_eq (hash_token sha256 c.token) (hash_token sha256 t)), db')
  verify_token-create_token label force r t db {c} {db'} e =
      let (a, stored, hashed, _) = select-create_token D L label force sha256 r db e in
      verify_token-stored c.token t db' stored hashed

  reconcile-missing :
      (token : String) (r : Reads) (a : AgentIdentity) (db : D.Db) {db' : D.Db}
      → D.select_identity 1 db ≡ ok (some a)
      → is_set a.token_hash ≡ false
      → reconcile D sha256 token r a db ≡ (ok tt, db')
      → D.select_identity 1 db' ≡ ok (some (with_token sha256 token a.token_label r.now a))
  unfolding commit
  reconcile-missing token r a db {db'} h unset e = ground (
    arith,
    L.select-id 1 db a h,
    L.select-commit 1 (identity (with_token sha256 token a.token_label r.now a) ∷ []) db db'
        (some a),
  )

  reconcile-known :
      (token : String) (r : Reads) (a : AgentIdentity) (db : D.Db) {db' : D.Db}
      → D.select_identity 1 db ≡ ok (some a)
      → is_set a.token_hash ≡ true
      → reconcile D sha256 token r a db ≡ (ok tt, db')
      → verify_token D sha256 token db' ≡ (ok true, db')
  unfolding verify_token
  reconcile-known token r a db {db'} h known e = ground arith

  reconcile-accepts :
      (token : String) (r : Reads) (a : AgentIdentity) (db : D.Db) {db' : D.Db}
      → D.select_identity 1 db ≡ ok (some a)
      → reconcile D sha256 token r a db ≡ (ok tt, db')
      → verify_token D sha256 token db' ≡ (ok true, db')
  reconcile-accepts token r a db {db'} h e = elim (Bool-cases (is_set a.token_hash)) [
    | inl known ↦ reconcile-known token r a db h known e
    | inr unset ↦
        verify_token-stored token token db' (reconcile-missing token r a db h unset e) refl
        ∙ rw (eq_refl (hash_token sha256 token))
  ]

  -- Once `reconcile_env_token` has returned, `verify_token` accepts the token of the environment, be it
  -- that there was no identity, none with a token, or one with that token.
  pub verify_token-reconcile_env_token :
      (token : String) (r : Reads) (db : D.Db) {db' : D.Db}
      → reconcile_env_token D sha256 token r db ≡ (ok tt, db')
      → verify_token D sha256 token db' ≡ (ok true, db')
  unfolding reconcile_env_token
  verify_token-reconcile_env_token token r db {db'} e =
      let (a, mid, made, kept) =
        >>=-eq-ok (ensure_identity D r) (reconcile D sha256 token r) db e in
      reconcile-accepts token r a mid (select-ensure_identity D L r db made) kept

  -- Once `revoke_token` has returned, no token is accepted.
  pub verify_token-revoke_token :
      (token : String) (db : D.Db) {was : Bool} {db' : D.Db}
      → revoke_token D db ≡ (ok was, db')
      → verify_token D sha256 token db' ≡ (ok false, db')
  unfolding revoke_token verify_token
  verify_token-revoke_token token db {was} {db'} e = elim (Result-cases (D.select_identity 1 db)) [
    | inl (none, h) ↦ ground arith
    | inl (some a, h) ↦ ground (
      arith,
      L.select-id 1 db a h,
      L.select-commit 1 (identity (without_token a) ∷ []) db db' (some a),
    )
    | inr (x, h) ↦ ground arith
  ]
