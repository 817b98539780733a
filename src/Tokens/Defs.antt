-- ===== src/Tokens/Defs.antt =====
-- services/tokens.py. SHA-256 is a parameter; the random bytes, the fresh UUID and the clock enter
-- as the values that a call reads.
use oopsys_agent.Base.{
  ℕ, String, Bool, true, false, not, ◌&&◌, Option, none, some, List, [], ◌∷◌, if◌then◌else◌,
  is_truthy, is_set, encode_utf8, hexdigest, token_urlsafe, other, token_exists_error,
  token_mismatch_error, Result, ok, raised, Action, pure, lift, ◌>>=◌, ◌>>◌, raise_if,
  compare_digest,
}
use oopsys_agent.Domain.{Time}
use oopsys_agent.Database.{Database, AgentIdentity, identity, commit}

abbrev pub identity_id : ℕ
identity_id = 1

abbrev pub token_bytes : ℕ
token_bytes = 32

-- What a call reads from `uuid.uuid4`, `secrets`, and the clock (at an insert, and at an update).
pub record Reads : Type 0 where
  pub uuid4 : String
  pub urandom : List ℕ
  pub inserted_at : Time
  pub now : Time

pub record CreatedToken : Type 0 where
  pub token : String
  pub label : Option String

unfoldable pub hash_token : (List ℕ → List ℕ) → String → String
hash_token sha256 token = hexdigest (sha256 (encode_utf8 token))

abbrev pub new_identity : Reads → AgentIdentity
new_identity r = record {
  id = identity_id;
  agent_id = r.uuid4;
  token_hash = none;
  token_label = none;
  token_created_at = none;
  created_at = r.inserted_at;
}

-- `identity and identity.token_hash`
abbrev pub active : Option AgentIdentity → Bool
active none = false
active (some a) = is_set a.token_hash

-- The identity with a new token.
abbrev pub with_token :
    (List ℕ → List ℕ) → String → Option String → Time → AgentIdentity → AgentIdentity
with_token sha256 token label now a = record a {
  token_hash = some (hash_token sha256 token);
  token_label = label;
  token_created_at = some now;
}

-- The identity with none.
abbrev pub without_token : AgentIdentity → AgentIdentity
without_token a = record a { token_hash = none; token_label = none; token_created_at = none }

-- The end of `verify_token`: the test on the identity, and the comparison of the digests.
abbrev pub check_token : (List ℕ → List ℕ) → String → Option AgentIdentity → Result Bool
check_token sha256 token none = ok false
check_token sha256 token (some a) = elim a.token_hash [
  | none ↦ ok false
  | some stored ↦
      if not (is_truthy stored) then ok false else compare_digest stored (hash_token sha256 token)
]

module _ (D : Database) where
  -- `_get_identity`
  unfoldable pub get_identity : Action D.Db (Option AgentIdentity)
  get_identity db = (D.select_identity identity_id db, db)

  -- `session.refresh`: the row is read again, and has to be there.
  unfoldable pub refresh : AgentIdentity → Action D.Db AgentIdentity
  refresh a db = (
    elim (D.select_identity a.id db) [
      | ok none ↦ raised (other "InvalidRequestError" "Could not refresh instance")
      | ok (some b) ↦ ok b
      | raised e ↦ raised e
    ],
    db,
  )

  abbrev pub insert_identity : Reads → Option AgentIdentity → Action D.Db AgentIdentity
  insert_identity r (some a) = pure a
  insert_identity r none = let a = new_identity r in commit D (identity a ∷ []) >> refresh a

  unfoldable pub ensure_identity : Reads → Action D.Db AgentIdentity
  unfolding get_identity commit refresh
  ensure_identity r = do found ← get_identity; insert_identity r found

  unfoldable pub get_agent_id : Reads → Action D.Db String
  unfolding ensure_identity
  get_agent_id r = do a ← ensure_identity r; pure a.agent_id

  unfoldable pub has_active_token : Action D.Db Bool
  unfolding get_identity
  has_active_token = do found ← get_identity; pure (active found)

  unfoldable pub revoke_token : Action D.Db Bool
  unfolding get_identity commit
  revoke_token = do
    found ← get_identity
    elim found [
      | none ↦ pure false
      | some a ↦
          if not (is_set a.token_hash)
          then pure false
          else do commit D (identity (without_token a) ∷ []); pure true
    ]

  -- `create_token` once the identity is there.
  abbrev pub issue_token :
      Option String → Bool → (List ℕ → List ℕ) → Reads → AgentIdentity → Action D.Db CreatedToken
  issue_token label force sha256 r a = do
    raise_if (is_set a.token_hash && not force) token_exists_error
    let token = token_urlsafe r.urandom
    commit D (identity (with_token sha256 token label r.now a) ∷ [])
    pure (record { token = token; label = label })

  unfoldable pub create_token :
      Option String → Bool → (List ℕ → List ℕ) → Reads → Action D.Db CreatedToken
  unfolding ensure_identity
  create_token label force sha256 r = do a ← ensure_identity r; issue_token label force sha256 r a

  unfoldable pub verify_token : (List ℕ → List ℕ) → String → Action D.Db Bool
  unfolding get_identity
  verify_token sha256 token = do found ← get_identity; lift (check_token sha256 token found)

  -- The end of `reconcile_env_token`, on the identity that was found or made.
  abbrev pub reconcile : (List ℕ → List ℕ) → String → Reads → AgentIdentity → Action D.Db Unit
  reconcile sha256 token r a =
      if not (is_set a.token_hash)
      then commit D (
          identity (record a {
            token_hash = some (hash_token sha256 token);
            token_created_at = some r.now;
          })
          ∷ [])
      else do
        same ← lift (check_token sha256 token (some a))
        raise_if (not same) token_mismatch_error

  unfoldable pub reconcile_env_token : (List ℕ → List ℕ) → String → Reads → Action D.Db Unit
  unfolding ensure_identity
  reconcile_env_token sha256 token r = do a ← ensure_identity r; reconcile sha256 token r a
