-- ===== src/Tokens/Spec.antt =====
-- The promise of `TokenService`, in its own words: an identity that exists at most once, kept in
-- memory, and what each call replies and makes of it. None of the code's helpers is used.
-- `Tokens/Refinement.antt` relates the two.
use oopsys_agent.Base.{
  String, Bool, false, true, not, ◌&&◌, Option, none, some, List, ℕ, if◌then◌else◌, is_set,
  token_urlsafe, token_exists_error, token_mismatch_error, Result, ok, raised, Action, pure, ◌>>=◌,
  ◌>>◌, compare_digest, encode_utf8, hexdigest,
}
use oopsys_agent.Domain.{Time}
use oopsys_agent.Database.{Database, AgentIdentity}
use oopsys_agent.Tokens.Defs.{
  Reads, CreatedToken, get_agent_id, has_active_token, create_token, revoke_token, verify_token,
  reconcile_env_token,
}

-- The methods of `TokenService`, as requests.
pub data Call : Type 0 where
  agent_id has_active revoke : Call
  create : Option String → Bool → Call
  verify reconcile_env : String → Call

pub data Reply : Type 0 where
  text : String → Reply
  flag : Bool → Reply
  created : CreatedToken → Reply
  done : Reply

-- The identity that a call works on: the one there is, or a new one.
abbrev pub ensured : Reads → Option AgentIdentity → AgentIdentity
ensured r none = record {
  id = 1;
  agent_id = r.uuid4;
  token_hash = none;
  token_label = none;
  token_created_at = none;
  created_at = r.inserted_at;
}
ensured r (some a) = a

-- The same outcome, with the result mapped.
abbrev pub replied :
    {A B : Type 0} → (A → B) → Result A × Option AgentIdentity → Result B × Option AgentIdentity
replied g (ok a, i) = (ok (g a), i)
replied g (raised e, i) = (raised e, i)

abbrev pub revoke_spec : Option AgentIdentity → Result Bool × Option AgentIdentity
revoke_spec none = (ok false, none)
revoke_spec (some a) =
    if is_set a.token_hash
    then (
      ok true,
      some (record a { token_hash = none; token_label = none; token_created_at = none }),
    )
    else (ok false, some a)

abbrev pub holds_token : Option AgentIdentity → Bool
holds_token none = false
holds_token (some a) = is_set a.token_hash

module _ (sha256 : List ℕ → List ℕ) where
  -- A request, served by the code.
  unfoldable pub perform : (D : Database) → Call → Reads → Action D.Db Reply
  perform D agent_id r = do a ← get_agent_id D r; pure (text a)
  perform D has_active r = do b ← has_active_token D; pure (flag b)
  perform D revoke r = do b ← revoke_token D; pure (flag b)
  perform D (create label force) r = do c ← create_token D label force sha256 r; pure (created c)
  perform D (verify token) r = do b ← verify_token D sha256 token; pure (flag b)
  perform D (reconcile_env token) r = do reconcile_env_token D sha256 token r; pure done

  -- The identity, with this token under this label since this time.
  abbrev pub bearing : String → Option String → Time → AgentIdentity → AgentIdentity
  bearing token label since a = record {
    id = a.id;
    agent_id = a.agent_id;
    token_hash = some (hexdigest (sha256 (encode_utf8 token)));
    token_label = label;
    token_created_at = some since;
    created_at = a.created_at;
  }

  -- Whether the token's digest is the one there is.
  abbrev pub matches : String → Option String → Result Bool
  matches token none = ok false
  matches token (some stored) =
      if is_set (some stored)
      then compare_digest stored (hexdigest (sha256 (encode_utf8 token)))
      else ok false

  abbrev pub verify_spec : String → Option AgentIdentity → Result Bool
  verify_spec token none = ok false
  verify_spec token (some a) = matches token a.token_hash

  abbrev pub create_spec :
      Option String → Bool → Reads → AgentIdentity → Result CreatedToken × Option AgentIdentity
  create_spec label force r a =
      if is_set a.token_hash && not force
      then (raised token_exists_error, some a)
      else let token = token_urlsafe r.urandom in
        (ok (record { token = token; label = label }), some (bearing token label r.now a))

  -- An agent without a token takes the one of the environment; one with a token keeps it, and
  -- refuses any other.
  abbrev pub reconcile_spec : String → Reads → AgentIdentity → Result Unit × Option AgentIdentity
  reconcile_spec token r a =
      if is_set a.token_hash
      then (
        elim (matches token a.token_hash) [
          | ok same ↦ if same then ok tt else raised token_mismatch_error
          | raised e ↦ raised e
        ],
        some a,
      )
      else (ok tt, some (bearing token a.token_label r.now a))

  unfoldable pub spec : Call → Reads → Option AgentIdentity → Result Reply × Option AgentIdentity
  spec agent_id r i = (ok (text (ensured r i).agent_id), some (ensured r i))
  spec has_active r i = (ok (flag (holds_token i)), i)
  spec revoke r i = replied flag (revoke_spec i)
  spec (create label force) r i = replied created (create_spec label force r (ensured r i))
  spec (verify token) r i = replied flag (verify_spec token i, i)
  spec (reconcile_env token) r i = replied (λ _. done) (reconcile_spec token r (ensured r i))
