-- ===== src/Tokens/Tests.antt =====
-- The token service run over a database in memory, and its theorems at concrete data.
use oopsys_agent.Base.{
  ℕ, zero, suc, ◌+◌, ◌%◌, ◌≡◌, refl, ◌⊎◌, Bool, true, false, none, some, List, [], ◌∷◌, str_eq, ok,
  raised, token_exists_error, token_mismatch_error, token_urlsafe, other, compare_digest,
  encode_utf8, hexdigest,
}
use oopsys_agent.Database.{AgentIdentity, commit}
use oopsys_agent.Database.Memory.{Memory, memory, memory-IsLawful}
use oopsys_agent.Tokens.Defs.{
  Reads, CreatedToken, hash_token, create_token, revoke_token, verify_token, reconcile_env_token,
}
use oopsys_agent.Tokens.Hash.{IsDigest}
use oopsys_agent.Tokens.Verify.{
  verify_token-create_token, verify_token-revoke_token, verify_token-reconcile_env_token,
}
use oopsys_agent.Tokens.Spec.{create, revoke, agent_id, reconcile_env, perform, spec, ensured}
use oopsys_agent.Tokens.Refinement.{Agrees, Fails, perform-refines}
use oopsys_agent.Tokens.History.{serve, serve-Continues, verify_token-serve}

-- A stand-in for SHA-256: 32 bytes, of which one depends on the text.
abbrev sum_bytes : List ℕ → ℕ
sum_bytes [] = 0
sum_bytes (b ∷ bs) = b + sum_bytes bs

abbrev pub zeros : ℕ → List ℕ
zeros zero = []
zeros (suc n) = 0 ∷ zeros n

abbrev pub toy_digest : List ℕ → List ℕ
toy_digest bytes = (sum_bytes bytes % 256) ∷ zeros 31

pub toy_digest-IsDigest : IsDigest toy_digest
toy_digest-IsDigest = record { length-digest = λ bytes. refl }

abbrev pub empty_db : Memory
empty_db = record { identities = λ key. none; rows = []; full = false }

abbrev pub reads : Reads
reads = record { uuid4 = "6f1c"; urandom = 7 ∷ zeros 31; inserted_at = 100; now = 200 }

abbrev pub issued : CreatedToken
issued = record { token = token_urlsafe (7 ∷ zeros 31); label = some "ci" }

abbrev pub holder : AgentIdentity
holder = record {
  id = 1;
  agent_id = "6f1c";
  token_hash = some (hash_token toy_digest issued.token);
  token_label = some "ci";
  token_created_at = some 200;
  created_at = 100;
}

abbrev pub after_create : Memory
unfolding create_token commit hash_token
after_create = (create_token memory (some "ci") false toy_digest reads empty_db).1

issued_text : issued.token ≡ "BwAAAAAAAAAAAAAAAAAAAAAAAAAAAAAAAAAAAAAAAAA"
unfolding token_urlsafe
issued_text = refl

pub created :
    create_token memory (some "ci") false toy_digest reads empty_db ≡ (ok issued, after_create)
unfolding create_token commit hash_token token_urlsafe encode_utf8 hexdigest
created = refl

-- A second token without `force` is refused, and the first one stays.
created_twice :
    create_token memory none false toy_digest reads after_create
    ≡ (raised token_exists_error, after_create)
unfolding create_token commit hash_token token_urlsafe encode_utf8 hexdigest
created_twice = refl

-- The environment's token is not the stored one.
mismatch :
    reconcile_env_token memory toy_digest "otherwise" reads after_create
    ≡ (raised token_mismatch_error, after_create)
unfolding reconcile_env_token create_token commit hash_token token_urlsafe encode_utf8 hexdigest
    compare_digest
mismatch = refl

-- A full database refuses the first commit of `create_token`.
full_refuses :
    (create_token memory none false toy_digest reads (record empty_db { full = true })).0
    ≡ raised (other "OperationalError" "database or disk is full")
unfolding create_token commit
full_refuses = refl

pub stored : memory.select_identity 1 after_create ≡ ok (some holder)
unfolding create_token commit hash_token token_urlsafe encode_utf8 hexdigest
stored = refl

abbrev after_reconcile : Memory
unfolding reconcile_env_token commit hash_token
after_reconcile = (reconcile_env_token memory toy_digest "s3cret" reads empty_db).1

reconciled :
    reconcile_env_token memory toy_digest "s3cret" reads empty_db ≡ (ok tt, after_reconcile)
unfolding reconcile_env_token commit hash_token encode_utf8 hexdigest
reconciled = refl

abbrev after_revoke : Memory
unfolding revoke_token create_token commit hash_token
after_revoke = (revoke_token memory after_create).1

revoked : revoke_token memory after_create ≡ (ok true, after_revoke)
unfolding revoke_token create_token commit hash_token token_urlsafe encode_utf8 hexdigest
revoked = refl

verify_token-create_token_example : verify_token memory toy_digest "guess" after_create ≡ (
  ok (str_eq (hash_token toy_digest issued.token) (hash_token toy_digest "guess")),
  after_create,
)
verify_token-create_token_example =
    verify_token-create_token memory memory-IsLawful toy_digest toy_digest-IsDigest (some "ci")
      false reads "guess" empty_db created

verify_token-revoke_token_example :
    verify_token memory toy_digest issued.token after_revoke ≡ (ok false, after_revoke)
verify_token-revoke_token_example =
    verify_token-revoke_token memory memory-IsLawful toy_digest toy_digest-IsDigest issued.token
      after_create revoked

perform-refines_example :
    Agrees memory
      (spec toy_digest (create none true) reads (some holder))
      (perform toy_digest memory (create none true) reads after_create)
    ⊎ Fails memory
        (some holder)
        (some (ensured reads (some holder)))
        (perform toy_digest memory (create none true) reads after_create)
perform-refines_example =
    perform-refines memory memory-IsLawful toy_digest (create none true) reads (some holder)
      after_create stored

verify_token-serve_example :
    let later =
      serve toy_digest memory ((agent_id, reads) ∷ (reconcile_env "s3cret", reads) ∷ []) empty_db in
    (b : Bool) × (verify_token memory toy_digest "guess" later ≡ (ok b, later))
verify_token-serve_example =
    verify_token-serve toy_digest memory memory-IsLawful toy_digest-IsDigest
      ((agent_id, reads) ∷ (reconcile_env "s3cret", reads) ∷ []) "guess" none empty_db refl tt

verify_token-reconcile_env_token_example :
    verify_token memory toy_digest "s3cret" after_reconcile ≡ (ok true, after_reconcile)
verify_token-reconcile_env_token_example =
    verify_token-reconcile_env_token memory memory-IsLawful toy_digest toy_digest-IsDigest "s3cret"
      reads empty_db reconciled

serve-Continues_example :
    let later =
      serve toy_digest memory ((revoke, reads) ∷ (create none true, reads) ∷ []) after_create in
    (b : AgentIdentity) × (memory.select_identity 1 later ≡ ok (some b))
    × (b.agent_id ≡ holder.agent_id)
    × (b.created_at ≡ holder.created_at)
serve-Continues_example =
    serve-Continues toy_digest memory memory-IsLawful
      ((revoke, reads) ∷ (create none true, reads) ∷ []) holder after_create stored
