-- ===== src/Cli/Defs.antt =====
-- cli.py: what a command prints, line by line, and its exit code. `run` is the agent itself, and a
-- parameter; argparse has made the command of the arguments.
use oopsys_agent.Base.{
  ℕ, String, ◌<>◌, Bool, Option, none, some, List, [], ◌∷◌, if◌then◌else◌, is_set, is_truthy,
  token_exists_error, Result, ok, raised, Action, pure, ◌>>=◌,
}
use oopsys_agent.Domain.{Time}
use oopsys_agent.Database.{Database, AgentIdentity}
use oopsys_agent.Tokens.{
  Reads, CreatedToken, create_token, ensure_identity, get_agent_id, revoke_token,
}

pub data Command : Type 0 where
  run token_list token_revoke : Command
  token_create : Option String → Bool → Command

pub record Exit : Type 0 where
  pub code : ℕ
  pub output : List String

-- `print(f"{label}{value or '-'}")`
abbrev pub or_dash : Option String → String
or_dash none = "-"
or_dash (some s) = if is_truthy s then s else "-"

abbrev pub refused_lines : List String
refused_lines =
    "An active token already exists. Use --force to revoke it and create a new one." ∷ []

abbrev pub created_lines : String → CreatedToken → List String
created_lines agent_id created =
    "Token created (shown only once, store it now):"
    ∷ ("  agent_id: " <> agent_id)
    ∷ ("  token:    " <> created.token)
    ∷ []

-- `isoformat` is a parameter.
abbrev pub list_lines : (Time → String) → AgentIdentity → List String
list_lines isoformat a =
    ("agent_id:        " <> a.agent_id)
    ∷ ("active token:    " <> (if is_set a.token_hash then "yes" else "no"))
    ∷ ("token label:     " <> or_dash a.token_label)
    ∷ ("token created:   " <> (elim a.token_created_at [ none ↦ "-" | some t ↦ isoformat t ]))
    ∷ []

module _ (D : Database) (sha256 : List ℕ → List ℕ) where
  -- The rest of `_token_create`, by how `create_token` ended.
  abbrev pub create_ended : Reads → Result CreatedToken → Action D.Db Exit
  create_ended r (ok created) db =
      (do
        agent_id ← get_agent_id D r
        pure (record { code = 0; output = created_lines agent_id created }))
        db
  create_ended r (raised token_exists_error) db =
      (ok (record { code = 1; output = refused_lines }), db)
  create_ended r (raised exc) db = (raised exc, db)

  -- `_token_create`
  unfoldable pub run_token_create : Option String → Bool → Reads → Action D.Db Exit
  run_token_create label force r db =
      let (created, db') = create_token D label force sha256 r db in create_ended r created db'

  -- `_token_list`
  unfoldable pub run_token_list : (Time → String) → Reads → Action D.Db Exit
  run_token_list isoformat r = do
    a ← ensure_identity D r
    pure (record { code = 0; output = list_lines isoformat a })

  -- `_token_revoke`
  unfoldable pub run_token_revoke : Action D.Db Exit
  run_token_revoke = do
    revoked ← revoke_token D
    pure (record {
      code = 0;
      output = (if revoked then "Token revoked." else "No active token to revoke.") ∷ [];
    })
