-- ===== src/Cli/Sessions.antt =====
-- cli.py: the session that a token command runs in, and `main`, which runs the command. What the
-- settings, the engine and `create_all` do is given: each may raise.
use oopsys_agent.Base.{
  some, ℕ, suc, List, Exc, ◌⊎◌, inl, inr, Result-cases, if◌then◌else◌, false, String, ◌≡◌, Bool,
  true, Result, ok, raised, Action, lift, ◌>>◌, arith,
}
use oopsys_agent.Domain.{Time}
use oopsys_agent.Database.{Database}
use oopsys_agent.Database.Engines.{
  Engines, EngineAnswers, both, create_all, engine_disposed, inside, open_engine,
}
use oopsys_agent.Tokens.{Reads}
use oopsys_agent.Application.Defs.{finally}
use oopsys_agent.Cli.Defs.{
  Command, run, token_create, token_list, token_revoke, Exit, run_token_create, run_token_list,
  run_token_revoke,
}

pub record SessionAnswers : Type 0 where
  pub configure : Result Unit
  pub engine : EngineAnswers
  pub dispose : Result Unit

module _ {Db : Type 0} where
  -- `async with _session()` around a command.
  unfoldable pub with_session : SessionAnswers → Action Db Exit → Action (Engines Db) Exit
  with_session a command = do
    lift a.configure
    open_engine a.engine
    finally (inside command) (engine_disposed a.dispose)

module _ (D : Database) (sha256 : List ℕ → List ℕ) where
  -- `main`, when the arguments are parsed; `agent` is `_run`.
  unfoldable pub dispatch :
      Action (Engines D.Db) Exit
      → (Time → String)
      → SessionAnswers
      → Reads
      → Command
      → Action (Engines D.Db) Exit
  dispatch agent isoformat a r run = agent
  dispatch agent isoformat a r (token_create label force) =
      with_session a (run_token_create D sha256 label force r)
  dispatch agent isoformat a r token_list = with_session a (run_token_list D sha256 isoformat r)
  dispatch agent isoformat a r token_revoke = with_session a (run_token_revoke D sha256)

-- What a session does before the command.
abbrev pub opened : SessionAnswers → Result Unit
opened a = both a.configure (
    both a.engine.create_engine
      (create_all (some a.engine.sqlite_path) a.engine.make_directory a.engine.create_tables))

abbrev pub is_ok : Result Unit → Bool
is_ok (ok _) = true
is_ok (raised e) = false

-- The engines after an opening that raises: one that was made stays open.
abbrev pub engines_left : SessionAnswers → ℕ → ℕ
engines_left a n = if is_ok (both a.configure a.engine.create_engine) then suc n else n

module _ {Db : Type 0} where
  with_session-opened :
      (a : SessionAnswers) (command : Action Db Exit) (p : Engines Db)
      → a.dispose ≡ ok tt
      → opened a ≡ ok tt
      → with_session a command p ≡ ((command p.inner).0, record p { inner = (command p.inner).1 })
  unfolding with_session open_engine
  with_session-opened a command p disposed up = ground arith

  with_session-refused :
      (a : SessionAnswers) (command : Action Db Exit) (p : Engines Db) (e : Exc)
      → opened a ≡ raised e
      → ((with_session a command p).0 ≡ raised e)
        × ((with_session a command p).1.inner ≡ p.inner)
        × ((with_session a command p).1.engines ≡ engines_left a p.engines)
  unfolding with_session open_engine
  with_session-refused a command p e down = ground arith

  -- Provided that disposing of an engine does not raise, a session either opens, and then it ends as
  -- the command in it does, leaves the database as the command does and no engine open that it has
  -- made, whether the command returns or raises; or it raises what its opening raised, and then the
  -- command is not run on the database, and an engine that was already made stays open.
  pub with_session-disposes :
      (a : SessionAnswers) (command : Action Db Exit) (p : Engines Db)
      → a.dispose ≡ ok tt
      → ((opened a ≡ ok tt)
          × (with_session a command p
              ≡ ((command p.inner).0, record p { inner = (command p.inner).1 })))
        ⊎ ((e : Exc) × (opened a ≡ raised e)
            × ((with_session a command p).0 ≡ raised e)
            × ((with_session a command p).1.inner ≡ p.inner)
            × ((with_session a command p).1.engines ≡ engines_left a p.engines))
  with_session-disposes a command p disposed = elim (Result-cases (opened a)) [
    | inl (_, up) ↦ inl (up, with_session-opened a command p disposed up)
    | inr (e, down) ↦
        let (raises, unchanged, left) = with_session-refused a command p e down in
        inr (e, down, raises, unchanged, left)
  ]
