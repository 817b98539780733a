-- ===== src/Cli/Tests.antt =====
-- The token commands over a database in memory.
use oopsys_agent.Base.{◌≡◌, refl, ◌⊎◌, true, false, some, ok, raised, other, Exc, Action}
use oopsys_agent.Database.{AgentIdentity, commit}
use oopsys_agent.Database.Memory.{Memory, memory, memory-IsLawful}
use oopsys_agent.Tokens.Defs.{
  CreatedToken, create_token, verify_token, ensure_identity, get_agent_id,
}
use oopsys_agent.Tokens.Tests.{toy_digest, toy_digest-IsDigest, empty_db, reads, issued}
use oopsys_agent.Events.Tests.{named_db}
use oopsys_agent.Cli.Defs.{Exit, refused_lines, created_lines, run_token_create, run_token_list}
use oopsys_agent.Cli.Sessions.{
  SessionAnswers, opened, engines_left, with_session, with_session-disposes,
}
use oopsys_agent.Database.Engines.{Engines, EngineAnswers, open_engine}
use oopsys_agent.Cli.Create.{run_token_create-accepts}

abbrev printed : Exit
printed = record { code = 0; output = created_lines "6f1c" issued }

abbrev left_db : Memory
unfolding run_token_create create_token
left_db = (run_token_create memory toy_digest (some "ci") false reads empty_db).1

run_token_create-accepts_example :
    ((c : CreatedToken) × (a : AgentIdentity) × (memory.select_identity 1 left_db ≡ ok (some a))
      × (printed ≡ record { code = 0; output = created_lines a.agent_id c })
      × (verify_token memory toy_digest c.token left_db ≡ (ok true, left_db)))
    ⊎ (printed ≡ record { code = 1; output = refused_lines })
unfolding left_db run_token_create create_token ensure_identity get_agent_id commit
run_token_create-accepts_example =
    run_token_create-accepts memory memory-IsLawful toy_digest toy_digest-IsDigest (some "ci") false
      reads empty_db {x = printed} {db' = left_db} refl

abbrev process : Engines Memory
process = record { inner = named_db; engines = 0 }

abbrev engine_works : EngineAnswers
engine_works = record {
  sqlite_path = "data/oopsys-agent.db";
  create_engine = ok tt;
  make_directory = ok tt;
  create_tables = ok tt;
}

-- The file system is read-only.
abbrev read_only : SessionAnswers
read_only = record {
  configure = ok tt;
  engine = record engine_works {
    create_tables = raised (other "OperationalError" "readonly database");
  };
  dispose = ok tt;
}

abbrev list_tokens : Action Memory Exit
list_tokens = run_token_list memory toy_digest (λ t. "now") reads

with_session-disposes_example :
    ((opened read_only ≡ ok tt)
      × (with_session read_only list_tokens process
          ≡ ((list_tokens named_db).0, record process { inner = (list_tokens named_db).1 })))
    ⊎ ((e : Exc) × (opened read_only ≡ raised e)
        × ((with_session read_only list_tokens process).0 ≡ raised e)
        × ((with_session read_only list_tokens process).1.inner ≡ named_db)
        × ((with_session read_only list_tokens process).1.engines ≡ engines_left read_only 0))
with_session-disposes_example = with_session-disposes read_only list_tokens process refl

engine_leaks : (with_session read_only list_tokens process).1.engines ≡ 1
unfolding with_session open_engine
engine_leaks = refl
