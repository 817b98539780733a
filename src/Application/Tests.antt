-- ===== src/Application/Tests.antt =====
-- The start and the end over a database in memory.
use oopsys_agent.Base.{cancelled, [], ◌∷◌, ◌≡◌, refl, true, some, ok, raised, other}
use oopsys_agent.Database.Memory.{memory, memory-IsLawful}
use oopsys_agent.Tokens.Defs.{get_agent_id, reconcile_env_token, verify_token, ensure_identity}
use oopsys_agent.Tokens.Tests.{toy_digest, toy_digest-IsDigest, empty_db, reads}
use oopsys_agent.Nats.Connection.{Answers}
use oopsys_agent.Docker.Samples.{no_daemon}
use oopsys_agent.World.{World}
use oopsys_agent.Events.Tests.{bare_world}
use oopsys_agent.Application.Defs.{StartReads, EndAnswers, bootstrap_identity}
use oopsys_agent.Application.Bootstrap.{IsNamed, bootstrap_identity-accepts}

abbrev no_failure : Answers
no_failure = record { stop_old = ok tt; connect = ok tt; start = ok tt; stop_new = ok tt }

abbrev pub start_reads : StartReads
start_reads = record {
  engine = record {
    sqlite_path = "data/oopsys-agent.db";
    create_engine = ok tt;
    make_directory = ok tt;
    create_tables = ok tt;
  };
  identity = reads;
  reconciling = reads;
  gateway = no_failure;
  docker = no_daemon;
}

abbrev fresh_world : World memory
fresh_world = record bare_world { db = empty_db }

abbrev bootstrapped : World memory
unfolding bootstrap_identity get_agent_id reconcile_env_token ensure_identity
bootstrapped = (bootstrap_identity memory toy_digest (some "s3cret") start_reads fresh_world).1

bootstrap_identity-accepts_example :
    IsNamed memory memory-IsLawful toy_digest bootstrapped.node.runtime.agent_id bootstrapped.db
    × (verify_token memory toy_digest "s3cret" bootstrapped.db ≡ (ok true, bootstrapped.db))
unfolding bootstrapped bootstrap_identity get_agent_id reconcile_env_token ensure_identity
bootstrap_identity-accepts_example =
    bootstrap_identity-accepts memory memory-IsLawful toy_digest toy_digest-IsDigest "s3cret"
      start_reads fresh_world {v = bootstrapped} refl refl

abbrev pub ends : EndAnswers
ends = record {
  tasks = raised cancelled ∷ [];
  docker = ok tt;
  broker = raised (other "TimeoutError" "");
  container = ok tt;
}
