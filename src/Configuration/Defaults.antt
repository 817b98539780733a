-- ===== src/Configuration/Defaults.antt =====
-- The defaults and the bounds of config.py's fields; a float is given by its 64 bits.
use oopsys_agent.Base.{ℕ, Bool, false, ◌&&◌, none, [], ◌∷◌, ltb, leb}
use oopsys_agent.Domain.{Float}
use oopsys_agent.Configuration.{
  ApplicationModel, SqliteModel, NatsModel, ServerModel, IntervalsModel, AgentModel, Configuration,
}

abbrev five : Float
five = 4617315517961601024

abbrev ten : Float
ten = 4621819117588971520

abbrev thirty : Float
thirty = 4629137466983448576

abbrev sixty : Float
sixty = 4633641066610819072

abbrev infinity : Float
infinity = 9218868437227405312

-- `gt=0`: neither a zero, a negative number nor no number
abbrev pub is_positive : Float → Bool
is_positive f = ltb 0 f && leb f infinity

-- `ge=1, le=65535`
abbrev pub is_port : ℕ → Bool
is_port port = leb 1 port && leb port 65535

abbrev pub default_application : ApplicationModel
default_application = record { host = "0.0.0.0"; port = 8080 }

abbrev pub default_sqlite : SqliteModel
default_sqlite = record { path = "data/oopsys-agent.db"; driver = "sqlite+aiosqlite" }

abbrev pub default_nats : NatsModel
default_nats = record {
  servers = "nats://localhost:4222" ∷ [];
  stream = "OOPSYS";
  subject_prefix = "oopsys";
  durable = "oopsys-forwarder";
  connect_timeout = five;
  publish_timeout = five;
  ack_wait = sixty;
}

abbrev pub default_server : ServerModel
default_server = record {
  url = "http://oopsys-server:8000";
  ingest_path = "/agents/ingest";
  timeout = ten;
}

abbrev pub default_intervals : IntervalsModel
default_intervals = record { metrics_seconds = thirty; retry_base_seconds = five }

abbrev pub default_agent : AgentModel
default_agent = record { name = "oopsys-agent"; token = none }

-- What `Configuration` is where the environment sets nothing.
abbrev pub default_configuration : Configuration
default_configuration = record {
  is_development = false;
  application = default_application;
  sqlite = default_sqlite;
  nats = default_nats;
  server = default_server;
  intervals = default_intervals;
  agent = default_agent;
}

abbrev pub nats_valid : NatsModel → Bool
nats_valid m =
    is_positive m.connect_timeout && is_positive m.publish_timeout && is_positive m.ack_wait

abbrev pub intervals_valid : IntervalsModel → Bool
intervals_valid m = is_positive m.metrics_seconds && is_positive m.retry_base_seconds

-- The bounds that pydantic checks.
abbrev pub valid : Configuration → Bool
valid c =
    is_port c.application.port
    && nats_valid c.nats
    && is_positive c.server.timeout
    && intervals_valid c.intervals
