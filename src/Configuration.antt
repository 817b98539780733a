-- ===== src/Configuration.antt =====
-- configuration/config.py: the settings, as pydantic holds them, and the URLs built from them.
-- Durations are floats that only libraries read.
pub mod Urls
pub mod Defaults
pub mod Loggers
pub mod Tests
use oopsys_agent.Base.{ℕ, String, ◌<>◌, Bool, Option, List, show_ℕ, rstrip}
use oopsys_agent.Domain.{Float}

pub record ApplicationModel : Type 0 where
  pub host : String
  pub port : ℕ

pub record SqliteModel : Type 0 where
  pub path : String
  pub driver : String

pub record NatsModel : Type 0 where
  pub servers : List String
  pub stream : String
  pub subject_prefix : String
  pub durable : String
  pub connect_timeout : Float
  pub publish_timeout : Float
  pub ack_wait : Float

pub record ServerModel : Type 0 where
  pub url : String
  pub ingest_path : String
  pub timeout : Float

pub record IntervalsModel : Type 0 where
  pub metrics_seconds : Float
  pub retry_base_seconds : Float

pub record AgentModel : Type 0 where
  pub name : String
  pub token : Option String

pub record Configuration : Type 0 where
  pub is_development : Bool
  pub application : ApplicationModel
  pub sqlite : SqliteModel
  pub nats : NatsModel
  pub server : ServerModel
  pub intervals : IntervalsModel
  pub agent : AgentModel

-- `ApplicationModel.url`
unfoldable pub application_url : ApplicationModel → String
application_url m = "http://" <> (m.host <> (":" <> show_ℕ m.port))

-- `SqliteModel.url`
unfoldable pub sqlite_url : SqliteModel → String
sqlite_url m = m.driver <> (":///" <> m.path)

unfoldable pub ingest_url : ServerModel → String
ingest_url m = rstrip "/" m.url <> m.ingest_path
