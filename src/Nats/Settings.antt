-- ===== src/Nats/Settings.antt =====
-- What `NatsGateway` asks a broker for: `_stream` and `_build_broker`, as data. Cutting a float to an
-- int is a parameter.
use oopsys_agent.Base.{ℕ, String, ◌<>◌, Bool, true, List, [], ◌∷◌, Result}
use oopsys_agent.Base.Int.{ℤ, negsuc}
use oopsys_agent.Base.Results.{◌>>=◌}
use oopsys_agent.Base.{ok}
use oopsys_agent.Domain.{Float}
use oopsys_agent.Configuration.{NatsModel}

-- `faststream.nats.JStream`
pub record JStream : Type 0 where
  pub name : String
  pub subjects : List String
  pub declare : Bool

-- The arguments of the broker, of its publisher and of its subscriber.
pub record Settings : Type 0 where
  pub servers : List String
  pub connect_timeout : ℤ
  pub max_reconnect_attempts : ℕ
  pub stream : JStream
  pub declared_subject : String
  pub subscribed_subject : String
  pub durable : String
  pub pull_sub : Bool
  pub nack_on_error : Bool
  pub ack_wait : Float
  pub max_deliver : ℤ

-- `f"{subject_prefix}.agents.*.>"`
unfoldable pub subject_filter : String → String
subject_filter subject_prefix = subject_prefix <> ".agents.*.>"

-- `_stream`
unfoldable pub stream : NatsModel → JStream
stream config = record {
  name = config.stream;
  subjects = subject_filter config.subject_prefix ∷ [];
  declare = true;
}

-- `_build_broker`, up to the broker object
unfoldable pub broker_settings : (Float → Result ℤ) → NatsModel → Result Settings
broker_settings to_int config = to_int config.connect_timeout >>= λ connect_timeout. ok (record {
  servers = config.servers;
  connect_timeout = connect_timeout;
  max_reconnect_attempts = 1;
  stream = stream config;
  declared_subject = config.subject_prefix <> ".agents._declare";
  subscribed_subject = subject_filter config.subject_prefix;
  durable = config.durable;
  pull_sub = true;
  nack_on_error = true;
  ack_wait = config.ack_wait;
  max_deliver = negsuc 0;
})
