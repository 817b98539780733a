-- ===== src/Lib.antt =====
-- oopsys-agent: an agent that runs beside other services on a host. It takes error reports over
-- HTTP, measures the host and its containers, writes every event to a local SQLite history, and
-- queues it in a local NATS JetStream, from which a consumer posts it to a server.
--
-- The parts, the files that model them, and how they interact:
-- - Domain.antt, for src/oopsys_agent/domain and runtime.py: the messages as records, the severity
--   and source enums, the subjects of the queue, and the runtime state that the API reports.
-- - Configuration.antt, for src/oopsys_agent/configuration/config.py: the settings and the URLs,
--   with their defaults and bounds in Configuration/Defaults.antt. Configuration/Loggers.antt is for
--   loggers.py beside it and version.py.
-- - Database.antt, for src/oopsys_agent/database/models.py: the rows. A session is the parameter
--   `Database`: a lookup of the identity and a commit of rows, each of which may raise. `IsLawful`
--   says what is relied on, and Database/Memory.antt is an instance, one that can be full.
-- - Tokens.antt, for src/oopsys_agent/services/tokens.py: `TokenService`, one function per method,
--   with the source's names. Tokens/Spec.antt says what a call does to the identity alone.
-- - Api.antt, for src/oopsys_agent/api: security.py, which runs `TokenService.verify_token`, and in
--   Api/Routes.antt the handlers of health.py, behind that check, and reports.py, in front of
--   `EventService`. Api/Requests.antt has all routes together, and the status of each answer.
-- - Monitor.antt, for src/oopsys_agent/services/monitor.py: `SystemMonitor`, and the handler of
--   api/usage.py, which asks it.
-- - Cli.antt, for src/oopsys_agent/cli.py: the token commands over `TokenService`, and in
--   Cli/Sessions.antt the session with its engine, and the dispatch.
-- - Application.antt, for src/oopsys_agent/main.py: `main` in Application/Main.antt, and
--   `_bootstrap_identity` and `lifespan`, which start and end the parts. Database/Engines.antt has the
--   engine that dependency_injection/connections.py makes for the agent, and cli.py for a command.
--   Application/Activities.antt is what the agent does between its start and its end: requests, rounds of the monitoring, messages handed to the
--   consumer, rounds of the retry task, and calls of the command line on the same database, each a
--   whole handler of the files below, in any order.
-- - DependencyInjection.antt, for src/oopsys_agent/dependency_injection: what each provider wants, and
--   for how long its object lives.
-- - Server.antt, for src/oopsys_agent/services/server_client.py: `ServerClient`.
-- - Nats.antt, for src/oopsys_agent/services/nats.py: `NatsGateway`. Its state is `Node`, which has
--   the gateway's fields, the runtime that it shares with the rest of the agent, and what was done so
--   far: the calls of broker objects and the log. Nats/Forward.antt has the consumer's handler, which
--   uses `ServerClient.send`, Nats/Connection.antt the connection, the retry task and publishing.
--   Nats/Queue.antt puts the handler and the publisher beside a queue and a server, and
--   Nats/Drain.antt hands the pending messages over. Nats/Settings.antt is what a broker is asked for.
--   Nats/Interleaved.antt has the same methods cut at their awaits, as coroutines that interleave.
--   Of a broker it is asked whether `stop` was called on it, not how that ended, which the source
--   suppresses.
-- - E2eCheck.antt, for _e2e_check.py: the script, run on the model of the gateway and the queue.
-- - World.antt: the state that the services below share.
-- - Events.antt, for src/oopsys_agent/services/events.py: `EventService`, a commit to the history
--   followed by `NatsGateway.publish`.
-- - Docker.antt, for src/oopsys_agent/services/docker.py: the connection of `DockerMonitor`, the loop
--   of `collect` and closing in Docker/Monitor.antt, `_format_ports` in Docker/Ports.antt, the
--   readings of statistics in Docker/Stats.antt and `_build_state` in Docker/State.antt, which work on
--   any JSON, and in Docker/Listing.antt `collect` over them. Docker/Documented.antt says what the
--   daemon answers about a container, as data, and what is to be reported of it.
-- - Dynamic.antt: dicts, lists and arithmetic on values of type `Any`, with what they raise.
-- - Scheduler.antt, for src/oopsys_agent/services/scheduler.py: a round of the monitoring, which runs
--   `DockerMonitor` and `EventService`, the guard around it, and the loop.
-- - Base.antt: exceptions as values, state passing, and what is used of Python's standard library.
--
-- A method is a function from the state to how it ended, `ok` or `raised`, and the state it left, so
-- that what was written before an exception stays written. `asyncio.CancelledError` is the exception
-- `cancelled`, which `except Exception` does not catch. What a call reads from outside is an argument
-- of it: the clock, random bytes, a fresh UUID, the answer of a broker, of the Docker daemon or of
-- HTTP. SHA-256 is an argument as well, and `IsDigest` the only thing that is relied on, that it gives
-- 32 bytes. The dumps of pydantic's models to JSON are the parameter `Dumps`, and which exceptions
-- psutil's and the system's classes have is the parameter `Classes`. What FastAPI makes of an exception
-- is the parameter `Framework`, of which `IsDocumented` says what is relied on, as `IsMatching` does of
-- NATS's matching of subjects and `IsServer` of uvicorn's server. Arithmetic on floats is the parameter `Floats`, pydantic's validation of a field `Validator`, of which `IsFaithful`
-- says what is relied on, and `datetime.fromisoformat` is a function.
--
-- `while True` loops run over the list of what their rounds read, of any length. The decimal digits of
-- a number n are made on fuel n + 1, and a number has no more digits than that: Base/Decimal.antt reads
-- them back. An object of the container is made from those of its parameters on fuel, which is to be
-- above the longest chain of parameters of providers, `height` in DependencyInjection/Making.antt.
--
-- Not modelled: the parsing of requests, of settings and of the command line, which libraries do;
-- how dishka keeps the objects that it has made; the example under examples/, which is another
-- package's; asyncio's scheduling, but for the awaits of the gateway in Nats/Interleaved.antt and
-- the orders of Nats/Reach.antt, Nats/Queue.antt and Application/Activities.antt: in these a handler
-- runs to its end before the next one, although handlers may interleave where they await. The steps
-- in which they change what they share are in Application/Touches.antt, and come in any order there.
pub mod Base
pub mod Domain
pub mod Database
pub mod Dynamic
pub mod Tokens
pub mod Configuration
pub mod Server
pub mod Nats
pub mod World
pub mod Docker
pub mod Events
pub mod Scheduler
pub mod Api
pub mod Application
pub mod Cli
pub mod Monitor
pub mod E2eCheck
pub mod DependencyInjection
