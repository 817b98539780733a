-- ===== src/Application/ServingTests.antt =====
-- The agent started, run and stopped over a database in memory.
use oopsys_agent.Base.{◌≡◌, refl, ◌⊎◌, inr, true, none, some, List, [], ◌∷◌, Result, ok, In}
use oopsys_agent.Domain.{num, null}
use oopsys_agent.Base.Int.{pos}
use oopsys_agent.Database.{commit}
use oopsys_agent.Database.Engines.{Engines}
use oopsys_agent.Database.Memory.{memory, memory-IsLawful}
use oopsys_agent.Tokens.Tests.{
  toy_digest, toy_digest-IsDigest, empty_db, reads, holder, after_create, issued, stored,
}
use oopsys_agent.Tokens.Spec.{create}
use oopsys_agent.Nats.Tests.{
  server, agent, answering, no_failure, no_server, no_failure-IsSettled, no_server-IsSettled,
}
use oopsys_agent.World.{World}
use oopsys_agent.Events.Defs.{report_row, record_error_report, enqueue}
use oopsys_agent.Events.Tests.{dumps, stamp, bare_world}
use oopsys_agent.Scheduler.Tests.{without_docker, fault_seen}
use oopsys_agent.Monitor.Tests.{classes, process}
use oopsys_agent.Api.Tests.{render, a_report}
use oopsys_agent.Api.Requests.{
  Response, Framework, IsDocumented, Request, ask_usage, send_report, handle, route, respond,
}
use oopsys_agent.Api.Decisions.{IsAdmitted, answered, unguarded}
use oopsys_agent.Application.Defs.{
  StartReads, startup, start_parts, bootstrap_identity, lifespan, ended,
}
use oopsys_agent.Database.Engines.{open_engine}
use oopsys_agent.Domain.{new_runtime}
use oopsys_agent.Tokens.Defs.{get_agent_id, ensure_identity}
use oopsys_agent.Nats.Connection.{start_gateway, connect_once, publish}
use oopsys_agent.Scheduler.Defs.{start}
use oopsys_agent.Docker.Monitor.{connect}
use oopsys_agent.Api.Routes.{accepted, receive_report}
use oopsys_agent.Application.Tests.{start_reads, ends}
use oopsys_agent.Application.Lifespan.{IsReleased}
use oopsys_agent.Application.Bootstrap.{IsNamed}
use oopsys_agent.Application.Activities.{
  Setup, Activity, requested, monitored, delivered, retried, administered, carry_out_all, serving,
}
use oopsys_agent.Application.Tidy.{fresh, left_over, lifespan-serving}
use oopsys_agent.Application.Named.{agent_id-Touches}
use oopsys_agent.Application.Guarded.{handle-carry_out_all}
use oopsys_agent.Application.Touches.{carry_out_all-Touches}
use oopsys_agent.Application.History.{report-Touches}

abbrev framework : Framework
framework = record {
  default_status = 200;
  http_exception = λ x. record { status = x.status_code; headers = x.headers; body = null };
  server_error = λ e. record { status = 500; headers = []; body = null };
  dump_usage = λ u. num (pos u.num_threads);
}

framework-IsDocumented : IsDocumented framework
framework-IsDocumented = record { success = refl; refusal = λ x. refl; failure = λ e. refl }

abbrev setup : Setup
setup = record {
  server = server;
  agent = agent;
  routers = record {
    sha256 = toy_digest;
    render = render;
    classes = classes;
    dumps = dumps;
    prefix = "oopsys";
    framework = framework;
  };
}

-- The queue comes up late; meanwhile a report comes, a round of the monitoring, and a guess.
abbrev day : List Activity
day =
    requested (send_report a_report stamp)
    ∷ retried no_server
    ∷ monitored (record { round = without_docker; fault_seen = fault_seen; slept = true })
    ∷ retried no_failure
    ∷ delivered (answering 200) 400 null
    ∷ requested (ask_usage (some "guess") 410 process)
    ∷ []

-- ... and someone makes a token.
abbrev administered_day : List Activity
administered_day = administered (create none true) reads ∷ day

-- The queue is not there when the agent starts.
abbrev alone : StartReads
alone = record start_reads { gateway = no_server }

abbrev started : Engines (World memory)
unfolding startup start_parts open_engine bootstrap_identity get_agent_id ensure_identity
    start_gateway connect_once start connect new_runtime
started = (startup memory toy_digest none alone (fresh memory empty_db 5)).1

lifespan-serving_example :
    let (r, p) =
      lifespan memory toy_digest none alone
        (serving memory setup administered_day)
        ends
        (fresh memory empty_db 5) in
    (r ≡ ended (ok tt) ends.container) × IsReleased p.inner × (p.engines ≡ left_over ends.container)
unfolding started startup start_parts open_engine bootstrap_identity get_agent_id ensure_identity
    start_gateway connect_once start connect new_runtime
lifespan-serving_example =
    lifespan-serving memory toy_digest setup none alone administered_day ends empty_db 5
      {v = started} refl no_server-IsSettled
      (tt, (tt, (no_server-IsSettled, (tt, (no_failure-IsSettled, (tt, (tt, tt))))))) refl refl

agent_id-Touches_example :
    let w = carry_out_all memory setup administered_day started.inner in
    (w.node.runtime.agent_id ≡ started.inner.node.runtime.agent_id)
    × IsNamed memory memory-IsLawful toy_digest started.inner.node.runtime.agent_id w.db
unfolding started startup start_parts open_engine bootstrap_identity get_agent_id ensure_identity
    start_gateway connect_once start connect new_runtime
agent_id-Touches_example =
    agent_id-Touches memory memory-IsLawful setup none alone (fresh memory empty_db 5) {v = started}
      refl (carry_out_all-Touches setup administered_day started.inner)

abbrev issued_world : World memory
issued_world = record bare_world { db = after_create }

abbrev guess : Request
guess = ask_usage (some "guess") 420 process

handle-carry_out_all_example :
    let v = carry_out_all memory setup day issued_world in
    (IsAdmitted toy_digest (some holder) guess
      × (handle memory setup.routers guess v
          ≡ answered memory setup.routers guess (unguarded memory setup.routers guess v)))
    ⊎ ((¬ IsAdmitted toy_digest (some holder) guess)
        × ((r : Response) × (r.status ≡ 401) × (handle memory setup.routers guess v ≡ (ok r, v))))
handle-carry_out_all_example =
    handle-carry_out_all memory memory-IsLawful (some holder) setup day guess issued_world
      (tt, (tt, (tt, (tt, (tt, (tt, tt)))))) toy_digest-IsDigest framework-IsDocumented stored
      (inr (issued.token, refl))

abbrev reported : Result Response × World memory
unfolding handle route respond
reported = handle memory setup.routers (send_report a_report stamp) bare_world

abbrev accepting : Response
accepting = record { status = 202; headers = []; body = accepted }

report-Touches_example :
    In (report_row a_report 300) (memory.history (carry_out_all memory setup day reported.1).db)
unfolding reported handle route respond receive_report record_error_report commit enqueue publish
report-Touches_example =
    report-Touches memory memory-IsLawful setup a_report stamp bare_world {r = accepting}
      {v = reported.1} framework-IsDocumented refl refl refl
      (carry_out_all-Touches setup day reported.1)
