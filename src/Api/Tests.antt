-- ===== src/Api/Tests.antt =====
-- `require_token` at concrete data.
use oopsys_agent.Base.{◌≡◌, refl, ◌⊎◌, inr, some, ok, raised, unauthorized}
use oopsys_agent.Database.Memory.{memory, memory-IsLawful}
use oopsys_agent.Tokens.Tests.{
  toy_digest, toy_digest-IsDigest, issued, holder, after_create, stored,
}
use oopsys_agent.Api.Security.Defs.{require_token}
use oopsys_agent.Api.Security.Access.{Passes, require_token-decides}
use oopsys_agent.Base.{inl, none, other, Exc, [], ◌∷◌, ◌++◌}
use oopsys_agent.Domain.{Json, ErrorReport, error, end}
use oopsys_agent.Database.{AgentIdentity}
use oopsys_agent.Database.Memory.{Memory}
use oopsys_agent.World.{World}
use oopsys_agent.Events.Defs.{report_row}
use oopsys_agent.Events.Outcome.{report, publish_event}
use oopsys_agent.Events.Tests.{dumps, stamp, named, named_db, bare_world}
use oopsys_agent.Api.Routes.{Rendering, HealthReads, post_health, accepted, receive_report}
use oopsys_agent.Api.Health.{IsHealth, post_health-decides}
use oopsys_agent.Api.Reports.{receive_report_outcome}

require_token-decides_example :
    (Passes toy_digest (some "guess") (some holder)
      × (require_token memory toy_digest (some "guess") after_create ≡ (ok tt, after_create)))
    ⊎ ((¬ Passes toy_digest (some "guess") (some holder))
        × (require_token memory toy_digest (some "guess") after_create
            ≡ (raised unauthorized, after_create)))
require_token-decides_example =
    require_token-decides memory memory-IsLawful toy_digest toy_digest-IsDigest (some "guess")
      (some holder) after_create stored (inr (issued.token, refl))

abbrev pub render : Rendering
render = record { isoformat = λ t. "1970-01-01T00:00:00"; total_seconds = λ now then. now }

abbrev unset : AgentIdentity
unset = record named { token_hash = none }

abbrev unset_world : World memory
unset_world = record bare_world { db = record named_db { identities = λ key. some unset } }

abbrev locked : HealthReads
locked = record {
  select_one = raised (other "OperationalError" "database is locked");
  version = "0.1.0";
  now = 500;
}

post_health-decides_example :
    (Passes toy_digest none (some unset)
      × ((body : Json) × IsHealth render locked unset_world.node.runtime body
          × (post_health memory toy_digest none render locked unset_world
              ≡ (ok body, unset_world))))
    ⊎ ((¬ Passes toy_digest none (some unset))
        × (post_health memory toy_digest none render locked unset_world
            ≡ (raised unauthorized, unset_world)))
post_health-decides_example =
    post_health-decides memory memory-IsLawful toy_digest toy_digest-IsDigest none render locked
      (some unset) unset_world refl (inl refl) refl

abbrev pub a_report : ErrorReport
a_report = record {
  severity = error;
  service = "shop";
  environment = "prod";
  exception_type = "KeyError";
  message = "'cart'";
  traceback = "";
  timestamp = 299;
  context = end;
}

receive_report_outcome_example :
    ((db : Memory) × (db.rows ≡ [] ++ report_row a_report 300 ∷ [])
      × (receive_report memory dumps "oopsys" a_report stamp bare_world ≡ (
        ok accepted,
        record bare_world {
          db = db;
          node =
              (publish_event memory dumps "oopsys"
                (report a_report)
                "6f1c"
                stamp
                bare_world.node).1;
        },
      )))
    ⊎ ((x : Exc) × (memory.commit_rows (report_row a_report 300 ∷ []) named_db ≡ raised x)
        × (receive_report memory dumps "oopsys" a_report stamp bare_world ≡ (raised x, bare_world)))
receive_report_outcome_example =
    receive_report_outcome memory memory-IsLawful dumps "oopsys" a_report stamp bare_world refl
