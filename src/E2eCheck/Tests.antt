-- ===== src/E2eCheck/Tests.antt =====
-- The script where the server is down for three attempts.
use oopsys_agent.Base.{◌≡◌, refl, [], ◌∷◌, ok, raised, other, false, arith}
use oopsys_agent.Configuration.{ServerModel}
use oopsys_agent.Nats.Tests.{no_failure, no_failure-IsSettled}
use oopsys_agent.E2eCheck.{Confirmation, E2eReads, e2e_message, phase3, main}
use oopsys_agent.Nats.Connection.{start_gateway, connect_once, publish}
use oopsys_agent.Nats.Drain.{drain}
use oopsys_agent.E2eCheck.Passes.{main-passes}

abbrev local_server : ServerModel
local_server = record { url = "http://127.0.0.1:18099"; ingest_path = "/ingest"; timeout = 3 }

abbrev confirmed : Confirmation
confirmed = record { answer = ok tt; kept = false }

abbrev script_reads : E2eReads
script_reads = record {
  gateway = no_failure;
  delivered = 2;
  refused = 3;
  recovered = 1;
  first = confirmed;
  second = confirmed;
  now = 5;
}

main-passes_example :
    (main local_server script_reads ≡ ok tt)
    × ((phase3 local_server script_reads).pending ≡ [])
    × ((phase3 local_server script_reads).accepted
        ≡ e2e_message "server" 2 ∷ e2e_message "projects" 1 ∷ [])
main-passes_example =
    main-passes local_server script_reads no_failure-IsSettled refl refl refl (ground arith)
      (ground arith)

-- The queue does not store the first message: the first assertion on it fails.
abbrev unstored : E2eReads
unstored = record script_reads {
  first = record { answer = raised (other "TimeoutError" ""); kept = false };
}

unstored_fails : main local_server unstored ≡ raised (other "AssertionError" "")
unfolding main start_gateway connect_once publish drain
unstored_fails = refl
