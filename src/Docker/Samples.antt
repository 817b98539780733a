-- ===== src/Docker/Samples.antt =====
-- Containers, their statistics and a daemon at concrete data.
use oopsys_agent.Base.{
  String, ◌≡◌, refl, true, false, Option, none, some, List, [], ◌∷◌, ok, raised, other,
}
use oopsys_agent.Base.Int.{pos}
use oopsys_agent.Base.Text.{starts_with, take_chars}
use oopsys_agent.Domain.Values.{Time, Json, null, num, str, obj, Fields, end, field}
use oopsys_agent.Domain.{ContainerState}
use oopsys_agent.Dynamic.Numbers.{Floats}
use oopsys_agent.Docker.Collect.{IsSettled}
use oopsys_agent.Docker.Documented.Build.{IsFaithful}
use oopsys_agent.Docker.Documented.Container.{Container, IsDocumented, label_fields}
use oopsys_agent.Docker.Documented.Ports.{bindings_json}
use oopsys_agent.Docker.Documented.Stats.{Stats}
use oopsys_agent.Docker.Documented.Usage.{alone}
use oopsys_agent.World.{DockerMonitor}
use oopsys_agent.Docker.Documented.Collect.{Listed, AreDocumented}
use oopsys_agent.Docker.Monitor.{ConnectAnswers}
use oopsys_agent.Docker.State.{Validator}

abbrev pub a_container : ContainerState
a_container = record {
  container_id = "c1";
  name = "db";
  image = "postgres:16";
  status = "running";
  started_at = some 7;
  restarts = pos 0;
  cpu_percent = none;
  mem_percent = none;
  mem_usage = none;
  net_rx = some (pos 10);
  net_tx = some (pos 20);
  blk_read = none;
  blk_write = none;
  labels = [];
  ports = "5432→5432/tcp" ∷ [];
  health = none;
  captured_at = 400;
}

abbrev pub no_daemon : ConnectAnswers
no_daemon = record {
  client = 4;
  construct = ok tt;
  version = raised (other "DockerError" "no socket");
  close = raised (other "OSError" "closed");
}

pub no_daemon-IsSettled : IsSettled no_daemon
no_daemon-IsSettled = record { construct = refl; version = refl; close = refl }

-- Arithmetic that gives no number but 42.0's bits.
abbrev pub some_floats : Floats
some_floats = record {
  sub = λ a b. ok 4631107791820423168;
  sum = λ ns. ok 4631107791820423168;
  true_div = λ a b. ok 4631107791820423168;
  mul = λ f n. ok f;
  round_2 = λ f. ok f;
  lt_zero = λ f. false;
  le_zero = λ f. false;
  show = λ j. "42.0";
}

abbrev web_bindings : Json
web_bindings = bindings_json (
    record { host_ip = "127.0.0.1"; host_port = "80" }
    ∷ record { host_ip = ""; host_port = "81" }
    ∷ [])

abbrev database_bindings : Json
database_bindings = bindings_json (record { host_ip = "::"; host_port = "5432" } ∷ [])

abbrev pub ports : Fields
ports =
    field "8080/tcp" web_bindings (field "5432/tcp" database_bindings (field "9000/udp" null end))

abbrev pub ports_again : Fields
ports_again =
    field "5432/tcp" database_bindings (field "8080/tcp" web_bindings (field "9000/udp" null end))

abbrev read_labels : Fields → Option (List (String × String))
read_labels end = some []
read_labels (field key (str value) fs) = elim (read_labels fs) [
  | none ↦ none
  | some labels ↦ some ((key, value) ∷ labels)
]
read_labels (field key j fs) = none

-- The fields of `ContainerState`, on what is already of their types.
abbrev pub strict : Validator
strict = record {
  as_str = λ j. elim j [ str s ↦ some s | _ ↦ none ];
  as_int = λ j. elim j [ num z ↦ some z | _ ↦ none ];
  as_labels = λ j. elim j [ obj fs ↦ read_labels fs | _ ↦ none ];
}

read_labels-label_fields :
    (labels : List (String × String)) → read_labels (label_fields labels) ≡ some labels
read_labels-label_fields [] = refl
read_labels-label_fields ((key, value) ∷ labels) = rw (read_labels-label_fields labels) refl

pub strict-IsFaithful : IsFaithful strict
strict-IsFaithful = record {
  as_str = λ s. refl;
  as_int = λ z. refl;
  as_labels = read_labels-label_fields;
}

abbrev pub web : Container
web = record {
  id = "c1";
  name = "web";
  image = "nginx:1";
  status = "running";
  started_at = "2026-01-01T00:00:00Z";
  restarts = 2;
  labels = ("tier", "front") ∷ [];
  ports =
      record { name = "80/tcp"; bindings = record { host_ip = "0.0.0.0"; host_port = "8080" } ∷ [] }
      ∷ [];
  health = some "healthy";
}

pub web-IsDocumented : IsDocumented web
unfolding take_chars starts_with
web-IsDocumented = record { id = refl; name = refl }

abbrev pub web_stats : Stats
web_stats = record {
  cpu = record {
    total_usage = 50;
    system_cpu_usage = some 900;
    online_cpus = 2;
    percpu_usage = [];
  };
  precpu = record {
    total_usage = 20;
    system_cpu_usage = some 600;
    online_cpus = 2;
    percpu_usage = [];
  };
  memory = some (record { usage = 700; limit = 1000; inactive_file = 200 });
  networks =
      record { name = "eth0"; rx_bytes = 7; tx_bytes = 8 }
      ∷ record { name = "eth1"; rx_bytes = 1; tx_bytes = 2 }
      ∷ [];
  blkio =
      record { op = "Read"; value = 30 }
      ∷ record { op = "write"; value = 40 }
      ∷ record { op = "read"; value = 3 }
      ∷ [];
}

abbrev pub no_parser : String → Option Time
no_parser s = some 3

abbrev old : Container
old = record web {
  name = "old";
  status = "exited";
  started_at = "0001-01-01T00:00:00Z";
  ports = [];
  health = none;
}

old-IsDocumented : IsDocumented old
unfolding take_chars starts_with
old-IsDocumented = record { id = refl; name = refl }

-- One runs, one runs but does not answer, and one is stopped.
abbrev pub listing : List Listed
listing =
    record { container = web; answer = ok (alone web_stats); now = 400 }
    ∷ record { container = web; answer = raised (other "DockerError" "timeout"); now = 401 }
    ∷ record { container = old; answer = raised (other "DockerError" "not running"); now = 402 }
    ∷ []

pub listing-AreDocumented : AreDocumented listing
listing-AreDocumented = (web-IsDocumented, (web-IsDocumented, (old-IsDocumented, tt)))

abbrev pub connected : DockerMonitor
connected = record { client = some 4; available = true; reason = none }
