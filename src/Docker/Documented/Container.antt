-- ===== src/Docker/Documented/Container.antt =====
-- A container as the daemon's `inspect` describes it, and the state that is to be reported of it.
use oopsys_agent.Base.{
  ℕ, String, ◌≡◌, false, Option, none, some, List, [], ◌∷◌, if◌then◌else◌, is_truthy,
}
use oopsys_agent.Base.Int.{ℤ, pos}
use oopsys_agent.Base.Order.{sorted}
use oopsys_agent.Base.Text.{starts_with, replace_char, take_chars}
use oopsys_agent.Domain.Values.{Time, Json, str, num, obj, Fields, end, field}
use oopsys_agent.Domain.Messages.{ContainerState}
use oopsys_agent.Docker.Documented.Ports.{Port, port_fields, names, all_lines}
use oopsys_agent.Docker.Documented.Usage.{Usage}

-- `name` is without the slash that the daemon puts before it.
pub record Container : Type 0 where
  pub id : String
  pub name : String
  pub image : String
  pub status : String
  pub started_at : String
  pub restarts : ℕ
  pub labels : List (String × String)
  pub ports : List Port
  pub health : Option String

-- An id has 64 characters at most, and a name does not start with a slash.
pub record IsDocumented (c : Container) : Type 0 where
  pub id : take_chars 64 c.id ≡ c.id
  pub name : starts_with "/" c.name ≡ false

abbrev pub label_fields : List (String × String) → Fields
label_fields [] = end
label_fields ((key, value) ∷ labels) = field key (str value) (label_fields labels)

-- A container without a health check has no `Health`.
abbrev pub health_fields : Option String → Fields
health_fields none = end
health_fields (some health) = field "Health" (obj (field "Status" (str health) end)) end

abbrev pub inspect_json : Container → Json
inspect_json c = obj (
    field "Id" (str c.id) (
      field "Name" (str (String.◌∷◌ "/" c.name)) (
        field "RestartCount" (num (pos c.restarts)) (
          field "State"
            (obj (
              field "Status" (str c.status)
                (field "StartedAt" (str c.started_at) (health_fields c.health))))
            (field "Config"
              (obj (field "Image" (str c.image) (field "Labels" (obj (label_fields c.labels)) end)))
              (field "NetworkSettings" (obj (field "Ports" (obj (port_fields c.ports)) end))
                end))))))

abbrev pub integer : Option ℕ → Option ℤ
integer none = none
integer (some n) = some (pos n)

-- The year 1 stands for a container that was never started.
abbrev pub start : (String → Option Time) → String → Option Time
start fromisoformat s =
    if is_truthy s
    then (if starts_with "0001-01-01" s then none else fromisoformat (replace_char "Z" "+00:00" s))
    else none

-- The state that is to be reported.
abbrev pub reported : (String → Option Time) → Container → Usage → Time → ContainerState
reported fromisoformat c u now = record {
  container_id = c.id;
  name = c.name;
  image = c.image;
  status = c.status;
  started_at = start fromisoformat c.started_at;
  restarts = pos c.restarts;
  cpu_percent = u.cpu;
  mem_percent = u.mem_percent;
  mem_usage = integer u.mem_usage;
  net_rx = integer u.net_rx;
  net_tx = integer u.net_tx;
  blk_read = integer u.blk_read;
  blk_write = integer u.blk_write;
  labels = c.labels;
  ports = all_lines c.ports (sorted (names c.ports));
  health = c.health;
  captured_at = now;
}
