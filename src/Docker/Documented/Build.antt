-- ===== src/Docker/Documented/Build.antt =====
-- `_build_state` of a documented container.
use oopsys_agent.Base.{
  ℕ, String, ◌≡◌, refl, Bool-cases, inl, inr, Option, none, some, List, if◌then◌else◌, str_eq,
  Result, ok, raised,
}
use oopsys_agent.Base.Int.{ℤ, pos}
use oopsys_agent.Base.Order.{sorted}
use oopsys_agent.Base.Strip.{lstrip-slash}
use oopsys_agent.Base.Results.{◌>>=◌}
use oopsys_agent.Domain.Values.{Time, Json, null, str, num, obj, Fields, end, field}
use oopsys_agent.Dynamic.Defs.{or_else, empty_dict}
use oopsys_agent.Dynamic.Numbers.{Floats}
use oopsys_agent.Docker.State.{
  Validator, Readings, Fetched, fetch, parse_started_at, readings_of, no_readings, is_dict,
  first_of, read_stats, validate, valid_health, valid_count, build_state,
}
use oopsys_agent.Docker.Documented.Ports.{port_fields, names, all_lines, format_ports-port_fields}
use oopsys_agent.Docker.Documented.Readings.{counted}
use oopsys_agent.Docker.Documented.Usage.{
  Usage, no_usage, usage_of, readings, Answer, alone, listed, stats_of, asked,
  read_stats-stats_json,
}
use oopsys_agent.Docker.Documented.Container.{
  Container, IsDocumented, inspect_json, label_fields, integer, start, reported,
}

-- pydantic takes a text for a text, an integer for an integer and a dict of texts for the labels.
pub record IsFaithful (V : Validator) : Type 0 where
  pub as_str : (s : String) → V.as_str (str s) ≡ some s
  pub as_int : (z : ℤ) → V.as_int (num z) ≡ some z
  pub as_labels :
      (labels : List (String × String)) → V.as_labels (obj (label_fields labels)) ≡ some labels

or_else-obj : (fs : Fields) → or_else (obj fs) empty_dict ≡ obj fs
or_else-obj end = refl
or_else-obj (field k j fs) = refl

parse_started_at-start :
    (fromisoformat : String → Option Time) (s : String)
    → parse_started_at fromisoformat (str s) ≡ ok (start fromisoformat s)
unfolding parse_started_at
parse_started_at-start fromisoformat String.[] = refl
parse_started_at-start fromisoformat (String.◌∷◌ c s) = refl

abbrev health_json : Option String → Json
health_json none = null
health_json (some health) = str health

abbrev fetched : (String → Option Time) → Container → Readings → Fetched
fetched fromisoformat c r = record {
  id = str c.id;
  name = c.name;
  image = str c.image;
  status = str c.status;
  started_at = start fromisoformat c.started_at;
  restarts = num (pos c.restarts);
  readings = r;
  labels = obj (label_fields c.labels);
  ports = all_lines c.ports (sorted (names c.ports));
  health = health_json c.health;
}

fetch-inspect_json :
    (F : Floats) (fromisoformat : String → Option Time) (c : Container) (asked : Result Json)
    → IsDocumented c
    → fetch F fromisoformat (ok (inspect_json c)) asked
      ≡ (readings_of F (str c.status) asked >>= λ r. ok (fetched fromisoformat c r))
unfolding fetch
fetch-inspect_json F fromisoformat c asked d = go c.health refl
  where
    go :
        (health : Option String)
        → c.health ≡ health
        → fetch F fromisoformat (ok (inspect_json c)) asked
          ≡ (readings_of F (str c.status) asked >>= λ r. ok (fetched fromisoformat c r))
    go none e =
        rw
          (
            e,
            d.id,
            lstrip-slash c.name d.name,
            parse_started_at-start fromisoformat c.started_at,
            or_else-obj (port_fields c.ports),
            format_ports-port_fields F c.ports,
            or_else-obj (label_fields c.labels),
          )
          refl
    go (some health) e =
        rw
          (
            e,
            d.id,
            lstrip-slash c.name d.name,
            parse_started_at-start fromisoformat c.started_at,
            or_else-obj (port_fields c.ports),
            format_ports-port_fields F c.ports,
            or_else-obj (label_fields c.labels),
          )
          refl

valid_count-counted :
    (V : Validator) → IsFaithful V → (n : Option ℕ) → valid_count V (counted n) ≡ ok (integer n)
valid_count-counted V faithful none = refl
valid_count-counted V faithful (some n) = rw (faithful.as_int (pos n)) refl

valid_health-health_json :
    (V : Validator)
    → IsFaithful V
    → (health : Option String) → valid_health V (health_json health) ≡ ok health
valid_health-health_json V faithful none = refl
valid_health-health_json V faithful (some health) = rw (faithful.as_str health) refl

validate-fetched :
    (V : Validator)
    → IsFaithful V
    → (fromisoformat : String → Option Time) (c : Container) (u : Usage) (now : Time)
    → validate V (fetched fromisoformat c (readings u)) now ≡ ok (reported fromisoformat c u now)
unfolding validate
validate-fetched V faithful fromisoformat c u now =
    rw
      (
        faithful.as_str c.id,
        faithful.as_str c.image,
        faithful.as_str c.status,
        faithful.as_int (pos c.restarts),
        valid_count-counted V faithful u.mem_usage,
        valid_count-counted V faithful u.net_rx,
        valid_count-counted V faithful u.net_tx,
        valid_count-counted V faithful u.blk_read,
        valid_count-counted V faithful u.blk_write,
        faithful.as_labels c.labels,
        valid_health-health_json V faithful c.health,
      )
      refl

-- What a container uses by its status and the answer about its statistics, which only that of a
-- running one matters.
abbrev pub usage_in : Floats → String → Result Answer → Result Usage
usage_in F status answer =
    if str_eq status "running" then (answer >>= λ a. usage_of F (stats_of a)) else ok no_usage

readings_of-usage_in :
    (F : Floats) (status : String) (answer : Result Answer)
    → readings_of F (str status) (asked answer)
      ≡ (usage_in F status answer >>= λ u. ok (readings u))
readings_of-usage_in F status answer = elim (Bool-cases (str_eq status "running")) [
  | inl running ↦ rw running (go answer)
  | inr idle ↦ rw idle refl
]
  where
    go :
        (answer : Result Answer)
        → (asked answer >>= λ raw.
            if is_dict (first_of raw) then read_stats F (first_of raw) else ok no_readings)
          ≡ ((answer >>= λ a. usage_of F (stats_of a)) >>= λ u. ok (readings u))
    go (ok (alone s)) = read_stats-stats_json F s
    go (ok (listed s)) = read_stats-stats_json F s
    go (raised e) = refl

-- For a container that the daemon describes as documented, with an id of 64 characters at most and a
-- name that starts with no slash, and with a validation that keeps what is of the right type: if it
-- runs and its statistics are documented ones, given alone or in a list, `_build_state` gives the
-- container's own data with the usage that those statistics mean, or raises what the daemon raised
-- instead of them or what the arithmetic on floats raised; if it does not run, it gives the data
-- without usage, whatever the answer about statistics would be.
pub build_state-inspect_json :
    (F : Floats) (V : Validator) (fromisoformat : String → Option Time)
    → IsFaithful V
    → (c : Container) → IsDocumented c
    → (answer : Result Answer) (now : Time)
    → build_state F V fromisoformat (ok (inspect_json c)) (asked answer) now
      ≡ (usage_in F c.status answer >>= λ u. ok (reported fromisoformat c u now))
unfolding build_state
build_state-inspect_json F V fromisoformat faithful c d answer now =
    rw
      (
        fetch-inspect_json F fromisoformat c (asked answer) d,
        readings_of-usage_in F c.status answer,
      )
      (go (usage_in F c.status answer))
  where
    go :
        (r : Result Usage)
        → (((r >>= λ u. ok (readings u)) >>= λ r. ok (fetched fromisoformat c r)) >>= λ f.
            validate V f now)
          ≡ (r >>= λ u. ok (reported fromisoformat c u now))
    go (ok u) = validate-fetched V faithful fromisoformat c u now
    go (raised e) = refl
