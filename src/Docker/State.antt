-- ===== src/Docker/State.antt =====
-- `_build_state` of docker.py. The daemon's two answers about a container are given; pydantic, which
-- validates the model that is built, and the parser of timestamps are parameters.
use oopsys_agent.Base.{
  ℕ, zero, suc, String, Bool, true, false, Option, none, some, List, if◌then◌else◌, Exc, other,
  Result, ok, raised,
}
use oopsys_agent.Base.Int.{ℤ, pos}
use oopsys_agent.Base.Text.{starts_with, replace_char, lstrip, take_chars}
use oopsys_agent.Base.Results.{◌>>=◌, or_raise}
use oopsys_agent.Domain.Values.{
  Time, Float, Json, null, num, float, str, arr, obj, Items, nil, cons,
}
use oopsys_agent.Domain.Messages.{ContainerState}
use oopsys_agent.Dynamic.Defs.{get, get_or, truthy, or_else, empty_dict, is_text, text_method}
use oopsys_agent.Dynamic.Numbers.{Number, int, flt, Floats}
use oopsys_agent.Docker.Stats.{cpu_percent, mem, network, block_io}
use oopsys_agent.Docker.Ports.{format_ports}

-- How pydantic reads a value for a field of a type; `none` fails the validation.
pub record Validator : Type 0 where
  pub as_str : Json → Option String
  pub as_int : Json → Option ℤ
  pub as_labels : Json → Option (List (String × String))

abbrev pub validation_error : Exc
validation_error = other "ValidationError" "validation errors for ContainerState"

abbrev pub number_json : Number → Json
number_json (int z) = num z
number_json (flt f) = float f

-- `raw[0] if isinstance(raw, list) and raw else raw`
abbrev pub first_of : Json → Json
first_of (arr (cons x xs)) = x
first_of j = j

abbrev pub is_dict : Json → Bool
is_dict (obj fs) = true
is_dict j = false

-- `j[:64]`
abbrev pub take_items : ℕ → Items → Items
take_items zero xs = nil
take_items (suc n) nil = nil
take_items (suc n) (cons x xs) = cons x (take_items n xs)

abbrev pub slice_64 : Json → Result Json
slice_64 (str s) = ok (str (take_chars 64 s))
slice_64 (arr xs) = ok (arr (take_items 64 xs))
slice_64 (obj fs) = raised (other "KeyError" "slice(None, 64, None)")
slice_64 j = raised (other "TypeError" "object is not subscriptable")

pub record Readings : Type 0 where
  pub cpu : Option Float
  pub mem_usage : Option Number
  pub mem_percent : Option Float
  pub net_rx : Option Number
  pub net_tx : Option Number
  pub blk_read : Option Number
  pub blk_write : Option Number

abbrev pub no_readings : Readings
no_readings = record {
  cpu = none;
  mem_usage = none;
  mem_percent = none;
  net_rx = none;
  net_tx = none;
  blk_read = none;
  blk_write = none;
}

-- `_format_ports` of a value that is no dict raises, or gives what is no list of texts.
abbrev pub ports_of : Floats → Json → Result (List String)
ports_of F (obj fs) = format_ports F fs
ports_of F j = raised validation_error

-- `_parse_started_at`; `none` of `fromisoformat` is its `ValueError`.
unfoldable pub parse_started_at : (String → Option Time) → Json → Result (Option Time)
parse_started_at fromisoformat raw =
    if truthy raw
    then (text_method "startswith" raw >>= λ s.
        ok (
          if starts_with "0001-01-01" s then none else fromisoformat (replace_char "Z" "+00:00" s)))
    else ok none

module _ (F : Floats) where
  unfoldable pub read_stats : Json → Result Readings
  read_stats stats = cpu_percent F stats >>= λ cpu. mem F stats >>= λ (usage, percent).
      network F stats >>= λ (rx, tx). block_io F stats >>= λ (read, write). ok (record {
        cpu = cpu;
        mem_usage = usage;
        mem_percent = percent;
        net_rx = rx;
        net_tx = tx;
        blk_read = read;
        blk_write = write;
      })

  -- The readings of a container, by its status; only of a running one the daemon is asked.
  abbrev pub readings_of : Json → Result Json → Result Readings
  readings_of status asked =
      if is_text "running" status
      then (asked >>= λ raw.
          if is_dict (first_of raw) then read_stats (first_of raw) else ok no_readings)
      else ok no_readings

-- What `_build_state` passes to `ContainerState`.
pub record Fetched : Type 0 where
  pub id : Json
  pub name : String
  pub image : Json
  pub status : Json
  pub started_at : Option Time
  pub restarts : Json
  pub readings : Readings
  pub labels : Json
  pub ports : List String
  pub health : Json

-- `_build_state` up to the call of `ContainerState`, from the answers to `show` and to `stats`.
unfoldable pub fetch : Floats → (String → Option Time) → Result Json → Result Json → Result Fetched
unfolding read_stats
fetch F fromisoformat shown asked = shown >>= λ info. get_or "State" empty_dict info >>= λ state.
    get_or "Config" empty_dict info >>= λ config.
    get_or "Status" (str "unknown") state >>= λ status. readings_of F status asked >>= λ readings.
    get_or "Id" (str "") info >>= λ id. slice_64 id >>= λ short_id.
    get_or "Name" (str "") info >>= λ named. text_method "lstrip" named >>= λ name.
    get_or "Image" (str "") config >>= λ image. get "StartedAt" state >>= λ started.
    parse_started_at fromisoformat started >>= λ started_at.
    get_or "RestartCount" (num (pos 0)) info >>= λ restarts. get "Labels" config >>= λ labels.
    get "NetworkSettings" info >>= λ settings.
    get "Ports" (or_else settings empty_dict) >>= λ ports.
    ports_of F (or_else ports empty_dict) >>= λ port_list. get "Health" state >>= λ checked.
    get "Status" (or_else checked empty_dict) >>= λ health. ok (record {
      id = short_id;
      name = lstrip "/" name;
      image = image;
      status = status;
      started_at = started_at;
      restarts = restarts;
      readings = readings;
      labels = or_else labels empty_dict;
      ports = port_list;
      health = health;
    })

module _ (V : Validator) where
  abbrev pub valid_str : Json → Result String
  valid_str j = or_raise validation_error (V.as_str j)

  abbrev pub valid_int : Json → Result ℤ
  valid_int j = or_raise validation_error (V.as_int j)

  abbrev pub valid_count : Option Number → Result (Option ℤ)
  valid_count none = ok none
  valid_count (some n) = valid_int (number_json n) >>= λ z. ok (some z)

  abbrev pub valid_health : Json → Result (Option String)
  valid_health null = ok none
  valid_health j = valid_str j >>= λ s. ok (some s)

  -- `ContainerState(…)`
  unfoldable pub validate : Fetched → Time → Result ContainerState
  validate f now = valid_str f.id >>= λ container_id. valid_str f.image >>= λ image.
      valid_str f.status >>= λ status. valid_int f.restarts >>= λ restarts.
      valid_count f.readings.mem_usage >>= λ mem_usage. valid_count f.readings.net_rx >>= λ net_rx.
      valid_count f.readings.net_tx >>= λ net_tx. valid_count f.readings.blk_read >>= λ blk_read.
      valid_count f.readings.blk_write >>= λ blk_write.
      or_raise validation_error (V.as_labels f.labels) >>= λ labels.
      valid_health f.health >>= λ health. ok (record {
        container_id = container_id;
        name = f.name;
        image = image;
        status = status;
        started_at = f.started_at;
        restarts = restarts;
        cpu_percent = f.readings.cpu;
        mem_percent = f.readings.mem_percent;
        mem_usage = mem_usage;
        net_rx = net_rx;
        net_tx = net_tx;
        blk_read = blk_read;
        blk_write = blk_write;
        labels = labels;
        ports = f.ports;
        health = health;
        captured_at = now;
      })

-- `_build_state`
unfoldable pub build_state :
    Floats
    → Validator
    → (String → Option Time)
    → Result Json
    → Result Json
    → Time
    → Result ContainerState
build_state F V fromisoformat shown asked now =
    fetch F fromisoformat shown asked >>= λ f. validate V f now
