-- ===== src/Docker/Documented/Ports.antt =====
-- The ports of a container: each with `null`, or with the host's addresses that it is bound to.
use Prim.Native.Char.{Char}
use text.Mathlib.TextPositions.{eq_refl}
use oopsys_agent.Base.{
  String, ◌<>◌, ◌≡◌, refl, Bool, true, false, not, ◌&&◌, ◌||◌, Bool-cases, inl, inr, some, List, [],
  ◌∷◌, ◌++◌, if◌then◌else◌, str_eq, is_truthy, ok, arith,
}
use oopsys_agent.Base.Order.{sorted, insert}
use oopsys_agent.Domain.Values.{Json, null, str, arr, obj, Items, nil, cons, Fields, end, field}
use oopsys_agent.Dynamic.Defs.{lookup, keys, items, or_else}
use oopsys_agent.Dynamic.Numbers.{Floats}
use oopsys_agent.Docker.Ports.{
  arrow, binding_items, bindings_items, port_items, add_items, ports_items, format_ports,
  format_binding, is_specific,
}

-- The texts may be empty.
pub record PortBinding : Type 0 where
  pub host_ip : String
  pub host_port : String

-- A port with its bindings.
pub record Port : Type 0 where
  pub name : String
  pub bindings : List PortBinding

abbrev pub binding_json : PortBinding → Json
binding_json b = obj (field "HostIp" (str b.host_ip) (field "HostPort" (str b.host_port) end))

abbrev pub binding_list : List PortBinding → Items
binding_list [] = nil
binding_list (b ∷ bs) = cons (binding_json b) (binding_list bs)

abbrev pub bindings_json : List PortBinding → Json
bindings_json [] = null
bindings_json (b ∷ bs) = arr (binding_list (b ∷ bs))

abbrev pub port_fields : List Port → Fields
port_fields [] = end
port_fields (p ∷ ports) = field p.name (bindings_json p.bindings) (port_fields ports)

-- An address that stands for every address of the host is left out.
abbrev pub is_any : String → Bool
is_any ip = str_eq ip "" || str_eq ip "0.0.0.0" || str_eq ip "::"

abbrev pub address : PortBinding → String
address b = if is_any b.host_ip then b.host_port else b.host_ip <> (":" <> b.host_port)

-- What a port is shown as: itself if it is not published, or else each published address.
abbrev pub published : String → List PortBinding → List String
published name [] = []
published name (b ∷ bs) =
    if is_truthy b.host_port then arrow (address b) name ∷ published name bs else published name bs

abbrev pub port_lines : String → List PortBinding → List String
port_lines name [] = name ∷ []
port_lines name (b ∷ bs) = published name (b ∷ bs)

abbrev pub bindings_at : String → List Port → List PortBinding
bindings_at name [] = []
bindings_at name (p ∷ ports) = if str_eq p.name name then p.bindings else bindings_at name ports

abbrev pub names : List Port → List String
names [] = []
names (p ∷ ports) = p.name ∷ names ports

abbrev pub all_lines : List Port → List String → List String
all_lines ports [] = []
all_lines ports (name ∷ rest) = port_lines name (bindings_at name ports) ++ all_lines ports rest

reorder : (a b c : Bool) → not (b || c || a) ≡ not (a || b || c)
reorder a b c = ground arith

is_specific-is_any :
    (c : Char) (ip : String) → is_specific (str (String.◌∷◌ c ip)) ≡ not (is_any (String.◌∷◌ c ip))
is_specific-is_any c ip =
    reorder (str_eq (String.◌∷◌ c ip) "") (str_eq (String.◌∷◌ c ip) "0.0.0.0")
      (str_eq (String.◌∷◌ c ip) "::")

address_lem :
    (F : Floats) (name ip port : String)
    → format_binding F name (or_else (str ip) (str "")) (str port)
      ≡ arrow (if is_any ip then port else ip <> (":" <> port)) name
address_lem F name String.[] port = refl
address_lem F name (String.◌∷◌ c ip) port = elim (Bool-cases (is_any (String.◌∷◌ c ip))) [
  | inl any ↦ rw (is_specific-is_any c ip, any) refl
  | inr one ↦ rw (is_specific-is_any c ip, one) refl
]

binding_items-binding_json :
    (F : Floats) (name : String) (b : PortBinding)
    → binding_items F name (binding_json b)
      ≡ ok (if is_truthy b.host_port then arrow (address b) name ∷ [] else [])
binding_items-binding_json F name b = elim (Bool-cases (is_truthy b.host_port)) [
  | inl bound ↦ rw (bound, address_lem F name b.host_ip b.host_port) refl
  | inr unbound ↦ rw unbound refl
]

bindings_items-binding_list :
    (F : Floats) (name : String) (bs : List PortBinding)
    → bindings_items F name (items (binding_list bs)) ≡ ok (published name bs)
bindings_items-binding_list F name [] = refl
bindings_items-binding_list F name (b ∷ bs) = elim (Bool-cases (is_truthy b.host_port)) [
  | inl bound ↦
      rw (binding_items-binding_json F name b, bindings_items-binding_list F name bs, bound) refl
  | inr unbound ↦
      rw (binding_items-binding_json F name b, bindings_items-binding_list F name bs, unbound) refl
]

port_items-bindings_json :
    (F : Floats) (name : String) (bs : List PortBinding)
    → port_items F name (bindings_json bs) ≡ ok (port_lines name bs)
unfolding port_items
port_items-bindings_json F name [] = refl
port_items-bindings_json F name (b ∷ bs) = bindings_items-binding_list F name (b ∷ bs)

-- A key is a port's name.
abbrev is_name : String → List Port → Bool
is_name key [] = false
is_name key (p ∷ ports) = str_eq p.name key || is_name key ports

lookup-port_fields :
    (key : String) (ports : List Port)
    → is_name key ports ≡ true
    → lookup key (port_fields ports) ≡ some (bindings_json (bindings_at key ports))
lookup-port_fields key [] known = ground arith
lookup-port_fields key (p ∷ ports) known = elim (Bool-cases (str_eq p.name key)) [
  | inl same ↦ rw same refl
  | inr other ↦ rw other (lookup-port_fields key ports (ground arith))
]

abbrev are_names : List String → List Port → Bool
are_names [] ports = true
are_names (key ∷ rest) ports = is_name key ports && are_names rest ports

are_names-insert :
    (key : String) (rest : List String) (ports : List Port)
    → is_name key ports ≡ true
    → are_names rest ports ≡ true
    → are_names (insert key rest) ports ≡ true
unfolding insert
are_names-insert key [] ports known all = rw known refl
are_names-insert key (x ∷ rest) ports known all = ground (arith, are_names-insert key rest ports)

are_names-sorted :
    (rest : List String) (ports : List Port)
    → are_names rest ports ≡ true
    → are_names (sorted rest) ports ≡ true
unfolding sorted
are_names-sorted [] ports all = refl
are_names-sorted (key ∷ rest) ports all =
    are_names-insert key (sorted rest) ports (ground arith)
      (are_names-sorted rest ports (ground arith))

are_names-cons :
    (rest : List String) (p : Port) (ports : List Port)
    → are_names rest ports ≡ true
    → are_names rest (p ∷ ports) ≡ true
are_names-cons [] p ports all = refl
are_names-cons (key ∷ rest) p ports all = ground (arith, are_names-cons rest p ports)

are_names-names : (ports : List Port) → are_names (names ports) ports ≡ true
are_names-names [] = refl
are_names-names (p ∷ ports) =
    rw (eq_refl p.name) (are_names-cons (names ports) p ports (are_names-names ports))

keys-port_fields : (ports : List Port) → keys (port_fields ports) ≡ names ports
keys-port_fields [] = refl
keys-port_fields (p ∷ ports) = rw (keys-port_fields ports) refl

ports_items-all_lines :
    (F : Floats) (ports : List Port) (rest : List String)
    → are_names rest ports ≡ true
    → ports_items F (port_fields ports) rest ≡ ok (all_lines ports rest)
unfolding ports_items add_items
ports_items-all_lines F ports [] all = refl
ports_items-all_lines F ports (key ∷ rest) all =
    rw
      (
        lookup-port_fields key ports (ground arith),
        port_items-bindings_json F key (bindings_at key ports),
        ports_items-all_lines F ports rest (ground arith),
      )
      refl

-- The ports in the order of their names, each as it is published.
pub format_ports-port_fields :
    (F : Floats) (ports : List Port)
    → format_ports F (port_fields ports) ≡ ok (all_lines ports (sorted (names ports)))
unfolding format_ports
format_ports-port_fields F ports = rw (keys-port_fields ports) (
    ports_items-all_lines F ports (sorted (names ports))
      (are_names-sorted (names ports) ports (are_names-names ports)))
