-- ===== src/Docker/Ports.antt =====
-- `_format_ports` of docker.py, on the dict of ports that the daemon gives.
use mathlib.Core.List.{Perm}
use mathlib.Core.Path.{ap₂}
use oopsys_agent.Base.{
  String, ◌<>◌, ◌≡◌, refl, ap, ◌∙◌, Bool, not, ◌&&◌, ◌||◌, List, [], ◌∷◌, ◌++◌, if◌then◌else◌,
  Result, ok,
}
use oopsys_agent.Base.Order.{sorted, sorted-Perm}
use oopsys_agent.Base.Results.{◌>>=◌}
use oopsys_agent.Domain.Values.{Json, str, obj, Fields}
use oopsys_agent.Dynamic.Defs.{
  found_at, lookup, get, subscript, truthy, or_else, is_text, iterate, keys,
}
use oopsys_agent.Dynamic.Numbers.{Floats}

-- An f-string's `{j}`
abbrev pub shown : Floats → Json → String
shown F (str s) = s
shown F j = F.show j

-- `host_ip and host_ip not in ("0.0.0.0", "::", "")`
abbrev pub is_specific : Json → Bool
is_specific host_ip =
    truthy host_ip && not (is_text "0.0.0.0" host_ip || is_text "::" host_ip || is_text "" host_ip)

abbrev pub arrow : String → String → String
arrow host container_port = host <> ("→" <> container_port)

abbrev pub format_binding : Floats → String → Json → Json → String
format_binding F container_port host_ip host_port =
    if is_specific host_ip
    then arrow (shown F host_ip <> (":" <> shown F host_port)) container_port
    else arrow (shown F host_port) container_port

module _ (F : Floats) where
  -- The items of one binding; one without a host's port has none.
  abbrev pub binding_items : String → Json → Result (List String)
  binding_items container_port binding = get "HostPort" binding >>= λ host_port.
      if truthy host_port
      then (get "HostIp" binding >>= λ host_ip.
          ok (format_binding F container_port (or_else host_ip (str "")) host_port ∷ []))
      else ok []

  abbrev pub bindings_items : String → List Json → Result (List String)
  bindings_items container_port [] = ok []
  bindings_items container_port (b ∷ bs) = binding_items container_port b >>= λ first.
      bindings_items container_port bs >>= λ rest. ok (first ++ rest)

  -- The items of one port; one that is bound to nothing is its own.
  unfoldable pub port_items : String → Json → Result (List String)
  port_items container_port bindings =
      if truthy bindings
      then (iterate bindings >>= bindings_items container_port)
      else ok (container_port ∷ [])

  -- One round of the loop, before the others.
  unfoldable pub add_items : String → Result Json → Result (List String) → Result (List String)
  unfolding port_items
  add_items container_port found others = found >>= λ bindings.
      port_items container_port bindings >>= λ first. others >>= λ rest. ok (first ++ rest)

  unfoldable pub ports_items : Fields → List String → Result (List String)
  unfolding add_items
  ports_items raw [] = ok []
  ports_items raw (container_port ∷ ports) =
      add_items container_port (subscript container_port (obj raw)) (ports_items raw ports)

  -- `_format_ports`
  unfoldable pub format_ports : Fields → Result (List String)
  unfolding ports_items
  format_ports raw = ports_items raw (sorted (keys raw))

  ports_items-lookup :
      (raw raw' : Fields)
      → ((key : String) → lookup key raw ≡ lookup key raw')
      → (ports : List String) → ports_items raw ports ≡ ports_items raw' ports
  unfolding ports_items
  ports_items-lookup raw raw' same [] = refl
  ports_items-lookup raw raw' same (p ∷ ports) =
      ap₂ (add_items p) (ap (found_at p) (same p)) (ports_items-lookup raw raw' same ports)

  -- Two dicts that are equal, with the same keys in any order and the same value at each, are
  -- reported alike: the order in which the daemon lists the ports makes no difference, neither to
  -- what is reported nor to what is raised.
  pub format_ports-Perm :
      (raw raw' : Fields)
      → Perm (keys raw) (keys raw')
      → ((key : String) → lookup key raw ≡ lookup key raw')
      → format_ports raw ≡ format_ports raw'
  unfolding format_ports
  format_ports-Perm raw raw' p same =
      ap (ports_items raw) (sorted-Perm (keys raw) (keys raw') p)
      ∙ ports_items-lookup raw raw' same (sorted (keys raw'))
