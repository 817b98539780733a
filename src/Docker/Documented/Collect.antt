-- ===== src/Docker/Documented/Collect.antt =====
-- `collect` of documented containers.
use oopsys_agent.Base.{ℕ, String, ◌≡◌, refl, true, Option, some, List, [], ◌∷◌, Result, ok}
use oopsys_agent.Base.Results.{◌>>=◌}
use oopsys_agent.Domain.Values.{Time}
use oopsys_agent.Domain.{ContainerState}
use oopsys_agent.World.{DockerMonitor}
use oopsys_agent.Dynamic.Numbers.{Floats}
use oopsys_agent.Docker.Monitor.{collect}
use oopsys_agent.Docker.Collect.{survivors, uncancelled, build_states-survivors}
use oopsys_agent.Docker.State.{Validator}
use oopsys_agent.Docker.Listing.{Inspection, build_each, collect_inspected}
use oopsys_agent.Docker.Documented.Usage.{Answer, asked}
use oopsys_agent.Docker.Documented.Container.{Container, IsDocumented, inspect_json, reported}
use oopsys_agent.Docker.Documented.Build.{IsFaithful, usage_in, build_state-inspect_json}

-- A container, the answer about its statistics, and when it is inspected.
pub record Listed : Type 0 where
  pub container : Container
  pub answer : Result Answer
  pub now : Time

abbrev pub inspections : List Listed → List Inspection
inspections [] = []
inspections (l ∷ ls) =
    record { shown = ok (inspect_json l.container); asked = asked l.answer; now = l.now }
    ∷ inspections ls

abbrev pub AreDocumented : List Listed → Type 0
AreDocumented [] = Unit
AreDocumented (l ∷ ls) = IsDocumented l.container × AreDocumented ls

module _ (F : Floats) (fromisoformat : String → Option Time) where
  -- What each is reported as, or what its statistics raise.
  abbrev pub reports : List Listed → List (Result ContainerState)
  reports [] = []
  reports (l ∷ ls) =
      (usage_in F l.container.status l.answer >>= λ u.
      ok (reported fromisoformat l.container u l.now))
      ∷ reports ls

  pub build_each-inspections :
      (V : Validator)
      → IsFaithful V
      → (ls : List Listed) → AreDocumented ls
      → build_each F V fromisoformat (inspections ls) ≡ reports ls
  build_each-inspections V faithful [] all = refl
  build_each-inspections V faithful (l ∷ ls) (d, all) =
      rw
        (
          build_state-inspect_json F V fromisoformat faithful l.container d l.answer l.now,
          build_each-inspections V faithful ls all,
        )
        refl

  -- With a client, a validation that keeps what is of the right type, and any listing of documented
  -- containers of which none is cancelled meanwhile, `collect` returns, in the listing's order, what
  -- each container is to be reported as, leaves out just those whose statistics raise, and leaves the
  -- monitor as it was.
  collect-inspections :
      (V : Validator)
      → IsFaithful V
      → (ls : List Listed) → AreDocumented ls
      → uncancelled (reports ls) ≡ true
      → (m : DockerMonitor) (client : ℕ) → m.client ≡ some client
      → collect_inspected F V fromisoformat (ok (inspections ls)) m
        ≡ (ok (survivors (reports ls)), m)
  unfolding collect_inspected collect
  collect-inspections V faithful ls all calm m client held =
      rw (held, build_each-inspections V faithful ls all, build_states-survivors (reports ls) calm)
        refl
