-- ===== src/Nats/Subjects.antt =====
-- Which subjects the queue keeps. The matching of NATS is a parameter: it goes token by token, a `*`
-- stands for one token, and a `>` at the end for one token or more.
use mathlib.Core.Path.{ap₂}
use text.Mathlib.TextLemmas.{append_assoc}
use Prim.Native.Char.{code}
use oopsys_agent.Base.{
  String, ◌<>◌, ◌≡◌, refl, sym, ap, ◌∙◌, Bool, true, not, ◌&&◌, ◌==◌, List, [], ◌∷◌, is_truthy,
  all_chars, Result, ok, arith,
}
use oopsys_agent.Base.Int.{ℤ}
use oopsys_agent.Domain.{
  Source, Float, projects, server, docker, agent, source_value, build_subject,
}
use oopsys_agent.Domain.Subject.{undotted}
use oopsys_agent.Configuration.{NatsModel}
use oopsys_agent.Nats.Settings.{Settings, subject_filter, stream, broker_settings}

abbrev pub plain : String → Bool
plain = all_chars (λ c. not (code c == code "*") && not (code c == code ">"))

-- A token that is no wildcard.
pub record IsToken (t : String) : Type 0 where
  pub full : is_truthy t ≡ true
  pub undotted : undotted t ≡ true
  pub plain : plain t ≡ true

pub record IsMatching (matches : String → String → Bool) : Type 0 where
  pub literal :
      (t pattern subject : String)
      → IsToken t
      → matches (t <> ("." <> pattern)) (t <> ("." <> subject)) ≡ matches pattern subject
  pub star :
      (t pattern subject : String)
      → IsToken t
      → matches ("*" <> ("." <> pattern)) (t <> ("." <> subject)) ≡ matches pattern subject
  pub tail : (subject : String) → IsToken subject → matches ">" subject ≡ true

-- Tokens with dots between them.
abbrev pub dotted : String → List String → String
dotted t [] = t
dotted t (u ∷ us) = t <> ("." <> dotted u us)

abbrev pub AllTokens : String → List String → Type 0
AllTokens t [] = IsToken t
AllTokens t (u ∷ us) = IsToken t × AllTokens u us

source_value-IsToken : (s : Source) → IsToken (source_value s)
unfolding source_value
source_value-IsToken projects = record { full = refl; undotted = refl; plain = refl }
source_value-IsToken server = record { full = refl; undotted = refl; plain = refl }
source_value-IsToken docker = record { full = refl; undotted = refl; plain = refl }
source_value-IsToken agent = record { full = refl; undotted = refl; plain = refl }

regroup : (t d p : String) → (t <> ("." <> d)) <> ("." <> p) ≡ t <> ("." <> (d <> ("." <> p)))
regroup t d p =
    append_assoc t ("." <> d) ("." <> p) ∙ ap (λ r. t <> r) (append_assoc "." d ("." <> p))

module _ (matches : String → String → Bool) (M : IsMatching matches) where
  prefix_matches :
      (t : String) (us : List String) (pattern subject : String)
      → AllTokens t us
      → matches (dotted t us <> ("." <> pattern)) (dotted t us <> ("." <> subject))
        ≡ matches pattern subject
  prefix_matches t [] p s h = M.literal t p s h
  prefix_matches t (u ∷ us) p s (h, hs) =
      ap₂ matches (regroup t (dotted u us) p) (regroup t (dotted u us) s)
      ∙ M.literal t (dotted u us <> ("." <> p)) (dotted u us <> ("." <> s)) h
      ∙ prefix_matches u us p s hs

  agents_matches :
      (agent_id : String) (source : Source)
      → IsToken agent_id
      → matches "agents.*.>" ("agents." <> (agent_id <> ("." <> source_value source))) ≡ true
  agents_matches agent_id source h =
      let rest = agent_id <> ("." <> source_value source) in
      ap (matches "agents.*.>") (append_assoc "agents" "." rest)
      ∙ M.literal "agents" ("*" <> ("." <> ">")) rest
          (record { full = refl; undotted = refl; plain = refl })
      ∙ M.star agent_id ">" (source_value source) h
      ∙ M.tail (source_value source) (source_value-IsToken source)

  -- Where the prefix is made of tokens and the agent id is one, the subject of every event, of any
  -- source, is among those that the stream keeps and the consumer is subscribed to, which are the
  -- same: no event is published past the queue.
  pub build_subject-broker_settings :
      (to_int : Float → Result ℤ) (config : NatsModel) (t : String) (us : List String)
      (agent_id : String) (source : Source) {s : Settings}
      → broker_settings to_int config ≡ ok s
      → config.subject_prefix ≡ dotted t us
      → AllTokens t us
      → IsToken agent_id
      → (s.stream.subjects ≡ s.subscribed_subject ∷ [])
        × (matches s.subscribed_subject (build_subject config.subject_prefix agent_id source)
            ≡ true)
  unfolding build_subject broker_settings stream subject_filter
  build_subject-broker_settings to_int config t us agent_id source {s} built p hs h =
      let rest = agent_id <> ("." <> source_value source) in
      let kept : s.subscribed_subject ≡ subject_filter config.subject_prefix = ground arith in
      let same : s.stream.subjects ≡ subject_filter config.subject_prefix ∷ [] = ground arith in
      (
        same ∙ ap (λ f. f ∷ []) (sym kept),
        ap (λ f. matches f (build_subject config.subject_prefix agent_id source)) kept
            ∙ ap (λ q. matches (subject_filter q) (build_subject q agent_id source)) p
            ∙ ap (λ r. matches (subject_filter (dotted t us)) (dotted t us <> r))
                (append_assoc "." "agents." rest)
            ∙ prefix_matches t us "agents.*.>" ("agents." <> rest) hs
            ∙ agents_matches agent_id source h,
      )
