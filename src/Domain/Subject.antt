-- ===== src/Domain/Subject.antt =====
-- Subjects of the queue: the agent and the source can be read off a subject.
use Prim.Native.Char.{Char, code}
use text.Mathlib.TextLemmas.{
  nil-append, cons-append, append_cancel_left, head-eq_of_cons-eq, tail-eq_of_cons-eq,
}
use mathlib.Core.Path.{ap₂}
use oopsys_agent.Base.{
  String, ◌<>◌, ◌≡◌, refl, sym, ap, ◌∙◌, Bool, true, not, ◌==◌, all_chars, arith, str_eq, Option,
  none, some, if◌then◌else◌,
}
use oopsys_agent.Domain.Messages.{
  Source, projects, server, docker, agent, source_value, build_subject,
}

-- No token separator of NATS stands in the text; a UUID has none.
abbrev pub undotted : String → Bool
undotted = all_chars (λ c. not (code c == code "."))

named : String → Option Source
named text =
    if str_eq text "projects"
    then some projects
    else if str_eq text "server"
    then some server
    else if str_eq text "docker"
    then some docker
    else if str_eq text "agent"
    then some agent
    else none

named-source_value : (s : Source) → named (source_value s) ≡ some s
unfolding named source_value
named-source_value projects = refl
named-source_value server = refl
named-source_value docker = refl
named-source_value agent = refl

source_value-injective : (s t : Source) → source_value s ≡ source_value t → s ≡ t
source_value-injective s t h = cc (ap named h, named-source_value s, named-source_value t)

abbrev dot : Char
dot = "."

dot_first : (s : String) → "." <> s ≡ String.◌∷◌ dot s
dot_first s = cons-append dot "" s ∙ ap (String.◌∷◌ dot) (nil-append s)

split_at_dot :
    (a b s t : String)
    → undotted a ≡ true
    → undotted b ≡ true
    → a <> ("." <> s) ≡ b <> ("." <> t)
    → (a ≡ b) × (s ≡ t)
split_at_dot String.[] String.[] s t ha hb e = (
  refl,
  tail-eq_of_cons-eq
      (sym (dot_first s) ∙ sym (nil-append ("." <> s)) ∙ e ∙ nil-append ("." <> t) ∙ dot_first t),
)
split_at_dot String.[] (String.◌∷◌ c b) s t ha hb e =
    let same : dot ≡ c =
      head-eq_of_cons-eq
        (sym (dot_first s) ∙ sym (nil-append ("." <> s)) ∙ e ∙ cons-append c b ("." <> t)) in
    ground (arith, ap code same)
split_at_dot (String.◌∷◌ c a) String.[] s t ha hb e =
    let same : c ≡ dot =
      head-eq_of_cons-eq
        (sym (cons-append c a ("." <> s)) ∙ e ∙ nil-append ("." <> t) ∙ dot_first t) in
    ground (arith, ap code same)
split_at_dot (String.◌∷◌ c a) (String.◌∷◌ d b) s t ha hb e =
    let both = sym (cons-append c a ("." <> s)) ∙ e ∙ cons-append d b ("." <> t) in
    let (rest, same) =
      split_at_dot a b s t (ground arith) (ground arith) (tail-eq_of_cons-eq both) in
    (ap₂ String.◌∷◌ (head-eq_of_cons-eq both) rest, same)

-- Two agents whose ids hold no dot use one subject only if they are the same agent and it is for the
-- same source.
pub build_subject-injective :
    (prefix a b : String) (s t : Source)
    → undotted a ≡ true
    → undotted b ≡ true
    → build_subject prefix a s ≡ build_subject prefix b t
    → (a ≡ b) × (s ≡ t)
unfolding build_subject
build_subject-injective prefix a b s t ha hb e =
    let rest = append_cancel_left ".agents." _ _ (append_cancel_left prefix _ _ e) in
    let (same_agent, same_value) = split_at_dot a b (source_value s) (source_value t) ha hb rest in
    (same_agent, source_value-injective s t same_value)
