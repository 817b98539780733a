-- ===== src/Nats/SubjectTests.antt =====
-- A matching of subjects that works on characters, which shows that the assumptions on NATS can be met.
use Prim.Native.Char.{Char, code}
use text.Mathlib.TextLemmas.{nil-append, cons-append}
use mathlib.Core.Path.{ap₂}
use oopsys_agent.Base.{
  String, ◌<>◌, ◌≡◌, refl, sym, ap, ◌∙◌, Bool, true, false, not, ◌&&◌, ◌==◌, [], ◌∷◌, is_truthy,
  Result, ok, arith,
}
use oopsys_agent.Base.Int.{ℤ, pos, negsuc}
use oopsys_agent.Domain.{Float, server, build_subject}
use oopsys_agent.Domain.Subject.{undotted}
use oopsys_agent.Configuration.{NatsModel}
use oopsys_agent.Nats.Settings.{Settings, broker_settings, stream, subject_filter}
use oopsys_agent.Nats.Subjects.{plain, IsToken, IsMatching, build_subject-broker_settings}

abbrev skip : String → String
skip String.[] = String.[]
skip (String.◌∷◌ c s) = elim (code c == code ".") [ true ↦ String.◌∷◌ c s | false ↦ skip s ]

abbrev first_is : Char → (String → Bool) → String → Bool
first_is c rest String.[] = false
first_is c rest (String.◌∷◌ d s) = (code c == code d) && rest s

abbrev matches : String → String → Bool
matches String.[] s = not (is_truthy s)
matches (String.◌∷◌ c p) s = elim (code c == code ">") [
  | true ↦ is_truthy s
  | false ↦ elim (code c == code "*") [
    | true ↦ matches p (skip s)
    | false ↦ first_is c (matches p) s
  ]
]

matches_same :
    (c : Char) (p s : String)
    → not (code c == code "*") && not (code c == code ">") ≡ true
    → matches (String.◌∷◌ c p) (String.◌∷◌ c s) ≡ matches p s
matches_same c p s h = ground arith

matches_dot : (p s : String) → matches ("." <> p) ("." <> s) ≡ matches p s
matches_dot p s =
    ap₂ matches (cons-append "." String.[] p ∙ ap (String.◌∷◌ ".") (nil-append p))
      (cons-append "." String.[] s ∙ ap (String.◌∷◌ ".") (nil-append s))
    ∙ matches_same "." p s refl

matches_literal :
    (t p s : String) → plain t ≡ true → matches (t <> ("." <> p)) (t <> ("." <> s)) ≡ matches p s
matches_literal String.[] p s h =
    ap₂ matches (nil-append ("." <> p)) (nil-append ("." <> s)) ∙ matches_dot p s
matches_literal (String.◌∷◌ c t) p s h =
    ap₂ matches (cons-append c t ("." <> p)) (cons-append c t ("." <> s))
    ∙ matches_same c (t <> ("." <> p)) (t <> ("." <> s)) (ground arith)
    ∙ matches_literal t p s (ground arith)

dot_first : (s : String) → "." <> s ≡ String.◌∷◌ "." s
dot_first s = cons-append "." String.[] s ∙ ap (String.◌∷◌ ".") (nil-append s)

skip_dot : (s : String) → skip ("." <> s) ≡ "." <> s
skip_dot s = ap skip (dot_first s) ∙ sym (dot_first s)

skip_other :
    (c : Char) (s : String) → not (code c == code ".") ≡ true → skip (String.◌∷◌ c s) ≡ skip s
skip_other c s h = ground arith

skip_token : (t s : String) → undotted t ≡ true → skip (t <> ("." <> s)) ≡ "." <> s
skip_token String.[] s h = ap skip (nil-append ("." <> s)) ∙ skip_dot s
skip_token (String.◌∷◌ c t) s h =
    ap skip (cons-append c t ("." <> s))
    ∙ skip_other c (t <> ("." <> s)) (ground arith)
    ∙ skip_token t s (ground arith)

matches_star :
    (t p s : String)
    → undotted t ≡ true
    → matches ("*" <> ("." <> p)) (t <> ("." <> s)) ≡ matches p s
matches_star t p s h =
    ap (λ q. matches q (t <> ("." <> s)))
      (cons-append "*" String.[] ("." <> p) ∙ ap (String.◌∷◌ "*") (nil-append ("." <> p)))
    ∙ ap (matches ("." <> p)) (skip_token t s h)
    ∙ matches_dot p s

matches-IsMatching : IsMatching matches
matches-IsMatching = record {
  literal = λ t p s h. matches_literal t p s h.plain;
  star = λ t p s h. matches_star t p s h.undotted;
  tail = λ s h. h.full;
}

abbrev config : NatsModel
config = record {
  servers = "nats://oopsys-nats:4222" ∷ [];
  stream = "OOPSYS";
  subject_prefix = "acme.oopsys";
  durable = "forwarder";
  connect_timeout = 2;
  publish_timeout = 5;
  ack_wait = 30;
}

abbrev cut_float : Float → Result ℤ
cut_float f = ok (pos f)

abbrev settings : Settings
settings = record {
  servers = config.servers;
  connect_timeout = pos 2;
  max_reconnect_attempts = 1;
  stream = record { name = "OOPSYS"; subjects = "acme.oopsys.agents.*.>" ∷ []; declare = true };
  declared_subject = "acme.oopsys.agents._declare";
  subscribed_subject = "acme.oopsys.agents.*.>";
  durable = "forwarder";
  pull_sub = true;
  nack_on_error = true;
  ack_wait = 30;
  max_deliver = negsuc 0;
}

plain-IsToken : (t : String) → is_truthy t ≡ true → undotted t ≡ true → plain t ≡ true → IsToken t
plain-IsToken t f u p = record { full = f; undotted = u; plain = p }

build_subject-broker_settings_example :
    (settings.stream.subjects ≡ settings.subscribed_subject ∷ [])
    × (matches settings.subscribed_subject (build_subject "acme.oopsys" "6f1c" server) ≡ true)
unfolding broker_settings stream subject_filter
build_subject-broker_settings_example =
    build_subject-broker_settings matches matches-IsMatching cut_float config "acme" ("oopsys" ∷ [])
      "6f1c" server {s = settings} refl refl
      (plain-IsToken "acme" refl refl refl, plain-IsToken "oopsys" refl refl refl)
      (plain-IsToken "6f1c" refl refl refl)
