-- ===== src/Domain/Tests.antt =====
-- Subjects of two agents.
use oopsys_agent.Base.{String, ◌≡◌, refl}
use oopsys_agent.Domain.Messages.{Source, docker, source_value, build_subject}
use oopsys_agent.Domain.Subject.{build_subject-injective}

build_subject_text : build_subject "oopsys" "6f1c" docker ≡ "oopsys.agents.6f1c.docker"
unfolding build_subject source_value
build_subject_text = refl

build_subject-injective_example :
    (◌≡◌ {A = String} "6f1c" "6f1c") × (◌≡◌ {A = Source} docker docker)
build_subject-injective_example =
    build_subject-injective "oopsys" "6f1c" "6f1c" docker docker refl refl refl
