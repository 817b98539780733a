-- ===== src/Configuration/Tests.antt =====
-- The URLs of the documented settings.
use oopsys_agent.Base.{true, ok, raised, other, ◌≡◌, refl, show_ℕ, rstrip}
use oopsys_agent.Base.Text.{show_fuel}
use oopsys_agent.Configuration.{ApplicationModel, ServerModel, application_url, ingest_url}
use oopsys_agent.Configuration.Defaults.{default_configuration, valid}
use oopsys_agent.Configuration.Loggers.{get_version}

abbrev everywhere : ApplicationModel
everywhere = record { host = "0.0.0.0"; port = 8080 }

everywhere_url : application_url everywhere ≡ "http://0.0.0.0:8080"
unfolding application_url show_ℕ show_fuel
everywhere_url = refl

abbrev server : ServerModel
server = record { url = "http://oopsys-server:8000"; ingest_path = "/agents/ingest"; timeout = 0 }

server_url : ingest_url server ≡ "http://oopsys-server:8000/agents/ingest"
unfolding ingest_url rstrip
server_url = refl

defaults_valid : valid default_configuration ≡ true
defaults_valid = refl

uninstalled : get_version (raised (other "PackageNotFoundError" "oopsys-agent")) ≡ ok "0.0.0"
unfolding get_version
uninstalled = refl
