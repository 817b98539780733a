-- ===== src/Configuration/Urls.antt =====
-- What the URLs of config.py tell.
use Prim.Native.String.{◌++◌ as ◌<>◌}
use mathlib.Core.Path.{◌≡◌, ap, ◌∙◌}
use oopsys_agent.Base.Decimal.{read_ℕ, read_ℕ-show_ℕ, after, after-append}
use oopsys_agent.Base.{show_ℕ}
use oopsys_agent.Configuration.{ApplicationModel, application_url}

-- The text of `application_url` behind the host and its colon, read in decimal, is the port: no digit
-- is missing, however large the port.
application_url-port :
    (m : ApplicationModel)
    → read_ℕ (after ":" (after m.host (after "http://" (application_url m)))) ≡ m.port
unfolding application_url
application_url-port m =
    ap (λ s. read_ℕ (after ":" (after m.host s)))
      (after-append "http://" (m.host <> (":" <> show_ℕ m.port)))
    ∙ ap (λ s. read_ℕ (after ":" s)) (after-append m.host (":" <> show_ℕ m.port))
    ∙ ap read_ℕ (after-append ":" (show_ℕ m.port))
    ∙ read_ℕ-show_ℕ m.port
