-- ===== src/Api/Security/Defs.antt =====
-- api/security.py: the check in front of `POST /health` and `POST /usage`.
use oopsys_agent.Base.{
  ℕ, String, not, Option, none, some, List, is_truthy, if◌then◌else◌, unauthorized, Action, raise,
  ◌>>=◌, raise_if,
}
use oopsys_agent.Database.{Database}
use oopsys_agent.Tokens.{verify_token}

-- The credentials are those that FastAPI's `HTTPBearer` found, if it found any.
module _ (D : Database) (sha256 : List ℕ → List ℕ) where
  unfoldable pub require_token : Option String → Action D.Db Unit
  require_token none = raise unauthorized
  require_token (some credentials) =
      if not (is_truthy credentials)
      then raise unauthorized
      else do valid ← verify_token D sha256 credentials; raise_if (not valid) unauthorized
