-- ===== src/Monitor/Usage.antt =====
-- Who is told the agent's usage.
use oopsys_agent.Base.{
  ℕ, String, ◌≡◌, ◌⊎◌, inl, inr, Option, List, unauthorized, ok, raised, Action, lift, >>=-step,
  >>=-stop,
}
use oopsys_agent.Domain.{Time}
use oopsys_agent.Database.{Database, IsLawful, AgentIdentity}
use oopsys_agent.Tokens.Hash.{IsDigest}
use oopsys_agent.Tokens.History.{IsHashed}
use oopsys_agent.World.{World, on_db}
use oopsys_agent.Api.Security.{require_token}
use oopsys_agent.Api.Security.Access.{Passes, require_token-decides}
use oopsys_agent.Api.Routes.{Rendering, uptime_seconds}
use oopsys_agent.Api.Health.{on_db-fixed}
use oopsys_agent.Monitor.Defs.{Classes, ProcessReads, collect_agent_usage, post_usage}

module _ (D : Database) (L : IsLawful D) (sha256 : List ℕ → List ℕ) (H : IsDigest sha256) where
  -- `POST /usage` ends as the reading of the usage ends, for a request whose credentials pass, and
  -- answers every other request 401; it changes nothing.
  pub post_usage-decides :
      (credentials : Option String) (c : Classes) (render : Rendering) (now : Time)
      (r : ProcessReads) (i : Option AgentIdentity) (w : World D)
      → D.select_identity 1 w.db ≡ ok i
      → IsHashed sha256 i
      → (Passes sha256 credentials i
          × (post_usage D sha256 credentials c render now r w
              ≡ (collect_agent_usage c r (uptime_seconds render now w.node.runtime), w)))
        ⊎ ((¬ Passes sha256 credentials i)
            × (post_usage D sha256 credentials c render now r w ≡ (raised unauthorized, w)))
  unfolding post_usage
  post_usage-decides credentials c render now r i w h hashed =
      let checking : Action (World D) Unit = on_db (require_token D sha256 credentials) in
      let usage = collect_agent_usage c r (uptime_seconds render now w.node.runtime) in
      elim (require_token-decides D L sha256 H credentials i w.db h hashed) [
        | inl (passes, ran) ↦ inl (
          passes,
          >>=-step checking (λ _. lift usage) w
              (on_db-fixed (require_token D sha256 credentials) w ran),
        )
        | inr (fails, ran) ↦ inr (
          fails,
          >>=-stop checking (λ _. lift usage) w
              (on_db-fixed (require_token D sha256 credentials) w ran),
        )
      ]
