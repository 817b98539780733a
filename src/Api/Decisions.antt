-- ===== src/Api/Decisions.antt =====
-- Which requests are served.
use oopsys_agent.Base.{
  ℕ, ◌≡◌, refl, ap, ◌⊎◌, inl, inr, Option, List, unauthorized, Result, ok, raised, Action, >>=-step,
  >>=-stop,
}
use oopsys_agent.Domain.{Json}
use oopsys_agent.Database.{Database, IsLawful, AgentIdentity}
use oopsys_agent.Tokens.Hash.{IsDigest}
use oopsys_agent.Tokens.History.{IsHashed}
use oopsys_agent.World.{World, on_db}
use oopsys_agent.Api.Security.{require_token}
use oopsys_agent.Api.Security.Access.{Passes, require_token-decides}
use oopsys_agent.Api.Routes.{health, post_health, receive_report, uptime_seconds}
use oopsys_agent.Api.Health.{on_db-fixed}
use oopsys_agent.Monitor.Defs.{AgentUsage, collect_agent_usage}
use oopsys_agent.Monitor.Usage.{post_usage-decides}
use oopsys_agent.Api.Requests.{
  Request, Response, Routers, IsDocumented, http_unauthorized, get_ping, ask_health, ask_usage,
  send_report, ping, respond, dumped, route_status, route, handle,
}

-- The route of the request wants no token, or the credentials that come with it pass.
abbrev pub IsAdmitted : (List ℕ → List ℕ) → Option AgentIdentity → Request → Type 0
IsAdmitted sha256 i get_ping = Unit
IsAdmitted sha256 i (ask_health credentials reads) = Passes sha256 credentials i
IsAdmitted sha256 i (ask_usage credentials now reads) = Passes sha256 credentials i
IsAdmitted sha256 i (send_report report stamp) = Unit

module _ (D : Database) (a : Routers) where
  -- The handlers, were no route to want a token.
  abbrev pub unguarded : Request → Action (World D) Json
  unguarded get_ping w = (ok ping, w)
  unguarded (ask_health credentials reads) w = health D a.render reads w
  unguarded (ask_usage credentials now reads) w = (
    dumped a.framework.dump_usage
        (collect_agent_usage a.classes reads (uptime_seconds a.render now w.node.runtime)),
    w,
  )
  unguarded (send_report report stamp) w = receive_report D a.dumps a.prefix report stamp w

  -- The answer to a request, from how its handler ended.
  abbrev pub answered : Request → Result Json × World D → Result Response × World D
  answered q (r, w) = (respond a.framework (route_status D a q) r, w)

  module _ (L : IsLawful D) (H : IsDigest a.sha256) where
    route-decides :
        (q : Request) (i : Option AgentIdentity) (w : World D)
        → D.select_identity 1 w.db ≡ ok i
        → IsHashed a.sha256 i
        → (IsAdmitted a.sha256 i q × (route D a q w ≡ unguarded q w))
          ⊎ ((¬ IsAdmitted a.sha256 i q) × (route D a q w ≡ (raised unauthorized, w)))
    unfolding route post_health
    route-decides get_ping i w h hashed = inl (tt, refl)
    route-decides (ask_health credentials reads) i w h hashed =
        let checking : Action (World D) Unit = on_db (require_token D a.sha256 credentials) in
        elim (require_token-decides D L a.sha256 H credentials i w.db h hashed) [
          | inl (passes, ran) ↦ inl (
            passes,
            >>=-step checking (λ _. health D a.render reads) w
                (on_db-fixed (require_token D a.sha256 credentials) w ran),
          )
          | inr (fails, ran) ↦ inr (
            fails,
            >>=-stop checking (λ _. health D a.render reads) w
                (on_db-fixed (require_token D a.sha256 credentials) w ran),
          )
        ]
    route-decides (ask_usage credentials now reads) i w h hashed =
        let dump : Result AgentUsage × World D → Result Json × World D =
          λ (r, v). (dumped a.framework.dump_usage r, v) in
        elim (post_usage-decides D L a.sha256 H credentials a.classes a.render now reads i w h
          hashed) [
            | inl (passes, ran) ↦ inl (passes, ap dump ran)
            | inr (fails, ran) ↦ inr (fails, ap dump ran)
          ]
    route-decides (send_report report stamp) i w h hashed = inl (tt, refl)

    -- Where the stored digest, if any, is that of some token: a request to a route that wants a token,
    -- with credentials that do not pass, is answered 401 and changes nothing, and any other request
    -- is served just as if its route wanted no token.
    pub handle-decides :
        (q : Request) (i : Option AgentIdentity) (w : World D)
        → IsDocumented a.framework
        → D.select_identity 1 w.db ≡ ok i
        → IsHashed a.sha256 i
        → (IsAdmitted a.sha256 i q × (handle D a q w ≡ answered q (unguarded q w)))
          ⊎ ((¬ IsAdmitted a.sha256 i q)
              × ((r : Response) × (r.status ≡ 401) × (handle D a q w ≡ (ok r, w))))
    unfolding handle respond
    handle-decides q i w f h hashed = elim (route-decides q i w h hashed) [
      | inl (admitted, ran) ↦ inl (admitted, ap (answered q) ran)
      | inr (refused, ran) ↦ inr (
        refused,
        (
          a.framework.http_exception http_unauthorized,
          f.refusal http_unauthorized,
          ap (answered q) ran,
        ),
      )
    ]
