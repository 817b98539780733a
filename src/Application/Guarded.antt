-- ===== src/Application/Guarded.antt =====
-- Who is served while the agent runs.
use oopsys_agent.Base.{◌≡◌, ap, ◌∙◌, ◌⊎◌, Option, List, ok}
use oopsys_agent.Database.{Database, IsLawful, AgentIdentity}
use oopsys_agent.Tokens.Hash.{IsDigest}
use oopsys_agent.Tokens.History.{IsHashed}
use oopsys_agent.World.{World}
use oopsys_agent.Scheduler.Kept.{BearsRounds}
use oopsys_agent.Api.Requests.{Request, Response, IsDocumented, handle}
use oopsys_agent.Api.Decisions.{IsAdmitted, unguarded, answered, handle-decides}
use oopsys_agent.Application.Activities.{Setup, Activity, carry_out_all}
use oopsys_agent.Application.Touches.{
  Touches, AllOwnTouches, own_touches-Keep, carry_out_all-OwnTouches,
}
use oopsys_agent.Application.Kept.{IsAny, AllOwn, BearsGateway}

module _ (D : Database) (L : IsLawful D) (i : Option AgentIdentity) where
  -- The stored identity is this one.
  abbrev Stored : World D → Type 0
  Stored w = D.select_identity 1 w.db ≡ ok i

  Stored-rounds : BearsRounds Stored
  Stored-rounds = record {
    events = record {
      committed = λ rows w db free e h. L.select-commit 1 rows w.db db i e h ∙ ap ok (free 1 i);
      published = λ subject payload answer w h. h;
    };
    monitored = λ m w h. h;
    synced = λ s w h. h;
    marked = λ now w h. h;
  }

  Stored-gateway : (c : Setup) → BearsGateway c IsAny Stored
  Stored-gateway c = record { forwarded = λ post now body w h. h; connected = λ a w s h. h }

  -- The same in steps of its tasks that interleave in any order, none of the command line.
  handle-Touches :
      (c : Setup) (q : Request) {w v : World D} (touches : Touches c w v)
      → AllOwnTouches c touches
      → IsDigest c.routers.sha256
      → IsDocumented c.routers.framework
      → D.select_identity 1 w.db ≡ ok i
      → IsHashed c.routers.sha256 i
      → (IsAdmitted c.routers.sha256 i q
          × (handle D c.routers q v ≡ answered D c.routers q (unguarded D c.routers q v)))
        ⊎ ((¬ IsAdmitted c.routers.sha256 i q)
            × ((r : Response) × (r.status ≡ 401) × (handle D c.routers q v ≡ (ok r, v))))
  handle-Touches c q {w} {v} touches own digest documented h hashed =
      handle-decides D c.routers L digest q i v documented
        (own_touches-Keep c Stored-rounds (Stored-gateway c) touches own h) hashed

  -- Nothing that the agent does by itself, requests from anyone included, changes who is served: after
  -- any activities of it, in any order and however each ends, but none of the command line, a request
  -- is served just as if its route wanted no token, if its route wants none or if its credentials pass
  -- against the identity that was stored before them all; and any other request is answered 401 and
  -- changes nothing. Provided that the stored identity could be read then, that it held no digest but
  -- one of a token, and that FastAPI answers as documented.
  pub handle-carry_out_all :
      (c : Setup) (activities : List Activity) (q : Request) (w : World D)
      → AllOwn activities
      → IsDigest c.routers.sha256
      → IsDocumented c.routers.framework
      → D.select_identity 1 w.db ≡ ok i
      → IsHashed c.routers.sha256 i
      → let v = carry_out_all D c activities w in
        (IsAdmitted c.routers.sha256 i q
          × (handle D c.routers q v ≡ answered D c.routers q (unguarded D c.routers q v)))
        ⊎ ((¬ IsAdmitted c.routers.sha256 i q)
            × ((r : Response) × (r.status ≡ 401) × (handle D c.routers q v ≡ (ok r, v))))
  handle-carry_out_all c activities q w own =
      let (steps, all_own) = carry_out_all-OwnTouches c activities w own in
      handle-Touches c q steps all_own
