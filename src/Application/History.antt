-- ===== src/Application/History.antt =====
-- What stays in the history while the agent runs.
use mathlib.Core.List.{append-nil, append_assoc}
use mathlib.Core.Path.{subst}
use oopsys_agent.Base.{
  ◌≡◌, refl, sym, ap, ◌∙◌, inl, inr, true, List, [], ◌∷◌, ◌++◌, Exc, unauthorized, cancelled,
  Result, ok, raised, In, In-append_left, In-append_right, arith,
}
use oopsys_agent.Domain.{ErrorReport, Json}
use oopsys_agent.Database.{Database, IsLawful, Row, history_rows}
use oopsys_agent.Tokens.Kept.{history-perform}
use oopsys_agent.Nats.Brokers.{settled}
use oopsys_agent.World.{World}
use oopsys_agent.Events.Defs.{Stamp, report_row}
use oopsys_agent.Scheduler.Kept.{BearsRounds}
use oopsys_agent.Api.Requests.{
  Routers, Response, Framework, IsDocumented, http_unauthorized, send_report, respond, route,
  handle,
}
use oopsys_agent.Api.Reports.{receive_report_outcome}
use oopsys_agent.Application.Activities.{Setup}
use oopsys_agent.Application.Touches.{Touches, touches-Keep}
use oopsys_agent.Application.Kept.{IsAny, BearsGateway, BearsCalls}

module _ (D : Database) (L : IsLawful D) where
  -- The history has grown from these rows.
  abbrev Grown : List Row → World D → Type 0
  Grown old w = (new : List Row) × (D.history w.db ≡ old ++ new)

  Grown-commit :
      (old rows : List Row) (w : World D) (db : D.Db)
      → D.commit_rows rows w.db ≡ ok db
      → Grown old w
      → Grown old (record w { db = db })
  Grown-commit old rows w db e (new, h) = (
    new ++ history_rows rows,
    L.history-commit rows w.db db e
        ∙ ap (λ l. l ++ history_rows rows) h
        ∙ append_assoc old new (history_rows rows),
  )

  Grown-rounds : (old : List Row) → BearsRounds (Grown old)
  Grown-rounds old = record {
    events = record {
      committed = λ rows w db free e g. Grown-commit old rows w db e g;
      published = λ subject payload answer w g. g;
    };
    monitored = λ m w g. g;
    synced = λ s w g. g;
    marked = λ now w g. g;
  }

  Grown-gateway : (c : Setup) (old : List Row) → BearsGateway c IsAny (Grown old)
  Grown-gateway c old = record { forwarded = λ post now body w g. g; connected = λ a w s g. g }

  Grown-calls : (c : Setup) (old : List Row) → BearsCalls c (Grown old)
  Grown-calls c old call r w (new, h) = (new, history-perform D L c.routers.sha256 call r w.db ∙ h)

  -- Whatever the tasks of the agent and the command line do at once, in steps that interleave in any
  -- order, and however each ends: no row of the history is changed or lost, and new ones come after the
  -- old ones.
  history-Touches :
      (c : Setup) {w v : World D}
      → Touches c w v
      → (new : List Row) × (D.history v.db ≡ D.history w.db ++ new)
  history-Touches c {w} touches =
      touches-Keep c (Grown-rounds (D.history w.db)) (Grown-gateway c (D.history w.db))
        (Grown-calls c (D.history w.db)) touches ([], sym (append-nil (D.history w.db)))

  -- An exception is answered with another status than a report that is accepted.
  respond-raised :
      (f : Framework) (x : Exc) {r : Response}
      → IsDocumented f
      → respond f 202 (raised x) ≡ ok r
      → r.status ≡ 202
      → ⊥
  unfolding respond
  respond-raised f unauthorized d e h = ground (arith, d.refusal http_unauthorized)
  respond-raised f cancelled d e h = cc
  respond-raised f x d e h = ground (arith, d.failure x)

  accepted-In :
      (a : Routers) (report : ErrorReport) (stamp : Stamp) (w : World D) {r : Response}
      {v : World D}
      → IsDocumented a.framework
      → settled stamp.answer ≡ true
      → handle D a (send_report report stamp) w ≡ (ok r, v)
      → r.status ≡ 202
      → In (report_row report stamp.inserted_at) (D.history v.db)
  unfolding handle route
  accepted-In a report stamp w {r} {v} d s e h =
      let row = report_row report stamp.inserted_at in
      elim (receive_report_outcome D L a.dumps a.prefix report stamp w s) [
        | inl (db, grown, ran) ↦
            subst (λ (x : Result Response × World D). In row (D.history x.1.db)) e
              (rw (ran, grown) (In-append_right row (D.history w.db) (row ∷ []) (inl refl)))
        | inr (x, _, ran) ↦ absurd (
            respond-raised a.framework x d
              (ap (λ (y : Result Json × World D). respond a.framework 202 y.0) (sym ran)
                ∙ ap (λ (y : Result Response × World D). y.0) e)
              h)
      ]

  -- A report that is answered 202 is in the history, and is still there after whatever steps the tasks
  -- of the agent and the command line take then, in any order; the publication of the report is taken
  -- not to be cancelled.
  pub report-Touches :
      (c : Setup) (report : ErrorReport) (stamp : Stamp) (w : World D) {r : Response}
      {v u : World D}
      → IsDocumented c.routers.framework
      → settled stamp.answer ≡ true
      → handle D c.routers (send_report report stamp) w ≡ (ok r, v)
      → r.status ≡ 202
      → Touches c v u
      → In (report_row report stamp.inserted_at) (D.history u.db)
  report-Touches c report stamp w {r} {v} {u} d s e h touches =
      let row = report_row report stamp.inserted_at in
      let (new, after) = history-Touches c touches in
      rw after
        (In-append_left row (D.history v.db) new (accepted-In c.routers report stamp w d s e h))
