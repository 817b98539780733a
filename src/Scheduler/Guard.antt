-- ===== src/Scheduler/Guard.antt =====
-- What the guard lets out, and that the loop outlives what a round raises.
use oopsys_agent.Base.{
  String, ◌≡◌, refl, ◌∙◌, ap, ◌⊎◌, inl, inr, Bool, true, false, List, [], ◌∷◌, ◌++◌, Exc, cancelled,
  is_exception, Result, ok, raised, Action, >>=-ok, >>=-raised, ◌>>◌,
}
use oopsys_agent.Domain.{AgentFault, error, from_exception}
use oopsys_agent.Database.{Database, IsLawful}
use oopsys_agent.Nats.Brokers.{settled}
use oopsys_agent.World.{World}
use oopsys_agent.Events.Defs.{Dumps, fault_row}
use oopsys_agent.Events.Outcome.{fault, record_event, record_event_outcome}
use oopsys_agent.Scheduler.Defs.{
  FaultSeen, Turn, suppress, guarded, record_fault, guard, sleep, collect_once, metrics_loop,
}

-- An outcome that no `Exception` is.
abbrev pub Quiet : Result Unit → Type 0
Quiet r = (r ≡ ok tt) ⊎ (r ≡ raised cancelled)

suppress-Quiet : {S : Type 0} (x : Result Unit × S) → Quiet (suppress x).0
suppress-Quiet (ok _, s) = inl refl
suppress-Quiet (raised cancelled, s) = inr refl
suppress-Quiet (raised _, s) = inl refl

suppress-raised :
    {S : Type 0} (x : Exc) (s : S)
    → (suppress (raised x, s) ≡ (ok tt, s))
      ⊎ ((x ≡ cancelled) × (suppress (raised x, s) ≡ (raised cancelled, s)))
suppress-raised cancelled s = inr (refl, refl)
suppress-raised x s = inl refl

module _ (D : Database) (dumps : Dumps) (prefix : String) where
  -- The fault that the guard records for an exception.
  abbrev pub fault_of : String → String → FaultSeen → Exc → AgentFault
  fault_of component operation seen exc =
      from_exception exc component operation error (seen.traceback exc) seen.occurred_at

  guarded-raised :
      (component operation : String) (seen : FaultSeen) (exc : Exc) (v : World D)
      → is_exception exc ≡ true
      → guarded D dumps prefix component operation seen (raised exc, v)
        ≡ record_fault D dumps prefix (fault_of component operation seen exc) seen.stamp v
  guarded-raised component operation seen cancelled v e = cc
  guarded-raised component operation seen exc v e = refl

  guarded-Quiet :
      (component operation : String) (seen : FaultSeen) (x : Result Unit × World D)
      → Quiet (guarded D dumps prefix component operation seen x).0
  unfolding record_fault
  guarded-Quiet component operation seen (ok _, w) = inl refl
  guarded-Quiet component operation seen (raised cancelled, w) = inr refl
  guarded-Quiet component operation seen (raised exc, w) = suppress-Quiet _

  -- A guarded call that raises an `Exception` is recorded, and what recording raises is let out only
  -- if it is a cancellation; provided that the publication of the fault is not cancelled. Either the
  -- fault's commit returns: then the guard returns, and just the fault is added to the history. Or
  -- the commit raises: then nothing is changed after the call, and the guard returns, or is cancelled
  -- as the commit was.
  pub guard_outcome :
      (L : IsLawful D) (component operation : String) (func : Action (World D) Unit)
      (seen : FaultSeen) (w : World D) {exc : Exc} {v : World D}
      → func w ≡ (raised exc, v)
      → is_exception exc ≡ true
      → settled seen.stamp.answer ≡ true
      → let run = guard D dumps prefix component operation func seen w in
        let row = fault_row (fault_of component operation seen exc) in
        ((run.0 ≡ ok tt) × (D.history run.1.db ≡ D.history v.db ++ row ∷ []))
        ⊎ (((x : Exc) × (D.commit_rows (row ∷ []) v.db ≡ raised x))
            × ((run ≡ (ok tt, v))
                ⊎ ((D.commit_rows (row ∷ []) v.db ≡ raised cancelled)
                    × (run ≡ (raised cancelled, v)))))
  unfolding guard record_fault record_event
  guard_outcome L component operation func seen w {exc} {v} h e s =
      let f = fault_of component operation seen exc in
      let step =
        ap (guarded D dumps prefix component operation seen) h
        ∙ guarded-raised component operation seen exc v e in
      elim (record_event_outcome D dumps prefix L (fault f) v.node.runtime.agent_id seen.stamp v
        s) [
          | inl (db, committed, grown, ran) ↦
              let run = step ∙ ap suppress ran in
              inl (
                ap (λ (x : Result Unit × World D). x.0) run,
                ap (λ (x : Result Unit × World D). D.history x.1.db) run ∙ grown,
              )
          | inr (x, refused, ran) ↦
              let run = step ∙ ap suppress ran in
              inr (
                (x, refused),
                elim (suppress-raised x v) [
                  | inl quiet ↦ inl (run ∙ quiet)
                  | inr (same, out) ↦ inr (refused ∙ ap raised same, run ∙ out)
                ],
              )
        ]

  >>=-Quiet :
      {S : Type 0} (m k : Action S Unit) (s : S)
      → Quiet (m s).0
      → ((t : S) → Quiet (k t).0)
      → Quiet ((m >> k) s).0
  >>=-Quiet m k s q rest = elim q [
    | inl done ↦ rw (>>=-ok m (λ _. k) s done) (rest (m s).1)
    | inr cut ↦ rw (>>=-raised m (λ _. k) s cut) (inr refl)
  ]

  sleep-Quiet : (slept : Bool) (w : World D) → Quiet (sleep slept w).0
  sleep-Quiet true w = inl refl
  sleep-Quiet false w = inr refl

  -- However many turns are given, and whatever psutil, Docker, the database and the queue raise in
  -- them: the monitoring loop returns at their end, or it ends in a cancellation. No `Exception` of a
  -- round ends it.
  metrics_loop_ends :
      (turns : List Turn) (w : World D) → Quiet (metrics_loop D dumps prefix turns w).0
  unfolding metrics_loop guard
  metrics_loop_ends [] w = inl refl
  metrics_loop_ends (t ∷ turns) w =
      >>=-Quiet
        (guard D dumps prefix "monitor" "collect" (collect_once D dumps prefix t.round)
          t.fault_seen)
        (sleep t.slept >> metrics_loop D dumps prefix turns) w
        (guarded-Quiet "monitor" "collect" t.fault_seen (collect_once D dumps prefix t.round w))
        (λ v.
          >>=-Quiet (sleep t.slept) (metrics_loop D dumps prefix turns) v (sleep-Quiet t.slept v)
            (metrics_loop_ends turns))
