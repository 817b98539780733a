-- ===== src/Scheduler/Survival.antt =====
-- That the loop runs all its turns as long as nothing is cancelled.
use oopsys_agent.Base.{
  String, ◌≡◌, refl, ◌∙◌, sym, ap, inl, inr, Bool, true, false, List, [], ◌∷◌, arith, cancelled,
  is_exception, Result, ok, raised, Result-cases, Action, >>=-ok, >>=-raised, >>=-step, lift, ◌>>=◌,
  ◌>>◌,
}
use oopsys_agent.Domain.{AgentFault, ServerMetrics, ContainerState}
use oopsys_agent.Database.{Database, IsLawful, Row}
use oopsys_agent.Nats.Brokers.{settled}
use oopsys_agent.Docker.Monitor.{collect, collect_listed}
use oopsys_agent.Docker.Collect.{IsSettled, uncancelled, build_states-survivors}
use oopsys_agent.World.{World, on_monitor}
use oopsys_agent.Events.Defs.{Dumps, Stamp, record_server_metrics, record_container_snapshot}
use oopsys_agent.Events.Outcome.{
  Event, rows_of, metrics, snapshot, fault, record_event, record_event_outcome,
}
use oopsys_agent.Scheduler.Defs.{
  Round, FaultSeen, Turn, suppress, guarded, record_fault, guard, sleep, mark_metrics,
  collect_containers, watch_containers, collect_metrics, collect_once, metrics_loop,
}
use oopsys_agent.Scheduler.Guard.{fault_of}
use oopsys_agent.Scheduler.Watched.{watch_containers-steps}

abbrev pub is_calm : {A : Type 0} → Result A → Bool
is_calm (ok _) = true
is_calm (raised e) = is_exception e

-- The call never ends in a cancellation.
abbrev pub Calm : {S A : Type 0} → Action S A → Type 0
Calm {S} m = (s : S) → is_calm (m s).0 ≡ true

>>=-Calm :
    {S A B : Type 0} (m : Action S A) (f : A → Action S B)
    → Calm m
    → ((a : A) → Calm (f a))
    → Calm (m >>= f)
>>=-Calm m f calm rest s = elim (Result-cases (m s).0) [
  | inl (a, h) ↦ rw (>>=-ok m f s h) (rest a (m s).1)
  | inr (e, h) ↦ rw (>>=-raised m f s h) (ap is_calm (sym h) ∙ calm s)
]

-- What the daemon lists, with no call cancelled.
abbrev pub listing_uncancelled : Result (List (Result ContainerState)) → Bool
listing_uncancelled (ok builds) = uncancelled builds
listing_uncancelled (raised e) = is_exception e

-- A turn in which nothing is cancelled.
pub record IsCalm (t : Turn) : Type 0 where
  pub metrics : is_calm t.round.metrics ≡ true
  pub metrics_answer : settled t.round.metrics_stamp.answer ≡ true
  pub connecting : IsSettled t.round.connecting
  pub listed : listing_uncancelled t.round.listed ≡ true
  pub snapshot_answer : settled t.round.snapshot_stamp.answer ≡ true
  pub fault_answer : settled t.fault_seen.stamp.answer ≡ true
  pub slept : t.slept ≡ true

abbrev pub AllCalm : List Turn → Type 0
AllCalm [] = Unit
AllCalm (t ∷ turns) = IsCalm t × AllCalm turns

lift-Calm : {S A : Type 0} (r : Result A) → is_calm r ≡ true → Calm (lift {S = S} r)
lift-Calm r h s = h

listed-Calm :
    (listed : Result (List (Result ContainerState)))
    → listing_uncancelled listed ≡ true
    → is_calm (collect_listed listed) ≡ true
listed-Calm (ok builds) h = rw (build_states-survivors builds h) refl
listed-Calm (raised e) h = h

collect-Calm :
    (listed : Result (List (Result ContainerState)))
    → listing_uncancelled listed ≡ true
    → Calm (collect listed)
unfolding collect
collect-Calm listed h m = ground (arith, listed-Calm listed h)

suppress-Calm : {S : Type 0} (x : Result Unit × S) → is_calm x.0 ≡ true → (suppress x).0 ≡ ok tt
suppress-Calm (ok _, s) h = refl
suppress-Calm (raised cancelled, s) h = cc
suppress-Calm (raised _, s) h = refl

sleep-Calm : {S : Type 0} (b : Bool) (s : S) → b ≡ true → sleep b s ≡ (ok tt, s)
sleep-Calm true s h = refl
sleep-Calm false s h = cc

module _ (D : Database) (L : IsLawful D) (dumps : Dumps) (prefix : String)
    (calm : (rows : List Row) (db : D.Db) → is_calm (D.commit_rows rows db) ≡ true) where
  record_event-Calm :
      (e : Event) (agent_id : String) (stamp : Stamp)
      → settled stamp.answer ≡ true
      → Calm (record_event D dumps prefix e agent_id stamp)
  record_event-Calm e agent_id stamp s w =
      elim (record_event_outcome D dumps prefix L e agent_id stamp w s) [
        | inl (_, _, _, ran) ↦ rw ran refl
        | inr (x, refused, ran) ↦
            rw ran (ap is_calm (sym refused) ∙ calm (rows_of e stamp.inserted_at) w.db)
      ]

  record_fault-Calm :
      (f : AgentFault) (stamp : Stamp) (w : World D)
      → settled stamp.answer ≡ true
      → (record_fault D dumps prefix f stamp w).0 ≡ ok tt
  unfolding record_fault record_event
  record_fault-Calm f stamp w s =
      suppress-Calm _ (record_event-Calm (fault f) w.node.runtime.agent_id stamp s w)

  collect_containers-Calm :
      (b : Bool) (r : Round)
      → listing_uncancelled r.listed ≡ true
      → settled r.snapshot_stamp.answer ≡ true
      → Calm (collect_containers D dumps prefix b r)
  unfolding record_event
  collect_containers-Calm false r hl hs w = refl
  collect_containers-Calm true r hl hs w =
      >>=-Calm (on_monitor (collect r.listed))
        (λ states.
          record_container_snapshot D dumps prefix
            (record { captured_at = r.captured_at; containers = states }) w.node.runtime.agent_id
            r.snapshot_stamp)
        (λ v. collect-Calm r.listed hl v.monitor)
        (λ states.
          record_event-Calm (snapshot (record { captured_at = r.captured_at; containers = states }))
            w.node.runtime.agent_id r.snapshot_stamp hs)
        w

  collect_metrics-Calm :
      (m : ServerMetrics) (r : Round)
      → settled r.metrics_stamp.answer ≡ true
      → Calm (collect_metrics D dumps prefix m r)
  unfolding record_event
  collect_metrics-Calm m r h w =
      >>=-Calm (record_server_metrics D dumps prefix m w.node.runtime.agent_id r.metrics_stamp)
        (λ _. mark_metrics r.metrics_at)
        (record_event-Calm (metrics m) w.node.runtime.agent_id r.metrics_stamp h) (λ _ v. refl) w

  watch_containers-Calm :
      (r : Round)
      → IsSettled r.connecting
      → listing_uncancelled r.listed ≡ true
      → settled r.snapshot_stamp.answer ≡ true
      → Calm (watch_containers D dumps prefix r)
  watch_containers-Calm r sc hl hs w =
      rw (watch_containers-steps dumps prefix L r w sc) (collect_containers-Calm _ r hl hs _)

  collect_once-Calm : (t : Turn) → IsCalm t → Calm (collect_once D dumps prefix t.round)
  unfolding collect_once
  collect_once-Calm t c =
      >>=-Calm (lift t.round.metrics)
        (λ m. collect_metrics D dumps prefix m t.round >> watch_containers D dumps prefix t.round)
        (lift-Calm t.round.metrics c.metrics)
        (λ m.
          >>=-Calm (collect_metrics D dumps prefix m t.round)
            (λ _. watch_containers D dumps prefix t.round)
            (collect_metrics-Calm m t.round c.metrics_answer)
            (λ _. watch_containers-Calm t.round c.connecting c.listed c.snapshot_answer))

  guard-Calm :
      (component operation : String) (func : Action (World D) Unit) (seen : FaultSeen) (w : World D)
      → Calm func
      → settled seen.stamp.answer ≡ true
      → (guard D dumps prefix component operation func seen w).0 ≡ ok tt
  unfolding guard
  guard-Calm component operation func seen w c s = go (func w) (c w)
    where
      go :
          (x : Result Unit × World D)
          → is_calm x.0 ≡ true
          → (guarded D dumps prefix component operation seen x).0 ≡ ok tt
      go (ok _, v) h = refl
      go (raised cancelled, v) h = cc
      go (raised exc, v) h =
          record_fault-Calm (fault_of D dumps prefix component operation seen exc) seen.stamp v s

  -- The rounds of all these turns, each behind its guard, one after the other.
  abbrev pub all_rounds : List Turn → World D → World D
  all_rounds [] w = w
  all_rounds (t ∷ turns) w =
      all_rounds turns
        (guard D dumps prefix "monitor" "collect" (collect_once D dumps prefix t.round) t.fault_seen
          w).1

  -- If no commit, no call of a round and no sleep is cancelled, the monitoring loop returns, after it
  -- has run the guarded round of every turn that it is given once, in their order, whatever psutil,
  -- Docker, the database and the queue raise in them.
  pub metrics_loop-returns :
      (turns : List Turn) (w : World D)
      → AllCalm turns
      → metrics_loop D dumps prefix turns w ≡ (ok tt, all_rounds turns w)
  unfolding metrics_loop
  metrics_loop-returns [] w c = refl
  metrics_loop-returns (t ∷ turns) w (c, rest) =
      let turn =
        guard D dumps prefix "monitor" "collect" (collect_once D dumps prefix t.round)
          t.fault_seen in
      let guarded_ok =
        guard-Calm "monitor" "collect" (collect_once D dumps prefix t.round) t.fault_seen w
          (collect_once-Calm t c) c.fault_answer in
      rw
        (
          >>=-ok turn (λ _. sleep t.slept >> metrics_loop D dumps prefix turns) w guarded_ok,
          >>=-step (sleep t.slept) (λ _. metrics_loop D dumps prefix turns) (turn w).1
              (sleep-Calm t.slept (turn w).1 c.slept),
        )
        (metrics_loop-returns turns (turn w).1 rest)
