-- ===== src/Scheduler/Defs.antt =====
-- `AgentScheduler`: the monitoring loop, its guard and the round that it repeats. What psutil, aiodocker,
-- the database and the clock give in a round is given to the functions as data; logging is left out.
use oopsys_agent.Base.{
  String, ◌≡◌, refl, Bool, true, false, some, List, [], ◌∷◌, Exc, cancelled, Result, ok, raised,
  Action, pure, lift, ◌>>=◌, ◌>>◌, >>=-step,
}
use oopsys_agent.Domain.{Time, AgentFault, error, from_exception, ServerMetrics, ContainerState}
use oopsys_agent.Database.{Database}
use oopsys_agent.Docker.Monitor.{ConnectAnswers, connect, collect, close}
use oopsys_agent.World.{World, on_monitor}
use oopsys_agent.Events.Defs.{
  Dumps, Stamp, record_server_metrics, record_container_snapshot, record_agent_fault,
}

-- What one round reads from outside.
pub record Round : Type 0 where
  pub metrics : Result ServerMetrics
  pub metrics_stamp : Stamp
  pub metrics_at : Time
  pub connecting : ConnectAnswers
  pub listed : Result (List (Result ContainerState))
  pub captured_at : Time
  pub snapshot_stamp : Stamp

-- What recording a fault reads from outside: the traceback's text, the clock and a stamp.
pub record FaultSeen : Type 0 where
  pub traceback : Exc → String
  pub occurred_at : Time
  pub stamp : Stamp

-- A turn of the loop; `slept` says whether its sleep ends by itself, or else is cancelled.
pub record Turn : Type 0 where
  pub round : Round
  pub fault_seen : FaultSeen
  pub slept : Bool

-- `except Exception`, with nothing raised in it.
abbrev pub suppress : {S : Type 0} → Result Unit × S → Result Unit × S
suppress (raised cancelled, s) = (raised cancelled, s)
suppress (raised _, s) = (ok tt, s)
suppress (ok _, s) = (ok tt, s)

-- `asyncio.sleep`
abbrev pub sleep : {S : Type 0} → Bool → Action S Unit
sleep true s = (ok tt, s)
sleep false s = (raised cancelled, s)

module _ {D : Database} where
  -- `self._runtime.docker` takes what `self._docker` says.
  abbrev pub sync_docker : Action (World D) Unit
  sync_docker w = (
    ok tt,
    record w {
      node = record w.node {
        runtime = record w.node.runtime {
          docker = record { available = w.monitor.available; reason = w.monitor.reason };
        };
      };
    },
  )

  abbrev pub mark_metrics : Time → Action (World D) Unit
  mark_metrics now w = (
    ok tt,
    record w {
      node = record w.node { runtime = record w.node.runtime { last_metrics_at = some now } };
    },
  )

  abbrev pub connect_unless : Bool → ConnectAnswers → Action (World D) Unit
  connect_unless true answers w = (ok tt, w)
  connect_unless false answers w = (on_monitor (connect answers) >> pure tt) w

  unfoldable pub start : ConnectAnswers → Action (World D) Unit
  start answers = do on_monitor (connect answers); sync_docker

  -- `suppress(asyncio.CancelledError, Exception)` around the `await` of each task, by how the tasks end
  -- once they are cancelled.
  abbrev pub await_tasks : List (Result Unit) → Action (World D) Unit
  await_tasks [] w = (ok tt, w)
  await_tasks (ok _ ∷ tasks) w = await_tasks tasks w
  await_tasks (raised _ ∷ tasks) w = await_tasks tasks w

  -- `stop`. What the tasks still do before they end is done before.
  unfoldable pub stop : List (Result Unit) → Result Unit → Action (World D) Unit
  stop tasks answer = do await_tasks tasks; on_monitor (close answer)

  await_tasks-returns :
      (tasks : List (Result Unit)) (w : World D) → await_tasks tasks w ≡ (ok tt, w)
  await_tasks-returns [] w = refl
  await_tasks-returns (ok _ ∷ tasks) w = await_tasks-returns tasks w
  await_tasks-returns (raised _ ∷ tasks) w = await_tasks-returns tasks w

  -- However the tasks end, `stop` closes the monitor.
  pub stop-close :
      (tasks : List (Result Unit)) (answer : Result Unit) (w : World D)
      → stop tasks answer w ≡ on_monitor (close answer) w
  unfolding stop
  stop-close tasks answer w =
      >>=-step (await_tasks tasks) (λ _. on_monitor (close answer)) w (await_tasks-returns tasks w)

module _ (D : Database) (dumps : Dumps) (prefix : String) where
  -- `_record_fault`
  unfoldable pub record_fault : AgentFault → Stamp → Action (World D) Unit
  record_fault fault stamp w =
      suppress (record_agent_fault D dumps prefix fault w.node.runtime.agent_id stamp w)

  abbrev pub guarded : String → String → FaultSeen → Result Unit × World D → Result Unit × World D
  guarded component operation seen (ok _, w) = (ok tt, w)
  guarded component operation seen (raised cancelled, w) = (raised cancelled, w)
  guarded component operation seen (raised exc, w) =
      record_fault
        (from_exception exc component operation error (seen.traceback exc) seen.occurred_at)
        seen.stamp w

  -- `_guard`
  unfoldable pub guard : String → String → Action (World D) Unit → FaultSeen → Action (World D) Unit
  guard component operation func seen w = guarded component operation seen (func w)

  abbrev pub collect_containers : Bool → Round → Action (World D) Unit
  collect_containers false r w = (ok tt, w)
  collect_containers true r w =
      (do
        states ← on_monitor (collect r.listed)
        record_container_snapshot D dumps prefix
            (record { captured_at = r.captured_at; containers = states }) w.node.runtime.agent_id
            r.snapshot_stamp)
        w

  abbrev pub watch_containers : Round → Action (World D) Unit
  watch_containers r w =
      (do
        connect_unless w.monitor.available r.connecting
        sync_docker
        λ w'. collect_containers w'.monitor.available r w')
        w

  abbrev pub collect_metrics : ServerMetrics → Round → Action (World D) Unit
  collect_metrics metrics r w =
      (do
        record_server_metrics D dumps prefix metrics w.node.runtime.agent_id r.metrics_stamp
        mark_metrics r.metrics_at)
        w

  -- `_collect_once`
  unfoldable pub collect_once : Round → Action (World D) Unit
  collect_once r = do metrics ← lift r.metrics; collect_metrics metrics r; watch_containers r

  -- `_metrics_loop`, for as many turns as are given.
  unfoldable pub metrics_loop : List Turn → Action (World D) Unit
  metrics_loop [] = pure tt
  metrics_loop (t ∷ turns) = do
    guard "monitor" "collect" (collect_once t.round) t.fault_seen
    sleep t.slept
    metrics_loop turns
