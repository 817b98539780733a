-- ===== src/Application/Touches.antt =====
-- The steps between awaits in which the agent's tasks, and the command line, change what they share;
-- tasks that run at the same time take them in any order.
use oopsys_agent.Base.{ℕ, String, ◌≡◌, refl, List, Option, some, Result, ok}
use oopsys_agent.Domain.{Time, Json, DockerStatus}
use oopsys_agent.Database.{Database, Row, AgentIdentity, written}
use oopsys_agent.Tokens.{Reads}
use oopsys_agent.Tokens.Spec.{Call, perform}
use oopsys_agent.Server.{Transport}
use oopsys_agent.Nats.Forward.{forward}
use oopsys_agent.Nats.Connection.{Answers, connect_once, publish}
use oopsys_agent.World.{DockerMonitor, World}
use oopsys_agent.Scheduler.Kept.{BearsRounds}
use oopsys_agent.Application.Activities.{Setup, Activity, carry_out_all}
use oopsys_agent.Application.Kept.{
  IsAny, all-IsAny, AllOwn, BearsGateway, BearsCalls, activities-Keep, own_all-Keeps,
}

module _ {D : Database} (c : Setup) where
  pub data Touch (w v : World D) : Type 0 where
    -- a commit of rows, no identity among them
    committed :
        (rows : List Row) (db : D.Db)
        → ((key : ℕ) (i : Option AgentIdentity) → written key rows i ≡ i)
        → D.commit_rows rows w.db ≡ ok db
        → v ≡ record w { db = db }
        → Touch w v
    published :
        (subject : String) (payload : Json) (answer : Result Unit)
        → v ≡ record w { node = (publish subject payload answer w.node).1 }
        → Touch w v
    -- the Docker monitor connects, or fails to
    monitored : (m : DockerMonitor) → v ≡ record w { monitor = m } → Touch w v
    synced :
        (s : DockerStatus)
        → v ≡ record w { node = record w.node { runtime = record w.node.runtime { docker = s } } }
        → Touch w v
    marked :
        (now : Time)
        → v ≡ record w {
          node = record w.node { runtime = record w.node.runtime { last_metrics_at = some now } };
        }
        → Touch w v
    forwarded :
        (post : Transport) (now : Time) (body : Json)
        → v ≡ record w { node = (forward c.server c.agent post now body w.node).1 }
        → Touch w v
    connected : (a : Answers) → v ≡ record w { node = (connect_once a w.node).1 } → Touch w v
    administered :
        (call : Call) (r : Reads)
        → v ≡ record w { db = (perform c.routers.sha256 D call r w.db).1 }
        → Touch w v

  pub data Touches (w : World D) : World D → Type 0 where
    untouched : Touches w w
    then : {u v : World D} → Touches w u → Touch u v → Touches w v

  Touches-rounds : (w : World D) → BearsRounds (Touches w)
  Touches-rounds w = record {
    events = record {
      committed = λ rows u db free e t. then t (committed rows db free e refl);
      published = λ subject payload answer u t. then t (published subject payload answer refl);
    };
    monitored = λ m u t. then t (monitored m refl);
    synced = λ s u t. then t (synced s refl);
    marked = λ now u t. then t (marked now refl);
  }

  -- Any activities are such steps.
  pub carry_out_all-Touches :
      (activities : List Activity) (w : World D) → Touches w (carry_out_all D c activities w)
  carry_out_all-Touches activities w =
      activities-Keep {P = Touches w} (Touches-rounds w)
        (record {
          forwarded = λ post now body u t. then t (forwarded post now body refl);
          connected = λ a u any t. then t (connected a refl);
        })
        (λ call r u t. then t (administered call r refl)) activities w (all-IsAny activities)
        untouched

  -- No step of the command line is among them.
  abbrev pub IsOwnTouch : {w v : World D} → Touch w v → Type 0
  IsOwnTouch (administered call r same) = ⊥
  IsOwnTouch _ = Unit

  abbrev pub AllOwnTouches : {w v : World D} → Touches w v → Type 0
  AllOwnTouches untouched = Unit
  AllOwnTouches (then ts t) = AllOwnTouches ts × IsOwnTouch t

  abbrev OwnTouches : World D → World D → Type 0
  OwnTouches w v = (ts : Touches w v) × AllOwnTouches ts

  OwnTouches-rounds : (w : World D) → BearsRounds (OwnTouches w)
  OwnTouches-rounds w = record {
    events = record {
      committed =
          λ rows u db free e (ts, own). (then ts (committed rows db free e refl), (own, tt));
      published = λ subject payload answer u (ts, own).
          (then ts (published subject payload answer refl), (own, tt));
    };
    monitored = λ m u (ts, own). (then ts (monitored m refl), (own, tt));
    synced = λ s u (ts, own). (then ts (synced s refl), (own, tt));
    marked = λ now u (ts, own). (then ts (marked now refl), (own, tt));
  }

  -- The activities of the agent alone take no step of the command line.
  pub carry_out_all-OwnTouches :
      (activities : List Activity) (w : World D)
      → AllOwn activities
      → (ts : Touches w (carry_out_all D c activities w)) × AllOwnTouches ts
  carry_out_all-OwnTouches activities w os =
      own_all-Keeps {P = OwnTouches w} (OwnTouches-rounds w)
        (record {
          forwarded =
              λ post now body u (ts, own). (then ts (forwarded post now body refl), (own, tt));
          connected = λ a u any (ts, own). (then ts (connected a refl), (own, tt));
        })
        activities w (all-IsAny activities) os (untouched, tt)

  module _ {P : World D → Type 0} (b : BearsRounds P) (g : BearsGateway c IsAny P) where
    own_touch-Keeps : {w v : World D} (t : Touch w v) → IsOwnTouch t → P w → P v
    own_touch-Keeps {w} (committed rows db free e same) o p =
        rw same (b.events.committed rows w db free e p)
    own_touch-Keeps {w} (published subject payload answer same) o p =
        rw same (b.events.published subject payload answer w p)
    own_touch-Keeps {w} (monitored m same) o p = rw same (b.monitored m w p)
    own_touch-Keeps {w} (synced s same) o p = rw same (b.synced s w p)
    own_touch-Keeps {w} (marked now same) o p = rw same (b.marked now w p)
    own_touch-Keeps {w} (forwarded post now body same) o p = rw same (g.forwarded post now body w p)
    own_touch-Keeps {w} (connected a same) o p = rw same (g.connected a w tt p)
    own_touch-Keeps (administered call r same) o p = absurd o

    pub own_touches-Keep : {w v : World D} (ts : Touches w v) → AllOwnTouches ts → P w → P v
    own_touches-Keep untouched o p = p
    own_touches-Keep (then ts t) (os, o) p = own_touch-Keeps t o (own_touches-Keep ts os p)

    module _ (k : BearsCalls c P) where
      touch-Keeps : {w v : World D} → Touch w v → P w → P v
      touch-Keeps {w} (administered call r same) p = rw same (k call r w p)
      touch-Keeps t p = own_touch-Keeps t tt p

      -- What bears each kind of step is kept by any of them, in any order.
      pub touches-Keep : {w v : World D} → Touches w v → P w → P v
      touches-Keep untouched p = p
      touches-Keep (then ts t) p = touch-Keeps t (touches-Keep ts p)
