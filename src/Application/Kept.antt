-- ===== src/Application/Kept.antt =====
-- What the activities of the agent keep, however each of them ends.
use oopsys_agent.Base.{inl, inr, Bool-cases, List, [], ◌∷◌}
use oopsys_agent.Domain.{Time, Json}
use oopsys_agent.Database.{Database}
use oopsys_agent.Tokens.{Reads}
use oopsys_agent.Tokens.Spec.{Call, perform}
use oopsys_agent.Server.{Transport}
use oopsys_agent.Nats.Forward.{forward}
use oopsys_agent.Nats.Connection.{Answers, connect_once}
use oopsys_agent.Nats.Brokers.{IsSettled}
use oopsys_agent.World.{World}
use oopsys_agent.Scheduler.Defs.{collect_once}
use oopsys_agent.Scheduler.Kept.{BearsRounds, guard-Keeps, collect_once-Keeps}
use oopsys_agent.Api.Kept.{handle-Keeps}
use oopsys_agent.Application.Activities.{
  Setup, Activity, requested, monitored, delivered, retried, administered, is_waiting, carry_out,
  carry_out_all,
}

-- The rounds of the retry task among the activities are such.
abbrev pub IsRounds : (Answers → Type 0) → Activity → Type 0
IsRounds U (retried a) = U a
IsRounds U _ = Unit

abbrev pub AllRounds : (Answers → Type 0) → List Activity → Type 0
AllRounds U [] = Unit
AllRounds U (a ∷ activities) = IsRounds U a × AllRounds U activities

-- No call of a broker during a round of the retry task is cancelled.
abbrev pub AllUncancelled : List Activity → Type 0
AllUncancelled = AllRounds IsSettled

-- Whatever brokers answer.
abbrev pub IsAny : Answers → Type 0
IsAny a = Unit

one-IsAny : (a : Activity) → IsRounds IsAny a
one-IsAny (requested q) = tt
one-IsAny (monitored t) = tt
one-IsAny (delivered post now body) = tt
one-IsAny (retried a) = tt
one-IsAny (administered call r) = tt

pub all-IsAny : (activities : List Activity) → AllRounds IsAny activities
all-IsAny [] = tt
all-IsAny (a ∷ activities) = (one-IsAny a, all-IsAny activities)

-- No other process changes the identity.
abbrev pub IsOwn : Activity → Type 0
IsOwn (administered call reads) = ⊥
IsOwn _ = Unit

abbrev pub AllOwn : List Activity → Type 0
AllOwn [] = Unit
AllOwn (a ∷ activities) = IsOwn a × AllOwn activities

-- What a property of the state has to bear with, of the gateway's tasks.
pub record BearsGateway {D : Database} (c : Setup) (U : Answers → Type 0) (P : World D → Type 0)
    : Type 0 where
  pub forwarded :
      (post : Transport) (now : Time) (body : Json) (w : World D)
      → P w
      → P (record w { node = (forward c.server c.agent post now body w.node).1 })
  pub connected :
      (a : Answers) (w : World D) → U a → P w → P (record w { node = (connect_once a w.node).1 })

-- ... and of the command line.
abbrev pub BearsCalls : {D : Database} → Setup → (World D → Type 0) → Type 0
BearsCalls {D} c P =
    (call : Call) (r : Reads) (w : World D)
    → P w
    → P (record w { db = (perform c.routers.sha256 D call r w.db).1 })

module _ {D : Database} {c : Setup} {U : Answers → Type 0} {P : World D → Type 0}
    (b : BearsRounds P) (g : BearsGateway c U P) where
  own-Keeps : (a : Activity) (w : World D) → IsRounds U a → IsOwn a → P w → P (carry_out D c a w)
  unfolding carry_out
  own-Keeps (requested q) w u o p = handle-Keeps b.events c.routers q w p
  own-Keeps (monitored t) w u o p =
      guard-Keeps b c.routers.dumps c.routers.prefix "monitor" "collect"
        (collect_once D c.routers.dumps c.routers.prefix t.round) t.fault_seen
        (collect_once-Keeps b c.routers.dumps c.routers.prefix t.round) w p
  own-Keeps (delivered post now body) w u o p = g.forwarded post now body w p
  own-Keeps (retried a) w u o p = elim (Bool-cases (is_waiting w.node)) [
    | inl waiting ↦ rw waiting (g.connected a w u p)
    | inr over ↦ rw over p
  ]
  own-Keeps (administered call r) w u o p = absurd o

  -- What bears every step of the agent's own activities holds after any sequence of them.
  pub own_all-Keeps :
      (activities : List Activity) (w : World D)
      → AllRounds U activities
      → AllOwn activities
      → P w
      → P (carry_out_all D c activities w)
  unfolding carry_out_all
  own_all-Keeps [] w u o p = p
  own_all-Keeps (a ∷ activities) w (u, us) (o, os) p =
      own_all-Keeps activities (carry_out D c a w) us os (own-Keeps a w u o p)

  module _ (k : BearsCalls c P) where
    activity-Keeps : (a : Activity) (w : World D) → IsRounds U a → P w → P (carry_out D c a w)
    unfolding carry_out
    activity-Keeps (administered call r) w u p = k call r w p
    activity-Keeps a w u p = own-Keeps a w u tt p

    -- What bears the calls of the command line besides, after any activities at all.
    pub activities-Keep :
        (activities : List Activity) (w : World D)
        → AllRounds U activities
        → P w
        → P (carry_out_all D c activities w)
    unfolding carry_out_all
    activities-Keep [] w u p = p
    activities-Keep (a ∷ activities) w (u, us) p =
        activities-Keep activities (carry_out D c a w) us (activity-Keeps a w u p)
