-- ===== src/Nats/Interleaved/Accounts.antt =====
-- Which brokers were asked to stop, however the coroutines interleave.
use oopsys_agent.Base.{
  ℕ, zero, suc, String, ◌≡◌, ◌≢◌, refl, ◌⊎◌, inl, inr, Bool, true, false, Option, none, some, List,
  [], ◌∷◌, ◌++◌, cancelled, Result, ok, raised, arith,
}
use oopsys_agent.Domain.{Json, AppRuntime}
use oopsys_agent.Nats.State.{Broker, Node, new_node}
use oopsys_agent.Nats.Brokers
use oopsys_agent.Nats.Brokers.{unstopped, held}
use oopsys_agent.Nats.Interleaved.{
  Phase, aborted, fresh, stopping, connecting, starting, giving_up, sleeping, ready, Closing, idle,
  stopping_held, over, interrupted, Machine, Event, begun, resumed, publishing, published,
  close_called, close_resumed, land, step, run,
}

-- The broker that a coroutine works on, or that is held for publications, unless `close` has begun to
-- stop it.
abbrev pub owned : Phase → Closing → Option Broker → List Broker
owned (connecting b) c o = b ∷ []
owned (starting b) c o = b ∷ []
owned ready idle o = held o
owned ready over o = held o
owned _ c o = []

-- What is held, by where the coroutines are; `_safe_close` in `_connect_once` never has anything to
-- stop, and `close` only what is held for publications.
abbrev pub Holds : Phase → Closing → Option Broker → Type 0
Holds (stopping b) c o = ⊥
Holds ready idle o = held o ≢ []
Holds ready (stopping_held b) o = o ≡ some b
Holds ready c o = Unit
Holds p (stopping_held b) o = ⊥
Holds p interrupted o = ⊥
Holds p c o = o ≡ none

abbrev pub is_aborted : Phase → Bool
is_aborted aborted = true
is_aborted _ = false

pub record IsAccounted (m : Machine) : Type 0 where
  pub no_leak : unstopped m.node.calls ≡ owned m.phase m.close m.node.gateway.broker ++ m.cut
  pub held : Holds m.phase m.close m.node.gateway.broker
  pub reported :
      (m.node.runtime.queue_connected ≡ false) ⊎ (Brokers.held m.node.gateway.broker ≢ [])
  pub cut : (m.cut ≡ []) ⊎ (is_aborted m.phase ≡ true)

abbrev at : Phase → Closing → Node → List String → List Broker → Machine
at p c n in_flight cut = record { phase = p; close = c; node = n; in_flight = in_flight; cut = cut }

Option-cases : (o : Option Broker) → (o ≡ none) ⊎ ((b : Broker) × (o ≡ some b))
Option-cases none = inl refl
Option-cases (some b) = inr (b, refl)

module _ (n : Node) (in_flight : List String) (cut : List Broker) where
  begun-IsAccounted :
      (p : Phase) (c : Closing)
      → IsAccounted (at p c n in_flight cut)
      → IsAccounted (step begun (at p c n in_flight cut))
  unfolding step
  begun-IsAccounted fresh idle a = ground arith
  begun-IsAccounted fresh over a = ground arith
  begun-IsAccounted fresh (stopping_held b) a = absurd a.held
  begun-IsAccounted fresh interrupted a = absurd a.held
  begun-IsAccounted sleeping idle a = ground arith
  begun-IsAccounted sleeping over a = ground arith
  begun-IsAccounted sleeping (stopping_held b) a = absurd a.held
  begun-IsAccounted sleeping interrupted a = absurd a.held
  begun-IsAccounted p c a = a

  resumed-IsAccounted :
      (r : Result Unit) (p : Phase) (c : Closing)
      → IsAccounted (at p c n in_flight cut)
      → IsAccounted (step (resumed r) (at p c n in_flight cut))
  unfolding step
  resumed-IsAccounted r (stopping b) c a = absurd a.held
  resumed-IsAccounted (raised cancelled) fresh c a = a
  resumed-IsAccounted (raised cancelled) ready c a = a
  resumed-IsAccounted (raised cancelled) aborted c a = a
  resumed-IsAccounted r fresh c a = a
  resumed-IsAccounted r ready c a = a
  resumed-IsAccounted r aborted c a = a
  resumed-IsAccounted r p (stopping_held b) a = absurd a.held
  resumed-IsAccounted r p interrupted a = absurd a.held
  resumed-IsAccounted (raised cancelled) (connecting b) c a = ground arith
  resumed-IsAccounted (raised cancelled) (starting b) c a = ground arith
  resumed-IsAccounted (raised cancelled) (giving_up b exc) c a = ground arith
  resumed-IsAccounted (raised cancelled) sleeping c a = ground arith
  resumed-IsAccounted (ok _) (connecting b) c a = ground arith
  resumed-IsAccounted (raised exc) (connecting b) c a = ground arith
  resumed-IsAccounted (ok _) (starting b) c a = ground arith
  resumed-IsAccounted (raised exc) (starting b) c a = ground arith
  resumed-IsAccounted r (giving_up b exc) c a = ground arith
  resumed-IsAccounted r p c a = a

  close_called-IsAccounted :
      (p : Phase) (c : Closing)
      → IsAccounted (at p c n in_flight cut)
      → IsAccounted (step close_called (at p c n in_flight cut))
  unfolding step
  close_called-IsAccounted (stopping b) c a = absurd a.held
  close_called-IsAccounted p (stopping_held b) a = a
  close_called-IsAccounted ready idle a = ground arith
  close_called-IsAccounted ready over a = ground arith
  close_called-IsAccounted ready interrupted a = ground arith
  close_called-IsAccounted p interrupted a = absurd a.held
  close_called-IsAccounted fresh c a = ground arith
  close_called-IsAccounted (connecting b) c a = ground arith
  close_called-IsAccounted (starting b) c a = ground arith
  close_called-IsAccounted (giving_up b exc) c a = ground arith
  close_called-IsAccounted sleeping c a = ground arith
  close_called-IsAccounted aborted c a = ground arith

  close_resumed-IsAccounted :
      (r : Result Unit) (p : Phase) (c : Closing)
      → IsAccounted (at p c n in_flight cut)
      → IsAccounted (step (close_resumed r) (at p c n in_flight cut))
  unfolding step
  close_resumed-IsAccounted (raised cancelled) ready (stopping_held b) a = ground arith
  close_resumed-IsAccounted r ready (stopping_held b) a = ground arith
  close_resumed-IsAccounted r p (stopping_held b) a = absurd a.held
  close_resumed-IsAccounted r p c a = a

  publishing-IsAccounted :
      (subject : String) (payload : Json) (p : Phase) (c : Closing)
      → IsAccounted (at p c n in_flight cut)
      → IsAccounted (step (publishing subject payload) (at p c n in_flight cut))
  unfolding step
  publishing-IsAccounted subject payload p c a = elim (Option-cases n.gateway.broker) [
    | inl lone ↦ rw lone a
    | inr (b, there) ↦
        rw there (record { no_leak = a.no_leak; held = a.held; reported = a.reported; cut = a.cut })
  ]

-- What the end of a publication leaves.
record IsLanded (n n' : Node) : Type 0 where
  calls : n'.calls ≡ n.calls
  broker : n'.gateway.broker ≡ n.gateway.broker
  connected :
      (n'.runtime.queue_connected ≡ n.runtime.queue_connected)
      ⊎ (n'.runtime.queue_connected ≡ false)

land-IsLanded :
    (k : ℕ) (r : Result Unit) (in_flight : List String) (n : Node)
    → IsLanded n (land k r in_flight n).1
land-IsLanded k r [] n = record { calls = refl; broker = refl; connected = inl refl }
land-IsLanded zero (ok _) (s ∷ ss) n = record { calls = refl; broker = refl; connected = inl refl }
land-IsLanded zero (raised cancelled) (s ∷ ss) n = record {
  calls = refl;
  broker = refl;
  connected = inl refl;
}
land-IsLanded zero (raised exc) (s ∷ ss) n = record {
  calls = refl;
  broker = refl;
  connected = inr refl;
}
land-IsLanded (suc k) r (s ∷ ss) n = land-IsLanded k r ss n

landed-IsAccounted :
    (p : Phase) (c : Closing) (n n' : Node) (before after : List String) (cut : List Broker)
    → IsLanded n n'
    → IsAccounted (at p c n before cut)
    → IsAccounted (at p c n' after cut)
landed-IsAccounted p c n n' before after cut l a = record {
  no_leak = rw (l.calls, l.broker) a.no_leak;
  held = rw l.broker a.held;
  reported = elim l.connected [ inl same ↦ rw (same, l.broker) a.reported | inr down ↦ inl down ];
  cut = a.cut;
}

step-IsAccounted : (e : Event) (m : Machine) → IsAccounted m → IsAccounted (step e m)
unfolding step
step-IsAccounted begun m a = begun-IsAccounted m.node m.in_flight m.cut m.phase m.close a
step-IsAccounted (resumed r) m a = resumed-IsAccounted m.node m.in_flight m.cut r m.phase m.close a
step-IsAccounted (publishing subject payload) m a =
    publishing-IsAccounted m.node m.in_flight m.cut subject payload m.phase m.close a
step-IsAccounted (published k r) m a =
    landed-IsAccounted m.phase m.close m.node (land k r m.in_flight m.node).1 m.in_flight
      (land k r m.in_flight m.node).0 m.cut (land-IsLanded k r m.in_flight m.node) a
step-IsAccounted close_called m a =
    close_called-IsAccounted m.node m.in_flight m.cut m.phase m.close a
step-IsAccounted (close_resumed r) m a =
    close_resumed-IsAccounted m.node m.in_flight m.cut r m.phase m.close a

run-IsAccounted : (events : List Event) (m : Machine) → IsAccounted m → IsAccounted (run events m)
unfolding run
run-IsAccounted [] m a = a
run-IsAccounted (e ∷ events) m a = run-IsAccounted events (step e m) (step-IsAccounted e m a)

-- `NatsGateway.__init__`
abbrev pub new_machine : AppRuntime → Machine
new_machine runtime = record {
  phase = fresh;
  close = idle;
  node = new_node runtime;
  in_flight = [];
  cut = [];
}

-- From a new gateway whose queue is reported as disconnected, however `start` and its retry task, the
-- publications and `close` interleave, at every await: the brokers that were made and not asked to stop
-- after that are the one that is being connected, or the one that is held once it has connected, unless
-- `close` has begun to stop that, and those that were being connected when that was cancelled, of which
-- there are none before such a cancellation; there never is an older broker for `_connect_once` to
-- stop; and the queue is not reported as connected unless a broker is held.
pub run-new_machine :
    (runtime : AppRuntime) (events : List Event)
    → runtime.queue_connected ≡ false
    → IsAccounted (run events (new_machine runtime))
run-new_machine runtime events down =
    run-IsAccounted events (new_machine runtime)
      (record { no_leak = refl; held = refl; reported = inl down; cut = inl refl })
