-- ===== src/Nats/Interleaved/Tests.antt =====
-- A gateway that connects at the second attempt, with publications in between.
use oopsys_agent.Base.{◌≡◌, refl, [], ◌∷◌, List, ok, raised, other, some}
use oopsys_agent.Domain.{null}
use oopsys_agent.Nats.Brokers.{unstopped}
use oopsys_agent.Nats.Tests.{runtime}
use oopsys_agent.Nats.Interleaved.{
  Event, begun, resumed, publishing, published, close_called, close_resumed, step, run,
}
use oopsys_agent.Nats.Interleaved.Accounts.{IsAccounted, new_machine, run-new_machine}

abbrev morning : List Event
morning =
    begun
    ∷ publishing "s" null
    ∷ resumed (raised (other "OSError" "refused"))
    ∷ resumed (ok tt)
    ∷ begun
    ∷ resumed (ok tt)
    ∷ resumed (ok tt)
    ∷ publishing "s" null
    ∷ close_called
    ∷ published 0 (raised (other "TimeoutError" ""))
    ∷ close_resumed (ok tt)
    ∷ []

run-new_machine_example : IsAccounted (run morning (new_machine runtime))
run-new_machine_example = run-new_machine runtime morning refl

-- Every broker has been asked to stop in the end.
morning_closed : unstopped (run morning (new_machine runtime)).node.calls ≡ []
unfolding run step
morning_closed = refl

-- `close` while `start` awaits its first connection cancels nothing: the broker is held afterwards.
abbrev early : List Event
early = begun ∷ close_called ∷ resumed (ok tt) ∷ resumed (ok tt) ∷ []

early_held : (run early (new_machine runtime)).node.gateway.broker ≡ some 0
unfolding run step
early_held = refl

-- In a round of the retry task it does, and the broker of that round is never asked to stop.
abbrev late : List Event
late =
    begun
    ∷ resumed (raised (other "OSError" "refused"))
    ∷ resumed (ok tt)
    ∷ begun
    ∷ close_called
    ∷ resumed (ok tt)
    ∷ []

late_cut : unstopped (run late (new_machine runtime)).node.calls ≡ 1 ∷ []
unfolding run step
late_cut = refl
