-- ===== src/Nats/Drain.antt =====
-- What becomes of the queue once the server is up: `_forward`, handed the pending messages.
use mathlib.Core.Path.{subst}
use oopsys_agent.Base.{
  ℕ, zero, suc, ◌<◌, ◌≡◌, refl, sym, ap, inl, inr, true, List, [], ◌∷◌, length, Result, ok, raised,
  In,
}
use oopsys_agent.Domain.{Time, Json}
use oopsys_agent.Configuration.{ServerModel, AgentModel}
use oopsys_agent.Server.{Transport, delivery_enabled, ingest_request}
use oopsys_agent.Server.Delivery.{send-ok_iff}
use oopsys_agent.Nats.State.{Node}
use oopsys_agent.Nats.Forward.{forward}
use oopsys_agent.Nats.Delivery.{forward-enabled, sent-Delivered}
use oopsys_agent.Nats.Queue.{System, new_system, taken, acked, Moves, next, stored_or_accepted}

-- The consumer takes the first message off the queue if the handler returns, and leaves it there if
-- the handler raises.
abbrev pub left : Result Unit → Json → List Json → List Json
left (ok _) body rest = rest
left (raised e) body rest = body ∷ rest

module _ (server : ServerModel) (agent : AgentModel) (post : Transport) (now : Time) where
  -- The server answers every request that delivers a message with a status below 400.
  abbrev pub IsServing : Type 0
  IsServing =
      (body : Json)
      → (status : ℕ) × (post (ingest_request server agent body) ≡ ok status) × (status < 400)

  abbrev hand_over : List Json → System → System
  hand_over [] s = s
  hand_over (body ∷ rest) s =
      let (r, n) = forward server agent post now body s.node in
      record {
        node = n;
        stored = s.stored;
        pending = left r body rest;
        accepted = taken server agent post body s.accepted;
      }

  -- The consumer is handed the first pending message, so many times.
  unfoldable pub drain : ℕ → System → System
  drain zero s = s
  drain (suc k) s = drain k (hand_over s.pending s)

  module _ (on : delivery_enabled server agent ≡ true) (up : IsServing) where
    forward-ok : (body : Json) (n : Node) → (forward server agent post now body n).0 ≡ ok tt
    forward-ok body n =
        let sent = (send-ok_iff server agent post body).1 (up body) in
        rw (forward-enabled server agent post now body n on, sent) (sent-Delivered now n).0

    drain_lem :
        (pending : List Json) (start s : System)
        → s.pending ≡ pending
        → Moves server agent start s
        → Moves server agent start (drain (length pending) s)
          × ((drain (length pending) s).pending ≡ [])
          × ((drain (length pending) s).stored ≡ s.stored)
    unfolding drain
    drain_lem [] start s p moves = (moves, p, refl)
    drain_lem (body ∷ rest) start s p moves =
        let t = hand_over (body ∷ rest) s in
        let returned = forward-ok body s.node in
        let handed : hand_over s.pending s ≡ t = ap (λ l. hand_over l s) p in
        let emptied : t.pending ≡ rest = ap (λ r. left r body rest) returned in
        let reached : Moves server agent start t = next moves (
          acked post now [] body rest p returned (
            ap
              (λ r. record {
                node = (forward server agent post now body s.node).1;
                stored = s.stored;
                pending = left r body rest;
                accepted = taken server agent post body s.accepted;
              })
              returned)) in
        subst
          (λ u.
            let v = drain (length rest) u in
            Moves server agent start v × (v.pending ≡ []) × (v.stored ≡ s.stored))
          (sym handed) (drain_lem rest start t emptied reached)

    -- Once a token is set and the server answers every delivery with a status below 400, handing the
    -- consumer as many messages as are pending, whatever has happened before, empties the queue, and
    -- then the server has answered every message that was ever stored with such a status.
    pub drain-accepts :
        (n : Node) {s : System}
        → Moves server agent (new_system n) s
        → let t = drain (length s.pending) s in
          (t.pending ≡ []) × ((m : Json) → In m s.stored → In m t.accepted)
    drain-accepts n {s} moves =
        let (reached, empty, same) = drain_lem s.pending (new_system n) s refl moves in
        (
          empty,
          λ m kept. elim (stored_or_accepted server agent n reached m (rw same kept)) [
            | inl waits ↦ absurd (subst (λ l. In m l) empty waits)
            | inr done ↦ done
          ],
        )
