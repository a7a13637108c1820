-- ===== src/Dtls/Laws.antt =====
-- sdk/crates/p2p-core/src/dtls/session.rs: the polling loop ends, and data flows only after the handshake.
use p2psdk.Prelude.{
  ℕ, zero, suc, ◌+◌, ◌*◌, ◌≤◌, ◌<◌, ◌≡◌, refl, ◌⊎◌, inl, inr, Bool, true, false, not, ◌&&◌, Option,
  none, some, arith, Bool-cases, Result, ok, err, ret, Returns, Returns-bind, Returns-if,
}
use p2psdk.Dtls.{
  Dimpl, DtlsOutput, packet, connected, peer_cert, close_notify, other, timeout, application_data,
  DtlsSession, Polling, visit_output, poll_outputs, start_polling, poll_after, handle_incoming,
  step_with, handshake_step, is_nil,
}
use p2psdk.Wire.{Bytes}

-- The outputs that do not end the loop.
abbrev pub Continues : DtlsOutput → Type 0
Continues (packet bytes) = Unit
Continues connected = Unit
Continues peer_cert = Unit
Continues (timeout deadline) = ⊥
Continues (application_data bytes) = ⊥
Continues close_notify = ⊥
Continues other = ⊥

-- The library never holds more than `limit` outputs, and to poll one takes it.
pub record Drains (dimpl : Dimpl) (limit : ℕ) : Type 0 where
  pub pending : dimpl.Dtls → ℕ
  pub bounded : (d : dimpl.Dtls) → pending d ≤ limit
  pub falls :
      (d : dimpl.Dtls)
      → Continues (dimpl.poll_output d).1
      → pending (dimpl.poll_output d).0 < pending d

last_not : (a b c : Bool) → (a && (not b && not c)) ≡ true → c ≡ false
last_not a b c h = ground arith

module _ {dimpl : Dimpl} (limit : ℕ) (drains : Drains dimpl limit) where
  -- What the one timeout that may be fired can bring.
  abbrev owed : Bool → ℕ
  owed true = 0
  owed false = limit + 1

  abbrev Ends : ℕ → Polling dimpl → Type 0
  Ends fuel p = (p.stopped ≡ true) ⊎ (drains.pending p.dtls + 1 + owed p.timeout_fired ≤ fuel)

  timeout-Ends :
      (fuel deadline : ℕ) (p : Polling dimpl) (d : dimpl.Dtls)
      → drains.pending p.dtls + 1 + owed p.timeout_fired ≤ suc fuel
      → Ends fuel (visit_output dimpl p (d, timeout deadline))
  unfolding visit_output
  timeout-Ends fuel deadline p d h =
      elim (Bool-cases (is_nil p.data_to_send && (not p.connected && not p.timeout_fired))) [
        | inr stop ↦ rw stop (inl refl)
        | inl fire ↦
            let unfired = last_not (is_nil p.data_to_send) p.connected p.timeout_fired fire in
            let room : drains.pending p.dtls + 1 + owed false ≤ suc fuel = rw unfired at h in
            rw fire (inr (omega (arith, drains.bounded (dimpl.handle_timeout d deadline).0)))
      ]

  visit-Ends :
      (fuel : ℕ) (p : Polling dimpl) (d : dimpl.Dtls) (o : DtlsOutput)
      → (Continues o → drains.pending d < drains.pending p.dtls)
      → drains.pending p.dtls + 1 + owed p.timeout_fired ≤ suc fuel
      → Ends fuel (visit_output dimpl p (d, o))
  unfolding visit_output
  visit-Ends fuel p d (packet bytes) less h = inr (omega (arith, less tt))
  visit-Ends fuel p d connected less h = inr (omega (arith, less tt))
  visit-Ends fuel p d peer_cert less h = inr (omega (arith, less tt))
  visit-Ends fuel p d (timeout deadline) less h = timeout-Ends fuel deadline p d h
  visit-Ends fuel p d close_notify less h = inl refl
  visit-Ends fuel p d other less h = inl refl
  visit-Ends fuel p d (application_data bytes) less h = inl refl

  poll_outputs-Returns :
      (fuel : ℕ) (p : Polling dimpl)
      → Ends fuel p
      → Returns (λ q. Unit {0}) (poll_outputs dimpl fuel p)
  unfolding poll_outputs
  poll_outputs-Returns zero p (inl e) = rw e tt
  poll_outputs-Returns zero p (inr h) = absurd (omega arith)
  poll_outputs-Returns (suc fuel) p (inl e) = rw e tt
  poll_outputs-Returns (suc fuel) p (inr h) =
      Returns-if (λ q. Unit {0}) p.stopped (ret p) _ tt
        (poll_outputs-Returns fuel (visit_output dimpl p (dimpl.poll_output p.dtls)) (
          visit-Ends fuel p (dimpl.poll_output p.dtls).0 (dimpl.poll_output p.dtls).1
            (drains.falls p.dtls) h))

  step_with-Returns :
      (fuel : ℕ) (session : DtlsSession dimpl) (handled : dimpl.Dtls × Result Bytes (Unit {0}))
      → 2 * limit + 2 ≤ fuel
      → Returns (λ q. Unit {0}) (poll_after dimpl fuel session handled)
  step_with-Returns fuel session (d, err e) enough = tt
  step_with-Returns fuel session (d, ok u) enough =
      Returns-bind (λ q. Unit {0}) (λ q. Unit {0}) _ _
        (poll_outputs-Returns fuel (start_polling dimpl session d)
          (inr (omega (arith, drains.bounded d))))
        (λ p h. tt)

  -- A step of the handshake returns, on any session and with any datagram, when its loop has fuel for
  -- twice as many outputs as the library may hold, and two more.
  pub handshake_step-Returns :
      (fuel : ℕ) (session : DtlsSession dimpl) (incoming : Option Bytes)
      → 2 * limit + 2 ≤ fuel
      → Returns (λ done. Unit {0}) (handshake_step dimpl fuel session incoming)
  unfolding handshake_step
  handshake_step-Returns fuel session incoming enough =
      elim session.dtls
        as (λ o. Returns (λ done. Unit {0}) (step_with dimpl fuel session incoming o)) [
          | none ↦ tt
          | some d ↦ step_with-Returns fuel session (handle_incoming dimpl d incoming) enough
        ]
