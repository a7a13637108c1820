-- ===== src/Stun/Client/Handshake.antt =====
-- sdk/crates/p2p-core/src/stun/client.rs: the handshake loop ends.
use p2psdk.Prelude.{
  ℕ, zero, suc, ◌+◌, ◌-◌, ◌*◌, ◌≤◌, ◌<◌, ◌≡◌, refl, ◌⊎◌, inl, inr, Option, none, some, arith, ltb,
  Bool-cases, Result, ok, err, Outcome, out_of_fuel, Returns, Returns-bind,
}
use p2psdk.Dtls.{
  Dimpl, DtlsSession, DtlsError, HandshakeStep, data_to_send, waiting, complete, handshake_step,
}
use p2psdk.Stun.Client.{
  Net, StunClientError, Done, Handshaking, after_step, handshake_round, unless_returned,
  handshake_loop, dtls_handshake,
}
use p2psdk.Dtls.Laws.{Drains, handshake_step-Returns}
use p2psdk.Wire.{Bytes}

-- A call of `recv` waits for at least `pause` milliseconds, or it returns at once, with a datagram that
-- was queued or with an error of the socket; `left w` bounds how often it may still return at once.
-- Sending takes no time back and queues nothing beyond that bound.
pub record Passes (net : Net) (pause : ℕ) : Type 0 where
  pub left : net.World → ℕ
  pub send_passes : (w : net.World) (bytes : Bytes) → net.now w ≤ net.now (net.send w bytes)
  pub send_left : (w : net.World) (bytes : Bytes) → left (net.send w bytes) ≤ left w
  pub recv_passes :
      (w : net.World) (timeout_ms : ℕ)
      → ((net.now w + pause ≤ net.now (net.recv w timeout_ms).0)
          × (left (net.recv w timeout_ms).0 ≤ left w))
        ⊎ ((net.now w ≤ net.now (net.recv w timeout_ms).0)
            × (left (net.recv w timeout_ms).0 < left w))

rounds_left :
    (rounds pause queued now start : ℕ)
    → 0 < pause
    → start + 15000 + 2 * pause + pause * queued ≤ now + pause * suc rounds
    → now - start ≤ 15000
    → (0 < rounds) × (start + 15000 + pause + pause * queued ≤ now + pause * rounds)
rounds_left zero pause queued now start pos room soon = absurd (omega arith)
rounds_left (suc r) pause queued now start pos room soon = (omega arith, omega arith)

some_rounds :
    (rounds pause queued : ℕ)
    → 0 < pause
    → 15000 + 2 * pause + pause * queued ≤ pause * rounds
    → 0 < rounds
some_rounds zero pause queued pos long = absurd (omega arith)
some_rounds (suc r) pause queued pos long = omega arith

product_le : (pause m n : ℕ) → m ≤ n → pause * m ≤ pause * n
product_le pause zero n h = omega arith
product_le pause (suc m) zero h = absurd (omega arith)
product_le pause (suc m) (suc n) h = omega (arith, product_le pause m n (omega arith))

product_lt : (pause m n : ℕ) → m < n → pause + pause * m ≤ pause * n
product_lt pause m n h = omega (arith, product_le pause (suc m) n h)

exclusive {ℓ} : {A : Type ℓ} {a : A} {o : Option A} → o ≡ none → o ≡ some a → ⊥
exclusive e f = cc

module _ {net : Net} (pause : ℕ) (passes : Passes net pause) where
  -- A call of `recv` takes its time, or one of those that may return at once.
  recv_gains :
      (w : net.World) (timeout_ms : ℕ)
      → net.now w + pause + pause * passes.left (net.recv w timeout_ms).0
        ≤ net.now (net.recv w timeout_ms).0 + pause * passes.left w
  recv_gains w timeout_ms = elim (passes.recv_passes w timeout_ms) [
    | inl (waited, l) ↦
        omega (arith, product_le pause (passes.left (net.recv w timeout_ms).0) (passes.left w) l)
    | inr (on, l) ↦
        omega (arith, product_lt pause (passes.left (net.recv w timeout_ms).0) (passes.left w) l)
  ]

module _ {dimpl : Dimpl} {net : Net} (pause : ℕ) (passes : Passes net pause) (start : ℕ) where
  -- The loop has returned, or the rounds that are left outlast the time that is left.
  abbrev EndsIn : ℕ → Handshaking dimpl net → Type 0
  EndsIn rounds h =
      ((r : Result StunClientError (Unit {0})) × (h.returned ≡ some r))
      ⊎ ((0 < rounds)
          × (start + 15000 + 2 * pause + pause * passes.left h.world
              ≤ net.now h.world + pause * rounds))

  after_step-EndsIn :
      (rounds : ℕ) (w : net.World) (step : DtlsSession dimpl × Result DtlsError HandshakeStep)
      → 0 < rounds
      → start + 15000 + pause + pause * passes.left w ≤ net.now w + pause * rounds
      → EndsIn rounds (after_step dimpl net w step)
  after_step-EndsIn rounds w (session, err e) pos h = inl (_, refl)
  after_step-EndsIn rounds w (session, ok complete) pos h = inl (_, refl)
  after_step-EndsIn rounds w (session, ok waiting) pos h =
      inr (pos, omega (arith, recv_gains pause passes w 1000))
  after_step-EndsIn rounds w (session, ok (data_to_send bytes)) pos h = inr (
    pos,
    omega (
      arith,
      passes.send_passes w bytes,
      product_le pause (passes.left (net.send w bytes)) (passes.left w) (passes.send_left w bytes),
      recv_gains pause passes (net.send w bytes) 1000,
    ),
  )

  unless_returned-Returns :
      (h : Handshaking dimpl net) (more : Outcome (Done dimpl net (Unit {0})))
      (o : Option (Result StunClientError (Unit {0})))
      → (o ≡ none → Returns (λ done. Unit {0}) more)
      → Returns (λ done. Unit {0}) (unless_returned dimpl net h more o)
  unless_returned-Returns h more none k = k refl
  unless_returned-Returns h more (some r) k = tt

  module _ (fuel : ℕ)
      (steps : (session : DtlsSession dimpl) (incoming : Option Bytes)
        → Returns (λ done. Unit {0}) (handshake_step dimpl fuel session incoming)) where
    handshake_round-EndsIn :
        (rounds : ℕ) (h : Handshaking dimpl net)
        → 0 < pause
        → start + 15000 + 2 * pause + pause * passes.left h.world
          ≤ net.now h.world + pause * suc rounds
        → Returns (EndsIn rounds) (handshake_round dimpl net fuel start h)
    unfolding handshake_round
    handshake_round-EndsIn rounds h pos left =
        elim (Bool-cases (ltb 15000 (net.now h.world - start))) [
          | inl late ↦ rw late (inl (_, refl))
          | inr early ↦
              let soon : net.now h.world - start ≤ 15000 = ground arith in
              let room =
                rounds_left rounds pause (passes.left h.world) (net.now h.world) start pos left
                  soon in
              rw early (
                Returns-bind (λ step. Unit {0}) (EndsIn rounds) _ _ (steps h.session h.incoming)
                  (λ step u. after_step-EndsIn rounds h.world step room.0 room.1))
        ]

    handshake_loop-Returns :
        (rounds : ℕ) (h : Handshaking dimpl net)
        → 0 < pause
        → EndsIn rounds h
        → Returns (λ done. Unit {0}) (handshake_loop dimpl net rounds fuel start h)
    unfolding handshake_loop
    handshake_loop-Returns zero h pos (inl (r, f)) =
        unless_returned-Returns h out_of_fuel h.returned (λ e. exclusive e f)
    handshake_loop-Returns zero h pos (inr (more, left)) = absurd (omega arith)
    handshake_loop-Returns (suc rounds) h pos (inl (r, f)) =
        unless_returned-Returns h _ h.returned (λ e. absurd (exclusive e f))
    handshake_loop-Returns (suc rounds) h pos (inr (more, left)) =
        unless_returned-Returns h _ h.returned (λ e.
          Returns-bind (EndsIn rounds) (λ done. Unit {0}) _ _
            (handshake_round-EndsIn rounds h pos left)
            (λ next ends. handshake_loop-Returns rounds next pos ends))

-- When the library never holds more than `limit` outputs, and each call of `recv` waits for at least
-- `pause` milliseconds but for those that return at once, `passes.left w` at most, with a queued
-- datagram or an error, the handshake ends: it returns, with success or an error, after at most
-- 15000 / pause + 2 rounds and one more for each call that returns at once, whatever the datagrams hold.
pub dtls_handshake-Returns :
    (dimpl : Dimpl) (net : Net) (limit pause rounds fuel : ℕ) (w : net.World)
    (session : DtlsSession dimpl) (passes : Passes net pause)
    → Drains dimpl limit
    → 0 < pause
    → 15000 + 2 * pause + pause * passes.left w ≤ pause * rounds
    → 2 * limit + 2 ≤ fuel
    → Returns (λ done. Unit {0}) (dtls_handshake dimpl net rounds fuel w session)
unfolding dtls_handshake
dtls_handshake-Returns dimpl net limit pause rounds fuel w session passes drains pos long enough =
    handshake_loop-Returns pause passes (net.now w) fuel
      (λ s incoming. handshake_step-Returns limit drains fuel s incoming enough) rounds
      (record { world = w; session = session; incoming = none; returned = none }) pos
      (inr (some_rounds rounds pause (passes.left w) pos long, omega arith))
