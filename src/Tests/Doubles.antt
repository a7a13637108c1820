-- ===== src/Tests/Doubles.antt =====
-- Concrete stand-ins for what the client takes from outside.
use p2psdk.Prelude.{
  ℕ, zero, suc, ◌+◌, ◌≤◌, ◌<◌, ◌⊎◌, inl, inr, Bool, true, false, Option, none, some, [], ◌∷◌, ◌++◌,
  arith, ok, err,
}
use p2psdk.Dtls.{Dimpl, DtlsOutput, packet, timeout}
use p2psdk.Dtls.Laws.{Continues, Drains}
use p2psdk.Sdk.Io.{Io}
use p2psdk.Stun.Client.{Net}
use p2psdk.Stun.Client.Handshake.{Passes}
use p2psdk.Types.{codes}
use p2psdk.Wire.{Bytes}

-- A library that holds one packet, or none and a deadline.
abbrev toy_poll : Bool → Bool × DtlsOutput
toy_poll true = (false, packet (1 ∷ []))
toy_poll false = (false, timeout 7)

abbrev pub toy_dimpl : Dimpl
toy_dimpl = record {
  Dtls = Bool;
  generate_self_signed_certificate = ok tt;
  build_config = ok tt;
  new_12 = λ start. false;
  handle_packet = λ d bytes. (true, ok tt);
  poll_output = toy_poll;
  handle_timeout = λ d now. (true, ok tt);
  send_application_data = λ d bytes. (true, ok tt);
  close = λ d. false;
}

abbrev held : Bool → ℕ
held true = 1
held false = 0

held_bounded : (d : Bool) → held d ≤ 1
held_bounded true = omega arith
held_bounded false = omega arith

held_falls : (d : Bool) → Continues (toy_poll d).1 → held (toy_poll d).0 < held d
held_falls true c = omega arith
held_falls false c = absurd c

pub toy-Drains : Drains toy_dimpl 1
toy-Drains = record { pending = held; bounded = held_bounded; falls = held_falls }

-- A server whose datagrams are queued, two at the start; the world is the clock and the queue's length.
abbrev recv_queued : ℕ × ℕ → (ℕ × ℕ) × Option Bytes
recv_queued (clock, zero) = ((clock + 1000, zero), none)
recv_queued (clock, suc queue) = ((clock, queue), some (7 ∷ []))

abbrev pub queued_net : Net
queued_net = record {
  World = ℕ × ℕ;
  send = λ w bytes. w;
  recv = λ w timeout_ms. recv_queued w;
  now = λ w. w.0;
}

pub recv_queued-passes :
    (w : ℕ × ℕ)
    → ((w.0 + 1000 ≤ (recv_queued w).0.0) × ((recv_queued w).0.1 ≤ w.1))
      ⊎ ((w.0 ≤ (recv_queued w).0.0) × ((recv_queued w).0.1 < w.1))
recv_queued-passes (clock, zero) = inl (omega arith, omega arith)
recv_queued-passes (clock, suc queue) = inr (omega arith, omega arith)

abbrev pub queued_passes : Passes queued_net 1000
queued_passes = record {
  left = λ w. w.1;
  send_passes = λ w bytes. omega arith;
  send_left = λ w bytes. omega arith;
  recv_passes = λ w timeout_ms. recv_queued-passes w;
}

abbrev toy_answer : Bytes
toy_answer =
    codes "a=ice-ufrag:bbbb" ++ (13 ∷ 10 ∷ codes "a=candidate:h 1 UDP 90 10.0.0.2 5000 typ host")

-- A peer that answers the offer; the world is the clock.
abbrev pub toy_io : Io
toy_io = record {
  World = ℕ;
  post = λ w url headers body. (w, ok (200, toy_answer));
  get = λ w url headers. (w, err (codes "down"));
  Socket = Unit {0};
  create_udp = λ w. (w, ok tt);
  send_to = λ w udp bytes ip port. (w, ok tt);
  recv_from = λ w udp timeout_ms. (w + timeout_ms, err (codes "timeout"));
  local_addr = λ w udp. ok (codes "0.0.0.0", 4000);
  get_local_addresses = λ w. codes "10.0.0.1" ∷ [];
  now = λ w. w;
  unix_time = λ w. w;
  Value = Unit {0};
  null = tt;
  string_object = λ members. tt;
  number_object = λ key n. tt;
  to_vec = λ v. ok [];
  from_str = λ s. ok tt;
  get_member = λ v key. none;
  as_u64 = λ v. none;
  as_str = λ v. none;
  parse_envelope = λ s. err [];
}
