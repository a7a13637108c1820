-- ===== src/Dtls.antt =====
-- sdk/crates/p2p-core/src/dtls/session.rs: the session around the DTLS library. The library, sdk/crates/dimpl,
-- is a copy of another project's: what the session calls of it is a parameter.
pub mod Laws
use p2psdk.Prelude.{
  ℕ, zero, suc, ◌+◌, ◌-◌, ◌*◌, ◌/◌, ◌%◌, ◌^◌, ◌≤◌, ◌<◌, min, max, bit_and, bit_xor, ◌≡◌, refl, sym,
  ap, ap₂, ◌∙◌, ◌≢◌, ◌↔◌, ◌⊎◌, inl, inr, Bool, true, false, not, ◌&&◌, ◌||◌, Option, none, some,
  List, [], ◌∷◌, ◌++◌, map, append_assoc, append-nil, arith, ltb, leb, ◌==◌, if◌then◌else◌, ltb→lt,
  leb→le, le→leb, leb-false, ltb-false, ==_iff, Bool-cases, Option-cases, eq_bytes, eq_bytes_refl,
  eq_bytes_sound, position, FirstAt, FoundBy, position-FoundBy, position-FirstAt, position-none,
  FirstAt-lt, All-map, length, get_elem?, take, drop, replicate, All, length-append, length-take,
  length-drop, length-replicate, take-append, drop-append, get_elem?-append, get_elem?-lt, Result,
  ok, err, Outcome, ret, panic, out_of_fuel, ◌>>=◌, ◌>>◌, Returns, Returns-eq, Returns-of_eq,
  Returns-bind, Returns-if,
}
use mathlib.Core.Option
use p2psdk.Types.{codes}
use p2psdk.Wire.{Bytes}

-- `dimpl::Output`; `other` stands for the variants that the session does not name.
pub data DtlsOutput : Type 0 where
  packet : Bytes → DtlsOutput
  connected peer_cert close_notify other : DtlsOutput
  timeout : ℕ → DtlsOutput
  application_data : Bytes → DtlsOutput

-- The errors of the library stand as the text that they print as.
pub record Dimpl : Type 1 where
  pub Dtls : Type 0
  pub generate_self_signed_certificate : Result Bytes (Unit {0})
  pub build_config : Result Bytes (Unit {0})
  -- `new_12` and `set_active(true)`, at an instant
  pub new_12 : ℕ → Dtls
  pub handle_packet : Dtls → Bytes → Dtls × Result Bytes (Unit {0})
  pub poll_output : Dtls → Dtls × DtlsOutput
  pub handle_timeout : Dtls → ℕ → Dtls × Result Bytes (Unit {0})
  pub send_application_data : Dtls → Bytes → Dtls × Result Bytes (Unit {0})
  pub close : Dtls → Dtls

pub data DtlsError : Type 0 where
  handshake_failed encrypt_failed decrypt_failed internal : Bytes → DtlsError
  not_connected destroyed : DtlsError

pub data HandshakeStep : Type 0 where
  data_to_send : Bytes → HandshakeStep
  waiting complete : HandshakeStep

pub record DtlsSession (dimpl : Dimpl) : Type 0 where
  pub dtls : Option dimpl.Dtls
  pub connected : Bool
  pub start_instant : ℕ

-- The local variables of the loop in `handshake_step`; `stopped` is `break`.
pub record Polling (dimpl : Dimpl) : Type 0 where
  pub dtls : dimpl.Dtls
  pub connected : Bool
  pub data_to_send : Bytes
  pub timeout_fired : Bool
  pub stopped : Bool

abbrev pub is_nil : Bytes → Bool
is_nil [] = true
is_nil (b ∷ bs) = false

module _ (dimpl : Dimpl) where
  -- `start` is `Instant::now()`.
  unfoldable pub new_session : ℕ → Result DtlsError (DtlsSession dimpl)
  new_session start = elim dimpl.generate_self_signed_certificate [
    | err e ↦ err (internal (codes "cert generation: " ++ e))
    | ok cert ↦ elim dimpl.build_config [
      | err e ↦ err (internal (codes "config: " ++ e))
      | ok config ↦
          ok (record { dtls = some (dimpl.new_12 start); connected = false; start_instant = start })
    ]
  ]

  -- One output of the library. The first timeout, when there is nothing to send yet, is fired at its
  -- deadline.
  unfoldable pub visit_output : Polling dimpl → dimpl.Dtls × DtlsOutput → Polling dimpl
  visit_output p (d, packet bytes) = record p { dtls = d; data_to_send = p.data_to_send ++ bytes }
  visit_output p (d, connected) = record p { dtls = d; connected = true }
  visit_output p (d, peer_cert) = record p { dtls = d }
  visit_output p (d, timeout deadline) =
      if is_nil p.data_to_send && (not p.connected && not p.timeout_fired)
      then record p { dtls = (dimpl.handle_timeout d deadline).0; timeout_fired = true }
      else record p { dtls = d; stopped = true }
  visit_output p (d, close_notify) = record p { dtls = d; stopped = true }
  visit_output p (d, other) = record p { dtls = d; stopped = true }
  visit_output p (d, application_data bytes) = record p { dtls = d; stopped = true }

  -- The loop, on fuel.
  unfoldable pub poll_outputs : ℕ → Polling dimpl → Outcome (Polling dimpl)
  poll_outputs zero p = if p.stopped then ret p else out_of_fuel
  poll_outputs (suc fuel) p =
      if p.stopped then ret p else poll_outputs fuel (visit_output p (dimpl.poll_output p.dtls))

  unfoldable pub step_result : Bool → Bytes → HandshakeStep
  step_result true [] = complete
  step_result true (b ∷ bs) = data_to_send (b ∷ bs)
  step_result false [] = waiting
  step_result false (b ∷ bs) = data_to_send (b ∷ bs)

  abbrev pub polled :
      DtlsSession dimpl → Polling dimpl → DtlsSession dimpl × Result DtlsError HandshakeStep
  polled session p = (
    record session { dtls = some p.dtls; connected = p.connected },
    ok (step_result p.connected p.data_to_send),
  )

  abbrev pub start_polling : DtlsSession dimpl → dimpl.Dtls → Polling dimpl
  start_polling session d = record {
    dtls = d;
    connected = session.connected;
    data_to_send = [];
    timeout_fired = false;
    stopped = false;
  }

  -- After the packet was handled, if there was one.
  abbrev pub poll_after :
      ℕ
      → DtlsSession dimpl
      → dimpl.Dtls × Result Bytes (Unit {0})
      → Outcome (DtlsSession dimpl × Result DtlsError HandshakeStep)
  poll_after fuel session (d, err e) =
      ret (record session { dtls = some d }, err (handshake_failed e))
  poll_after fuel session (d, ok u) = do
    p ← poll_outputs fuel (start_polling session d)
    ret (polled session p)

  abbrev pub handle_incoming : dimpl.Dtls → Option Bytes → dimpl.Dtls × Result Bytes (Unit {0})
  handle_incoming d none = (d, ok tt)
  handle_incoming d (some bytes) = dimpl.handle_packet d bytes

  abbrev pub step_with :
      ℕ
      → DtlsSession dimpl
      → Option Bytes
      → Option dimpl.Dtls
      → Outcome (DtlsSession dimpl × Result DtlsError HandshakeStep)
  step_with fuel session incoming none = ret (session, err destroyed)
  step_with fuel session incoming (some d) = poll_after fuel session (handle_incoming d incoming)

  unfoldable pub handshake_step :
      ℕ
      → DtlsSession dimpl
      → Option Bytes
      → Outcome (DtlsSession dimpl × Result DtlsError HandshakeStep)
  handshake_step fuel session incoming = step_with fuel session incoming session.dtls

  abbrev pub timeout_with :
      DtlsSession dimpl → ℕ → Option dimpl.Dtls → DtlsSession dimpl × Result DtlsError (Unit {0})
  timeout_with session now none = (session, err destroyed)
  timeout_with session now (some d) =
      let done = dimpl.handle_timeout d now in
      (
        record session { dtls = some done.0 },
        elim done.1 [ ok u ↦ ok tt | err e ↦ err (handshake_failed e) ],
      )

  unfoldable pub handle_timeout :
      DtlsSession dimpl → ℕ → DtlsSession dimpl × Result DtlsError (Unit {0})
  handle_timeout session now = timeout_with session now session.dtls

  abbrev pub packet_or : DtlsOutput → Result DtlsError Bytes
  packet_or (packet bytes) = ok bytes
  packet_or _ = err (encrypt_failed (codes "no output after send"))

  abbrev pub plain_or : DtlsOutput → Result DtlsError Bytes
  plain_or (application_data bytes) = ok bytes
  plain_or _ = err (decrypt_failed (codes "no application data"))

  -- One output after the library took the bytes, or its error.
  abbrev pub output_after :
      (Bytes → DtlsError)
      → (DtlsOutput → Result DtlsError Bytes)
      → DtlsSession dimpl
      → dimpl.Dtls × Result Bytes (Unit {0})
      → DtlsSession dimpl × Result DtlsError Bytes
  output_after fault read session (d, err e) = (record session { dtls = some d }, err (fault e))
  output_after fault read session (d, ok u) =
      let out = dimpl.poll_output d in (record session { dtls = some out.0 }, read out.1)

  abbrev pub encrypt_with :
      DtlsSession dimpl
      → Bytes
      → Bool
      → Option dimpl.Dtls
      → DtlsSession dimpl × Result DtlsError Bytes
  encrypt_with session plaintext up none = (session, err destroyed)
  encrypt_with session plaintext false (some d) = (session, err not_connected)
  encrypt_with session plaintext true (some d) =
      output_after encrypt_failed packet_or session (dimpl.send_application_data d plaintext)

  unfoldable pub encrypt : DtlsSession dimpl → Bytes → DtlsSession dimpl × Result DtlsError Bytes
  encrypt session plaintext = encrypt_with session plaintext session.connected session.dtls

  abbrev pub decrypt_with :
      DtlsSession dimpl
      → Bytes
      → Bool
      → Option dimpl.Dtls
      → DtlsSession dimpl × Result DtlsError Bytes
  decrypt_with session ciphertext up none = (session, err destroyed)
  decrypt_with session ciphertext false (some d) = (session, err not_connected)
  decrypt_with session ciphertext true (some d) =
      output_after decrypt_failed plain_or session (dimpl.handle_packet d ciphertext)

  unfoldable pub decrypt : DtlsSession dimpl → Bytes → DtlsSession dimpl × Result DtlsError Bytes
  decrypt session ciphertext = decrypt_with session ciphertext session.connected session.dtls

  unfoldable pub close : DtlsSession dimpl → DtlsSession dimpl
  close session = record session { dtls = Option.map dimpl.close session.dtls; connected = false }
