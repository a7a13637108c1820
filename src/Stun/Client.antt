-- ===== src/Stun/Client.antt =====
-- sdk/crates/p2p-core/src/stun/client.rs: a STUN or TURN exchange over DTLS. The closures that send and
-- receive, and the clock in milliseconds, are a parameter.
pub mod Handshake
pub mod Exchange
use p2psdk.Prelude.{
  ℕ, zero, suc, ◌+◌, ◌-◌, ◌*◌, ◌/◌, ◌%◌, ◌^◌, ◌≤◌, ◌<◌, min, max, bit_and, bit_xor, ◌≡◌, refl, sym,
  ap, ap₂, ◌∙◌, ◌≢◌, ◌↔◌, ◌⊎◌, inl, inr, Bool, true, false, not, ◌&&◌, ◌||◌, Option, none, some,
  List, [], ◌∷◌, ◌++◌, map, append_assoc, append-nil, arith, ltb, leb, ◌==◌, if◌then◌else◌, ltb→lt,
  leb→le, le→leb, leb-false, ltb-false, ==_iff, Bool-cases, Option-cases, eq_bytes, eq_bytes_refl,
  eq_bytes_sound, position, FirstAt, FoundBy, position-FoundBy, position-FirstAt, position-none,
  FirstAt-lt, All-map, length, get_elem?, take, drop, replicate, All, length-append, length-take,
  length-drop, length-replicate, take-append, drop-append, get_elem?-append, get_elem?-lt, Result,
  ok, err, Outcome, ret, panic, out_of_fuel, ◌>>=◌, ◌>>◌, Returns, Returns-eq, Returns-of_eq,
  Returns-bind, Returns-if,
}
use p2psdk.Dtls.{
  Dimpl, DtlsSession, DtlsError, HandshakeStep, data_to_send, waiting, complete, new_session,
  handshake_step, encrypt, decrypt,
}
use p2psdk.Stun.Codec.{StunResult, TurnResult}
use p2psdk.Stun.Message.{StunError, StunRequest, build_binding_request, build_allocate_request}
use p2psdk.Stun.Message.Responses.{parse_binding_response, parse_allocate_response}
use p2psdk.Wire.{Bytes}

pub record Net : Type 1 where
  pub World : Type 0
  pub send : World → Bytes → World
  -- with a timeout in milliseconds
  pub recv : World → ℕ → World × Option Bytes
  pub now : World → ℕ

-- `ResponseParse` holds the text that the `StunError` prints as; here it holds the error.
pub data StunClientError : Type 0 where
  dtls_error : DtlsError → StunClientError
  timed_out : StunClientError
  response_parse : StunError → StunClientError
  response_too_short : StunClientError
  stun_error : Bytes → StunClientError

abbrev pub dtls_handshake_timeout_ms : ℕ
dtls_handshake_timeout_ms = 15000

abbrev pub handshake_step_timeout_ms : ℕ
handshake_step_timeout_ms = 1000

abbrev pub stun_response_timeout_ms : ℕ
stun_response_timeout_ms = 5000

-- `?` on an error of the session.
abbrev pub map_dtls {ℓ} : {A : Type ℓ} → Result DtlsError A → Result StunClientError A
map_dtls (ok a) = ok a
map_dtls (err e) = err (dtls_error e)

-- `map_err(Into::into)` on an error of a parser.
abbrev pub map_parse {ℓ} : {A : Type ℓ} → Result StunError A → Result StunClientError A
map_parse (ok a) = ok a
map_parse (err e) = err (response_parse e)

module _ (dimpl : Dimpl) (net : Net) where
  -- What an operation leaves of the outside and of the session, and its result.
  abbrev pub Done : Type 0 → Type 0
  Done A = (net.World × DtlsSession dimpl) × Result StunClientError A

  -- The variables of the loop; `returned` is what the function returned.
  pub record Handshaking : Type 0 where
    pub world : net.World
    pub session : DtlsSession dimpl
    pub incoming : Option Bytes
    pub returned : Option (Result StunClientError (Unit {0}))

  abbrev pub receive_next : net.World × Option Bytes → DtlsSession dimpl → Handshaking
  receive_next (w, resp) session = record {
    world = w;
    session = session;
    incoming = resp;
    returned = none;
  }

  -- The `match` on the step.
  abbrev pub after_step :
      net.World → DtlsSession dimpl × Result DtlsError HandshakeStep → Handshaking
  after_step w (session, err e) = record {
    world = w;
    session = session;
    incoming = none;
    returned = some (err (dtls_error e));
  }
  after_step w (session, ok complete) = record {
    world = w;
    session = session;
    incoming = none;
    returned = some (ok tt);
  }
  after_step w (session, ok (data_to_send bytes)) =
      receive_next (net.recv (net.send w bytes) handshake_step_timeout_ms) session
  after_step w (session, ok waiting) = receive_next (net.recv w handshake_step_timeout_ms) session

  -- The body of the loop that began at `start`; the session polls its library on fuel.
  unfoldable pub handshake_round : ℕ → ℕ → Handshaking → Outcome Handshaking
  handshake_round fuel start h =
      if ltb dtls_handshake_timeout_ms (net.now h.world - start)
      then ret (record h { returned = some (err timed_out) })
      else do step ← handshake_step dimpl fuel h.session h.incoming; ret (after_step h.world step)

  -- `return` leaves the loop.
  abbrev pub unless_returned :
      Handshaking
      → Outcome (Done (Unit {0}))
      → Option (Result StunClientError (Unit {0}))
      → Outcome (Done (Unit {0}))
  unless_returned h more none = more
  unless_returned h more (some r) = ret ((h.world, h.session), r)

  unfoldable pub handshake_loop : ℕ → ℕ → ℕ → Handshaking → Outcome (Done (Unit {0}))
  handshake_loop zero fuel start h = unless_returned h out_of_fuel h.returned
  handshake_loop (suc rounds) fuel start h =
      unless_returned h
        (handshake_round fuel start h >>= λ next. handshake_loop rounds fuel start next) h.returned

  unfoldable pub dtls_handshake : ℕ → ℕ → net.World → DtlsSession dimpl → Outcome (Done (Unit {0}))
  dtls_handshake rounds fuel w session =
      handshake_loop rounds fuel (net.now w)
        (record { world = w; session = session; incoming = none; returned = none })

  abbrev pub read_response : DtlsSession dimpl → net.World × Option Bytes → Done Bytes
  read_response session (w, none) = ((w, session), err timed_out)
  read_response session (w, some response) =
      let plain = decrypt dimpl session response in ((w, plain.0), map_dtls plain.1)

  abbrev pub send_encrypted : net.World → DtlsSession dimpl × Result DtlsError Bytes → Done Bytes
  send_encrypted w (session, err e) = ((w, session), err (dtls_error e))
  send_encrypted w (session, ok encrypted) =
      read_response session (net.recv (net.send w encrypted) stun_response_timeout_ms)

  -- The phases 2 and 3.
  abbrev pub exchange_after : Bytes → Done (Unit {0}) → Done Bytes
  exchange_after request (state, err e) = (state, err e)
  exchange_after request ((w, session), ok u) = send_encrypted w (encrypt dimpl session request)

  unfoldable pub dtls_stun_exchange :
      ℕ → ℕ → net.World → DtlsSession dimpl → Bytes → Outcome (Done Bytes)
  dtls_stun_exchange rounds fuel w session request = do
    shaken ← dtls_handshake rounds fuel w session
    ret (exchange_after request shaken)

  abbrev pub parse_after :
      {A : Type 0}
      → (Bytes → Outcome (Result StunError A))
      → Done Bytes
      → Outcome (net.World × Result StunClientError A)
  parse_after parse ((w, session), err e) = ret (w, err e)
  parse_after parse ((w, session), ok response) = do
    parsed ← parse response
    ret (w, map_parse parsed)

  -- `DtlsSession::new()?`, and what follows.
  abbrev pub with_session :
      {A : Type 0}
      → net.World
      → Result DtlsError (DtlsSession dimpl)
      → (DtlsSession dimpl → Outcome (net.World × Result StunClientError A))
      → Outcome (net.World × Result StunClientError A)
  with_session w (err e) rest = ret (w, err (dtls_error e))
  with_session w (ok session) rest = rest session

  -- `transaction_id` is random.
  unfoldable pub get_external_address :
      ℕ → ℕ → net.World → Bytes → Bytes → Outcome (net.World × Result StunClientError StunResult)
  get_external_address rounds fuel w transaction_id p2p_token =
      with_session w (new_session dimpl (net.now w)) λ session. do
        req ← build_binding_request transaction_id p2p_token
        exchanged ← dtls_stun_exchange rounds fuel w session req.bytes
        parse_after (λ response. parse_binding_response response req.transaction_id) exchanged

  unfoldable pub get_turn_relay_address :
      ℕ
      → ℕ
      → net.World
      → Bytes
      → Bytes
      → ℕ
      → Outcome (net.World × Result StunClientError TurnResult)
  get_turn_relay_address rounds fuel w transaction_id p2p_token family =
      with_session w (new_session dimpl (net.now w)) λ session. do
        req ← build_allocate_request transaction_id p2p_token family
        exchanged ← dtls_stun_exchange rounds fuel w session req.bytes
        parse_after (λ response. parse_allocate_response response req.transaction_id) exchanged
