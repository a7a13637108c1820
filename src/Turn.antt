-- ===== src/Turn.antt =====
-- sdk/crates/p2p-core/src/turn/session.rs: a TURN session that is kept open over several requests.
pub mod Errors
use p2psdk.Prelude.{
  ℕ, zero, suc, ◌+◌, ◌-◌, ◌*◌, ◌/◌, ◌%◌, ◌^◌, ◌≤◌, ◌<◌, min, max, bit_and, bit_xor, ◌≡◌, refl, sym,
  ap, ap₂, ◌∙◌, ◌≢◌, ◌↔◌, ◌⊎◌, inl, inr, Bool, true, false, not, ◌&&◌, ◌||◌, Option, none, some,
  List, [], ◌∷◌, ◌++◌, map, append_assoc, append-nil, arith, ltb, leb, ◌==◌, if◌then◌else◌, ltb→lt,
  leb→le, le→leb, leb-false, ltb-false, ==_iff, Bool-cases, Option-cases, eq_bytes, eq_bytes_refl,
  eq_bytes_sound, position, FirstAt, FoundBy, position-FoundBy, position-FirstAt, position-none,
  FirstAt-lt, All-map, length, get_elem?, take, drop, replicate, All, length-append, length-take,
  length-drop, length-replicate, take-append, drop-append, get_elem?-append, get_elem?-lt, Result,
  ok, err, Outcome, ret, panic, out_of_fuel, ◌>>=◌, ◌>>◌, Returns, Returns-eq, Returns-of_eq,
  Returns-bind, Returns-if,
}
use p2psdk.Constants.{attr_error_code, stun_create_permission_success, stun_create_permission_error}
use p2psdk.Dtls.{Dimpl, DtlsSession, DtlsError, new_session, encrypt}
use p2psdk.Dtls
use p2psdk.Stun.Client.{
  Net, StunClientError, dtls_error, timed_out, response_parse, response_too_short, stun_error,
  dtls_handshake, dtls_stun_exchange, Done, map_parse, send_encrypted, exchange_after,
}
use p2psdk.Stun.Codec.{TurnResult}
use p2psdk.Stun.Message.{StunRequest, build_allocate_request, build_create_permission_request}
use p2psdk.Stun.Message.Responses.{parse_allocate_response}
use p2psdk.Stun.Walk.{Flow, next, exit, walk_attributes}
use p2psdk.Text.Number.{print_decimal, print_hex}
use p2psdk.Text.Utf8.{from_utf8_lossy}
use p2psdk.Types.{codes}
use p2psdk.Wire.{Bytes, byte_at, slice, read_u16, u16}

pub data TurnError : Type 0 where
  client : StunClientError → TurnError
  not_open : TurnError

pub record TurnSession (dimpl : Dimpl) : Type 0 where
  pub dtls : DtlsSession dimpl
  pub turn_ip : Bytes
  pub turn_port : ℕ
  pub p2p_token : Bytes
  pub relay_ip : Bytes
  pub relay_port : ℕ
  pub mapped_ip : Bytes
  pub mapped_port : ℕ
  pub closed : Bool

-- The reason phrase of the attribute at `offset`, as far as the buffer goes.
unfoldable pub error_text : Bytes → ℕ → ℕ → Outcome Bytes
error_text response attr_len offset = do
  first ← byte_at response (offset + 4)
  number ← read_u16 response (offset + 6)
  let code = u16 (bit_and first 0x07 * 100 + number)
  let reason_end = min (offset + 8 + (attr_len - 4)) (length response)
  reason ← slice response (offset + 8) reason_end
  ret (print_decimal code ++ (b' ' ∷ from_utf8_lossy reason))

unfoldable pub visit_error : Bytes → ℕ → ℕ → ℕ → Unit {0} → Outcome (Flow (Unit {0}) Bytes)
visit_error response attr_type attr_len offset u =
    if attr_type == attr_error_code && leb (offset + 8) (length response)
    then (do text ← error_text response attr_len offset; ret (exit text))
    else ret (next u)

abbrev pub found_text : Flow (Unit {0}) Bytes → Option Bytes
found_text (next u) = none
found_text (exit text) = some text

-- The end of the attributes comes from the header and is not checked against the buffer.
unfoldable pub parse_error_code : Bytes → Outcome (Option Bytes)
parse_error_code response = if ltb (length response) 20 then ret none else do
  msg_len ← read_u16 response 2
  flow ← walk_attributes response (20 + msg_len) (visit_error response) tt
  ret (found_text flow)

-- `{msg_type:04x}`
abbrev pub hex4 : ℕ → Bytes
hex4 n = let digits = print_hex n in replicate (4 - length digits) b'0' ++ digits

abbrev pub error_or : ℕ → Option Bytes → Bytes
error_or msg_type none =
    codes "TURN CreatePermission error (type 0x" ++ (hex4 msg_type ++ codes ")")
error_or msg_type (some text) = text

-- What the response to a CreatePermission says.
unfoldable pub judge_response : Bytes → Outcome (Result TurnError (Unit {0}))
judge_response response =
    if ltb (length response) 2 then ret (err (client response_too_short)) else do
      msg_type ← read_u16 response 0
      if msg_type == stun_create_permission_success
          then ret (ok tt)
          else if msg_type == stun_create_permission_error
          then (do
            text ← parse_error_code response
            ret (err (client (stun_error (error_or msg_type text)))))
          else ret
              (err (client (stun_error (codes "unexpected response type 0x" ++ hex4 msg_type))))

module _ (dimpl : Dimpl) (net : Net) where
  abbrev pub opened : DtlsSession dimpl → Bytes → ℕ → Bytes → TurnResult → TurnSession dimpl
  opened dtls turn_ip turn_port p2p_token result = record {
    dtls = dtls;
    turn_ip = turn_ip;
    turn_port = turn_port;
    p2p_token = p2p_token;
    relay_ip = result.relay_ip;
    relay_port = result.relay_port;
    mapped_ip = result.mapped_ip;
    mapped_port = result.mapped_port;
    closed = false;
  }

  abbrev pub open_with :
      (DtlsSession dimpl → TurnResult → TurnSession dimpl)
      → (net.World × DtlsSession dimpl) × Result StunClientError TurnResult
      → net.World × Result TurnError (TurnSession dimpl)
  open_with make ((w, dtls), ok result) = (w, ok (make dtls result))
  open_with make ((w, dtls), err e) = (w, err (client e))

  abbrev pub parse_decrypted :
      Bytes
      → Done dimpl net Bytes
      → Outcome ((net.World × DtlsSession dimpl) × Result StunClientError TurnResult)
  parse_decrypted transaction_id (state, err e) = ret (state, err e)
  parse_decrypted transaction_id (state, ok decrypted) = do
    parsed ← parse_allocate_response decrypted transaction_id
    ret (state, map_parse parsed)

  -- The request is built when the handshake is done.
  abbrev pub allocate_after :
      Bytes
      → Bytes
      → ℕ
      → Done dimpl net (Unit {0})
      → Outcome ((net.World × DtlsSession dimpl) × Result StunClientError TurnResult)
  allocate_after transaction_id p2p_token family (state, err e) = ret (state, err e)
  allocate_after transaction_id p2p_token family ((w, session), ok u) = do
    req ← build_allocate_request transaction_id p2p_token family
    parse_decrypted req.transaction_id
        (send_encrypted dimpl net w (encrypt dimpl session req.bytes))

  abbrev pub allocate_over :
      ℕ
      → ℕ
      → net.World
      → Bytes
      → Bytes
      → ℕ
      → Bytes
      → ℕ
      → Result DtlsError (DtlsSession dimpl)
      → Outcome (net.World × Result TurnError (TurnSession dimpl))
  allocate_over rounds fuel w transaction_id turn_ip turn_port p2p_token family (err e) =
      ret (w, err (client (dtls_error e)))
  allocate_over rounds fuel w transaction_id turn_ip turn_port p2p_token family (ok session) = do
    shaken ← dtls_handshake dimpl net rounds fuel w session
    done ← allocate_after transaction_id p2p_token family shaken
    ret (open_with (λ dtls. opened dtls turn_ip turn_port p2p_token) done)

  unfoldable pub allocate :
      ℕ
      → ℕ
      → net.World
      → Bytes
      → Bytes
      → ℕ
      → Bytes
      → ℕ
      → Outcome (net.World × Result TurnError (TurnSession dimpl))
  allocate rounds fuel w transaction_id turn_ip turn_port p2p_token family =
      allocate_over rounds fuel w transaction_id turn_ip turn_port p2p_token family
        (new_session dimpl (net.now w))

  abbrev pub judge :
      TurnSession dimpl
      → Done dimpl net Bytes
      → Outcome ((net.World × TurnSession dimpl) × Result TurnError (Unit {0}))
  judge session ((w, dtls), err e) = ret ((w, record session { dtls = dtls }), err (client e))
  judge session ((w, dtls), ok response) = do
    verdict ← judge_response response
    ret ((w, record session { dtls = dtls }), verdict)

  abbrev pub permit :
      ℕ
      → ℕ
      → net.World
      → Bytes
      → TurnSession dimpl
      → Bool
      → List Bytes
      → Outcome ((net.World × TurnSession dimpl) × Result TurnError (Unit {0}))
  permit rounds fuel w tid session true peers = ret ((w, session), err not_open)
  permit rounds fuel w tid session false [] = ret ((w, session), ok tt)
  permit rounds fuel w tid session false (peer ∷ peers) = do
    req ← build_create_permission_request (peer ∷ peers) session.p2p_token tid
    exchanged ← dtls_stun_exchange dimpl net rounds fuel w session.dtls req.bytes
    judge session exchanged

  -- `tid` is random.
  unfoldable pub create_permission :
      ℕ
      → ℕ
      → net.World
      → Bytes
      → TurnSession dimpl
      → List Bytes
      → Outcome ((net.World × TurnSession dimpl) × Result TurnError (Unit {0}))
  create_permission rounds fuel w tid session peers =
      permit rounds fuel w tid session session.closed peers

  unfoldable pub close : TurnSession dimpl → TurnSession dimpl
  close session =
      if not session.closed
      then record session { dtls = Dtls.close dimpl session.dtls; closed = true }
      else session
