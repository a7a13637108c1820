-- ===== src/Sdk/Client/Receive.antt =====
-- sdk/crates/p2p-sdk/src/client.rs: one round of the thread that `start_ice_threads` starts to receive.
use p2psdk.Prelude.{
  ℕ, Bool, true, false, Option, none, some, List, [], ◌∷◌, ◌++◌, map, ltb, ◌==◌, if◌then◌else◌,
  Outcome, ret, ◌>>=◌,
}
use p2psdk.Constants.{type_data, type_heartbeat}
use p2psdk.Frame.{ParsedFrame, encode_heartbeat_reply, parse_frame}
use p2psdk.Ice.Agent.{IceAgent, IceAction}
use p2psdk.Ice.Agent
use p2psdk.Sdk.Client.{ClientInner, Output, sent, fire_on_data, handle_incoming_udp}
use p2psdk.Wire.{Bytes}

abbrev pub sent_if : Option IceAction → List Output
sent_if none = []
sent_if (some act) = sent act ∷ []

-- A heartbeat frame to the nominated pair, if there is one.
abbrev pub heartbeat_to : Option IceAgent → List Output
heartbeat_to none = []
heartbeat_to (some agent) = sent_if (Agent.send_data agent encode_heartbeat_reply)

abbrev pub is_heartbeat : Option ParsedFrame → Bool
is_heartbeat none = false
is_heartbeat (some parsed) = parsed.frame_type == type_heartbeat

-- `pending_seq_ids.push_back(parsed.seq_id)`, of a sequence number above 0.
unfoldable pub queue_seq_id : ClientInner → ℕ → ClientInner
queue_seq_id inner seq_id =
    if ltb 0 seq_id
    then record inner { pending_seq_ids = inner.pending_seq_ids ++ (seq_id ∷ []) }
    else inner

unfoldable pub deliver_frame :
    (ClientInner → ClientInner) → ClientInner → Option ParsedFrame → ClientInner × List Output
deliver_frame during inner none = (inner, [])
deliver_frame during inner (some parsed) =
    if parsed.frame_type == type_data
    then fire_on_data during (queue_seq_id inner parsed.seq_id) parsed.payload
    else (inner, [])

-- What is no STUN message; `clock` is `Instant::now()`.
unfoldable pub handle_app_data :
    (ClientInner → ClientInner) → ℕ → ClientInner → Bytes → Outcome (ClientInner × List Output)
handle_app_data during clock inner app_data = do
  let heard = record inner { last_recv_instant = some clock }
  beat ←
      if ltb 0 heard.heartbeat_interval_secs
      then (do parsed ← parse_frame app_data; ret (is_heartbeat parsed))
      else ret false
  if beat
      then ret (heard, heartbeat_to heard.ice_agent)
      else do parsed ← parse_frame app_data; ret (deliver_frame during heard parsed)

abbrev pub handle_optional :
    (ClientInner → ClientInner)
    → ℕ
    → ClientInner
    → Option Bytes
    → Outcome (ClientInner × List Output)
handle_optional during clock inner none = ret (inner, [])
handle_optional during clock inner (some app_data) = handle_app_data during clock inner app_data

unfoldable pub handle_datagram :
    (ClientInner → ClientInner)
    → ℕ
    → ClientInner
    → Bytes
    → Bytes
    → ℕ
    → Outcome (ClientInner × List Output)
handle_datagram during clock inner bytes from_ip from_port = do
  result ← handle_incoming_udp inner bytes from_ip from_port
  handled ← handle_optional during clock result.0 result.1.app_data
  ret (handled.0, map sent result.1.actions ++ handled.1)

-- What `recv_from` received, if anything, through the socket that the state holds, if any.
abbrev pub receive_from :
    (ClientInner → ClientInner)
    → ℕ
    → ClientInner
    → Bool
    → Option (Bytes × Bytes × ℕ)
    → Outcome (ClientInner × List Output)
receive_from during clock inner false received = ret (inner, [])
receive_from during clock inner true none = ret (inner, [])
receive_from during clock inner true (some (bytes, from_ip, from_port)) =
    handle_datagram during clock inner bytes from_ip from_port

-- One round of the loop.
unfoldable pub recv_round :
    (ClientInner → ClientInner)
    → ℕ
    → ClientInner
    → Option (Bytes × Bytes × ℕ)
    → Outcome (ClientInner × List Output)
recv_round during clock inner received = receive_from during clock inner inner.ice_udp received
