-- ===== src/Napi/Threads.antt =====
-- sdk/crates/p2p-napi/src/client_napi.rs: a round of each thread of `start_ice_threads_inner`.
use p2psdk.Prelude.{
  ℕ, ◌+◌, ◌-◌, ◌*◌, Bool, true, false, ◌&&◌, Option, none, some, List, [], ◌∷◌, ◌++◌, map, ltb, leb,
  ◌==◌, if◌then◌else◌, Outcome, ret, ◌>>=◌,
}
use p2psdk.Constants.{type_data}
use p2psdk.Crypto.{Crypto}
use p2psdk.Frame.{ParsedFrame, parse_frame}
use p2psdk.Ice.Agent.{IceAgent, IceAction, HandleDataResult}
use p2psdk.Ice.Agent.Incoming.{handle_incoming_data, no_result}
use p2psdk.Ice.Agent.Tick
use p2psdk.Napi.{Inner}
use p2psdk.Sdk.Client.{Output, sent, state_changed, data_received, is_some_state}
use p2psdk.Sdk.Client.Receive.{heartbeat_to, is_heartbeat}
use p2psdk.Sdk.Client.Ticker.{TickThread, through}
use p2psdk.Types.{IceState}
use p2psdk.Wire.{Bytes, u64}

module _ {Json : Type 0} where
  -- The sequence number of a data frame, if it is above 0.
  abbrev pub note_frame : Inner Json → Option ParsedFrame → Inner Json
  note_frame inner none = inner
  note_frame inner (some parsed) =
      if parsed.frame_type == type_data && ltb 0 parsed.seq_id
      then record inner { pending_seq_ids = inner.pending_seq_ids ++ (parsed.seq_id ∷ []) }
      else inner

  -- What is no STUN message is handed to the application as it came.
  unfoldable pub handle_app_data : Inner Json → Bytes → Outcome (Inner Json × List Output)
  handle_app_data inner app_data = do
    beat ←
        if ltb 0 inner.heartbeat_interval
        then (do parsed ← parse_frame app_data; ret (is_heartbeat parsed))
        else ret false
    if beat then ret (inner, heartbeat_to inner.ice_agent) else do
      parsed ← parse_frame app_data
      ret (note_frame inner parsed, data_received app_data ∷ [])

  abbrev pub handle_optional : Inner Json → Option Bytes → Outcome (Inner Json × List Output)
  handle_optional inner none = ret (inner, [])
  handle_optional inner (some app_data) = handle_app_data inner app_data

  abbrev pub incoming_agent :
      Inner Json → Bytes → Bytes → ℕ → Option IceAgent → Outcome (Inner Json × HandleDataResult)
  incoming_agent inner bytes from_ip from_port none = ret (inner, no_result)
  incoming_agent inner bytes from_ip from_port (some agent) = do
    result ← handle_incoming_data agent bytes from_ip from_port
    ret (record inner { ice_agent = some result.0 }, result.1)

  unfoldable pub handle_datagram :
      Inner Json → Bytes → Bytes → ℕ → Outcome (Inner Json × List Output)
  handle_datagram inner bytes from_ip from_port = do
    result ← incoming_agent inner bytes from_ip from_port inner.ice_agent
    handled ← handle_optional result.0 result.1.app_data
    ret (handled.0, map sent result.1.actions ++ handled.1)

  -- What was received, if anything, through the socket, if there is one.
  abbrev pub receive_from :
      Inner Json → Bool → Option (Bytes × Bytes × ℕ) → Outcome (Inner Json × List Output)
  receive_from inner false received = ret (inner, [])
  receive_from inner true none = ret (inner, [])
  receive_from inner true (some (bytes, from_ip, from_port)) =
      handle_datagram inner bytes from_ip from_port

  unfoldable pub recv_round :
      Inner Json → Option (Bytes × Bytes × ℕ) → Outcome (Inner Json × List Output)
  recv_round inner received = receive_from inner inner.ice_udp received

  -- A change of the agent's state is reported, and the agent ticks.
  abbrev pub tick_agent :
      Crypto
      → (ℕ → Bytes)
      → TickThread
      → Inner Json
      → Option IceAgent
      → Outcome ((TickThread × Inner Json) × (List Output × List IceAction))
  tick_agent crypto fresh thread inner none = ret ((thread, inner), ([], []))
  tick_agent crypto fresh thread inner (some agent) = do
    ticked ← Tick.tick crypto fresh agent thread.now_ms
    let known = is_some_state thread.last_state agent.state
    ret (
      (record thread { last_state = some agent.state }, record inner { ice_agent = some ticked.0 }),
      ((if known then [] else state_changed agent.state ∷ []), ticked.1),
    )

  abbrev pub beat_due : TickThread → Inner Json → Bool
  beat_due thread inner =
      let interval_ms = u64 (inner.heartbeat_interval * 1000) in
      ltb 0 interval_ms
      && (is_some_state thread.last_state IceState.completed
          && leb interval_ms (thread.now_ms - thread.last_heartbeat_ms))

  unfoldable pub send_heartbeat : TickThread → Inner Json → TickThread × List Output
  send_heartbeat thread inner =
      if beat_due thread inner
      then (
        record thread { last_heartbeat_ms = thread.now_ms },
        through inner.ice_udp (heartbeat_to inner.ice_agent),
      )
      else (thread, [])

  unfoldable pub tick_round :
      Crypto
      → (ℕ → Bytes)
      → TickThread
      → Inner Json
      → Outcome ((TickThread × Inner Json) × List Output)
  tick_round crypto fresh thread inner = do
    ticked ←
        tick_agent crypto fresh (record thread { now_ms = u64 (thread.now_ms + 50) }) inner
          inner.ice_agent
    let beaten = send_heartbeat ticked.0.0 ticked.0.1
    ret (
      (beaten.0, ticked.0.1),
      ticked.1.0 ++ (through ticked.0.1.ice_udp (map sent ticked.1.1) ++ beaten.1),
    )
