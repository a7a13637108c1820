-- ===== src/Sdk/Client/Ticker.antt =====
-- sdk/crates/p2p-sdk/src/client.rs: one round of the thread that `start_ice_threads` starts to tick.
use p2psdk.Prelude.{
  ℕ, ◌+◌, ◌-◌, ◌*◌, Bool, true, false, ◌&&◌, Option, none, some, List, [], ◌++◌, map, ltb, leb,
  if◌then◌else◌, Outcome, ret, ◌>>=◌,
}
use p2psdk.Crypto.{Crypto}
use p2psdk.Ice.Agent.{IceAgent}
use p2psdk.Sdk.Client.{ClientInner, Output, sent, fire_state_change, is_some_state, tick}
use p2psdk.Sdk.Client.Receive.{heartbeat_to}
use p2psdk.Types.{IceState}
use p2psdk.Wire.{Bytes, u64}

-- The variables of the thread.
pub record TickThread : Type 0 where
  pub now_ms : ℕ
  pub last_state : Option IceState
  pub last_heartbeat_ms : ℕ

unfoldable pub new_thread : TickThread
new_thread = record { now_ms = 0; last_state = none; last_heartbeat_ms = 0 }

-- A change of the agent's state since the round before is reported.
unfoldable pub observe :
    (ClientInner → ClientInner)
    → TickThread
    → ClientInner
    → Option IceAgent
    → TickThread × (ClientInner × List Output)
observe during thread inner none = (thread, (inner, []))
observe during thread inner (some agent) =
    if is_some_state thread.last_state agent.state then (thread, (inner, [])) else (
      record thread { last_state = some agent.state },
      fire_state_change during inner agent.state,
    )

abbrev pub through : Bool → List Output → List Output
through true outputs = outputs
through false outputs = []

-- `hb_secs > 0 && last_state == Some(IceState::Completed)`
abbrev pub beats : TickThread → ClientInner → Bool
beats thread inner =
    ltb 0 inner.heartbeat_interval_secs && is_some_state thread.last_state IceState.completed

abbrev pub beat_due : TickThread → ClientInner → Bool
beat_due thread inner =
    beats thread inner
    && leb (u64 (inner.heartbeat_interval_secs * 1000)) (thread.now_ms - thread.last_heartbeat_ms)

unfoldable pub send_heartbeat : TickThread → ClientInner → TickThread × List Output
send_heartbeat thread inner =
    if beat_due thread inner
    then (
      record thread { last_heartbeat_ms = thread.now_ms },
      through inner.ice_udp (heartbeat_to inner.ice_agent),
    )
    else (thread, [])

-- `clock` is the machine's clock; `elapsed` is the time since.
abbrev pub silent_for : ℕ → ℕ → Option ℕ → Bool
silent_for clock timeout none = false
silent_for clock timeout (some t) = leb timeout (clock - t)

unfoldable pub detect_timeout :
    (ClientInner → ClientInner) → ℕ → TickThread → ClientInner → ClientInner × List Output
detect_timeout during clock thread inner =
    if beats thread inner
      && silent_for clock (inner.heartbeat_interval_secs * 2 * 1000) inner.last_recv_instant
    then fire_state_change during inner IceState.disconnected
    else (inner, [])

unfoldable pub tick_round :
    Crypto
    → (ℕ → Bytes)
    → (ClientInner → ClientInner)
    → ℕ
    → TickThread
    → ClientInner
    → Outcome ((TickThread × ClientInner) × List Output)
tick_round crypto fresh during clock thread inner = do
  let started = record thread { now_ms = u64 (thread.now_ms + 50) }
  let observed = observe during started inner inner.ice_agent
  ticked ← tick crypto fresh observed.1.0 observed.0.now_ms
  let beaten = send_heartbeat observed.0 ticked.0
  let detected = detect_timeout during clock beaten.0 ticked.0
  ret (
    (beaten.0, detected.0),
    observed.1.1 ++ (through ticked.0.ice_udp (map sent ticked.1) ++ (beaten.1 ++ detected.1)),
  )
