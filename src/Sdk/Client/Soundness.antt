-- ===== src/Sdk/Client/Soundness.antt =====
-- sdk/crates/p2p-sdk/src/client.rs: a round of either thread keeps the agent sound.
use p2psdk.Prelude.{
  ℕ, ◌+◌, ◌*◌, inl, inr, Bool, true, false, ◌&&◌, Option, none, some, List, ltb, ◌==◌,
  if◌then◌else◌, Bool-cases, Returns, Returns-eq, Returns-bind,
}
use p2psdk.Crypto.{Crypto}
use p2psdk.Frame.{ParsedFrame, parse_frame}
use p2psdk.Frame.RoundTrip.{parse_frame-Returns}
use p2psdk.Ice.Agent.{IceAgent, HandleDataResult}
use p2psdk.Ice.Agent.Events.{FreshIds, handle_incoming_data-Returns}
use p2psdk.Ice.Agent.Invariant.{AgentOk}
use p2psdk.Ice.Agent.Total.{Ticked, tick-Returns}
use p2psdk.Ice.StunCodec.{parse_ice_stun_message}
use p2psdk.Sdk.Client.{
  ClientInner, Output, tick, tick_agent, handle_incoming_udp, incoming_agent, fire_on_data,
  fire_state_change, is_some_state,
}
use p2psdk.Sdk.Client.Receive.{
  queue_seq_id, deliver_frame, handle_app_data, handle_optional, handle_datagram, is_heartbeat,
}
use p2psdk.Sdk.Client.Ticker.{
  TickThread, observe, send_heartbeat, detect_timeout, tick_round, beats, silent_for,
}
use p2psdk.Types.{IceState}
use p2psdk.Wire.{Bytes, u64}

-- The agent, if there is one, is sound.
abbrev pub AgentOkIf : Option IceAgent → Type 0
AgentOkIf none = Unit
AgentOkIf (some a) = AgentOk a

abbrev pub ClientOk : ClientInner → Type 0
ClientOk inner = AgentOkIf inner.ice_agent

module _ {A : Type 0} where
  abbrev pub Keeps : ClientInner × A → Type 0
  Keeps done = ClientOk done.0

abbrev pub Parses : Bytes → Type 0
Parses bytes = Returns (λ m. Unit {0}) (parse_ice_stun_message bytes)

incoming_agent-Returns :
    (inner : ClientInner) (bytes ip : Bytes) (port : ℕ) (o : Option IceAgent)
    → Parses bytes
    → AgentOkIf inner.ice_agent
    → AgentOkIf o
    → Returns Keeps (incoming_agent inner bytes ip port o)
incoming_agent-Returns inner bytes ip port none parses h k = h
incoming_agent-Returns inner bytes ip port (some a) parses h k =
    let (m, e, u) = Returns-eq (parse_ice_stun_message bytes) parses in
    Returns-bind (λ (done : IceAgent × HandleDataResult). AgentOk done.0) Keeps _ _
      (handle_incoming_data-Returns a bytes ip port m e k) (λ done ok'. ok')

pub if-Keeps :
    {A : Type 0} (b : Bool) (x y : ClientInner × A) → Keeps x → Keeps y → Keeps (if b then x else y)
if-Keeps true x y h k = h
if-Keeps false x y h k = k

pub tick_agent-Returns :
    (crypto : Crypto) (fresh : FreshIds) (inner : ClientInner) (now_ms : ℕ) (o : Option IceAgent)
    → ClientOk inner
    → AgentOkIf o
    → Returns Keeps (tick_agent crypto fresh.id inner now_ms o)
tick_agent-Returns crypto fresh inner now_ms none h k = h
tick_agent-Returns crypto fresh inner now_ms (some a) h k =
    Returns-bind (Ticked crypto fresh.id fresh.twelve a now_ms) Keeps _ _
      (tick-Returns crypto fresh.id fresh.twelve a now_ms) (λ done t. t.0 k)

-- A callback that leaves a sound agent sound.
abbrev pub Harmless : (ClientInner → ClientInner) → Type 0
Harmless during = (inner : ClientInner) → ClientOk inner → ClientOk (during inner)

module _ (during : ClientInner → ClientInner) (harmless : Harmless during) where
  fire_on_data-ClientOk :
      (inner : ClientInner) (payload : Bytes)
      → ClientOk inner
      → ClientOk (fire_on_data during inner payload).0
  unfolding fire_on_data
  fire_on_data-ClientOk inner payload h =
      if-Keeps inner.on_data _ _ (harmless (record inner { on_data = false }) h) h

  fire_state_change-ClientOk :
      (inner : ClientInner) (s : IceState)
      → ClientOk inner
      → ClientOk (fire_state_change during inner s).0
  unfolding fire_state_change
  fire_state_change-ClientOk inner s h =
      if-Keeps inner.on_state_change _ _ (harmless (record inner { on_state_change = false }) h) h

  queue_seq_id-ClientOk :
      (inner : ClientInner) (seq_id : ℕ) → ClientOk inner → ClientOk (queue_seq_id inner seq_id)
  unfolding queue_seq_id
  queue_seq_id-ClientOk inner seq_id h = elim (Bool-cases (ltb 0 seq_id)) [
    | inl e ↦ rw e h
    | inr e ↦ rw e h
  ]

  deliver_frame-ClientOk :
      (inner : ClientInner) (parsed : Option ParsedFrame)
      → ClientOk inner
      → ClientOk (deliver_frame during inner parsed).0
  unfolding deliver_frame
  deliver_frame-ClientOk inner none h = h
  deliver_frame-ClientOk inner (some parsed) h = elim (Bool-cases (parsed.frame_type == 2)) [
    | inl e ↦ rw e (
        fire_on_data-ClientOk (queue_seq_id inner parsed.seq_id) parsed.payload
          (queue_seq_id-ClientOk inner parsed.seq_id h))
    | inr e ↦ rw e h
  ]

  handle_optional-Returns :
      (clock : ℕ) (inner : ClientInner) (o : Option Bytes)
      → ClientOk inner
      → Returns Keeps (handle_optional during clock inner o)
  unfolding handle_app_data
  handle_optional-Returns clock inner none h = h
  handle_optional-Returns clock inner (some bytes) h =
      let (parsed, e, fits) = Returns-eq (parse_frame bytes) (parse_frame-Returns bytes) in
      let heard = record inner { last_recv_instant = some clock } in
      rw e (elim (Bool-cases (ltb 0 inner.heartbeat_interval_secs)) [
        | inl b ↦ rw b (elim (Bool-cases (is_heartbeat parsed)) [
          | inl i ↦ rw i h
          | inr i ↦ rw i (deliver_frame-ClientOk heard parsed h)
        ])
        | inr b ↦ rw b (deliver_frame-ClientOk heard parsed h)
      ])

  pub handle_datagram-Returns :
      (clock : ℕ) (inner : ClientInner) (bytes ip : Bytes) (port : ℕ)
      → Parses bytes
      → ClientOk inner
      → Returns Keeps (handle_datagram during clock inner bytes ip port)
  unfolding handle_datagram handle_incoming_udp
  handle_datagram-Returns clock inner bytes ip port parses h =
      Returns-bind Keeps Keeps _ _
        (incoming_agent-Returns inner bytes ip port inner.ice_agent parses h h)
        (λ result k.
          Returns-bind Keeps Keeps _ _ (handle_optional-Returns clock result.0 result.1.app_data k)
            (λ handled l. l))

  observe-ClientOk :
      (thread : TickThread) (inner : ClientInner) (o : Option IceAgent)
      → ClientOk inner
      → ClientOk (observe during thread inner o).1.0
  unfolding observe
  observe-ClientOk thread inner none h = h
  observe-ClientOk thread inner (some a) h =
      elim (Bool-cases (is_some_state thread.last_state a.state)) [
        | inl e ↦ rw e h
        | inr e ↦ rw e (fire_state_change-ClientOk inner a.state h)
      ]

  detect_timeout-ClientOk :
      (clock : ℕ) (thread : TickThread) (inner : ClientInner)
      → ClientOk inner
      → ClientOk (detect_timeout during clock thread inner).0
  unfolding detect_timeout
  detect_timeout-ClientOk clock thread inner h =
      elim (Bool-cases (
        beats thread inner
        && silent_for clock (inner.heartbeat_interval_secs * 2 * 1000) inner.last_recv_instant)) [
          | inl e ↦ rw e (fire_state_change-ClientOk inner IceState.disconnected h)
          | inr e ↦ rw e h
        ]

  pub tick_round-Returns :
      (crypto : Crypto) (fresh : FreshIds) (clock : ℕ) (thread : TickThread) (inner : ClientInner)
      → ClientOk inner
      → Returns
          (λ (done : (TickThread × ClientInner) × List Output). ClientOk done.0.1)
          (tick_round crypto fresh.id during clock thread inner)
  unfolding tick_round tick
  tick_round-Returns crypto fresh clock thread inner h =
      let started = record thread { now_ms = u64 (thread.now_ms + 50) } in
      let observed = observe during started inner inner.ice_agent in
      let seen = observe-ClientOk started inner inner.ice_agent h in
      Returns-bind Keeps (λ (done : (TickThread × ClientInner) × List Output). ClientOk done.0.1) _
        _
        (tick_agent-Returns crypto fresh observed.1.0 observed.0.now_ms observed.1.0.ice_agent seen
          seen)
        (λ ticked k.
          detect_timeout-ClientOk clock (send_heartbeat observed.0 ticked.0).0 ticked.0 k)
