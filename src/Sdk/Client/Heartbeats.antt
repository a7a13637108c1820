-- ===== src/Sdk/Client/Heartbeats.antt =====
-- sdk/crates/p2p-sdk/src/client.rs: heartbeats between two clients, and the silence of a peer.
use p2psdk.Prelude.{
  ℕ, zero, suc, ◌+◌, ◌-◌, ◌*◌, ◌≤◌, ◌≡◌, refl, sym, ap, ap₂, ◌∙◌, Bool, true, false, ◌&&◌, Option,
  none, some, List, [], ◌∷◌, ◌++◌, arith, ltb, if◌then◌else◌, le→leb, length, replicate, All,
  Outcome, ret, ◌>>=◌, Returns, Returns-bind,
}
use p2psdk.Crypto.{Crypto}
use p2psdk.Constants.{type_heartbeat}
use p2psdk.Frame.{encode_heartbeat_reply, parse_frame, read_u64}
use p2psdk.Ice.StunCodec.{default_message, parse_ice_stun_message}
use p2psdk.Ice.Agent.{IceAgent, IceAction, action_to, nominated_pair}
use p2psdk.Ice.Agent
use p2psdk.Ice.Agent.Tick
use p2psdk.Sdk.Client.{
  ClientInner, Output, sent, state_changed, data_received, fire_state_change, tick, tick_agent,
  is_some_state,
}
use p2psdk.Sdk.Client.Deliver.{handle_incoming_udp-data}
use p2psdk.Sdk.Client.Receive.{handle_datagram, handle_app_data, heartbeat_to, sent_if}
use p2psdk.Sdk.Client.Ticker.{
  TickThread, observe, through, beats, beat_due, send_heartbeat, silent_for, detect_timeout,
  tick_round,
}
use p2psdk.Types.{CandidatePair, IceState}
use p2psdk.Wire.{Bytes, be32, be64, read_u32, byte_at, slice, u64}

-- A client with heartbeats and a nominated pair.
pub record Beating (inner : ClientInner) : Type 0 where
  pub agent : IceAgent
  pub peer : CandidatePair
  pub agent_is : inner.ice_agent ≡ some agent
  pub nominated : nominated_pair agent ≡ some peer
  pub interval : ltb 0 inner.heartbeat_interval_secs ≡ true

heartbeat_plain : parse_ice_stun_message encode_heartbeat_reply ≡ ret default_message
unfolding parse_ice_stun_message encode_heartbeat_reply be32 be64
heartbeat_plain = refl

heartbeat_read :
    parse_frame encode_heartbeat_reply
    ≡ ret (some (record { frame_type = type_heartbeat; seq_id = 0; payload = 0 ∷ [] }))
unfolding parse_frame read_u64 read_u32 byte_at slice encode_heartbeat_reply be32 be64
heartbeat_read = refl

heartbeat_to-peer :
    (inner : ClientInner) (b : Beating inner)
    → heartbeat_to inner.ice_agent ≡ sent (action_to encode_heartbeat_reply b.peer) ∷ []
unfolding Agent.send_data
heartbeat_to-peer inner b = rw (b.agent_is, b.nominated) refl

-- A heartbeat that reaches a client with heartbeats and a nominated pair is answered to that pair by a
-- heartbeat, the same bytes again, and nothing else happens but that the time is noted.
pub handle_datagram-heartbeat :
    (during : ClientInner → ClientInner) (clock : ℕ) (inner : ClientInner) (b : Beating inner)
    (ip : Bytes) (port : ℕ)
    → handle_datagram during clock inner encode_heartbeat_reply ip port
      ≡ ret (
        record inner { last_recv_instant = some clock },
        sent (action_to encode_heartbeat_reply b.peer) ∷ [],
      )
unfolding handle_datagram handle_app_data
handle_datagram-heartbeat during clock inner b ip port = rw (
  handle_incoming_udp-data inner b.agent encode_heartbeat_reply ip port b.agent_is heartbeat_plain,
  b.interval,
  heartbeat_read,
  heartbeat_to-peer inner b,
)

-- The bytes of the first datagram that was sent.
abbrev pub first_sent : List Output → Option Bytes
first_sent [] = none
first_sent (sent act ∷ os) = some act.bytes
first_sent (state_changed s ∷ os) = first_sent os
first_sent (data_received p ∷ os) = first_sent os

-- What is in flight after `n` deliveries: the first client answers, then the second, in turn.
unfoldable pub rally : ℕ → ClientInner → ClientInner → Option Bytes → Outcome (Option Bytes)
rally zero x y flying = ret flying
rally (suc n) x y none = ret none
rally (suc n) x y (some bytes) = do
  done ← handle_datagram (λ c. c) 0 x bytes [] 0
  rally n y done.0 (first_sent done.1)

-- Between two clients with heartbeats and nominated pairs one heartbeat never comes to rest: after any
-- number of deliveries there is still one in flight.
pub rally-heartbeat :
    (n : ℕ) (x y : ClientInner)
    → Beating x
    → Beating y
    → rally n x y (some encode_heartbeat_reply) ≡ ret (some encode_heartbeat_reply)
unfolding rally
rally-heartbeat zero x y b c = refl
rally-heartbeat (suc n) x y b c = rw (handle_datagram-heartbeat (λ k. k) 0 x b [] 0) (
    rally-heartbeat n y (record x { last_recv_instant = some 0 }) c
      (record {
        agent = b.agent;
        peer = b.peer;
        agent_is = b.agent_is;
        nominated = b.nominated;
        interval = b.interval;
      }))

-- The states that were reported.
abbrev pub reported : List Output → List IceState
reported [] = []
reported (state_changed s ∷ os) = s ∷ reported os
reported (sent act ∷ os) = reported os
reported (data_received p ∷ os) = reported os

-- The rounds of the thread at the given times.
unfoldable pub tick_rounds :
    Crypto
    → (ℕ → Bytes)
    → List ℕ
    → TickThread
    → ClientInner
    → Outcome ((TickThread × ClientInner) × List Output)
tick_rounds crypto fresh [] thread inner = ret ((thread, inner), [])
tick_rounds crypto fresh (clock ∷ clocks) thread inner = do
  one ← tick_round crypto fresh (λ c. c) clock thread inner
  rest ← tick_rounds crypto fresh clocks one.0.0 one.0.1
  ret (rest.0, one.1 ++ rest.1)

-- A completed client with heartbeats and a state callback, which last heard of its peer at `heard`.
pub record Completed (heard : ℕ) (thread : TickThread) (inner : ClientInner) : Type 0 where
  pub agent : IceAgent
  pub agent_is : inner.ice_agent ≡ some agent
  pub state_is : agent.state ≡ IceState.completed
  pub last_is : thread.last_state ≡ some IceState.completed
  pub interval : ltb 0 inner.heartbeat_interval_secs ≡ true
  pub callback_is : inner.on_state_change ≡ true
  pub heard_is : inner.last_recv_instant ≡ some heard

reported-append : (xs ys : List Output) → reported (xs ++ ys) ≡ reported xs ++ reported ys
reported-append [] ys = refl
reported-append (state_changed s ∷ xs) ys = ap (◌∷◌ s) (reported-append xs ys)
reported-append (sent act ∷ xs) ys = reported-append xs ys
reported-append (data_received p ∷ xs) ys = reported-append xs ys

-- Nothing but datagrams.
abbrev NoReport : List Output → Type 0
NoReport os = reported os ≡ []

reported-after : (xs ys : List Output) → NoReport xs → reported (xs ++ ys) ≡ reported ys
reported-after xs ys h = reported-append xs ys ∙ ap (λ zs. zs ++ reported ys) h

heartbeat_to-NoReport : (a : Option IceAgent) → NoReport (heartbeat_to a)
heartbeat_to-NoReport none = refl
heartbeat_to-NoReport (some a) =
    elim (Agent.send_data a encode_heartbeat_reply) as (λ o. NoReport (sent_if o)) [
      | none ↦ refl
      | some act ↦ refl
    ]

through-NoReport : (b : Bool) (os : List Output) → NoReport os → NoReport (through b os)
through-NoReport true os h = h
through-NoReport false os h = refl

send_heartbeat-NoReport :
    (thread : TickThread) (inner : ClientInner)
    → NoReport (send_heartbeat thread inner).1
      × ((send_heartbeat thread inner).0.last_state ≡ thread.last_state)
unfolding send_heartbeat
send_heartbeat-NoReport thread inner =
    elim (beat_due thread inner)
      as (λ b.
        let done : TickThread × List Output =
          if b
          then (
            record thread { last_heartbeat_ms = thread.now_ms },
            through inner.ice_udp (heartbeat_to inner.ice_agent),
          )
          else (thread, []) in
        NoReport done.1 × (done.0.last_state ≡ thread.last_state)) [
          | true ↦ (
            through-NoReport inner.ice_udp (heartbeat_to inner.ice_agent)
                (heartbeat_to-NoReport inner.ice_agent),
            refl,
          )
          | false ↦ (refl, refl)
        ]

module _ (crypto : Crypto) (fresh : ℕ → Bytes) where
  tick-completed :
      (inner : ClientInner) (a : IceAgent) (now_ms : ℕ)
      → inner.ice_agent ≡ some a
      → a.state ≡ IceState.completed
      → tick crypto fresh inner now_ms ≡ ret (inner, [])
  unfolding tick Tick.tick
  tick-completed inner a now_ms e s =
      ap (tick_agent crypto fresh inner now_ms) e
      ∙ (rw s refl ∙ ap (λ o. ret (record inner { ice_agent = o }, [])) (sym e))

  observe-known :
      (thread : TickThread) (inner : ClientInner) (a : IceAgent)
      → inner.ice_agent ≡ some a
      → a.state ≡ IceState.completed
      → thread.last_state ≡ some IceState.completed
      → observe (λ c. c) thread inner inner.ice_agent ≡ (thread, (inner, []))
  unfolding observe
  observe-known thread inner a e s l =
      ap (observe (λ c. c) thread inner) e
      ∙ ap₂
          (λ last state. if is_some_state last state then (thread, (inner, [])) else (
            record thread { last_state = some a.state },
            fire_state_change (λ c. c) inner a.state,
          ))
          l s

  fire_state_change-on :
      (inner : ClientInner) (s : IceState)
      → inner.on_state_change ≡ true
      → fire_state_change (λ c. c) inner s ≡ (inner, state_changed s ∷ [])
  unfolding fire_state_change
  fire_state_change-on inner s e =
      ap
        (λ b.
          if b
          then (record inner { on_state_change = true }, state_changed s ∷ [])
          else (inner, []))
        e
      ∙ ap (λ b. (record inner { on_state_change = b }, state_changed s ∷ [])) (sym e)

  detect_timeout-late :
      (heard clock : ℕ) (thread : TickThread) (inner : ClientInner)
      → Completed heard thread inner
      → heard + inner.heartbeat_interval_secs * 2 * 1000 ≤ clock
      → detect_timeout (λ c. c) clock thread inner
        ≡ (inner, state_changed IceState.disconnected ∷ [])
  unfolding detect_timeout
  detect_timeout-late heard clock thread inner c late =
      let timeout = inner.heartbeat_interval_secs * 2 * 1000 in
      let long = le→leb timeout (clock - heard) (omega arith) in
      let due : (beats thread inner && silent_for clock timeout inner.last_recv_instant) ≡ true =
        rw (c.interval, c.last_is, c.heard_is, long) refl in
      rw due (fire_state_change-on inner IceState.disconnected c.callback_is)

  abbrev Silent : ℕ → ℕ → List IceState → ((TickThread × ClientInner) × List Output) → Type 0
  Silent heard secs states done =
      Completed heard done.0.0 done.0.1
      × (done.0.1.heartbeat_interval_secs ≡ secs)
      × (reported done.1 ≡ states)

  round-Silent :
      (heard clock : ℕ) (thread : TickThread) (inner : ClientInner)
      → Completed heard thread inner
      → heard + inner.heartbeat_interval_secs * 2 * 1000 ≤ clock
      → Returns
          (Silent heard inner.heartbeat_interval_secs (IceState.disconnected ∷ []))
          (tick_round crypto fresh (λ c. c) clock thread inner)
  unfolding tick_round
  round-Silent heard clock thread inner c late =
      let started = record thread { now_ms = u64 (thread.now_ms + 50) } in
      let beaten = send_heartbeat started inner in
      let facts = send_heartbeat-NoReport started inner in
      let still : Completed heard beaten.0 inner = record {
        agent = c.agent;
        agent_is = c.agent_is;
        state_is = c.state_is;
        last_is = facts.1 ∙ c.last_is;
        interval = c.interval;
        callback_is = c.callback_is;
        heard_is = c.heard_is;
      } in
      rw
        (
          observe-known started inner c.agent c.agent_is c.state_is c.last_is,
          tick-completed inner c.agent started.now_ms c.agent_is c.state_is,
          detect_timeout-late heard clock beaten.0 inner still late,
        )
        (
          still,
          refl,
          reported-after (through inner.ice_udp [])
                (beaten.1 ++ (state_changed IceState.disconnected ∷ []))
                (through-NoReport inner.ice_udp [] refl)
              ∙ reported-after beaten.1 (state_changed IceState.disconnected ∷ []) facts.0,
        )

-- From two heartbeat intervals after a completed client has last heard of its peer on, every round of
-- its thread, at any times, reports the state Disconnected, and no other.
pub tick_rounds-silent :
    (crypto : Crypto) (fresh : ℕ → Bytes) (heard : ℕ) (clocks : List ℕ) (thread : TickThread)
    (inner : ClientInner)
    → Completed heard thread inner
    → All (λ clock. heard + inner.heartbeat_interval_secs * 2 * 1000 ≤ clock) clocks
    → Returns
        (λ done. reported done.1 ≡ replicate (length clocks) IceState.disconnected)
        (tick_rounds crypto fresh clocks thread inner)
unfolding tick_rounds
tick_rounds-silent crypto fresh heard [] thread inner c late = refl
tick_rounds-silent crypto fresh heard (clock ∷ clocks) thread inner c late =
    Returns-bind
      (Silent crypto fresh heard inner.heartbeat_interval_secs (IceState.disconnected ∷ [])) _ _ _
      (round-Silent crypto fresh heard clock thread inner c late.0)
      (λ one s.
        Returns-bind (λ rest. reported rest.1 ≡ replicate (length clocks) IceState.disconnected) _ _
          _ (tick_rounds-silent crypto fresh heard clocks one.0.0 one.0.1 s.0 (rw s.1 late.1))
          (λ rest h. reported-append one.1 rest.1 ∙ ap₂ ◌++◌ s.2 h))
