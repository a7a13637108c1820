-- ===== src/Sdk/Client/Calls.antt =====
-- sdk/crates/p2p-sdk/src/client.rs: the rounds of both threads and the calls of the application, in any
-- order.
use p2psdk.Prelude.{
  ℕ, Bool, true, false, ◌||◌, Option, none, some, List, [], ◌∷◌, eq_bytes, All, Result, ok, err,
  Outcome, ret, ◌>>=◌, Returns, Returns-bind,
}
use mathlib.Core.Option
use p2psdk.Crypto.{Crypto}
use p2psdk.Ice.Agent.{
  IceAgent, IceAction, HandleDataResult, set_remote_session_description, start_checks,
  add_remote_candidate,
}
use p2psdk.Ice.Agent
use p2psdk.Ice.Agent.Events.{FreshIds}
use p2psdk.Ice.Agent.Invariant.{
  stop-AgentOk, add_remote_candidate-AgentOk, set_remote_session_description-AgentOk,
  start_checks-AgentOk,
}
use p2psdk.Sdk.Client.{
  ClientInner, Output, elsewhere, joins_itself, threads_joined, send_text, stop_ice,
  stop_ice_threads, close, tick,
}
use p2psdk.Sdk.Client.Receive.{receive_from, recv_round}
use p2psdk.Sdk.Client.Ticker.{TickThread, tick_round}
use p2psdk.Sdk.Signals.{
  IceCodec, IceDataMessage, IceCandidateMessage, describe, take_description, take_message,
  add_candidate_to, take_candidate, or_blank, handle_signaling_message,
}
use p2psdk.Sdk.Client.Soundness.{
  AgentOkIf, ClientOk, Harmless, Keeps, Parses, tick_agent-Returns, if-Keeps,
  handle_datagram-Returns, tick_round-Returns,
}
use p2psdk.Types.{IceSessionDescription, codes}
use p2psdk.Wire.{Bytes}

take_description-Keeps :
    (offered : Bool) (inner : ClientInner) (desc : IceSessionDescription) (o : Option IceAgent)
    → ClientOk inner
    → AgentOkIf o
    → Keeps (take_description offered inner desc o)
take_description-Keeps offered inner desc none h k = h
take_description-Keeps offered inner desc (some a) h k =
    let told = set_remote_session_description-AgentOk a desc k in
    if-Keeps offered _ _ (start_checks-AgentOk (set_remote_session_description a desc) told) told

take_message-Keeps :
    (offered : Bool) (inner : ClientInner) (m : Result Bytes IceDataMessage)
    → ClientOk inner
    → Keeps (take_message offered inner m)
take_message-Keeps offered inner (err e) h = h
take_message-Keeps offered inner (ok m) h =
    take_description-Keeps offered inner (describe m) inner.ice_agent h h

add_candidate_to-Keeps :
    (inner : ClientInner) (m : IceCandidateMessage) (o : Option IceAgent)
    → ClientOk inner
    → AgentOkIf o
    → Keeps (add_candidate_to inner m o)
add_candidate_to-Keeps inner m none h k = h
add_candidate_to-Keeps inner m (some a) h k = add_remote_candidate-AgentOk a m.candidate k

take_candidate-Keeps :
    (inner : ClientInner) (m : Result Bytes IceCandidateMessage)
    → ClientOk inner
    → Keeps (take_candidate inner m)
take_candidate-Keeps inner (err e) h = h
take_candidate-Keeps inner (ok m) h = add_candidate_to-Keeps inner m inner.ice_agent h h

handle_signaling_message-Keeps :
    {Json : Type 0} (codec : IceCodec Json) (inner : ClientInner) (value : Json)
    → ClientOk inner
    → Keeps (handle_signaling_message codec inner value)
unfolding handle_signaling_message
handle_signaling_message-Keeps codec inner value h =
    let action = or_blank (codec.action_of value) in
    if-Keeps (eq_bytes action (codes "iceOffer") || eq_bytes action (codes "iceAnswer")) _ _
      (take_message-Keeps (eq_bytes action (codes "iceOffer")) inner (codec.from_value value) h)
      (if-Keeps (eq_bytes action (codes "iceCandidate")) _ _
        (take_candidate-Keeps inner (codec.candidate_from_value value) h) h)

stop_ice-Returns : (inner : ClientInner) → Returns ClientOk (stop_ice elsewhere inner)
unfolding stop_ice stop_ice_threads joins_itself threads_joined
stop_ice-Returns inner = elim inner.ice_agent as (λ o. AgentOkIf (Option.map Agent.stop o)) [
  | none ↦ tt
  | some a ↦ stop-AgentOk a
]

close-Returns : (inner : ClientInner) → Returns ClientOk (close elsewhere inner)
unfolding close stop_ice_threads joins_itself
close-Returns inner = tt

-- What happens to a running client: a round of a thread, with what it received or what it drew and
-- what the callbacks do to the state, a message of the signalling server, or one of the application's
-- calls `tick`, `send_text`, `stop_ice` and `close`, the last two from a thread that they do not join.
pub data Call (Json : Type 0) : Type 0 where
  received : (ClientInner → ClientInner) → ℕ → Option (Bytes × Bytes × ℕ) → Call Json
  ticked : FreshIds → (ClientInner → ClientInner) → ℕ → Call Json
  checks_ticked : FreshIds → ℕ → Call Json
  signalled : Json → Call Json
  sent_text : Result Bytes (Unit {0}) → Bytes → Call Json
  stopped closed : Call Json

module _ {Json : Type 0} (crypto : Crypto) (codec : IceCodec Json) where
  unfoldable pub call : TickThread × ClientInner → Call Json → Outcome (TickThread × ClientInner)
  call (thread, inner) (received during clock datagram) = do
    done ← recv_round during clock inner datagram
    ret (thread, done.0)
  call (thread, inner) (ticked fresh during clock) = do
    done ← tick_round crypto fresh.id during clock thread inner
    ret done.0
  call (thread, inner) (checks_ticked fresh now_ms) = do
    done ← tick crypto fresh.id inner now_ms
    ret (thread, done.0)
  call (thread, inner) (signalled value) =
      ret (thread, (handle_signaling_message codec inner value).0)
  call (thread, inner) (sent_text returned text) = ret (thread, (send_text returned inner text).0)
  call (thread, inner) stopped = do after ← stop_ice elsewhere inner; ret (thread, after)
  call (thread, inner) closed = do after ← close elsewhere inner; ret (thread, after)

  unfoldable pub call_all :
      TickThread × ClientInner → List (Call Json) → Outcome (TickThread × ClientInner)
  call_all state [] = ret state
  call_all state (c ∷ cs) = do next ← call state c; call_all next cs

  -- The callbacks keep a sound agent sound, and the datagrams are ones that the parser gets through.
  abbrev pub Readable : Call Json → Type 0
  Readable (received during clock (some (bytes, ip, port))) = Harmless during × Parses bytes
  Readable (received during clock none) = Harmless during
  Readable (ticked fresh during clock) = Harmless during
  Readable _ = Unit

  abbrev pub Sound : TickThread × ClientInner → Type 0
  Sound state = ClientOk state.1

  receive_from-Returns :
      (during : ClientInner → ClientInner) (clock : ℕ) (inner : ClientInner) (udp : Bool)
      (datagram : Option (Bytes × Bytes × ℕ))
      → Readable (received during clock datagram)
      → ClientOk inner
      → Returns Keeps (receive_from during clock inner udp datagram)
  receive_from-Returns during clock inner false datagram p h = h
  receive_from-Returns during clock inner true none p h = h
  receive_from-Returns during clock inner true (some (bytes, ip, port)) p h =
      handle_datagram-Returns during p.0 clock inner bytes ip port p.1 h

  call-Returns :
      (state : TickThread × ClientInner) (c : Call Json)
      → Readable c
      → Sound state
      → Returns Sound (call state c)
  unfolding call recv_round send_text tick
  call-Returns (thread, inner) (received during clock datagram) p h =
      Returns-bind Keeps Sound _ _
        (receive_from-Returns during clock inner inner.ice_udp datagram p h) (λ done k. k)
  call-Returns (thread, inner) (ticked fresh during clock) p h =
      Returns-bind (λ (done : (TickThread × ClientInner) × List Output). ClientOk done.0.1) Sound _
        _ (tick_round-Returns during p crypto fresh clock thread inner h) (λ done k. k)
  call-Returns (thread, inner) (checks_ticked fresh now_ms) p h =
      Returns-bind Keeps Sound _ _
        (tick_agent-Returns crypto fresh inner now_ms inner.ice_agent h h) (λ done k. k)
  call-Returns (thread, inner) (signalled value) p h =
      handle_signaling_message-Keeps codec inner value h
  call-Returns (thread, inner) (sent_text returned text) p h = h
  call-Returns (thread, inner) stopped p h =
      Returns-bind ClientOk Sound _ _ (stop_ice-Returns inner) (λ after k. k)
  call-Returns (thread, inner) closed p h =
      Returns-bind ClientOk Sound _ _ (close-Returns inner) (λ after k. k)

-- The rounds of the receiving and of the ticking thread, the messages of the signalling server and the
-- calls `tick`, `send_text`, `stop_ice` and `close` of the application, in any order, never panic and
-- keep a client's ICE agent sound, when the parser returns from each datagram that is received, the
-- callbacks that a round runs return and keep a sound agent sound, and `stop_ice` and `close` are called
-- from a thread that they do not wait for, so not from a callback.
pub call_all-Returns :
    {Json : Type 0} (crypto : Crypto) (codec : IceCodec Json) (state : TickThread × ClientInner)
    (cs : List (Call Json))
    → All (Readable crypto codec) cs
    → Sound crypto codec state
    → Returns (Sound crypto codec) (call_all crypto codec state cs)
unfolding call_all
call_all-Returns crypto codec state [] ps h = h
call_all-Returns crypto codec state (c ∷ cs) ps h =
    Returns-bind (Sound crypto codec) (Sound crypto codec) _ _
      (call-Returns crypto codec state c ps.0 h)
      (λ next k. call_all-Returns crypto codec next cs ps.1 k)
