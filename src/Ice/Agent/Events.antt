-- ===== src/Ice/Agent/Events.antt =====
-- sdk/crates/p2p-core/src/ice/agent.rs: an agent under any sequence of calls and datagrams.
use p2psdk.Prelude.{
  ℕ, ◌≤◌, bit_and, ◌≡◌, inl, inr, not, List, [], ◌∷◌, arith, ltb, ◌==◌, Bool-cases, length, All,
  Outcome, ret, ◌>>=◌, Returns, Returns-eq, Returns-bind, Returns-if,
}
use p2psdk.Constants.{stun_binding_request, stun_binding_success}
use p2psdk.Crypto.{Crypto}
use p2psdk.Ice.Agent.{
  IceAgent, HandleDataResult, add_local_candidate, add_host_candidate, add_remote_candidate,
  set_remote_session_description, set_remote_pwd, start_checks, stop,
}
use p2psdk.Ice.Agent.Incoming.{
  accepts_username, resolve_conflict, handle_incoming_stun, handle_incoming_data,
}
use p2psdk.Ice.Agent.Invariant.{
  AgentOk, add_local_candidate-AgentOk, add_remote_candidate-AgentOk,
  set_remote_session_description-AgentOk, set_remote_pwd-AgentOk, start_checks-AgentOk,
  stop-AgentOk,
}
use p2psdk.Ice.Agent.Received.{
  resolve_conflict-AgentOk, respond-AgentOk, handle_stun_response-AgentOk,
}
use p2psdk.Ice.Agent.Tick.{tick}
use p2psdk.Ice.Agent.Total.{tick-Returns}
use p2psdk.Ice.StunCodec.{ParsedStunMessage, parse_ice_stun_message, build_ice_binding_response}
use p2psdk.Stun.Builder.Laws.{write_stun_header_lem}
use p2psdk.Types.{IceCandidate, IceSessionDescription}
use p2psdk.Wire.{Bytes}
use p2psdk.Wire.Laws.{byte_at-lt, read_u16-in_bounds, slice-in_bounds}

-- The response is built, or refused, whatever the request holds.
pub build_ice_binding_response-Returns :
    (request : Bytes) → Returns (λ o. Unit {0}) (build_ice_binding_response request)
unfolding build_ice_binding_response
build_ice_binding_response-Returns request = elim (Bool-cases (ltb (length request) 20)) [
  | inl e ↦ rw e tt
  | inr e ↦
      let long : 20 ≤ length request = ground arith in
      let (first, f) = byte_at-lt request 0 (omega arith) in
      let (kind, k) = read_u16-in_bounds request 0 (omega arith) in
      let (tid, t, twelve) = slice-in_bounds request 8 20 (omega arith) long in
      rw (e, f)
        (elim (Bool-cases (bit_and first 0xC0 == 0)) [
          | inr z ↦ rw z tt
          | inl z ↦
              rw (z, k)
                (elim (Bool-cases (bit_and kind 0x3EFF == stun_binding_request)) [
                  | inr r ↦ rw r tt
                  | inl r ↦ rw (r, t, write_stun_header_lem stun_binding_success 0 0 tid twelve) tt
                ])
        ])
]

handle_incoming_stun-Returns :
    (a : IceAgent) (raw : Bytes) (m : ParsedStunMessage) (ip : Bytes) (port : ℕ)
    → AgentOk a
    → Returns (λ done. AgentOk done.0) (handle_incoming_stun a raw m ip port)
unfolding handle_incoming_stun
handle_incoming_stun-Returns a raw m ip port h = elim (Bool-cases (accepts_username a m.username)) [
  | inr e ↦ rw e h
  | inl e ↦ rw e (
      Returns-bind (λ o. Unit {0}) (λ done. AgentOk done.0) _ _
        (build_ice_binding_response-Returns raw)
        (λ o u.
          respond-AgentOk m ip port (resolve_conflict m.controlling a) o
            (resolve_conflict-AgentOk m.controlling a h)))
]

pub handle_incoming_data-Returns :
    (a : IceAgent) (bytes ip : Bytes) (port : ℕ) (m : ParsedStunMessage)
    → parse_ice_stun_message bytes ≡ ret m
    → AgentOk a
    → Returns (λ done. AgentOk done.0) (handle_incoming_data a bytes ip port)
unfolding handle_incoming_data
handle_incoming_data-Returns a bytes ip port m parsed h =
    let Ok : IceAgent × HandleDataResult → Type 0 = λ done. AgentOk done.0 in
    rw parsed (
      Returns-if Ok (not m.is_stun) _ _ h (
        Returns-if Ok m.is_request _ _ (handle_incoming_stun-Returns a bytes m ip port h)
          (handle_stun_response-AgentOk a m h)))

-- The transaction IDs that one `tick` draws: twelve bytes each.
pub record FreshIds : Type 0 where
  pub id : ℕ → Bytes
  pub twelve : (i : ℕ) → length (id i) ≡ 12

-- A call of the agent by its owner.
pub data Event : Type 0 where
  local_candidate : IceCandidate → Event
  host_address : Bytes → ℕ → Event
  remote_description : IceSessionDescription → Event
  remote_candidate : Bytes → Event
  remote_password : Bytes → Event
  checks_started : Event
  ticked : FreshIds → ℕ → Event
  received : Bytes → Bytes → ℕ → Event
  stopped : Event

unfoldable pub step : Crypto → IceAgent → Event → Outcome IceAgent
step crypto a (local_candidate c) = ret (add_local_candidate a c)
step crypto a (host_address addr port) = ret (add_host_candidate a addr port)
step crypto a (remote_description desc) = ret (set_remote_session_description a desc)
step crypto a (remote_candidate line) = ret (add_remote_candidate a line)
step crypto a (remote_password pwd) = ret (set_remote_pwd a pwd)
step crypto a checks_started = ret (start_checks a).0
step crypto a (ticked fresh now_ms) = do done ← tick crypto fresh.id a now_ms; ret done.0
step crypto a (received bytes ip port) = do done ← handle_incoming_data a bytes ip port; ret done.0
step crypto a stopped = ret (stop a)

unfoldable pub run : Crypto → IceAgent → List Event → Outcome IceAgent
run crypto a [] = ret a
run crypto a (e ∷ es) = do b ← step crypto a e; run crypto b es

-- The datagrams of the events are ones that the parser gets through.
abbrev pub Parses : Event → Type 0
Parses (received bytes ip port) = Returns (λ m. Unit {0}) (parse_ice_stun_message bytes)
Parses _ = Unit

step-Returns :
    (crypto : Crypto) (a : IceAgent) (e : Event)
    → Parses e
    → AgentOk a
    → Returns AgentOk (step crypto a e)
unfolding step add_host_candidate
step-Returns crypto a (local_candidate c) p h = add_local_candidate-AgentOk a c h
step-Returns crypto a (host_address addr port) p h = add_local_candidate-AgentOk a _ h
step-Returns crypto a (remote_description desc) p h =
    set_remote_session_description-AgentOk a desc h
step-Returns crypto a (remote_candidate line) p h = add_remote_candidate-AgentOk a line h
step-Returns crypto a (remote_password pwd) p h = set_remote_pwd-AgentOk a pwd h
step-Returns crypto a checks_started p h = start_checks-AgentOk a h
step-Returns crypto a (ticked fresh now_ms) p h =
    let (done, e, k) =
      Returns-eq (tick crypto fresh.id a now_ms)
        (tick-Returns crypto fresh.id fresh.twelve a now_ms) in
    rw e (k.0 h)
step-Returns crypto a (received bytes ip port) p h =
    let (m, e, u) = Returns-eq (parse_ice_stun_message bytes) p in
    Returns-bind (λ (done : IceAgent × HandleDataResult). AgentOk done.0) AgentOk _ _
      (handle_incoming_data-Returns a bytes ip port m e h) (λ done k. k)
step-Returns crypto a stopped p h = stop-AgentOk a

-- Any sequence of calls whose datagrams the parser returns from takes a sound agent, without a panic,
-- to a sound one.
pub run-Returns :
    (crypto : Crypto) (a : IceAgent) (es : List Event)
    → All Parses es
    → AgentOk a
    → Returns AgentOk (run crypto a es)
unfolding run
run-Returns crypto a [] ps h = h
run-Returns crypto a (e ∷ es) ps h =
    Returns-bind AgentOk AgentOk _ _ (step-Returns crypto a e ps.0 h)
      (λ b k. run-Returns crypto b es ps.1 k)
