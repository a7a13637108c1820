-- ===== src/Sdk/Connect/Negotiation.antt =====
-- sdk/crates/p2p-sdk/src/client.rs: what the negotiation of `connect_background` leaves behind.
use p2psdk.Prelude.{ℕ, ◌≡◌, refl, inl, inr, true, false, ◌||◌, some, Bool-cases, Result, ok, err}
use p2psdk.Dtls.{Dimpl}
use p2psdk.Ice.Agent.{IceAgent, set_state, set_remote_session_description, start_checks}
use p2psdk.Ice.Agent.Invariant.{
  AgentOk, set_remote_session_description-AgentOk, start_checks-AgentOk,
}
use p2psdk.Ice.CheckList.{is_empty}
use p2psdk.Sdk.Client.{ClientInner, start_ice_threads, threads_joined}
use p2psdk.Sdk.Client.Gather.{Draws}
use p2psdk.Sdk.Connect.{Step, started_step, answer_step, negotiate}
use p2psdk.Sdk.Io.{Io}
use p2psdk.Sdk.Signals.{describe_answer}
use p2psdk.Sdp.{parse_sdp_answer}
use p2psdk.Text.Words.{trim}
use p2psdk.Types.{IceState}
use p2psdk.Wire.{Bytes}

-- A sound agent that checks its pairs, and both threads.
pub record Running (inner : ClientInner) : Type 0 where
  pub agent : IceAgent
  pub agent_is : inner.ice_agent ≡ some agent
  pub sound : AgentOk agent
  pub connecting : agent.state ≡ IceState.connecting
  pub has_udp : inner.ice_udp ≡ true
  pub ticks : inner.tick_handle ≡ true
  pub receives : inner.recv_handle ≡ true
  pub not_stopped : inner.ice_stop ≡ false

abbrev Started : IceAgent × Result Bytes (Unit {0}) → Type 0
Started (agent, ok u) = agent.state ≡ IceState.connecting
Started (agent, err e) = Unit

start_checks-Started : (a : IceAgent) → Started (start_checks a)
unfolding start_checks set_state
start_checks-Started a = elim (Bool-cases (is_empty a.remote_ufrag)) [
  | inl e ↦ rw e tt
  | inr e ↦ rw e (elim (Bool-cases (is_empty a.local_candidates || is_empty a.remote_candidates)) [
    | inl f ↦ rw f tt
    | inr f ↦ rw f refl
  ])
]

module _ (dimpl : Dimpl) (io : Io) (draws : Draws) (p2p_token : Bytes) where
  -- An error changes nothing of the client.
  abbrev pub Negotiated : ClientInner → Step dimpl io draws p2p_token (Unit {0}) → Type 0
  Negotiated inner ((w, after), ok u) = Running after
  Negotiated inner ((w, after), err e) = after ≡ inner

  started_step-Negotiated :
      (w : io.World) (inner : ClientInner) (started : IceAgent × Result Bytes (Unit {0}))
      → AgentOk started.0
      → Started started
      → Negotiated inner (started_step dimpl io draws p2p_token w inner started)
  unfolding start_ice_threads threads_joined
  started_step-Negotiated w inner (agent, err e) sound s = refl
  started_step-Negotiated w inner (agent, ok u) sound s = record {
    agent = agent;
    agent_is = refl;
    sound = sound;
    connecting = s;
    has_udp = refl;
    ticks = refl;
    receives = refl;
    not_stopped = refl;
  }

  answer_step-Negotiated :
      (inner : ClientInner) (agent : IceAgent) (posted : io.World × Result Bytes (ℕ × Bytes))
      → AgentOk agent
      → Negotiated inner (answer_step dimpl io draws p2p_token inner agent posted)
  answer_step-Negotiated inner agent (w, err e) sound = refl
  answer_step-Negotiated inner agent (w, ok (status, resp)) sound =
      let desc = describe_answer io (parse_sdp_answer (trim resp)) in
      let told = set_remote_session_description agent desc in
      started_step-Negotiated w inner (start_checks told)
        (start_checks-AgentOk told (set_remote_session_description-AgentOk agent desc sound))
        (start_checks-Started told)

-- The negotiation of a sound agent, whatever the peer answers, ends in one of two ways: with an error,
-- and then nothing of the client has changed, or with a sound agent that is connecting, a socket and
-- both threads running.
pub negotiate-Negotiated :
    (dimpl : Dimpl) (io : Io) (draws : Draws) (p2p_token : Bytes) (w : io.World)
    (inner : ClientInner) (agent : IceAgent) (peer_addr odid : Bytes) (ice_port : ℕ)
    → AgentOk agent
    → Negotiated dimpl io draws p2p_token inner
        (negotiate dimpl io draws p2p_token w inner agent peer_addr odid ice_port)
unfolding negotiate
negotiate-Negotiated dimpl io draws p2p_token w inner agent peer_addr odid ice_port sound =
    answer_step-Negotiated dimpl io draws p2p_token inner agent _ sound
