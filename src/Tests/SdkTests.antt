-- ===== src/Tests/SdkTests.antt =====
-- Tests of the library for applications, each at a concrete client.
use p2psdk.Prelude.{
  ℕ, ◌+◌, ◌%◌, ◌≡◌, refl, true, false, none, some, List, [], ◌∷◌, arith, ltb, replicate, Result, ok,
  err, ret, Returns,
}
use p2psdk.Frame.{encode_heartbeat_reply}
use p2psdk.Ice.Agent.{IceAgent, add_local_candidate, nominated_pair, set_remote_session_description}
use p2psdk.Ice.Agent.Invariant.{new_agent-AgentOk, add_local_candidate-AgentOk}
use p2psdk.Sdk.Client.{ClientInner, set_agent, tick}
use p2psdk.Sdk.Client.Gather.{Draws}
use p2psdk.Sdk.Client.Heartbeats.{
  Beating, rally, rally-heartbeat, reported, tick_rounds, tick_rounds-silent,
}
use p2psdk.Sdk.Client.Mailbox.{Use, incoming, reply, use_all, mailbox, use_all-mailbox}
use p2psdk.Sdk.Client.Ticker.{TickThread}
use p2psdk.Sdk.Connect.{negotiate}
use p2psdk.Sdk.Connect.Negotiation.{Negotiated, negotiate-Negotiated}
use p2psdk.Sdk.Connector.{
  Signaling, ConnectorMessage, Runner, new_client, start_run, run_with_reconnect, polling, finished,
}
use p2psdk.Sdk.Connector.Runs.{
  Alternates, run_with_reconnect-Alternates, run_with_reconnect-stop, backoffs,
  run_with_reconnect-backoff,
}
use p2psdk.Sdk.Signals.{IceCodec, IceDataMessage, describe, handle_signaling_message}
use p2psdk.Sdk.Signals.Answers.{handle_signaling_message-answer}
use p2psdk.Tests.Doubles.{toy_dimpl, toy_io}
use p2psdk.Tests.Fixtures.{
  zero_crypto, ids, tid, address, a_candidate, a_pair, an_agent, fresh_agent,
}
use p2psdk.Types.{CheckState, IceState, codes}
use p2psdk.Wire.{Bytes}

-- A message of the type that its text names.
abbrev typed : Bytes → ConnectorMessage Bytes
typed text = record {
  msg_type = text;
  from = [];
  to = [];
  data_value = [];
  auth = [];
  reason = [];
  timestamp = 0;
}

-- A server whose connections break at every fifth moment; the world counts the moments.
abbrev toy_server : (Bytes → Result Bytes (Unit {0})) → Signaling
toy_server answer = record {
  World = ℕ;
  Json = Bytes;
  string_value = λ s. s;
  to_string = λ m. ok m.msg_type;
  from_str = λ text. some (typed text);
  connect = λ w url. (w + 1, answer url);
  send = λ w text. (w + 1, ok tt);
  received = λ w. (w + 1, codes "register_ok" ∷ codes "message" ∷ []);
  is_connected = λ w. ltb 0 (w % 5);
  close = λ w. w;
  perform = λ w e. w + 1;
}

abbrev pub url : Bytes
url = codes "ws://h"

abbrev pub open_server : Signaling
open_server = toy_server (λ u. ok tt)

abbrev shut_server : Signaling
shut_server = toy_server (λ u. err (codes "refused"))

run_with_reconnect-Alternates_example :
    Alternates false
      (run_with_reconnect open_server url
        (codes "me")
        []
        (replicate 9 false)
        (start_run open_server (new_client open_server 0))).1
run_with_reconnect-Alternates_example =
    run_with_reconnect-Alternates open_server url (codes "me") [] 9 (new_client open_server 0)

abbrev in_the_poll_loop : Runner open_server
in_the_poll_loop = record {
  phase = polling;
  client = record { ws = 3; identifier = codes "me"; registered = true };
  delay = 1000;
}

run_with_reconnect-stop_example :
    let done =
      run_with_reconnect open_server url (codes "me") [] (replicate 3 true) in_the_poll_loop in
    (done.0.phase ≡ finished) × (done.1 ≡ [])
run_with_reconnect-stop_example =
    run_with_reconnect-stop open_server url (codes "me") [] in_the_poll_loop

run_with_reconnect-backoff_example :
    (run_with_reconnect shut_server url
      (codes "me")
      []
      (replicate 7 false)
      (start_run shut_server (new_client shut_server 0))).1
    ≡ backoffs 0 7
run_with_reconnect-backoff_example =
    run_with_reconnect-backoff shut_server url (codes "me") [] (λ w. codes "refused") 7
      (new_client shut_server 0) (λ w. refl)

abbrev pub nominating_agent : IceState → IceAgent
nominating_agent s = record (an_agent (a_pair CheckState.succeeded 9 ∷ []) (some 0)) { state = s }

abbrev pub a_client : ClientInner
a_client = record {
  io = true;
  nat_route = none;
  stun_external_ip = [];
  stun_external_port = 0;
  turn_relay_ip = [];
  turn_relay_port = 0;
  turn_mapped_ip = [];
  turn_mapped_port = 0;
  ice_agent = some (nominating_agent IceState.completed);
  ice_udp = true;
  tick_handle = true;
  recv_handle = true;
  ice_stop = false;
  on_state_change = true;
  on_data = true;
  heartbeat_interval_secs = 5;
  last_recv_instant = some 1000;
  pending_seq_ids = [];
}

-- Two requests, and an answer to each; a third text answers nothing.
abbrev conversation : List Use
conversation =
    incoming (codes "a") 7 1500 address 5000
    ∷ incoming (codes "b") 8 1600 address 5000
    ∷ reply (codes "x")
    ∷ reply (codes "y")
    ∷ reply (codes "z")
    ∷ []

use_all-mailbox_example :
    Returns
      (λ done.
        (done.0.pending_seq_ids ≡ (mailbox (a_pair CheckState.succeeded 9) [] conversation).0)
        × (done.1 ≡ (mailbox (a_pair CheckState.succeeded 9) [] conversation).1))
      (use_all (ok tt) a_client conversation)
use_all-mailbox_example =
    use_all-mailbox (nominating_agent IceState.completed) (a_pair CheckState.succeeded 9) (ok tt)
      a_client [] conversation (unfold nominated_pair in refl)
      (record { agent_is = refl; udp_is = refl; callback_is = refl; queue_is = refl })
      ((omega arith, omega arith), ((omega arith, omega arith), (tt, (tt, (tt, tt)))))

abbrev a_beating : Beating a_client
a_beating = record {
  agent = nominating_agent IceState.completed;
  peer = a_pair CheckState.succeeded 9;
  agent_is = refl;
  nominated = unfold nominated_pair in refl;
  interval = refl;
}

rally-heartbeat_example :
    rally 4 a_client a_client (some encode_heartbeat_reply) ≡ ret (some encode_heartbeat_reply)
rally-heartbeat_example = rally-heartbeat 4 a_client a_client a_beating a_beating

abbrev a_thread : TickThread
a_thread = record {
  now_ms = 20000;
  last_state = some IceState.completed;
  last_heartbeat_ms = 15000;
}

tick_rounds-silent_example :
    Returns
      (λ done. reported done.1 ≡ replicate 3 IceState.disconnected)
      (tick_rounds zero_crypto ids.id (11000 ∷ 11050 ∷ 11100 ∷ []) a_thread a_client)
tick_rounds-silent_example =
    tick_rounds-silent zero_crypto ids.id 1000 (11000 ∷ 11050 ∷ 11100 ∷ []) a_thread a_client
      (record {
        agent = nominating_agent IceState.completed;
        agent_is = refl;
        state_is = refl;
        last_is = refl;
        interval = refl;
        callback_is = refl;
        heard_is = refl;
      })
      (omega arith, (omega arith, (omega arith, tt)))

abbrev pub an_answer : IceDataMessage
an_answer = record {
  action = codes "iceAnswer";
  ice_ufrag = codes "bbbb";
  ice_pwd = codes "other";
  is_lite = false;
  candidates = codes "candidate:h 1 UDP 90 10.0.0.2 5000 typ host" ∷ [];
}

-- Values that are the messages themselves.
abbrev pub toy_codec : IceCodec IceDataMessage
toy_codec = record {
  to_value = λ m. ok m;
  from_value = λ v. ok v;
  candidate_from_value = λ v. err [];
  action_of = λ v. some v.action;
}

abbrev offering_client : ClientInner
offering_client = record a_client { ice_agent = some (an_agent [] none) }

handle_signaling_message-answer_example :
    let after = (handle_signaling_message toy_codec offering_client an_answer).0 in
    (after
      ≡ set_agent offering_client
          (set_remote_session_description (an_agent [] none) (describe an_answer)))
    × (tick zero_crypto ids.id after 500 ≡ ret (after, []))
handle_signaling_message-answer_example =
    handle_signaling_message-answer zero_crypto ids.id toy_codec offering_client an_answer
      (an_agent [] none) an_answer 500 refl refl refl refl

abbrev pub draws : Draws
draws = record {
  ufrag = codes "aaaa";
  pwd = codes "secret";
  tie_breaker = 5;
  stun_tid = tid;
  turn_tid = tid;
  rounds = 17;
  fuel = 4;
}

abbrev offering_agent : IceAgent
offering_agent = add_local_candidate fresh_agent (a_candidate 100 4000)

negotiate-Negotiated_example : Negotiated toy_dimpl toy_io draws [] a_client (
    negotiate toy_dimpl toy_io draws [] 0 a_client offering_agent
      (codes "10.0.0.9")
      (codes "id")
      4000)
negotiate-Negotiated_example =
    negotiate-Negotiated toy_dimpl toy_io draws [] 0 a_client offering_agent (codes "10.0.0.9")
      (codes "id") 4000
      (add_local_candidate-AgentOk fresh_agent (a_candidate 100 4000)
        (new_agent-AgentOk true (codes "aaaa") (codes "secret") 5))
