-- ===== src/Napi.antt =====
-- sdk/crates/p2p-napi/src/client_napi.rs: the client behind the Node and C bindings. It wraps a
-- `P2pClient` and has an agent and threads of its own for peers that are reached over the connector.
-- The log lines, and the fields for IPv6 that nothing uses, are left out.
pub mod Messages
pub mod Offers
pub mod Connection
pub mod Flags
pub mod Registered
pub mod Threads
pub mod Deliveries
use p2psdk.Prelude.{
  ℕ, zero, suc, ◌+◌, ◌-◌, ◌*◌, ◌/◌, ◌%◌, ◌^◌, ◌≤◌, ◌<◌, min, max, bit_and, bit_xor, ◌≡◌, refl, sym,
  ap, ap₂, ◌∙◌, ◌≢◌, ◌↔◌, ◌⊎◌, inl, inr, Bool, true, false, not, ◌&&◌, ◌||◌, Option, none, some,
  List, [], ◌∷◌, ◌++◌, map, append_assoc, append-nil, arith, ltb, leb, ◌==◌, if◌then◌else◌, ltb→lt,
  leb→le, le→leb, leb-false, ltb-false, ==_iff, Bool-cases, Option-cases, eq_bytes, eq_bytes_refl,
  eq_bytes_sound, position, FirstAt, FoundBy, position-FoundBy, position-FirstAt, position-none,
  FirstAt-lt, All-map, length, get_elem?, take, drop, replicate, All, length-append, length-take,
  length-drop, length-replicate, take-append, drop-append, get_elem?-append, get_elem?-lt, Result,
  ok, err, Outcome, ret, panic, out_of_fuel, ◌>>=◌, ◌>>◌, Returns, Returns-eq, Returns-of_eq,
  Returns-bind, Returns-if,
}
use mathlib.Core.Option
use p2psdk.Ice.Agent.{
  IceAgent, IceAction, new_agent, add_local_candidate, add_host_candidate,
  local_session_description, set_remote_session_description, add_remote_candidate, start_checks,
}
use p2psdk.Ice.Agent
use p2psdk.Sdk.Client.{
  elsewhere, ClientInner, NatRoute, Output, new_inner, is_ice_completed, next_seq_id, pop_front,
  text_frame,
}
use p2psdk.Sdk.Client
use p2psdk.Sdk.Client.Gather.{Draws, first_or_blank}
use p2psdk.Sdk.Client.Receive.{sent_if}
use p2psdk.Sdk.Connect.{add_known}
use p2psdk.Sdk.Io.{Io}
use p2psdk.Sdk.Signals.{IceCodec, IceDataMessage, IceCandidateMessage, describe, or_blank}
use p2psdk.Types.{IceSessionDescription, codes}
use p2psdk.Wire.{Bytes}

-- Of the `P2pClient` the state that its threads share is kept; of the socket and the threads, whether
-- they are there; `connector_tx` is the queue of the channel to the connector's thread, if there is a
-- channel.
pub record Inner (Json : Type 0) : Type 0 where
  pub p2p_client : ClientInner
  pub ice_agent : Option IceAgent
  pub ids_url : Bytes
  pub nat_url : Bytes
  pub nat_route : Option NatRoute
  pub stun_external_ip : Bytes
  pub stun_external_port : ℕ
  pub turn_relay_ip : Bytes
  pub turn_relay_port : ℕ
  pub connector_registered : Bool
  pub identifier : Bytes
  pub cached_p2p_token : Bytes
  pub ice_udp : Bool
  pub tick_thread : Bool
  pub recv_thread : Bool
  pub connector_thread : Bool
  pub ice_stop : Bool
  pub connector_stop : Bool
  pub connector_tx : Option (List (Bytes × Json))
  pub heartbeat_interval : ℕ
  pub pending_seq_ids : List ℕ

-- The `i32` that a call returns: 0, or a number below it.
pub data Code : Type 0 where
  done : Code
  minus : ℕ → Code

abbrev pub code_of : Result Bytes (Unit {0}) → Code
code_of (ok u) = done
code_of (err e) = minus 1

-- Over the agent of its own; what the socket returns is not looked at.
abbrev pub send_own : Option IceAgent → Bool → Bytes → Code × List Output
send_own none udp bytes = (minus 2, [])
send_own (some agent) false bytes = (minus 3, [])
send_own (some agent) true bytes = (done, sent_if (Agent.send_data agent bytes))

module _ {Json : Type 0} where
  unfoldable pub global_inner : Inner Json
  global_inner = record {
    p2p_client = new_inner;
    ice_agent = none;
    ids_url = [];
    nat_url = [];
    nat_route = none;
    stun_external_ip = [];
    stun_external_port = 0;
    turn_relay_ip = [];
    turn_relay_port = 0;
    connector_registered = false;
    identifier = [];
    cached_p2p_token = [];
    ice_udp = false;
    tick_thread = false;
    recv_thread = false;
    connector_thread = false;
    ice_stop = false;
    connector_stop = false;
    connector_tx = none;
    heartbeat_interval = 0;
    pending_seq_ids = [];
  }

  unfoldable pub stop_ice_threads : Inner Json → Inner Json
  stop_ice_threads inner = record inner {
    ice_stop = true;
    tick_thread = false;
    recv_thread = false;
  }

  unfoldable pub start_ice_threads_inner : Inner Json → Inner Json
  start_ice_threads_inner inner = record (stop_ice_threads inner) {
    ice_stop = false;
    tick_thread = true;
    recv_thread = true;
  }

  abbrev pub connector_stopped : Inner Json → Inner Json
  connector_stopped inner = record inner {
    connector_stop = true;
    connector_registered = false;
    connector_tx = none;
    connector_thread = false;
  }

  -- The lock is released before the thread is joined; `ending` is what the rest of its last round does
  -- to the state, and it may set `connector_registered` again.
  unfoldable pub stop_connector : (Inner Json → Inner Json) → Inner Json → Inner Json
  stop_connector ending inner = ending (connector_stopped inner)

  -- The thread is the loop of the connector.
  unfoldable pub connect_connector : (Inner Json → Inner Json) → Inner Json → Bytes → Inner Json
  connect_connector ending inner identifier = record (stop_connector ending inner) {
    connector_stop = false;
    identifier = identifier;
    connector_tx = some [];
    connector_thread = true;
  }

  unfoldable pub disconnect_connector : (Inner Json → Inner Json) → Inner Json → Inner Json
  disconnect_connector ending inner = stop_connector ending inner

  unfoldable pub is_connector_registered : Inner Json → ℕ
  is_connector_registered inner = if inner.connector_registered then 1 else 0

  unfoldable pub stop_ice : Inner Json → Inner Json
  stop_ice inner = record (stop_ice_threads inner) { ice_agent = none }

  abbrev pub closed : (Inner Json → Inner Json) → Inner Json → ClientInner → Inner Json
  closed ending inner p2p_client =
      record (stop_connector ending (stop_ice_threads (record inner { p2p_client = p2p_client }))) {
        ice_agent = none;
        ice_udp = false;
      }

  unfoldable pub close : (Inner Json → Inner Json) → Inner Json → Outcome (Inner Json)
  close ending inner = do
    p2p_client ← Client.close elsewhere inner.p2p_client
    ret (closed ending inner p2p_client)

  abbrev pub send_by : Result Bytes (Unit {0}) → Inner Json → Bytes → Bool → Code × List Output
  send_by returned inner bytes true =
      let out = Client.send_data returned inner.p2p_client bytes in (code_of out.0, out.1)
  send_by returned inner bytes false = send_own inner.ice_agent inner.ice_udp bytes

  -- A completed `P2pClient` comes first.
  unfoldable pub send_data : Result Bytes (Unit {0}) → Inner Json → Bytes → Code × List Output
  send_data returned inner bytes = send_by returned inner bytes (is_ice_completed inner.p2p_client)

  abbrev pub send_text_by :
      Result Bytes (Unit {0}) → Inner Json → Bytes → Bool → Inner Json × (Code × List Output)
  send_text_by returned inner text true =
      let out = Client.send_text returned inner.p2p_client text in
      (record inner { p2p_client = out.0 }, (code_of out.1.0, out.1.1))
  send_text_by returned inner text false = (
    record inner { pending_seq_ids = pop_front inner.pending_seq_ids },
    send_own inner.ice_agent inner.ice_udp (text_frame text (next_seq_id inner.pending_seq_ids)),
  )

  unfoldable pub send_text :
      Result Bytes (Unit {0}) → Inner Json → Bytes → Inner Json × (Code × List Output)
  send_text returned inner text =
      send_text_by returned inner text (is_ice_completed inner.p2p_client)

  abbrev pub push_message :
      Bytes × Json → Option (List (Bytes × Json)) → Option (List (Bytes × Json))
  push_message m none = none
  push_message m (some queue) = some (queue ++ (m ∷ []))

  unfoldable pub send_via_connector : Inner Json → Bytes → Json → Inner Json
  send_via_connector inner target_id value = record inner {
    connector_tx = push_message (target_id, value) inner.connector_tx;
  }
