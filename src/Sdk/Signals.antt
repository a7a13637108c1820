-- ===== src/Sdk/Signals.antt =====
-- sdk/crates/p2p-sdk/src/client.rs: `P2pClient` and the signalling of ICE through the connector.
pub mod Answers
use p2psdk.Prelude.{
  ℕ, zero, suc, ◌+◌, ◌-◌, ◌*◌, ◌/◌, ◌%◌, ◌^◌, ◌≤◌, ◌<◌, min, max, bit_and, bit_xor, ◌≡◌, refl, sym,
  ap, ap₂, ◌∙◌, ◌≢◌, ◌↔◌, ◌⊎◌, inl, inr, Bool, true, false, not, ◌&&◌, ◌||◌, Option, none, some,
  List, [], ◌∷◌, ◌++◌, map, append_assoc, append-nil, arith, ltb, leb, ◌==◌, if◌then◌else◌, ltb→lt,
  leb→le, le→leb, leb-false, ltb-false, ==_iff, Bool-cases, Option-cases, eq_bytes, eq_bytes_refl,
  eq_bytes_sound, position, FirstAt, FoundBy, position-FoundBy, position-FirstAt, position-none,
  FirstAt-lt, All-map, length, get_elem?, take, drop, replicate, All, length-append, length-take,
  length-drop, length-replicate, take-append, drop-append, get_elem?-append, get_elem?-lt, Result,
  ok, err, Outcome, ret, panic, out_of_fuel, ◌>>=◌, ◌>>◌, Returns, Returns-eq, Returns-of_eq,
  Returns-bind, Returns-if,
}
use mathlib.Core.Option
use p2psdk.Ice.Agent.{
  IceAgent, local_session_description, set_remote_session_description, add_remote_candidate,
  start_checks,
}
use p2psdk.Ice.Agent.Incoming
use p2psdk.Sdk.Client.{ClientInner, new_inner, set_agent}
use p2psdk.Sdk.Connector.{
  Signaling, ConnectorClient, ConnectorMessage, ConnectorError, display, new_client, connect, poll,
  send_to, disconnect,
}
use p2psdk.Sdk.Ids
use p2psdk.Sdk.Io.{Io, IdsRecord}
use p2psdk.Sdp.{generate_sdp_offer, parse_sdp_answer, SdpAnswerInfo}
use p2psdk.Types.{IceSessionDescription, codes}
use p2psdk.Wire.{Bytes}

-- sdk/crates/p2p-core/src/types.rs
pub record IceDataMessage : Type 0 where
  pub action : Bytes
  pub ice_ufrag : Bytes
  pub ice_pwd : Bytes
  pub is_lite : Bool
  pub candidates : List Bytes

pub record IceCandidateMessage : Type 0 where
  pub action : Bytes
  pub candidate : Bytes

-- sdk/crates/p2p-sdk/src/config.rs
pub record Config : Type 0 where
  pub ids_url : Bytes
  pub nat_url : Bytes
  pub nat_token_url : Bytes

-- What serde_json makes of the messages.
pub record IceCodec (Json : Type 0) : Type 0 where
  pub to_value : IceDataMessage → Result Bytes Json
  pub from_value : Json → Result Bytes IceDataMessage
  pub candidate_from_value : Json → Result Bytes IceCandidateMessage
  -- `data.get("action").and_then(|v| v.as_str())`
  pub action_of : Json → Option Bytes

pub record P2pClient (signaling : Signaling) : Type 0 where
  pub config : Option Config
  pub inner : ClientInner
  pub connector : Option (ConnectorClient signaling)
  pub identifier : Bytes

abbrev pub describe : IceDataMessage → IceSessionDescription
describe m = record {
  ice_ufrag = m.ice_ufrag;
  ice_pwd = m.ice_pwd;
  is_lite = m.is_lite;
  candidates = m.candidates;
}

unfoldable pub offer_message : IceSessionDescription → IceDataMessage
offer_message desc = record {
  action = codes "iceOffer";
  ice_ufrag = desc.ice_ufrag;
  ice_pwd = desc.ice_pwd;
  is_lite = desc.is_lite;
  candidates = desc.candidates;
}

abbrev pub no_agent : Bytes
no_agent = codes "no ICE agent"

-- The description is set, and for an offer the checks are started.
abbrev pub take_description :
    Bool
    → ClientInner
    → IceSessionDescription
    → Option IceAgent
    → ClientInner × Result Bytes (Unit {0})
take_description offered inner desc none = (inner, err no_agent)
take_description offered inner desc (some agent) =
    let told = set_remote_session_description agent desc in
    let started = start_checks told in
    if offered then (set_agent inner started.0, started.1) else (set_agent inner told, ok tt)

abbrev pub take_message :
    Bool → ClientInner → Result Bytes IceDataMessage → ClientInner × Result Bytes (Unit {0})
take_message offered inner (err e) = (inner, err e)
take_message offered inner (ok m) = take_description offered inner (describe m) inner.ice_agent

abbrev pub add_candidate_to :
    ClientInner → IceCandidateMessage → Option IceAgent → ClientInner × Result Bytes (Unit {0})
add_candidate_to inner m none = (inner, err no_agent)
add_candidate_to inner m (some agent) =
    (set_agent inner (add_remote_candidate agent m.candidate), ok tt)

abbrev pub take_candidate :
    ClientInner → Result Bytes IceCandidateMessage → ClientInner × Result Bytes (Unit {0})
take_candidate inner (err e) = (inner, err e)
take_candidate inner (ok m) = add_candidate_to inner m inner.ice_agent

abbrev pub or_blank : Option Bytes → Bytes
or_blank none = []
or_blank (some s) = s

-- The list of actions that the source returns is empty on every branch and left out.
unfoldable pub handle_signaling_message :
    {Json : Type 0} → IceCodec Json → ClientInner → Json → ClientInner × Result Bytes (Unit {0})
handle_signaling_message codec inner value =
    let action = or_blank (codec.action_of value) in
    if eq_bytes action (codes "iceOffer") || eq_bytes action (codes "iceAnswer")
    then take_message (eq_bytes action (codes "iceOffer")) inner (codec.from_value value)
    else if eq_bytes action (codes "iceCandidate")
    then take_candidate inner (codec.candidate_from_value value)
    else (inner, ok tt)

-- `map_err(|e| e.to_string())`
abbrev pub shown : Result ConnectorError (Unit {0}) → Result Bytes (Unit {0})
shown (ok u) = ok u
shown (err e) = err (display e)

module _ (signaling : Signaling) (codec : IceCodec signaling.Json) where
  unfoldable pub new_p2p_client : P2pClient signaling
  new_p2p_client = record { config = none; inner = new_inner; connector = none; identifier = [] }

  unfoldable pub init : P2pClient signaling → Config → P2pClient signaling
  init client config = record client {
    config = some config;
    inner = record client.inner { io = true };
  }

  abbrev pub keep_connector :
      P2pClient signaling
      → Bytes
      → ConnectorClient signaling × Result ConnectorError (Unit {0})
      → P2pClient signaling × Result Bytes (Unit {0})
  keep_connector client identifier (connector, err e) = (client, err (display e))
  keep_connector client identifier (connector, ok u) =
      (record client { connector = some connector; identifier = identifier }, ok tt)

  unfoldable pub connect_connector :
      P2pClient signaling
      → signaling.World
      → Bytes
      → Bytes
      → Bytes
      → P2pClient signaling × Result Bytes (Unit {0})
  connect_connector client ws url identifier auth_token =
      keep_connector client identifier
        (connect signaling (new_client signaling ws) url identifier auth_token)

  abbrev pub poll_with :
      P2pClient signaling
      → Option (ConnectorClient signaling)
      → P2pClient signaling × List (ConnectorMessage signaling.Json)
  poll_with client none = (client, [])
  poll_with client (some connector) =
      let polled = poll signaling connector in
      (record client { connector = some polled.0 }, polled.1)

  unfoldable pub poll_connector :
      P2pClient signaling → P2pClient signaling × List (ConnectorMessage signaling.Json)
  poll_connector client = poll_with client client.connector

  abbrev pub send_with :
      P2pClient signaling
      → Bytes
      → signaling.Json
      → Option (ConnectorClient signaling)
      → P2pClient signaling × Result Bytes (Unit {0})
  send_with client target_id value none = (client, err (codes "not connected to connector"))
  send_with client target_id value (some connector) =
      let done = send_to signaling connector target_id value in
      (record client { connector = some done.0 }, shown done.1)

  unfoldable pub send_connector_message :
      P2pClient signaling → Bytes → signaling.Json → P2pClient signaling × Result Bytes (Unit {0})
  send_connector_message client target_id value = send_with client target_id value client.connector

  abbrev pub send_value :
      P2pClient signaling
      → Bytes
      → Result Bytes signaling.Json
      → P2pClient signaling × Result Bytes (Unit {0})
  send_value client peer_id (err e) = (client, err e)
  send_value client peer_id (ok value) = send_connector_message client peer_id value

  abbrev pub offer_from :
      P2pClient signaling → Bytes → Option IceAgent → P2pClient signaling × Result Bytes (Unit {0})
  offer_from client peer_id none = (client, err no_agent)
  offer_from client peer_id (some agent) =
      send_value client peer_id (codec.to_value (offer_message (local_session_description agent)))

  unfoldable pub initiate_ice :
      P2pClient signaling → Bytes → P2pClient signaling × Result Bytes (Unit {0})
  initiate_ice client peer_id = offer_from client peer_id client.inner.ice_agent

  unfoldable pub disconnect_connector : P2pClient signaling → P2pClient signaling
  disconnect_connector client = record client {
    connector = Option.map (disconnect signaling) client.connector;
  }

module _ (io : Io) where
  abbrev pub describe_answer : SdpAnswerInfo → IceSessionDescription
  describe_answer answer = record {
    ice_ufrag = answer.ufrag;
    ice_pwd = answer.pwd;
    is_lite = answer.is_lite;
    candidates = answer.candidates;
  }

  abbrev pub take_answer :
      ClientInner
      → io.World × Result Bytes Bytes
      → (io.World × ClientInner) × Result Bytes (Unit {0})
  take_answer inner (w, err e) = ((w, inner), err e)
  take_answer inner (w, ok sdp_answer) =
      let done =
        take_description true inner (describe_answer (parse_sdp_answer sdp_answer))
          inner.ice_agent in
      ((w, done.0), done.1)

  abbrev pub offer_over_http :
      io.World
      → ClientInner
      → Bytes
      → Bytes
      → Bytes
      → ℕ
      → Option IceAgent
      → (io.World × ClientInner) × Result Bytes (Unit {0})
  offer_over_http w inner odid peer_addr default_ip default_port none = ((w, inner), err no_agent)
  offer_over_http w inner odid peer_addr default_ip default_port (some agent) =
      let desc = local_session_description agent in
      let offer =
        generate_sdp_offer odid desc.ice_ufrag desc.ice_pwd desc.candidates default_ip default_port
          (io.unix_time w) in
      take_answer inner (Ids.send_ice_offer io w peer_addr offer)

  unfoldable pub connect_via_sdp :
      io.World
      → ClientInner
      → Bytes
      → Bytes
      → Bytes
      → ℕ
      → (io.World × ClientInner) × Result Bytes (Unit {0})
  connect_via_sdp w inner odid peer_addr default_ip default_port =
      offer_over_http w inner odid peer_addr default_ip default_port inner.ice_agent

  unfoldable pub client_register_ids :
      io.World → Option Config → Bytes → Bytes → Bytes → Bytes → io.World × Result Bytes (Unit {0})
  client_register_ids w none app_id user_id odid push_token = (w, err (codes "not initialized"))
  client_register_ids w (some config) app_id user_id odid push_token =
      Ids.register_ids io w config.ids_url app_id user_id (codes "app") odid push_token

  unfoldable pub client_query_ids :
      io.World → Option Config → Bytes → Bytes → io.World × Result Bytes IdsRecord
  client_query_ids w none app_id user_id = (w, err (codes "not initialized"))
  client_query_ids w (some config) app_id user_id = Ids.query_ids io w config.ids_url app_id user_id
