-- ===== src/Napi/Messages.antt =====
-- sdk/crates/p2p-napi/src/client_napi.rs: what the messages of the signalling server do.
use p2psdk.Prelude.{
  ℕ, true, false, not, ◌&&◌, Option, none, some, List, [], ◌∷◌, if◌then◌else◌, eq_bytes, Result, ok,
  err,
}
use p2psdk.Ice.Agent.{
  IceAgent, new_agent, add_host_candidate, local_session_description,
  set_remote_session_description, add_remote_candidate, start_checks,
}
use p2psdk.Sdk.Client.{ClientInner, new_inner}
use p2psdk.Sdk.Client.Gather.{Draws, first_or_blank}
use p2psdk.Sdk.Connect.{add_known}
use p2psdk.Sdk.Io.{Io}
use p2psdk.Sdk.Signals.{IceCodec, IceDataMessage, IceCandidateMessage, describe, or_blank}
use p2psdk.Types.{IceSessionDescription, codes}
use p2psdk.Wire.{Bytes}
use p2psdk.Napi.{Inner, send_via_connector, start_ice_threads_inner, stop_ice_threads}

module _ {Json : Type 0} where
  abbrev pub take_answer : Inner Json → IceSessionDescription → Option IceAgent → Inner Json
  take_answer inner desc none = inner
  take_answer inner desc (some agent) = record inner {
    ice_agent = some (start_checks (set_remote_session_description agent desc)).0;
  }

  abbrev pub answered : Inner Json → Result Bytes IceDataMessage → Inner Json
  answered inner (err e) = inner
  answered inner (ok m) = take_answer inner (describe m) inner.ice_agent

  -- Here the answer starts the checks.
  unfoldable pub handle_ice_answer_inner : IceCodec Json → Inner Json → Json → Inner Json
  handle_ice_answer_inner codec inner value = answered inner (codec.from_value value)

  abbrev pub with_candidate : Inner Json → IceCandidateMessage → Option IceAgent → Inner Json
  with_candidate inner m none = inner
  with_candidate inner m (some agent) = record inner {
    ice_agent = some (add_remote_candidate agent m.candidate);
  }

  abbrev pub take_candidate : Inner Json → Result Bytes IceCandidateMessage → Inner Json
  take_candidate inner (err e) = inner
  take_candidate inner (ok m) = with_candidate inner m inner.ice_agent

  abbrev pub or_null : Json → Result Bytes Json → Json
  or_null null (ok v) = v
  or_null null (err e) = null

-- `*addr != "127.0.0.1" && *addr != "::1" && *addr != "0.0.0.0"`
unfoldable pub add_outer_hosts : IceAgent → ℕ → List Bytes → IceAgent
add_outer_hosts agent port [] = agent
add_outer_hosts agent port (addr ∷ addrs) =
    add_outer_hosts
      (if not (eq_bytes addr (codes "127.0.0.1"))
          && (not (eq_bytes addr (codes "::1")) && not (eq_bytes addr (codes "0.0.0.0")))
        then add_host_candidate agent addr port
        else agent)
      port addrs

unfoldable pub answer_message : IceSessionDescription → IceDataMessage
answer_message desc = record {
  action = codes "iceAnswer";
  ice_ufrag = desc.ice_ufrag;
  ice_pwd = desc.ice_pwd;
  is_lite = desc.is_lite;
  candidates = desc.candidates;
}

module _ {Json : Type 0} (io : Io) (codec : IceCodec Json) (null : Json) (draws : Draws) where
  -- The candidates of the servers' addresses that the state knows.
  abbrev pub known_addresses : Inner Json → ClientInner
  known_addresses inner = record new_inner {
    stun_external_ip = inner.stun_external_ip;
    stun_external_port = inner.stun_external_port;
    turn_relay_ip = inner.turn_relay_ip;
    turn_relay_port = inner.turn_relay_port;
  }

  abbrev pub offered_agent : Inner Json → ℕ → List Bytes → IceAgent
  offered_agent inner port addrs =
      add_known (known_addresses inner) (first_or_blank addrs) port
        (add_outer_hosts (new_agent false draws.ufrag draws.pwd draws.tie_breaker) port addrs)

  -- An error of `start_checks` is logged, and the answer is sent all the same.
  abbrev pub answer_offer : Inner Json → Bytes → IceAgent → Result Bytes IceDataMessage → Inner Json
  answer_offer inner from_id agent (err e) = inner
  answer_offer inner from_id agent (ok m) =
      let started = (start_checks (set_remote_session_description agent (describe m))).0 in
      let answer = answer_message (local_session_description started) in
      start_ice_threads_inner
        (record (send_via_connector inner from_id (or_null null (codec.to_value answer))) {
          ice_agent = some started;
          ice_udp = true;
        })

  abbrev pub offer_at :
      Inner Json → Bytes → Json → io.World → Result Bytes (Bytes × ℕ) → io.World × Inner Json
  offer_at inner from_id value w (err e) = (w, inner)
  offer_at inner from_id value w (ok (ip, port)) = (
    w,
    answer_offer inner from_id (offered_agent inner port (io.get_local_addresses w))
        (codec.from_value value),
  )

  abbrev pub offer_on :
      Inner Json → Bytes → Json → io.World × Result Bytes io.Socket → io.World × Inner Json
  offer_on inner from_id value (w, err e) = (w, inner)
  offer_on inner from_id value (w, ok udp) = offer_at inner from_id value w (io.local_addr w udp)

  -- The old agent and its threads are stopped first.
  unfoldable pub handle_ice_offer_inner :
      io.World → Inner Json → Bytes → Json → io.World × Inner Json
  handle_ice_offer_inner w inner from_id value =
      offer_on (record (stop_ice_threads inner) { ice_agent = none }) from_id value
        (io.create_udp w)

  unfoldable pub handle_connector_msg_inner :
      io.World → Inner Json → Bytes → Json → io.World × Inner Json
  handle_connector_msg_inner w inner from_id value =
      let action = or_blank (codec.action_of value) in
      if eq_bytes action (codes "iceOffer")
      then handle_ice_offer_inner w inner from_id value
      else if eq_bytes action (codes "iceAnswer")
      then (w, handle_ice_answer_inner codec inner value)
      else if eq_bytes action (codes "iceCandidate")
      then (w, take_candidate inner (codec.candidate_from_value value))
      else (w, inner)
