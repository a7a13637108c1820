-- ===== src/Napi/Offers.antt =====
-- sdk/crates/p2p-napi/src/client_napi.rs: the offer to a peer over the connector.
use p2psdk.Prelude.{
  ℕ, true, not, ◌&&◌, Option, none, some, ltb, if◌then◌else◌, Result, ok, err, Outcome, ret, ◌>>=◌,
}
use p2psdk.Dtls.{Dimpl}
use p2psdk.Ice.Agent.{IceAgent, new_agent, add_local_candidate, local_session_description}
use p2psdk.Napi.{
  Inner, Code, done, minus, send_via_connector, start_ice_threads_inner, stop_ice_threads,
}
use p2psdk.Napi.Messages.{add_outer_hosts, or_null}
use p2psdk.Sdk.Client.{NatRoute}
use p2psdk.Sdk.Client.Gather.{Draws, ask_stun, first_or_blank, relay_candidate, srflx_candidate}
use p2psdk.Sdk.Client.Route.{is_blank}
use p2psdk.Sdk.Io.{Io}
use p2psdk.Sdk.Signals.{IceCodec, IceDataMessage}
use p2psdk.Stun.Client.{StunClientError}
use p2psdk.Stun.Codec.{StunResult}
use p2psdk.Types.{IceSessionDescription, codes}
use p2psdk.Wire.{Bytes}

unfoldable pub offer_message_inner : IceSessionDescription → IceDataMessage
offer_message_inner desc = record {
  action = codes "iceOffer";
  ice_ufrag = desc.ice_ufrag;
  ice_pwd = desc.ice_pwd;
  is_lite = desc.is_lite;
  candidates = desc.candidates;
}

module _ (dimpl : Dimpl) (io : Io) {Json : Type 0} (codec : IceCodec Json) (null : Json)
    (draws : Draws) where
  -- The world, the state and the agent that is being built.
  abbrev pub Offering : Type 0
  Offering = (io.World × Inner Json) × IceAgent

  abbrev pub found_address :
      Bytes → ℕ → Inner Json → IceAgent → io.World × Result StunClientError StunResult → Offering
  found_address related port inner agent (w, err e) = ((w, inner), agent)
  found_address related port inner agent (w, ok r) = (
    (w, record inner { stun_external_ip = r.ip; stun_external_port = r.port }),
    add_local_candidate agent (srflx_candidate r.ip r.port related port),
  )

  -- The cached address comes first; without one the STUN server is asked.
  abbrev pub cached_or_asked :
      io.Socket → Bytes → Bytes → ℕ → NatRoute → Offering → Outcome Offering
  cached_or_asked udp p2p_token related port route ((w, inner), agent) =
      if not (is_blank inner.stun_external_ip)
      then ret (
        (w, inner),
        add_local_candidate agent
            (srflx_candidate inner.stun_external_ip inner.stun_external_port related port),
      )
      else (do
        asked ← ask_stun dimpl io draws udp p2p_token w route
        ret (found_address related port inner agent asked))

  unfoldable pub reflexive_step :
      io.Socket → Bytes → Bytes → ℕ → Option NatRoute → Offering → Outcome Offering
  reflexive_step udp p2p_token related port none g = ret g
  reflexive_step udp p2p_token related port (some route) g =
      if not (is_blank route.stun_ip) && ltb 0 route.stun_port
      then cached_or_asked udp p2p_token related port route g
      else ret g

  unfoldable pub relay_step : Offering → IceAgent
  relay_step ((w, inner), agent) =
      if not (is_blank inner.turn_relay_ip)
      then add_local_candidate agent (
          relay_candidate inner.turn_relay_ip inner.turn_relay_port inner.stun_external_ip
            inner.stun_external_port)
      else agent

  -- Once the agent has its candidates.
  abbrev pub send_offer : Bytes → Offering → io.World × Inner Json
  send_offer target_id ((w, inner), agent) =
      let complete = relay_step ((w, inner), agent) in
      let offer = offer_message_inner (local_session_description complete) in
      (
        w,
        start_ice_threads_inner (
            send_via_connector (record inner { ice_agent = some complete; ice_udp = true })
              target_id (or_null null (codec.to_value offer))),
      )

  abbrev pub initiate_at :
      Inner Json
      → Bytes
      → Bytes
      → io.World
      → Result Bytes (Bytes × ℕ)
      → io.Socket
      → Outcome (io.World × Inner Json)
  initiate_at inner target_id p2p_token w (err e) udp = ret (w, inner)
  initiate_at inner target_id p2p_token w (ok (ip, port)) udp = do
    let addrs = io.get_local_addresses w
    let agent = add_outer_hosts (new_agent true draws.ufrag draws.pwd draws.tie_breaker) port addrs
    g ← reflexive_step udp p2p_token (first_or_blank addrs) port inner.nat_route ((w, inner), agent)
    ret (send_offer target_id g)

  abbrev pub initiate_on :
      Inner Json
      → Bytes
      → Bytes
      → io.World × Result Bytes io.Socket
      → Outcome (io.World × Inner Json)
  initiate_on inner target_id p2p_token (w, err e) = ret (w, inner)
  initiate_on inner target_id p2p_token (w, ok udp) =
      initiate_at inner target_id p2p_token w (io.local_addr w udp) udp

  -- The old agent and its threads are stopped first.
  unfoldable pub initiate_ice_bg_inner :
      io.World → Inner Json → Bytes → Bytes → Outcome (io.World × Inner Json)
  initiate_ice_bg_inner w inner target_id p2p_token =
      initiate_on (record (stop_ice_threads inner) { ice_agent = none }) target_id p2p_token
        (io.create_udp w)

  -- The thread that the call starts has run when it returns here.
  unfoldable pub initiate_ice :
      io.World → Inner Json → Bytes → Outcome ((io.World × Inner Json) × Code)
  initiate_ice w inner target_id =
      if not inner.connector_registered then ret ((w, inner), minus 1) else (do
        after ← initiate_ice_bg_inner w inner target_id inner.cached_p2p_token
        ret (after, done))
