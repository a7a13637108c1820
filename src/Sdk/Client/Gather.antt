-- ===== src/Sdk/Client/Gather.antt =====
-- sdk/crates/p2p-sdk/src/client.rs: the candidates of the local side. The random identifiers are
-- arguments, and so are the bounds of the handshake's loops.
use p2psdk.Prelude.{
  ℕ, Bool, not, Option, none, some, List, [], ◌∷◌, if◌then◌else◌, Result, ok, err, Outcome, ret,
  ◌>>=◌,
}
use p2psdk.Constants.{af_inet}
use p2psdk.Dtls.{Dimpl}
use p2psdk.Ice.Agent.{
  IceAgent, new_agent, add_local_candidate, add_host_candidate, local_session_description,
}
use p2psdk.Ice.CheckList.{calc_candidate_priority}
use p2psdk.Sdk.Client.{ClientInner, NatRoute}
use p2psdk.Sdk.Io.{Io, net_to}
use p2psdk.Stun.Client.{StunClientError, get_external_address, get_turn_relay_address}
use p2psdk.Stun.Codec.{StunResult, TurnResult}
use p2psdk.Sdk.Client.Route.{is_blank}
use p2psdk.Types.{IceCandidate, CandidateType, codes}
use p2psdk.Wire.{Bytes}

-- What the random generator gives: the agent's fragment, password and tie-breaker, and the transaction
-- IDs of the two requests; and the bounds of a handshake's loops.
pub record Draws : Type 0 where
  pub ufrag : Bytes
  pub pwd : Bytes
  pub tie_breaker : ℕ
  pub stun_tid : Bytes
  pub turn_tid : Bytes
  pub rounds : ℕ
  pub fuel : ℕ

pub record CandidateInfo : Type 0 where
  pub candidate_lines : List Bytes
  pub local_addresses : List Bytes
  pub stun_external_ip : Bytes
  pub stun_external_port : ℕ
  pub turn_relay_ip : Bytes
  pub turn_relay_port : ℕ

abbrev pub first_or_blank : List Bytes → Bytes
first_or_blank [] = []
first_or_blank (a ∷ as') = a

unfoldable pub srflx_candidate : Bytes → ℕ → Bytes → ℕ → IceCandidate
srflx_candidate ip port related_address related_port = record {
  foundation = codes "srflx1";
  component_id = 1;
  transport = codes "UDP";
  priority = calc_candidate_priority CandidateType.srflx;
  connection_address = ip;
  port = port;
  candidate_type = CandidateType.srflx;
  related_address = related_address;
  related_port = related_port;
}

unfoldable pub relay_candidate : Bytes → ℕ → Bytes → ℕ → IceCandidate
relay_candidate ip port related_address related_port = record {
  foundation = codes "relay1";
  component_id = 1;
  transport = codes "UDP";
  priority = calc_candidate_priority CandidateType.relay;
  connection_address = ip;
  port = port;
  candidate_type = CandidateType.relay;
  related_address = related_address;
  related_port = related_port;
}

-- `for addr in &local_addrs { agent.add_host_candidate(addr, local_port) }`
unfoldable pub add_hosts : IceAgent → ℕ → List Bytes → IceAgent
add_hosts agent port [] = agent
add_hosts agent port (addr ∷ addrs) = add_hosts (add_host_candidate agent addr port) port addrs

abbrev pub with_stun : ClientInner → Bytes → ℕ → ClientInner
with_stun inner ip port = record inner { stun_external_ip = ip; stun_external_port = port }

abbrev pub with_turn : ClientInner → TurnResult → ClientInner
with_turn inner r = record inner {
  turn_relay_ip = r.relay_ip;
  turn_relay_port = r.relay_port;
  turn_mapped_ip = r.mapped_ip;
  turn_mapped_port = r.mapped_port;
}

module _ (dimpl : Dimpl) (io : Io) (draws : Draws) (udp : io.Socket) (p2p_token : Bytes) where
  abbrev pub Gathering : Type 0
  Gathering = (io.World × ClientInner) × IceAgent

  abbrev pub ask_stun : io.World → NatRoute → Outcome (io.World × Result StunClientError StunResult)
  ask_stun w route =
      get_external_address dimpl (net_to io udp route.stun_ip route.stun_port) draws.rounds
        draws.fuel w draws.stun_tid p2p_token

  abbrev pub ask_turn : io.World → NatRoute → Outcome (io.World × Result StunClientError TurnResult)
  ask_turn w route =
      get_turn_relay_address dimpl (net_to io udp route.turn_ip route.turn_port) draws.rounds
        draws.fuel w draws.turn_tid p2p_token af_inet

  -- `if let Ok(result)`: the address is kept, and it makes a candidate.
  abbrev pub learn_stun :
      Bytes → ℕ → ClientInner → IceAgent → io.World × Result StunClientError StunResult → Gathering
  learn_stun related port inner agent (w, err e) = ((w, inner), agent)
  learn_stun related port inner agent (w, ok r) = (
    (w, with_stun inner r.ip r.port),
    add_local_candidate agent (srflx_candidate r.ip r.port related port),
  )

  abbrev pub learn_turn :
      ClientInner → IceAgent → io.World × Result StunClientError TurnResult → Gathering
  learn_turn inner agent (w, err e) = ((w, inner), agent)
  learn_turn inner agent (w, ok r) = (
    (w, with_turn inner r),
    add_local_candidate agent
        (relay_candidate r.relay_ip r.relay_port inner.stun_external_ip inner.stun_external_port),
  )

  -- A cached address is used again.
  unfoldable pub setup_srflx : NatRoute → Bytes → ℕ → Gathering → Outcome Gathering
  setup_srflx route related port ((w, inner), agent) =
      if not (is_blank inner.stun_external_ip)
      then ret (
        (w, inner),
        add_local_candidate agent
            (srflx_candidate inner.stun_external_ip inner.stun_external_port related port),
      )
      else do asked ← ask_stun w route; ret (learn_stun related port inner agent asked)

  unfoldable pub setup_relay : NatRoute → Gathering → Outcome Gathering
  setup_relay route ((w, inner), agent) =
      if not (is_blank inner.turn_relay_ip)
      then ret (
        (w, inner),
        add_local_candidate agent (
            relay_candidate inner.turn_relay_ip inner.turn_relay_port inner.stun_external_ip
              inner.stun_external_port),
      )
      else do asked ← ask_turn w route; ret (learn_turn inner agent asked)

  abbrev pub setup_servers : Option NatRoute → Bytes → ℕ → Gathering → Outcome Gathering
  setup_servers none related port g = ret g
  setup_servers (some route) related port g = do
    g₁ ← setup_srflx route related port g
    setup_relay route g₁

  abbrev pub store_agent : Gathering → (io.World × ClientInner) × Result Bytes (Unit {0})
  store_agent ((w, inner), agent) = ((w, record inner { ice_agent = some agent }), ok tt)

  abbrev pub fresh_agent : Bool → ℕ → List Bytes → IceAgent
  fresh_agent is_controlling port addrs =
      add_hosts (new_agent is_controlling draws.ufrag draws.pwd draws.tie_breaker) port addrs

  abbrev pub setup_at :
      io.World
      → ClientInner
      → Bool
      → Result Bytes (Bytes × ℕ)
      → Outcome ((io.World × ClientInner) × Result Bytes (Unit {0}))
  setup_at w inner is_controlling (err e) = ret ((w, inner), err e)
  setup_at w inner is_controlling (ok (ip, port)) = do
    let addrs = io.get_local_addresses w
    g ←
        setup_servers inner.nat_route (first_or_blank addrs) port
          ((w, inner), fresh_agent is_controlling port addrs)
    ret (store_agent g)

  unfoldable pub setup_ice_and_gather :
      io.World → ClientInner → Bool → Outcome ((io.World × ClientInner) × Result Bytes (Unit {0}))
  setup_ice_and_gather w inner is_controlling =
      setup_at w inner is_controlling (io.local_addr w udp)

  -- The older way, without the cache: both servers are asked.
  abbrev pub ask_both : Option NatRoute → Bytes → ℕ → Gathering → Outcome Gathering
  ask_both none related port g = ret g
  ask_both (some route) related port ((w, inner), agent) = do
    asked ← ask_stun w route
    let g = learn_stun related port inner agent asked
    relayed ← ask_turn g.0.0 route
    ret (learn_turn g.0.1 g.1 relayed)

  abbrev pub info_of : List Bytes → List Bytes → ClientInner → CandidateInfo
  info_of lines addrs inner = record {
    candidate_lines = lines;
    local_addresses = addrs;
    stun_external_ip = inner.stun_external_ip;
    stun_external_port = inner.stun_external_port;
    turn_relay_ip = inner.turn_relay_ip;
    turn_relay_port = inner.turn_relay_port;
  }

  abbrev pub gathered_info :
      List Bytes → Gathering → (io.World × ClientInner) × Result Bytes CandidateInfo
  gathered_info addrs ((w, inner), agent) =
      let stored = record inner { ice_agent = some agent } in
      ((w, stored), ok (info_of (local_session_description agent).candidates addrs stored))

  abbrev pub gather_at :
      io.World
      → ClientInner
      → Bool
      → Result Bytes (Bytes × ℕ)
      → Outcome ((io.World × ClientInner) × Result Bytes CandidateInfo)
  gather_at w inner is_controlling (err e) = ret ((w, inner), err e)
  gather_at w inner is_controlling (ok (ip, port)) = do
    let addrs = io.get_local_addresses w
    g ←
        ask_both inner.nat_route (first_or_blank addrs) port
          ((w, inner), fresh_agent is_controlling port addrs)
    ret (gathered_info addrs g)

  unfoldable pub gather_candidates :
      io.World
      → ClientInner
      → Bool
      → Outcome ((io.World × ClientInner) × Result Bytes CandidateInfo)
  gather_candidates w inner is_controlling = gather_at w inner is_controlling (io.local_addr w udp)
