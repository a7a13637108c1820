-- ===== src/Sdk/Connect.antt =====
-- sdk/crates/p2p-sdk/src/client.rs: `connect_background`, from the route to the running threads.
pub mod Negotiation
use p2psdk.Prelude.{
  ℕ, zero, suc, ◌+◌, ◌-◌, ◌*◌, ◌/◌, ◌%◌, ◌^◌, ◌≤◌, ◌<◌, min, max, bit_and, bit_xor, ◌≡◌, refl, sym,
  ap, ap₂, ◌∙◌, ◌≢◌, ◌↔◌, ◌⊎◌, inl, inr, Bool, true, false, not, ◌&&◌, ◌||◌, Option, none, some,
  List, [], ◌∷◌, ◌++◌, map, append_assoc, append-nil, arith, ltb, leb, ◌==◌, if◌then◌else◌, ltb→lt,
  leb→le, le→leb, leb-false, ltb-false, ==_iff, Bool-cases, Option-cases, eq_bytes, eq_bytes_refl,
  eq_bytes_sound, position, FirstAt, FoundBy, position-FoundBy, position-FirstAt, position-none,
  FirstAt-lt, All-map, length, get_elem?, take, drop, replicate, All, length-append, length-take,
  length-drop, length-replicate, take-append, drop-append, get_elem?-append, get_elem?-lt, Result,
  ok, err, Outcome, ret, panic, out_of_fuel, ◌>>=◌, ◌>>◌, Returns, Returns-eq, Returns-of_eq,
  Returns-bind, Returns-if,
}
use p2psdk.Constants.{af_inet}
use p2psdk.Dtls.{Dimpl}
use p2psdk.Ice.Agent.{
  IceAgent, add_local_candidate, local_session_description, set_remote_session_description,
  start_checks,
}
use p2psdk.Sdk.Client.{ClientInner, NatRoute, Output, start_ice_threads, fire_state_change}
use p2psdk.Sdk.Client.Gather.{
  Draws, srflx_candidate, relay_candidate, with_stun, ask_stun, ask_turn, fresh_agent,
  first_or_blank,
}
use p2psdk.Sdk.Client.Route.{is_blank, fetch_route, store_route}
use p2psdk.Sdk.Io.{Io}
use p2psdk.Sdk.Signals.{describe_answer}
use p2psdk.Sdp.{generate_sdp_offer, parse_sdp_answer}
use p2psdk.Stun.Client.{StunClientError}
use p2psdk.Stun.Codec.{StunResult, TurnResult}
use p2psdk.Text.Words.{contains, split_on, strip_prefix, trim}
use p2psdk.Types.{IceState, codes}
use p2psdk.Wire.{Bytes}

abbrev pub is_some_rest : Option Bytes → Bool
is_some_rest none = false
is_some_rest (some rest) = true

-- `hay.contains(needle)` of a text.
unfoldable pub contains_text : Bytes → Bytes → Bool
contains_text needle [] = is_some_rest (strip_prefix needle [])
contains_text needle (c ∷ cs) =
    is_some_rest (strip_prefix needle (c ∷ cs)) || contains_text needle cs

-- `!a.contains(':') && a != "127.0.0.1"`
unfoldable pub v4_addresses : List Bytes → List Bytes
v4_addresses [] = []
v4_addresses (a ∷ as') =
    let rest = v4_addresses as' in
    if not (contains b':' a) && not (eq_bytes a (codes "127.0.0.1")) then a ∷ rest else rest

-- `parts[4]`, where there are five parts.
abbrev pub part_or : Bytes → Option Bytes → Bytes
part_or other none = other
part_or other (some part) = part

-- The address of the first host line that is not of IPv6.
unfoldable pub default_address : List Bytes → Bytes
default_address [] = []
default_address (line ∷ lines) =
    let rest = default_address lines in
    if contains_text (codes "host") line && not (contains_text (codes "::") line)
    then part_or rest (get_elem? (split_on b' ' line) 4)
    else rest

-- The candidates of the servers' addresses that are known.
unfoldable pub add_known : ClientInner → Bytes → ℕ → IceAgent → IceAgent
add_known inner related port agent =
    let reflexive =
      if not (is_blank inner.stun_external_ip)
      then add_local_candidate agent
          (srflx_candidate inner.stun_external_ip inner.stun_external_port related port)
      else agent in
    if not (is_blank inner.turn_relay_ip)
    then add_local_candidate reflexive (
        relay_candidate inner.turn_relay_ip inner.turn_relay_port inner.stun_external_ip
          inner.stun_external_port)
    else reflexive

module _ (dimpl : Dimpl) (io : Io) (draws : Draws) (p2p_token : Bytes) where
  abbrev pub Step : Type 0 → Type 0
  Step A = (io.World × ClientInner) × Result Bytes A

  abbrev pub route_step : io.World → ClientInner → Bytes → io.World × ClientInner
  route_step w inner nat_url =
      if not (is_blank nat_url)
      then store_route io inner (fetch_route io w nat_url p2p_token)
      else (w, inner)

  abbrev pub stun_known :
      ClientInner → io.World × Result StunClientError StunResult → io.World × ClientInner
  stun_known inner (w, err e) = (w, inner)
  stun_known inner (w, ok r) = (w, with_stun inner r.ip r.port)

  -- Here the mapped address is not kept.
  abbrev pub turn_known :
      ClientInner → io.World × Result StunClientError TurnResult → io.World × ClientInner
  turn_known inner (w, err e) = (w, inner)
  turn_known inner (w, ok r) =
      (w, record inner { turn_relay_ip = r.relay_ip; turn_relay_port = r.relay_port })

  -- Steps 3 and 4, if there is a socket and a route.
  unfoldable pub stun_step :
      Result Bytes io.Socket
      → Option NatRoute
      → io.World × ClientInner
      → Outcome (io.World × ClientInner)
  stun_step (err e) route (w, inner) = ret (w, inner)
  stun_step (ok udp) none (w, inner) = ret (w, inner)
  stun_step (ok udp) (some route) (w, inner) =
      if not (is_blank route.stun_ip) && ltb 0 route.stun_port
      then (do asked ← ask_stun dimpl io draws udp p2p_token w route; ret (stun_known inner asked))
      else ret (w, inner)

  unfoldable pub turn_step :
      Result Bytes io.Socket
      → Option NatRoute
      → io.World × ClientInner
      → Outcome (io.World × ClientInner)
  turn_step (err e) route (w, inner) = ret (w, inner)
  turn_step (ok udp) none (w, inner) = ret (w, inner)
  turn_step (ok udp) (some route) (w, inner) =
      if not (is_blank route.turn_ip) && ltb 0 route.turn_port
      then (do asked ← ask_turn dimpl io draws udp p2p_token w route; ret (turn_known inner asked))
      else ret (w, inner)

  -- Step 7.
  abbrev pub started_step :
      io.World → ClientInner → IceAgent × Result Bytes (Unit {0}) → Step (Unit {0})
  started_step w inner (agent, err e) = ((w, inner), err (codes "start_checks: " ++ e))
  started_step w inner (agent, ok u) =
      ((w, start_ice_threads (record inner { ice_agent = some agent; ice_udp = true })), ok tt)

  abbrev pub answer_step :
      ClientInner → IceAgent → io.World × Result Bytes (ℕ × Bytes) → Step (Unit {0})
  answer_step inner agent (w, err e) = ((w, inner), err (codes "SDP HTTP: " ++ e))
  answer_step inner agent (w, ok (status, resp)) =
      let answer = parse_sdp_answer (trim resp) in
      started_step w inner
        (start_checks (set_remote_session_description agent (describe_answer io answer)))

  -- Step 6.
  unfoldable pub negotiate : io.World → ClientInner → IceAgent → Bytes → Bytes → ℕ → Step (Unit {0})
  negotiate w inner agent peer_addr odid ice_port =
      let desc = local_session_description agent in
      let offer =
        generate_sdp_offer odid desc.ice_ufrag desc.ice_pwd desc.candidates
          (default_address desc.candidates) ice_port (io.unix_time w) in
      answer_step inner agent (
        io.post w (codes "http://" ++ (peer_addr ++ codes "/api/ice/offer"))
          ((codes "Content-Type", codes "application/sdp") ∷ []) offer)

  -- Step 5; the agent is the controlling one.
  abbrev pub agent_step :
      ClientInner
      → Bytes
      → Bytes
      → List Bytes
      → io.World
      → Result Bytes (Bytes × ℕ)
      → io.Socket
      → Step (Unit {0})
  agent_step inner peer_addr odid addrs w (err e) udp =
      ((w, inner), err (codes "local_addr: " ++ e))
  agent_step inner peer_addr odid addrs w (ok (ip, ice_port)) udp =
      negotiate w inner
        (add_known inner (first_or_blank addrs) ice_port
          (fresh_agent dimpl io draws udp p2p_token true ice_port addrs))
        peer_addr odid ice_port

  abbrev pub socket_step :
      ClientInner → Bytes → Bytes → List Bytes → io.World × Result Bytes io.Socket → Step (Unit {0})
  socket_step inner peer_addr odid addrs (w, err e) =
      ((w, inner), err (codes "ICE UDP bind: " ++ e))
  socket_step inner peer_addr odid addrs (w, ok udp) =
      agent_step inner peer_addr odid addrs w (io.local_addr w udp) udp

  unfoldable pub connect_background :
      io.World → ClientInner → Bytes → Bytes → Bytes → Outcome (Step (Unit {0}))
  connect_background w inner nat_url peer_addr odid = do
    let routed = route_step w inner nat_url
    let addrs = v4_addresses (io.get_local_addresses routed.0)
    let route = routed.1.nat_route
    let bound = io.create_udp routed.0
    stun ← stun_step bound.1 route (bound.0, routed.1)
    turn ← turn_step bound.1 route stun
    ret (socket_step turn.1 peer_addr odid addrs (io.create_udp turn.0))

  -- The thread that `connect` starts: an error is reported as the state Failed.
  abbrev pub report_failure :
      (ClientInner → ClientInner) → Step (Unit {0}) → io.World × (ClientInner × List Output)
  report_failure during ((w, inner), ok u) = (w, (inner, []))
  report_failure during ((w, inner), err e) = (w, fire_state_change during inner IceState.failed)

  unfoldable pub connect_thread :
      (ClientInner → ClientInner)
      → io.World
      → ClientInner
      → ℕ
      → Bytes
      → Bytes
      → Bytes
      → Outcome (io.World × (ClientInner × List Output))
  connect_thread during w inner heartbeat_interval_secs nat_url peer_addr odid = do
    done ←
        connect_background w (record inner { heartbeat_interval_secs = heartbeat_interval_secs })
          nat_url peer_addr odid
    ret (report_failure during done)
