-- ===== src/Sdk/Client/Info.antt =====
-- sdk/crates/p2p-sdk/src/client.rs: the candidates for display.
use p2psdk.Prelude.{
  ℕ, not, ◌&&◌, Option, none, some, List, [], ◌∷◌, ◌++◌, if◌then◌else◌, eq_bytes, Result, ok, err,
  Outcome, ret, ◌>>=◌,
}
use p2psdk.Dtls.{Dimpl}
use p2psdk.Sdk.Client.{ClientInner, NatRoute}
use p2psdk.Sdk.Io.{Io}
use p2psdk.Stun.Client.{StunClientError}
use p2psdk.Stun.Codec.{StunResult, TurnResult}
use p2psdk.Sdk.Client.Route.{is_blank, resolve_nat_route}
use p2psdk.Sdk.Client.Gather.{
  Draws, CandidateInfo, with_stun, with_turn, ask_stun, ask_turn, info_of,
}
use p2psdk.Text.Number.{print_decimal}
use p2psdk.Types.{codes}
use p2psdk.Wire.{Bytes}

-- The addresses are asked for where the cache has none, and no agent is made.
module _ (dimpl : Dimpl) (io : Io) (draws : Draws) (udp : io.Socket) (p2p_token : Bytes) where
  abbrev pub cache_stun :
      ClientInner → io.World × Result StunClientError StunResult → io.World × ClientInner
  cache_stun inner (w, err e) = (w, inner)
  cache_stun inner (w, ok r) = (w, with_stun inner r.ip r.port)

  abbrev pub cache_turn :
      ClientInner → io.World × Result StunClientError TurnResult → io.World × ClientInner
  cache_turn inner (w, err e) = (w, inner)
  cache_turn inner (w, ok r) = (w, with_turn inner r)

  abbrev pub refresh_stun :
      io.World → ClientInner → Option NatRoute → Outcome (io.World × ClientInner)
  refresh_stun w inner none = ret (w, inner)
  refresh_stun w inner (some route) =
      if is_blank inner.stun_external_ip
      then (do asked ← ask_stun dimpl io draws udp p2p_token w route; ret (cache_stun inner asked))
      else ret (w, inner)

  abbrev pub refresh_turn :
      io.World → ClientInner → Option NatRoute → Outcome (io.World × ClientInner)
  refresh_turn w inner none = ret (w, inner)
  refresh_turn w inner (some route) =
      if is_blank inner.turn_relay_ip
      then (do asked ← ask_turn dimpl io draws udp p2p_token w route; ret (cache_turn inner asked))
      else ret (w, inner)

  abbrev pub host_lines : List Bytes → List Bytes
  host_lines [] = []
  host_lines (addr ∷ addrs) =
      if not (eq_bytes addr (codes "127.0.0.1")) && not (eq_bytes addr (codes "::1"))
      then (codes "host    " ++ addr) ∷ host_lines addrs
      else host_lines addrs

  abbrev pub server_line : Bytes → Bytes → ℕ → Bytes → List Bytes
  server_line prefix ip port server =
      if not (is_blank ip)
      then (prefix
          ++ (ip ++ (b':' ∷ (print_decimal port ++ (codes " (via " ++ (server ++ codes ")"))))))
        ∷ []
      else []

  abbrev pub server_lines : ClientInner → Option NatRoute → List Bytes
  server_lines inner none = []
  server_lines inner (some route) =
      server_line (codes "srflx   ") inner.stun_external_ip inner.stun_external_port route.stun_ip
      ++ server_line (codes "relay   ") inner.turn_relay_ip inner.turn_relay_port route.turn_ip

  abbrev pub or_no_lines : List Bytes → List Bytes
  or_no_lines [] = codes "no candidates found" ∷ []
  or_no_lines (l ∷ ls) = l ∷ ls

  unfoldable pub display_lines : List Bytes → ClientInner → List Bytes
  display_lines addrs inner = or_no_lines (host_lines addrs ++ server_lines inner inner.nat_route)

  abbrev pub info_after :
      (io.World × ClientInner) × Result Bytes (Unit {0})
      → Outcome ((io.World × ClientInner) × Result Bytes CandidateInfo)
  info_after (state, err e) = ret (state, err e)
  info_after ((w, inner), ok u) = do
    let addrs = io.get_local_addresses w
    stun ← refresh_stun w inner inner.nat_route
    turn ← refresh_turn stun.0 stun.1 stun.1.nat_route
    ret (turn, ok (info_of dimpl io draws udp p2p_token (display_lines addrs turn.1) addrs turn.1))

  abbrev pub route_if_missing :
      io.World
      → ClientInner
      → Option Bytes
      → Option NatRoute
      → (io.World × ClientInner) × Result Bytes (Unit {0})
  route_if_missing w inner nat_url none = resolve_nat_route io w inner nat_url p2p_token
  route_if_missing w inner nat_url (some route) = ((w, inner), ok tt)

  unfoldable pub gather_candidate_info :
      io.World
      → ClientInner
      → Option Bytes
      → Outcome ((io.World × ClientInner) × Result Bytes CandidateInfo)
  gather_candidate_info w inner nat_url =
      info_after (route_if_missing w inner nat_url inner.nat_route)
