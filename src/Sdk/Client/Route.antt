-- ===== src/Sdk/Client/Route.antt =====
-- sdk/crates/p2p-sdk/src/client.rs: the route to the STUN and TURN servers.
use p2psdk.Prelude.{
  ℕ, Bool, true, false, Option, none, some, [], ◌∷◌, if◌then◌else◌, Result, ok, err,
}
use p2psdk.Sdk.Client.{ClientInner, NatRoute}
use p2psdk.Sdk.Io.{Io, Headers, is_success, or_default}
use p2psdk.Text.Number.{parse_number}
use p2psdk.Types.{codes}
use p2psdk.Wire.{Bytes, u16}

abbrev pub is_blank : Bytes → Bool
is_blank [] = true
is_blank (b ∷ bs) = false

module _ (io : Io) where
  -- `as_u64().map(|n| n as u16).or_else(|| as_str().parse())`
  abbrev pub string_port : Option Bytes → ℕ
  string_port none = 0
  string_port (some s) = or_default 0 (parse_number 10 65535 s)

  abbrev pub number_port : io.Value → Option ℕ → ℕ
  number_port v (some n) = u16 n
  number_port v none = string_port (io.as_str v)

  unfoldable pub parse_port : Option io.Value → ℕ
  parse_port none = 0
  parse_port (some v) = number_port v (io.as_u64 v)

  abbrev pub parsed_or_null : Result Bytes io.Value → io.Value
  parsed_or_null (ok v) = v
  parsed_or_null (err e) = io.null

  abbrev pub string_or_blank : Option io.Value → Bytes
  string_or_blank none = []
  string_or_blank (some v) = or_default [] (io.as_str v)

  -- The address in a response: of its member `data`, or of the response itself.
  unfoldable pub read_address : Bytes → Bytes → io.Value → Bytes × ℕ
  read_address ip_key port_key json =
      let value = or_default json (io.get_member json (codes "data")) in
      (string_or_blank (io.get_member value ip_key), parse_port (io.get_member value port_key))

  abbrev pub address_in : Bytes → Bytes → Result Bytes (ℕ × Bytes) → Bytes × ℕ
  address_in ip_key port_key (err e) = ([], 0)
  address_in ip_key port_key (ok (status, resp)) =
      if is_success status
      then read_address ip_key port_key (parsed_or_null (io.from_str resp))
      else ([], 0)

  abbrev pub route_headers : Bytes → Headers
  route_headers p2p_token =
      (codes "Content-Type", codes "application/json") ∷ (codes "Authorization", p2p_token) ∷ []

  abbrev pub post_route :
      Bytes → Bytes → Bytes → Bytes → io.World → Result Bytes Bytes → io.World × (Bytes × ℕ)
  post_route nat_url p2p_token ip_key port_key w (err e) = (w, ([], 0))
  post_route nat_url p2p_token ip_key port_key w (ok body) =
      let done = io.post w nat_url (route_headers p2p_token) body in
      (done.0, address_in ip_key port_key done.1)

  -- The STUN server is of type 2, the TURN server of type 3.
  unfoldable pub fetch_route : io.World → Bytes → Bytes → io.World × NatRoute
  fetch_route w nat_url p2p_token =
      let stun =
        post_route nat_url p2p_token (codes "stunIp") (codes "stunPort") w
          (io.to_vec (io.number_object (codes "type") 2)) in
      let turn =
        post_route nat_url p2p_token (codes "turnIp") (codes "turnPort") stun.0
          (io.to_vec (io.number_object (codes "type") 3)) in
      (
        turn.0,
        record {
          stun_ip = stun.1.0;
          stun_port = stun.1.1;
          turn_ip = turn.1.0;
          turn_port = turn.1.1;
        },
      )

  abbrev pub store_route : ClientInner → io.World × NatRoute → io.World × ClientInner
  store_route inner (w, route) = (w, record inner { nat_route = some route })

  -- The URL is that of the configuration, if `init` gave one; an empty URL asks nothing.
  unfoldable pub resolve_nat_route :
      io.World
      → ClientInner
      → Option Bytes
      → Bytes
      → (io.World × ClientInner) × Result Bytes (Unit {0})
  resolve_nat_route w inner none p2p_token = ((w, inner), err (codes "not initialized"))
  resolve_nat_route w inner (some nat_url) p2p_token =
      if is_blank nat_url
      then ((w, inner), ok tt)
      else (store_route inner (fetch_route w nat_url p2p_token), ok tt)
