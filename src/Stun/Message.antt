-- ===== src/Stun/Message.antt =====
-- sdk/crates/p2p-core/src/stun/message.rs: the requests to the STUN and TURN servers and the parsers
-- of their responses.
pub mod Responses
pub mod Binding
pub mod Requests
use p2psdk.Prelude.{
  ℕ, zero, suc, ◌+◌, ◌-◌, ◌*◌, ◌/◌, ◌%◌, ◌^◌, ◌≤◌, ◌<◌, min, max, bit_and, bit_xor, ◌≡◌, refl, sym,
  ap, ap₂, ◌∙◌, ◌≢◌, ◌↔◌, ◌⊎◌, inl, inr, Bool, true, false, not, ◌&&◌, ◌||◌, Option, none, some,
  List, [], ◌∷◌, ◌++◌, map, append_assoc, append-nil, arith, ltb, leb, ◌==◌, if◌then◌else◌, ltb→lt,
  leb→le, le→leb, leb-false, ltb-false, ==_iff, Bool-cases, Option-cases, eq_bytes, eq_bytes_refl,
  eq_bytes_sound, position, FirstAt, FoundBy, position-FoundBy, position-FirstAt, position-none,
  FirstAt-lt, All-map, length, get_elem?, take, drop, replicate, All, length-append, length-take,
  length-drop, length-replicate, take-append, drop-append, get_elem?-append, get_elem?-lt, Result,
  ok, err, Outcome, ret, panic, out_of_fuel, ◌>>=◌, ◌>>◌, Returns, Returns-eq, Returns-of_eq,
  Returns-bind, Returns-if,
}
use p2psdk.Constants.{
  attr_error_code, attr_xor_mapped_address, attr_xor_relayed_address, attr_requested_transport,
  attr_software, attr_p2p_token, attr_requested_address_family, attr_xor_peer_address,
  stun_binding_request, stun_binding_success, stun_allocate_request, stun_allocate_success,
  stun_allocate_error, stun_create_permission_request, stun_magic_cookie, turn_transport_udp,
  af_inet, af_inet6,
}
use p2psdk.Stun.Builder.{write_stun_header, write_attribute}
use p2psdk.Stun.Codec.{
  pad_to_4, parse_xor_address, ipv6_to_bytes, cookie_bytes, StunResult, TurnResult, StunCodecError,
}
use p2psdk.Stun.Walk.{Flow, next, exit, walk_attributes}
use p2psdk.Text.Number.{parse_number}
use p2psdk.Text.Utf8.{from_utf8_lossy}
use p2psdk.Text.Words.{split_last_colon, split_on, contains}
use p2psdk.Types.{codes}
use p2psdk.Wire.{Bytes, u16, byte_at, slice, read_u16, read_u32, write_bytes, write_u16}

pub record StunRequest : Type 0 where
  pub bytes : Bytes
  pub transaction_id : Bytes

pub data StunError : Type 0 where
  response_too_short : ℕ → StunError
  invalid_first_bits : StunError
  unexpected_message_type : ℕ → StunError
  invalid_magic_cookie : ℕ → StunError
  transaction_id_mismatch : StunError
  xor_mapped_address_not_found : StunError
  xor_relayed_address_not_found : StunError
  allocate_error : ℕ → Bytes → StunError
  allocate_error_unknown : StunError
  unsupported_address_family : ℕ → StunError
  xor_mapped_address_too_short : StunError
  invalid_peer_address : Bytes → StunError

abbrev zero_bytes : ℕ → Bytes
zero_bytes n = replicate n 0

abbrev pub software : Bytes
software = codes "MyApp"

-- `port_part.parse()`, an error for a part that is no port.
abbrev with_port : Bytes → Bytes → Option ℕ → Result StunError (Bytes × ℕ × Bool)
with_port peer ip none = err (invalid_peer_address peer)
with_port peer ip (some port) = ok (ip, port, contains b':' ip)

abbrev with_parts : Bytes → Option (Bytes × Bytes) → Result StunError (Bytes × ℕ × Bool)
with_parts peer none = err (invalid_peer_address peer)
with_parts peer (some (ip, port)) = with_port peer ip (parse_number 10 65535 port)

-- The third component is `is_ipv6`.
unfoldable pub parse_peer_addr : Bytes → Result StunError (Bytes × ℕ × Bool)
parse_peer_addr peer = with_parts peer (split_last_colon peer)

-- `attrs_len` is cut to 16 bits before the buffer is made.
unfoldable pub build_binding_request : Bytes → Bytes → Outcome StunRequest
build_binding_request transaction_id p2p_token = do
  let p2p_attr_size = pad_to_4 (4 + length p2p_token)
  let attrs_len = u16 (p2p_attr_size + pad_to_4 (4 + length software))
  buf₀ ←
      write_stun_header (zero_bytes (20 + attrs_len)) stun_binding_request attrs_len transaction_id
  buf₁ ← write_attribute buf₀ 20 attr_p2p_token p2p_token
  buf₂ ← write_attribute buf₁ (20 + p2p_attr_size) attr_software software
  ret (record { bytes = buf₂; transaction_id = transaction_id })

unfoldable pub build_allocate_request : Bytes → Bytes → ℕ → Outcome StunRequest
build_allocate_request transaction_id p2p_token family = do
  let rt_size = pad_to_4 (4 + 4)
  let raf_size = pad_to_4 (4 + 4)
  let p2p_size = pad_to_4 (4 + length p2p_token)
  let attrs_len = u16 (rt_size + raf_size + p2p_size + pad_to_4 (4 + length software))
  buf₀ ←
      write_stun_header (zero_bytes (20 + attrs_len)) stun_allocate_request attrs_len transaction_id
  buf₁ ← write_attribute buf₀ 20 attr_requested_transport (turn_transport_udp ∷ 0 ∷ 0 ∷ 0 ∷ [])
  buf₂ ← write_attribute buf₁ (20 + rt_size) attr_requested_address_family (family ∷ 0 ∷ 0 ∷ 0 ∷ [])
  buf₃ ← write_attribute buf₂ (20 + rt_size + raf_size) attr_p2p_token p2p_token
  buf₄ ← write_attribute buf₃ (20 + rt_size + raf_size + p2p_size) attr_software software
  ret (record { bytes = buf₄; transaction_id = transaction_id })

abbrev unwrap {ℓ} : {A : Type ℓ} → Result StunError A → Outcome A
unwrap (ok a) = ret a
unwrap (err e) = panic

abbrev addr_len : Bool → ℕ
addr_len is_ipv6 = if is_ipv6 then 20 else 8

-- A peer that is no address counts as an IPv4 one here.
abbrev peer_attr_size : Result StunError (Bytes × ℕ × Bool) → ℕ
peer_attr_size (ok (ip, port, is_ipv6)) = pad_to_4 (4 + addr_len is_ipv6)
peer_attr_size (err e) = pad_to_4 (4 + 8)

unfoldable pub peer_attrs_size : List Bytes → ℕ
peer_attrs_size [] = 0
peer_attrs_size (peer ∷ peers) = peer_attr_size (parse_peer_addr peer) + peer_attrs_size peers

abbrev or_zeros : Result StunCodecError Bytes → Bytes
or_zeros (ok bytes) = bytes
or_zeros (err e) = replicate 16 0

abbrev octet : Bytes → ℕ
octet s = elim (parse_number 10 255 s) [ none ↦ 0 | some n ↦ n ]

unfoldable pub xor_bytes : Bytes → Bytes → Bytes
xor_bytes [] key = []
xor_bytes (b ∷ bs) [] = []
xor_bytes (b ∷ bs) (k ∷ key) = bit_xor b k ∷ xor_bytes bs key

-- The masked address; an IPv4 text with fewer than four parts panics.
unfoldable pub masked_address : Bytes → Bool → Bytes → Outcome Bytes
masked_address ip is_ipv6 transaction_id =
    if is_ipv6
    then ret (xor_bytes (or_zeros (ipv6_to_bytes ip)) (cookie_bytes ++ transaction_id))
    else (let octets = map octet (split_on b'.' ip) in
        do
          o₀ ← byte_at octets 0
          o₁ ← byte_at octets 1
          o₂ ← byte_at octets 2
          o₃ ← byte_at octets 3
          ret (xor_bytes (o₀ ∷ o₁ ∷ o₂ ∷ o₃ ∷ []) cookie_bytes))

unfoldable pub write_peers : Bytes → Bytes → ℕ → List Bytes → Outcome Bytes
write_peers transaction_id buf offset [] = ret buf
write_peers transaction_id buf offset (peer ∷ peers) = do
  addr ← unwrap (parse_peer_addr peer)
  let len = addr_len addr.2
  buf₁ ← write_u16 buf offset attr_xor_peer_address
  buf₂ ← write_u16 buf₁ (offset + 2) len
  buf₃ ← write_bytes buf₂ (offset + 4) (0 ∷ (if addr.2 then af_inet6 else af_inet) ∷ [])
  buf₄ ← write_u16 buf₃ (offset + 6) (bit_xor addr.1 0x2112)
  address ← masked_address addr.0 addr.2 transaction_id
  buf₅ ← write_bytes buf₄ (offset + 8) address
  write_peers transaction_id buf₅ (offset + pad_to_4 (4 + len)) peers

unfoldable pub build_create_permission_request : List Bytes → Bytes → Bytes → Outcome StunRequest
build_create_permission_request peers p2p_token transaction_id = do
  let p2p_size = pad_to_4 (4 + length p2p_token)
  let attrs_len = u16 (p2p_size + peer_attrs_size peers)
  buf₀ ←
      write_stun_header (zero_bytes (20 + attrs_len)) stun_create_permission_request attrs_len
        transaction_id
  buf₁ ← write_attribute buf₀ 20 attr_p2p_token p2p_token
  buf₂ ← write_peers transaction_id buf₁ (20 + p2p_size) peers
  ret (record { bytes = buf₂; transaction_id = transaction_id })
