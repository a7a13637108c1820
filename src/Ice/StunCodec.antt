-- ===== src/Ice/StunCodec.antt =====
-- sdk/crates/p2p-core/src/ice/stun_codec.rs: the STUN messages of the connectivity checks.
pub mod Build
pub mod Parse
pub mod RoundTrip
pub mod Faults
use p2psdk.Prelude.{
  ℕ, zero, suc, ◌+◌, ◌-◌, ◌*◌, ◌/◌, ◌%◌, ◌^◌, ◌≤◌, ◌<◌, min, max, bit_and, bit_xor, ◌≡◌, refl, sym,
  ap, ap₂, ◌∙◌, ◌≢◌, ◌↔◌, ◌⊎◌, inl, inr, Bool, true, false, not, ◌&&◌, ◌||◌, Option, none, some,
  List, [], ◌∷◌, ◌++◌, map, append_assoc, append-nil, arith, ltb, leb, ◌==◌, if◌then◌else◌, ltb→lt,
  leb→le, le→leb, leb-false, ltb-false, ==_iff, Bool-cases, Option-cases, eq_bytes, eq_bytes_refl,
  eq_bytes_sound, position, FirstAt, FoundBy, position-FoundBy, position-FirstAt, position-none,
  FirstAt-lt, All-map, length, get_elem?, take, drop, replicate, All, length-append, length-take,
  length-drop, length-replicate, take-append, drop-append, get_elem?-append, get_elem?-lt, Result,
  ok, err, Outcome, ret, panic, out_of_fuel, ◌>>=◌, ◌>>◌, Returns, Returns-eq, Returns-of_eq,
  Returns-bind,
}
use p2psdk.Constants.{
  attr_username, attr_priority, attr_use_candidate, attr_ice_controlling, attr_ice_controlled,
  attr_message_integrity, attr_fingerprint, attr_error_code, attr_xor_mapped_address,
  stun_binding_request, stun_binding_success, stun_binding_error, stun_magic_cookie,
}
use p2psdk.Crypto.{Crypto, stun_fingerprint}
use p2psdk.Stun.Builder.{write_stun_header, write_attribute_header, write_attribute}
use p2psdk.Stun.Codec.{pad_to_4, parse_xor_address, StunCodecError}
use p2psdk.Stun.Walk.{Flow, next, exit, walk_attributes}
use p2psdk.Text.Utf8.{from_utf8_lossy}
use p2psdk.Wire.{
  Bytes, u16, be16, be32, byte_at, slice, read_u16, read_u32, write_bytes, write_u16, write_u32,
}

pub record IceBindingRequestResult : Type 0 where
  pub bytes : Bytes
  pub transaction_id : Bytes

pub record ParsedStunMessage : Type 0 where
  pub is_stun : Bool
  pub is_request : Bool
  pub is_response : Bool
  pub is_error_response : Bool
  pub transaction_id : Bytes
  pub username : Bytes
  pub priority : ℕ
  pub controlling : Option Bool
  pub use_candidate : Bool
  pub error_code : ℕ
  pub mapped_ip : Bytes
  pub mapped_port : ℕ

abbrev pub default_message : ParsedStunMessage
default_message = record {
  is_stun = false;
  is_request = false;
  is_response = false;
  is_error_response = false;
  transaction_id = [];
  username = [];
  priority = 0;
  controlling = none;
  use_candidate = false;
  error_code = 0;
  mapped_ip = [];
  mapped_port = 0;
}

-- `vec![0u8; n]`
abbrev zero_bytes : ℕ → Bytes
zero_bytes n = replicate n 0

-- `pad_to_4(4 + 20)` where there is a password to sign with.
abbrev pub mi_attr_len : Option Bytes → ℕ
mi_attr_len none = 0
mi_attr_len (some pwd) = pad_to_4 (4 + 20)

abbrev pub use_candidate_len : Bool → ℕ
use_candidate_len use_candidate = if use_candidate then pad_to_4 (4 + 0) else 0

abbrev pub request_attrs_len : Bytes → Bool → Option Bytes → ℕ
request_attrs_len username use_candidate remote_pwd =
    pad_to_4 (4 + length username)
    + pad_to_4 (4 + 4)
    + pad_to_4 (4 + 8)
    + mi_attr_len remote_pwd
    + pad_to_4 (4 + 4)
    + use_candidate_len use_candidate

-- MESSAGE-INTEGRITY: the header's length counts up to this attribute while the HMAC is computed.
unfoldable pub sign : Crypto → Bytes → ℕ → ℕ → Option Bytes → Outcome Bytes
sign crypto buf mi_start attrs_len none = ret buf
sign crypto buf mi_start attrs_len (some pwd) = do
  buf₁ ← write_attribute_header buf mi_start attr_message_integrity 20
  buf₂ ← write_u16 buf₁ 2 (u16 (mi_start - 20 + mi_attr_len (some pwd)))
  signed ← slice buf₂ 0 mi_start
  buf₃ ← write_bytes buf₂ (mi_start + 4) (crypto.hmac_sha1 pwd signed)
  write_u16 buf₃ 2 (u16 attrs_len)

-- FINGERPRINT: the checksum covers the whole buffer, this attribute's header and its zero value too.
unfoldable pub add_fingerprint : Crypto → Bytes → ℕ → ℕ → Outcome Bytes
add_fingerprint crypto buf offset total_len = do
  buf₁ ← write_attribute_header buf offset attr_fingerprint 4
  covered ← slice buf₁ 0 total_len
  write_u32 buf₁ (offset + 4) (stun_fingerprint crypto covered)

-- `transaction_id` is what `generate_transaction_id` returned.
unfoldable pub build_ice_binding_request :
    Crypto → Bytes → Bytes → ℕ → Bool → ℕ → Bool → Option Bytes → Outcome IceBindingRequestResult
build_ice_binding_request crypto transaction_id username priority controlling tie_breaker
      use_candidate remote_pwd =
    do
      let attrs_len = request_attrs_len username use_candidate remote_pwd
      let role_attr = if controlling then attr_ice_controlling else attr_ice_controlled
      let offset₁ = 20 + pad_to_4 (4 + length username)
      let offset₂ = offset₁ + pad_to_4 (4 + 4)
      let offset₃ = offset₂ + pad_to_4 (4 + 8)
      let offset₄ = offset₃ + use_candidate_len use_candidate
      let offset₅ = offset₄ + mi_attr_len remote_pwd
      buf₀ ←
          write_stun_header (zero_bytes (20 + attrs_len)) stun_binding_request (u16 attrs_len)
            transaction_id
      buf₁ ← write_attribute buf₀ 20 attr_username username
      buf₂ ← write_attribute buf₁ offset₁ attr_priority (be32 priority)
      buf₃ ←
          write_attribute buf₂ offset₂ role_attr
            (be32 (tie_breaker / 2 ^ 32) ++ be32 (tie_breaker % 2 ^ 32))
      buf₄ ← if use_candidate then write_attribute buf₃ offset₃ attr_use_candidate [] else ret buf₃
      buf₅ ← sign crypto buf₄ offset₄ attrs_len remote_pwd
      buf₆ ← add_fingerprint crypto buf₅ offset₅ (20 + attrs_len)
      ret (record { bytes = buf₆; transaction_id = transaction_id })

unfoldable pub build_ice_binding_response : Bytes → Outcome (Option Bytes)
build_ice_binding_response request = if ltb (length request) 20 then ret none else do
  first ← byte_at request 0
  if not (bit_and first 0xC0 == 0) then ret none else do
    req_type ← read_u16 request 0
    if not (bit_and req_type 0x3EFF == stun_binding_request) then ret none else do
      transaction_id ← slice request 8 20
      resp ← write_stun_header (zero_bytes 20) stun_binding_success 0 transaction_id
      ret (some resp)

unfoldable pub build_ice_error_response : Crypto → Bytes → ℕ → Bytes → Outcome (Option Bytes)
build_ice_error_response crypto request error_code reason =
    if ltb (length request) 20 then ret none else do
      transaction_id ← slice request 8 20
      let error_attr_len = pad_to_4 (4 + 4 + length reason)
      let attrs_len = error_attr_len + pad_to_4 (4 + 4)
      buf₀ ←
          write_stun_header (zero_bytes (20 + attrs_len)) stun_binding_error (u16 attrs_len)
            transaction_id
      buf₁ ← write_attribute_header buf₀ 20 attr_error_code (u16 (4 + length reason))
      buf₂ ← write_bytes buf₁ 24 (0 ∷ (error_code / 100 % 256) ∷ (error_code % 100) ∷ [])
      buf₃ ← write_bytes buf₂ 27 reason
      buf₄ ← add_fingerprint crypto buf₃ (20 + error_attr_len) (20 + attrs_len)
      ret (some buf₄)

abbrev pub set_mapped : ParsedStunMessage → Result StunCodecError (Bytes × ℕ) → ParsedStunMessage
set_mapped r (ok (ip, port)) = record r { mapped_ip = ip; mapped_port = port }
set_mapped r (err e) = r

-- The body of the attribute loop. A guard that fails leaves the attribute to the last arm.
unfoldable pub visit_ice :
    Bytes → ℕ → ℕ → ℕ → ParsedStunMessage → Outcome (Flow ParsedStunMessage ParsedStunMessage)
visit_ice bytes attr_type attr_len offset r =
    if attr_type == attr_username && ltb 0 attr_len
    then (if leb (offset + 4 + attr_len) (length bytes)
        then (do
          name ← slice bytes (offset + 4) (offset + 4 + attr_len)
          ret (next (record r { username = from_utf8_lossy name })))
        else ret (next r))
    else if attr_type == attr_priority && leb 4 attr_len
    then (do priority ← read_u32 bytes (offset + 4); ret (next (record r { priority = priority })))
    else if attr_type == attr_use_candidate
    then ret (next (record r { use_candidate = true }))
    else if attr_type == attr_ice_controlling && leb 8 attr_len
    then ret (next (record r { controlling = some true }))
    else if attr_type == attr_ice_controlled && leb 8 attr_len
    then ret (next (record r { controlling = some false }))
    else if attr_type == attr_xor_mapped_address
    then (do
      address ← parse_xor_address bytes (offset + 4) attr_len r.transaction_id
      ret (next (set_mapped r address)))
    else if attr_type == attr_error_code && leb 4 attr_len
    then (do
      class ← byte_at bytes (offset + 5)
      number ← byte_at bytes (offset + 6)
      ret (next (record r { error_code = bit_and class 0x07 * 100 + number })))
    else ret (next r)

-- `Some` flags for the three message types that are handled, `None` for the others.
unfoldable pub classify : ℕ → ParsedStunMessage → Option ParsedStunMessage
classify msg_type r =
    if msg_type == stun_binding_request
    then some (record r { is_request = true })
    else if msg_type == stun_binding_success
    then some (record r { is_response = true })
    else if msg_type == stun_binding_error
    then some (record r { is_error_response = true })
    else none

abbrev pub flow_result : Flow ParsedStunMessage ParsedStunMessage → ParsedStunMessage
flow_result (next r) = r
flow_result (exit r) = r

unfoldable pub parse_ice_attributes : Bytes → ParsedStunMessage → Outcome ParsedStunMessage
parse_ice_attributes bytes r = do
  msg_length ← read_u16 bytes 2
  flow ← walk_attributes bytes (min (20 + msg_length) (length bytes)) (visit_ice bytes) r
  ret (flow_result flow)

unfoldable pub parse_classified :
    Bytes → ParsedStunMessage → Option ParsedStunMessage → Outcome ParsedStunMessage
parse_classified bytes r none = ret r
parse_classified bytes r (some r') = parse_ice_attributes bytes r'

unfoldable pub parse_ice_stun_message : Bytes → Outcome ParsedStunMessage
parse_ice_stun_message bytes = if ltb (length bytes) 20 then ret default_message else do
  first ← byte_at bytes 0
  if not (bit_and first 0xC0 == 0) then ret default_message else do
    msg_type ← read_u16 bytes 0
    magic_cookie ← read_u32 bytes 4
    if not (magic_cookie == stun_magic_cookie) then ret default_message else do
      transaction_id ← slice bytes 8 20
      let r = record default_message { is_stun = true; transaction_id = transaction_id }
      parse_classified bytes r (classify msg_type r)
