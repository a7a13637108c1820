-- ===== src/Stun/Message/Responses.antt =====
-- sdk/crates/p2p-core/src/stun/message.rs: `parse_binding_response` and `parse_allocate_response`.
-- The end of the attributes comes from the header and is not checked against the buffer.
use p2psdk.Prelude.{
  ℕ, ◌+◌, ◌*◌, bit_and, Bool, true, false, ◌&&◌, ◌||◌, Option, none, some, [], ltb, leb, ◌==◌,
  if◌then◌else◌, eq_bytes, length, get_elem?, Result, ok, err, Outcome, ret, ◌>>=◌,
}
use p2psdk.Constants.{
  attr_error_code, attr_xor_mapped_address, attr_xor_relayed_address, stun_binding_success,
  stun_allocate_success, stun_allocate_error, stun_magic_cookie, af_inet, af_inet6,
}
use p2psdk.Stun.Codec.{parse_xor_address, StunResult, TurnResult, StunCodecError}
use p2psdk.Stun.Message.{
  StunError, response_too_short, invalid_first_bits, unexpected_message_type, invalid_magic_cookie,
  transaction_id_mismatch, xor_mapped_address_not_found, xor_relayed_address_not_found,
  allocate_error, allocate_error_unknown, unsupported_address_family, xor_mapped_address_too_short,
}
use p2psdk.Stun.Walk.{Flow, next, exit, walk_attributes}
use p2psdk.Text.Utf8.{from_utf8_lossy}
use p2psdk.Wire.{Bytes, byte_at, slice, read_u16, read_u32}

abbrev pub Answer {ℓ} : Type ℓ → Type ℓ
Answer A = Outcome (Result StunError A)

-- A check that fails returns from the function.
abbrev pub require {ℓ} : {A : Type ℓ} → Bool → StunError → Answer A → Answer A
require true e rest = rest
require false e rest = ret (err e)

-- Magic cookie and transaction ID.
unfoldable pub validate {ℓ} : {A : Type ℓ} → Bytes → Bytes → Answer A → Answer A
validate bytes transaction_id rest = do
  cookie ← read_u32 bytes 4
  require (cookie == stun_magic_cookie) (invalid_magic_cookie cookie) (do
    tid ← slice bytes 8 20
    require (eq_bytes tid transaction_id) transaction_id_mismatch rest)

abbrev pub flow_answer :
    {S A : Type 0} → (S → Result StunError A) → Flow S (Result StunError A) → Result StunError A
flow_answer f (next s) = f s
flow_answer f (exit r) = r

abbrev pub stun_result : Result StunCodecError (Bytes × ℕ) → Result StunError StunResult
stun_result (ok (ip, port)) = ok (record { ip = ip; port = port })
stun_result (err e) = err xor_mapped_address_too_short

abbrev pub or_zero : Option ℕ → ℕ
or_zero none = 0
or_zero (some b) = b

-- `data.get(i).copied().unwrap_or(0)`
abbrev pub byte_or_zero : Bytes → ℕ → ℕ
byte_or_zero bytes i = or_zero (get_elem? bytes i)

unfoldable pub visit_binding :
    Bytes → ℕ → ℕ → ℕ → Unit {0} → Outcome (Flow (Unit {0}) (Result StunError StunResult))
visit_binding bytes attr_type attr_len offset u =
    let family = byte_or_zero bytes (offset + 5) in
    if attr_type == attr_xor_mapped_address
    then (if family == af_inet || family == af_inet6
        then (do
          tid ← slice bytes 8 20
          address ← parse_xor_address bytes (offset + 4) attr_len tid
          ret (exit (stun_result address)))
        else ret (exit (err (unsupported_address_family family))))
    else ret (next u)

unfoldable pub binding_attributes : Bytes → Answer StunResult
binding_attributes bytes = do
  msg_length ← read_u16 bytes 2
  flow ← walk_attributes bytes (20 + msg_length) (visit_binding bytes) tt
  ret (flow_answer (λ u. err xor_mapped_address_not_found) flow)

unfoldable pub parse_binding_response : Bytes → Bytes → Answer StunResult
parse_binding_response bytes transaction_id =
    if ltb (length bytes) 20 then ret (err (response_too_short (length bytes))) else do
      first ← byte_at bytes 0
      require (bit_and first 0xC0 == 0) invalid_first_bits (do
        msg_type ← read_u16 bytes 0
        require (msg_type == stun_binding_success) (unexpected_message_type msg_type)
            (validate bytes transaction_id (binding_attributes bytes)))

-- The reason phrase, if the buffer holds all of it.
unfoldable pub reason_phrase : Bytes → ℕ → ℕ → Outcome Bytes
reason_phrase bytes from to =
    if leb to (length bytes)
    then (do reason ← slice bytes from to; ret (from_utf8_lossy reason))
    else ret []

unfoldable pub visit_allocate_error :
    Bytes → ℕ → ℕ → ℕ → Unit {0} → Outcome (Flow (Unit {0}) (Result StunError TurnResult))
visit_allocate_error bytes attr_type attr_len offset u =
    if attr_type == attr_error_code && leb 4 attr_len
    then (do
      class ← byte_at bytes (offset + 6)
      number ← byte_at bytes (offset + 7)
      reason ← reason_phrase bytes (offset + 8) (offset + 4 + attr_len)
      ret (exit (err (allocate_error (bit_and class 0x07 * 100 + number) reason))))
    else ret (next u)

unfoldable pub allocate_error_attributes : Bytes → Answer TurnResult
allocate_error_attributes bytes = do
  msg_length ← read_u16 bytes 2
  flow ← walk_attributes bytes (20 + msg_length) (visit_allocate_error bytes) tt
  ret (flow_answer (λ u. err allocate_error_unknown) flow)

abbrev pub set_relay : TurnResult → Result StunCodecError (Bytes × ℕ) → TurnResult
set_relay r (ok (ip, port)) = record r { relay_ip = ip; relay_port = port }
set_relay r (err e) = r

abbrev pub set_mapped_address : TurnResult → Result StunCodecError (Bytes × ℕ) → TurnResult
set_mapped_address r (ok (ip, port)) = record r { mapped_ip = ip; mapped_port = port }
set_mapped_address r (err e) = r

unfoldable pub visit_allocate :
    Bytes → ℕ → ℕ → ℕ → TurnResult → Outcome (Flow TurnResult (Result StunError TurnResult))
visit_allocate bytes attr_type attr_len offset r =
    if attr_type == attr_xor_relayed_address
    then (do
      tid ← slice bytes 8 20
      address ← parse_xor_address bytes (offset + 4) attr_len tid
      ret (next (set_relay r address)))
    else if attr_type == attr_xor_mapped_address
    then (do
      tid ← slice bytes 8 20
      address ← parse_xor_address bytes (offset + 4) attr_len tid
      ret (next (set_mapped_address r address)))
    else ret (next r)

abbrev pub with_relay : TurnResult → Result StunError TurnResult
with_relay r = if length r.relay_ip == 0 then err xor_relayed_address_not_found else ok r

unfoldable pub allocate_attributes : Bytes → Answer TurnResult
allocate_attributes bytes = do
  msg_length ← read_u16 bytes 2
  flow ←
      walk_attributes bytes (20 + msg_length) (visit_allocate bytes)
        (record { relay_ip = []; relay_port = 0; mapped_ip = []; mapped_port = 0 })
  ret (flow_answer with_relay flow)

unfoldable pub parse_allocate_response : Bytes → Bytes → Answer TurnResult
parse_allocate_response bytes transaction_id =
    if ltb (length bytes) 20 then ret (err (response_too_short (length bytes))) else do
      first ← byte_at bytes 0
      require (bit_and first 0xC0 == 0) invalid_first_bits (do
        msg_type ← read_u16 bytes 0
        if msg_type == stun_allocate_error
            then allocate_error_attributes bytes
            else require (msg_type == stun_allocate_success) (unexpected_message_type msg_type)
                (validate bytes transaction_id (allocate_attributes bytes)))
