-- ===== src/Frame.antt =====
-- sdk/crates/p2p-core/src/frame.rs: the frames of the data channel, 4 bytes of payload length,
-- 4 bytes of frame type, 8 bytes of sequence number and the payload.
pub mod RoundTrip
use p2psdk.Prelude.{
  ℕ, zero, suc, ◌+◌, ◌-◌, ◌*◌, ◌/◌, ◌%◌, ◌^◌, ◌≤◌, ◌<◌, min, max, bit_and, bit_xor, ◌≡◌, refl, sym,
  ap, ap₂, ◌∙◌, ◌≢◌, ◌↔◌, ◌⊎◌, inl, inr, Bool, true, false, not, ◌&&◌, ◌||◌, Option, none, some,
  List, [], ◌∷◌, ◌++◌, map, append_assoc, append-nil, arith, ltb, leb, ◌==◌, if◌then◌else◌, ltb→lt,
  leb→le, le→leb, leb-false, ltb-false, ==_iff, Bool-cases, Option-cases, eq_bytes, eq_bytes_refl,
  eq_bytes_sound, position, length, get_elem?, take, drop, replicate, All, length-append,
  length-take, length-drop, length-replicate, take-append, drop-append, get_elem?-append,
  get_elem?-lt, Outcome, ret, panic, out_of_fuel, ◌>>=◌, ◌>>◌, Returns, Returns-eq, Returns-of_eq,
  Returns-bind,
}
use p2psdk.Constants.{type_heartbeat, type_data}
use p2psdk.Wire.{Bytes, u32, be32, be64, byte_at, slice, read_u32}

pub record ParsedFrame : Type 0 where
  pub frame_type : ℕ
  pub seq_id : ℕ
  pub payload : Bytes

-- `payload.len() as u32` wraps.
unfoldable pub encode_data_frame_with_seq : Bytes → ℕ → Bytes
encode_data_frame_with_seq text seq_id =
    be32 (u32 (length text)) ++ (be32 type_data ++ (be64 seq_id ++ text))

unfoldable pub encode_data_frame : Bytes → Bytes
encode_data_frame text = encode_data_frame_with_seq text 0

unfoldable pub encode_heartbeat_reply : Bytes
encode_heartbeat_reply = be32 1 ++ (be32 type_heartbeat ++ (be64 0 ++ (0 ∷ [])))

-- `u64::from_be_bytes` of the eight bytes from `offset` on.
unfoldable pub read_u64 : Bytes → ℕ → Outcome ℕ
read_u64 buf offset = do
  hi ← read_u32 buf offset
  lo ← read_u32 buf (offset + 4)
  ret (hi * 2 ^ 32 + lo)

unfoldable pub parse_frame : Bytes → Outcome (Option ParsedFrame)
parse_frame bytes = if ltb (length bytes) 16 then ret none else do
  payload_len ← read_u32 bytes 0
  frame_type ← read_u32 bytes 4
  seq_id ← read_u64 bytes 8
  if ltb (length bytes) (16 + payload_len) then ret none else do
    payload ← slice bytes 16 (16 + payload_len)
    ret (some (record { frame_type = frame_type; seq_id = seq_id; payload = payload }))

-- A STUN message: the first two bits are 0 and the bytes 4 to 7 are the magic cookie.
unfoldable pub is_stun_message : Bytes → Outcome Bool
is_stun_message bytes = if ltb (length bytes) 8 then ret false else do
  first ← byte_at bytes 0
  if not (bit_and (first / 2 ^ 6) 3 == 0)
      then ret false
      else do magic ← read_u32 bytes 4; ret (magic == 0x2112A442)
