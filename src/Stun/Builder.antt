-- ===== src/Stun/Builder.antt =====
-- What the functions that build a STUN message share (sdk/crates/p2p-core/src/stun/message.rs and
-- sdk/crates/p2p-core/src/ice/stun_codec.rs): they fill a zeroed buffer from the front.
pub mod Laws
pub mod Fields
use p2psdk.Prelude.{
  ℕ, zero, suc, ◌+◌, ◌-◌, ◌*◌, ◌/◌, ◌%◌, ◌^◌, ◌≤◌, ◌<◌, min, max, bit_and, bit_xor, ◌≡◌, refl, sym,
  ap, ap₂, ◌∙◌, ◌≢◌, ◌↔◌, ◌⊎◌, inl, inr, Bool, true, false, not, ◌&&◌, ◌||◌, Option, none, some,
  List, [], ◌∷◌, ◌++◌, map, append_assoc, append-nil, arith, ltb, leb, ◌==◌, if◌then◌else◌, ltb→lt,
  leb→le, le→leb, leb-false, ltb-false, ==_iff, Bool-cases, Option-cases, eq_bytes, eq_bytes_refl,
  eq_bytes_sound, position, FirstAt, FoundBy, position-FoundBy, position-FirstAt, position-none,
  FirstAt-lt, All-map, length, get_elem?, take, drop, replicate, All, length-append, length-take,
  length-drop, length-replicate, take-append, drop-append, get_elem?-append, get_elem?-lt, Result,
  ok, err, Outcome, ret, panic, out_of_fuel, ◌>>=◌, ◌>>◌, Returns, Returns-eq, Returns-of_eq,
  Returns-bind,
}
use p2psdk.Constants.{stun_magic_cookie}
use p2psdk.Wire.{Bytes, write_bytes, write_u16, write_u32}

-- The header fields before the attributes.
unfoldable pub write_stun_header : Bytes → ℕ → ℕ → Bytes → Outcome Bytes
write_stun_header buf msg_type attrs_len transaction_id = do
  buf₁ ← write_u16 buf 0 msg_type
  buf₂ ← write_u16 buf₁ 2 attrs_len
  buf₃ ← write_u32 buf₂ 4 stun_magic_cookie
  write_bytes buf₃ 8 transaction_id

-- Type and length of the attribute at `offset`.
unfoldable pub write_attribute_header : Bytes → ℕ → ℕ → ℕ → Outcome Bytes
write_attribute_header buf offset attr_type attr_len = do
  buf₁ ← write_u16 buf offset attr_type
  write_u16 buf₁ (offset + 2) attr_len

-- Type, length and value; the padding is left zero.
unfoldable pub write_attribute : Bytes → ℕ → ℕ → Bytes → Outcome Bytes
write_attribute buf offset attr_type value = do
  buf₁ ← write_attribute_header buf offset attr_type (length value)
  write_bytes buf₁ (offset + 4) value
