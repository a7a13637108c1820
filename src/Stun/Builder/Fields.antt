-- ===== src/Stun/Builder/Fields.antt =====
-- The header fields read back from a STUN message.
use p2psdk.Prelude.{
  ℕ, ◌+◌, ◌/◌, ◌%◌, ◌^◌, ◌<◌, ◌≡◌, refl, ap, ◌++◌, arith, length, length-append, ret,
}
use p2psdk.Constants.{stun_magic_cookie}
use p2psdk.Stun.Builder.Laws.{header, length-header}
use p2psdk.Wire.{Bytes, be16, be32, byte_at, read_u16, read_u32, slice}
use p2psdk.Wire.Laws.{slice-middle}

module _ (msg_type len : ℕ) (tid rest : Bytes) where
  pub length-message : length tid ≡ 12 → length (header msg_type len tid ++ rest) ≡ 20 + length rest
  length-message twelve =
      omega (arith, length-append (header msg_type len tid) rest, length-header msg_type len tid)

  pub first_byte : byte_at (header msg_type len tid ++ rest) 0 ≡ ret (msg_type / 256 % 256)
  unfolding byte_at header be16
  first_byte = refl

  pub type_field : msg_type < 2 ^ 14 → read_u16 (header msg_type len tid ++ rest) 0 ≡ ret msg_type
  unfolding read_u16 byte_at header be16
  type_field h = ap ret (omega arith)

  pub length_field : len < 2 ^ 16 → read_u16 (header msg_type len tid ++ rest) 2 ≡ ret len
  unfolding read_u16 byte_at header be16
  length_field h = ap ret (omega arith)

  pub cookie_field : read_u32 (header msg_type len tid ++ rest) 4 ≡ ret stun_magic_cookie
  unfolding read_u32 byte_at header be16 be32
  cookie_field = refl

  pub tid_field : length tid ≡ 12 → slice (header msg_type len tid ++ rest) 8 20 ≡ ret tid
  unfolding header be16 be32
  tid_field twelve =
      slice-middle (be16 msg_type ++ (be16 len ++ be32 stun_magic_cookie)) tid rest 8 20 refl
        (omega arith)
