-- ===== src/Wire.antt =====
-- Byte buffers as the source reads and writes them: indexing and slicing that panic out of bounds,
-- `to_be_bytes`, `from_be_bytes`, and the helpers `read_u16`, `read_u32`, `write_u16`, `write_u32`
-- of sdk/crates/p2p-core/src/stun/message.rs and sdk/crates/p2p-core/src/ice/stun_codec.rs.
pub mod Laws
pub mod Bits
use p2psdk.Prelude.{
  ℕ, ◌+◌, ◌-◌, ◌*◌, ◌/◌, ◌%◌, ◌^◌, ◌<◌, Bool, ◌&&◌, Option, none, some, List, [], ◌∷◌, ◌++◌, length,
  take, drop, get_elem?, leb, if◌then◌else◌, Outcome, ret, panic, ◌>>=◌,
}

abbrev pub Bytes : Type 0
Bytes = List ℕ

abbrev pub IsByte : ℕ → Type 0
IsByte b = b < 256

abbrev pub u16 : ℕ → ℕ
u16 n = n % 2 ^ 16

abbrev pub u32 : ℕ → ℕ
u32 n = n % 2 ^ 32

abbrev pub u64 : ℕ → ℕ
u64 n = n % 2 ^ 64

abbrev pub or_panic : Option ℕ → Outcome ℕ
or_panic none = panic
or_panic (some b) = ret b

-- `buf[i]`
unfoldable pub byte_at : Bytes → ℕ → Outcome ℕ
byte_at buf i = or_panic (get_elem? buf i)

-- `&buf[from..to]`
unfoldable pub slice : Bytes → ℕ → ℕ → Outcome Bytes
slice buf from to =
    if leb from to && leb to (length buf) then ret (take (to - from) (drop from buf)) else panic

-- `buf[offset..offset + bytes.len()].copy_from_slice(bytes)`
unfoldable pub write_bytes : Bytes → ℕ → Bytes → Outcome Bytes
write_bytes buf offset bytes =
    if leb (offset + length bytes) (length buf)
    then ret (take offset buf ++ (bytes ++ drop (offset + length bytes) buf))
    else panic

-- `to_be_bytes`
unfoldable pub be16 : ℕ → Bytes
be16 v = (v / 256 % 256) ∷ (v % 256) ∷ []

unfoldable pub be32 : ℕ → Bytes
be32 v = (v / 2 ^ 24 % 256) ∷ (v / 2 ^ 16 % 256) ∷ (v / 256 % 256) ∷ (v % 256) ∷ []

unfoldable pub be64 : ℕ → Bytes
unfolding be32
be64 v = be32 (v / 2 ^ 32) ++ be32 (v % 2 ^ 32)

-- `from_be_bytes`
abbrev pub of_be16 : ℕ → ℕ → ℕ
of_be16 a b = a * 256 + b

abbrev pub of_be32 : ℕ → ℕ → ℕ → ℕ → ℕ
of_be32 a b c d = a * 2 ^ 24 + b * 2 ^ 16 + c * 256 + d

unfoldable pub read_u16 : Bytes → ℕ → Outcome ℕ
unfolding byte_at
read_u16 buf offset = do a ← byte_at buf offset; b ← byte_at buf (offset + 1); ret (of_be16 a b)

unfoldable pub read_u32 : Bytes → ℕ → Outcome ℕ
unfolding byte_at
read_u32 buf offset = do
  a ← byte_at buf offset
  b ← byte_at buf (offset + 1)
  c ← byte_at buf (offset + 2)
  d ← byte_at buf (offset + 3)
  ret (of_be32 a b c d)

unfoldable pub write_u16 : Bytes → ℕ → ℕ → Outcome Bytes
write_u16 buf offset v = write_bytes buf offset (be16 v)

unfoldable pub write_u32 : Bytes → ℕ → ℕ → Outcome Bytes
write_u32 buf offset v = write_bytes buf offset (be32 v)
