-- ===== src/Crypto.antt =====
-- sdk/crates/p2p-core/src/crypto.rs. SHA-1, HMAC and CRC-32 are crates that the source only calls:
-- they are a parameter, with the sizes of their results.
use p2psdk.Prelude.{ℕ, ◌^◌, ◌<◌, bit_xor, ◌≡◌, length}
use p2psdk.Wire.{Bytes}

pub record Crypto : Type 0 where
  -- `hmac_sha1(key, data)`
  pub hmac_sha1 : Bytes → Bytes → Bytes
  pub length-hmac_sha1 : (key bytes : Bytes) → length (hmac_sha1 key bytes) ≡ 20
  -- `crc32(data)`
  pub crc32 : Bytes → ℕ
  pub crc32-lt : (bytes : Bytes) → crc32 bytes < 2 ^ 32

unfoldable pub stun_fingerprint : Crypto → Bytes → ℕ
stun_fingerprint crypto bytes = bit_xor (crypto.crc32 bytes) 0x5354554E
