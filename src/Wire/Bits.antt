-- ===== src/Wire/Bits.antt =====
-- Bit masks on bytes and ports, by tables: the XOR masks of codec.rs undo themselves, and the test
-- `data[0] & 0xC0` reads the two top bits.
use p2psdk.Prelude.{
  ℕ, zero, suc, ◌^◌, ◌<◌, bit_and, bit_xor, ◌≡◌, refl, Bool, true, ◌&&◌, arith, ltb, ◌==◌,
}

module _ (test : ℕ → Bool) where
  holds_below : ℕ → Bool
  holds_below zero = true
  holds_below (suc n) = test n && holds_below n

  holds_below_sound : (n x : ℕ) → holds_below n ≡ true → x < n → test x ≡ true
  unfolding holds_below
  holds_below_sound zero x h k = absurd (omega arith)
  holds_below_sound (suc n) x h k = ground (arith, holds_below_sound n x)

split_cell : (a b c m : ℕ) → (a == b && ltb c m) ≡ true → (a ≡ b) × (c < m)
split_cell a b c m h = (ground arith, ground arith)

-- One byte, for each byte of the mask.
xor_row : ℕ → Bool
unfolding holds_below
xor_row k = holds_below (λ b. bit_xor (bit_xor b k) k == b && ltb (bit_xor b k) 256) 256

xor_table : holds_below xor_row 256 ≡ true
unfolding xor_row
xor_table = refl

pub xor_twice : (b k : ℕ) → b < 256 → k < 256 → (bit_xor (bit_xor b k) k ≡ b) × (bit_xor b k < 256)
unfolding xor_row
xor_twice b k h h' =
    let row = holds_below_sound xor_row 256 k xor_table h' in
    let cell =
      holds_below_sound (λ b. bit_xor (bit_xor b k) k == b && ltb (bit_xor b k) 256) 256 b row h in
    split_cell _ _ _ _ cell

-- The port and its mask, the upper half of the cookie.
port_table :
    holds_below
      (λ v. bit_xor (bit_xor v 0x2112) 0x2112 == v && ltb (bit_xor v 0x2112) (2 ^ 16))
      (2 ^ 16)
    ≡ true
unfolding holds_below
port_table = refl

pub xor_port_twice :
    (v : ℕ) → v < 2 ^ 16 → (bit_xor (bit_xor v 0x2112) 0x2112 ≡ v) × (bit_xor v 0x2112 < 2 ^ 16)
xor_port_twice v h =
    let cell =
      holds_below_sound
        (λ v. bit_xor (bit_xor v 0x2112) 0x2112 == v && ltb (bit_xor v 0x2112) (2 ^ 16)) (2 ^ 16) v
        port_table h in
    split_cell _ _ _ _ cell

top_bits_table : holds_below (λ b. bit_and b 0xC0 == 0) 64 ≡ true
unfolding holds_below
top_bits_table = refl

pub top_bits_clear : (b : ℕ) → b < 64 → (bit_and b 0xC0 == 0) ≡ true
top_bits_clear b h = holds_below_sound (λ b. bit_and b 0xC0 == 0) 64 b top_bits_table h
