-- ===== src/Stun/Codec.antt =====
-- sdk/crates/p2p-core/src/stun/codec.rs: padding, IPv6 text and XOR-encoded addresses.
use p2psdk.Prelude.{
  ℕ, ◌+◌, ◌-◌, ◌*◌, ◌/◌, ◌%◌, bit_xor, false, Option, none, some, List, [], ◌∷◌, ◌++◌, ltb, ◌==◌,
  if◌then◌else◌, length, replicate, Result, ok, err, Outcome, ret, ◌>>=◌,
}
use p2psdk.Constants.{af_inet, af_inet6}
use p2psdk.Text.Number.{parse_number, print_decimal, print_hex}
use p2psdk.Text.Words.{split_on, split_double_colon}
use p2psdk.Wire.{Bytes, of_be16, byte_at, slice}

pub data Context : Type 0 where
  attribute_value address_buffer ipv4_address ipv4_buffer ipv6_address ipv6_buffer : Context

pub data StunCodecError : Type 0 where
  buffer_too_short : ℕ → ℕ → Context → StunCodecError
  unsupported_family : ℕ → StunCodecError
  invalid_ipv6 : Bytes → StunCodecError

pub record StunResult : Type 0 where
  pub ip : Bytes
  pub port : ℕ

pub record TurnResult : Type 0 where
  pub relay_ip : Bytes
  pub relay_port : ℕ
  pub mapped_ip : Bytes
  pub mapped_port : ℕ

-- `(n + 3) & !3`: the mask clears the two lowest bits.
abbrev pub pad_to_4 : ℕ → ℕ
pad_to_4 n = (n + 3) / 4 * 4

-- `STUN_MAGIC_COOKIE.to_be_bytes()[i]`
abbrev pub cookie_bytes : Bytes
cookie_bytes = 0x21 ∷ 0x12 ∷ 0xA4 ∷ 0x42 ∷ []

-- Eight groups of hexadecimal digits, with no `::`.
unfoldable pub ipv6_to_string : Bytes → Bytes
ipv6_to_string (a ∷ b ∷ c ∷ d ∷ bytes) =
    print_hex (of_be16 a b) ++ (b':' ∷ ipv6_to_string (c ∷ d ∷ bytes))
ipv6_to_string (a ∷ b ∷ bytes) = print_hex (of_be16 a b)
ipv6_to_string _ = []

-- `format!("{b0}.{b1}.{b2}.{b3}")`
unfoldable pub ipv4_to_string : ℕ → ℕ → ℕ → ℕ → Bytes
ipv4_to_string a b c d =
    print_decimal a
    ++ (b'.' ∷ (print_decimal b ++ (b'.' ∷ (print_decimal c ++ (b'.' ∷ print_decimal d)))))

-- `addr_bytes[i] = buf[start + i] ^ key[i]`, one byte of the key after the other.
unfoldable pub xor_bytes_at : Bytes → ℕ → Bytes → Outcome Bytes
xor_bytes_at buf start [] = ret []
xor_bytes_at buf start (k ∷ key) = do
  b ← byte_at buf start
  rest ← xor_bytes_at buf (start + 1) key
  ret (bit_xor b k ∷ rest)

abbrev too_short : ℕ → ℕ → Context → Outcome (Result StunCodecError (Bytes × ℕ))
too_short need have context = ret (err (buffer_too_short need have context))

-- The first four bytes of an address are masked by the cookie, the others by the transaction ID,
-- whose first 12 bytes are read.
unfoldable pub parse_xor_address :
    Bytes → ℕ → ℕ → Bytes → Outcome (Result StunCodecError (Bytes × ℕ))
parse_xor_address buf offset attr_len transaction_id =
    if ltb attr_len 4
    then too_short 4 attr_len attribute_value
    else if ltb (length buf) (offset + 4)
    then too_short (offset + 4) (length buf) address_buffer
    else do
      family ← byte_at buf (offset + 1)
      hi ← byte_at buf (offset + 2)
      lo ← byte_at buf (offset + 3)
      let x_port = bit_xor (of_be16 hi lo) 0x2112
      if family == af_inet
          then (if ltb attr_len 8
              then too_short 8 attr_len ipv4_address
              else if ltb (length buf) (offset + 8)
              then too_short (offset + 8) (length buf) ipv4_buffer
              else do
                b0 ← byte_at buf (offset + 4)
                b1 ← byte_at buf (offset + 5)
                b2 ← byte_at buf (offset + 6)
                b3 ← byte_at buf (offset + 7)
                ret (
                    ok (
                      ipv4_to_string (bit_xor b0 0x21) (bit_xor b1 0x12) (bit_xor b2 0xA4)
                          (bit_xor b3 0x42),
                      x_port,
                    )))
          else if family == af_inet6
          then (if ltb attr_len 20
              then too_short 20 attr_len ipv6_address
              else if ltb (length buf) (offset + 20)
              then too_short (offset + 20) (length buf) ipv6_buffer
              else do
                tid ← slice transaction_id 0 12
                addr_bytes ← xor_bytes_at buf (offset + 4) (cookie_bytes ++ tid)
                ret (ok (ipv6_to_string addr_bytes, x_port)))
          else ret (err (unsupported_family family))

-- The groups on one side of `::`; an empty side has none.
abbrev groups_of : Bytes → List Bytes
groups_of [] = []
groups_of (c ∷ cs) = split_on b':' (c ∷ cs)

-- `::` stands for as many zero groups as are missing.
expand_groups : List Bytes → Option (List Bytes)
expand_groups (all ∷ []) = some (split_on b':' all)
expand_groups (left ∷ right ∷ []) =
    let l = groups_of left in
    let r = groups_of right in
    if ltb 8 (length l + length r)
    then none
    else some (l ++ (replicate (8 - length l - length r) (b'0' ∷ []) ++ r))
expand_groups _ = none

abbrev add_group : Option ℕ → Option Bytes → Option Bytes
add_group (some v) (some bytes) = some ((v / 256) ∷ (v % 256) ∷ bytes)
add_group _ _ = none

group_bytes : List Bytes → Option Bytes
group_bytes [] = some []
group_bytes (g ∷ gs) = add_group (parse_number 16 65535 g) (group_bytes gs)

abbrev eight_groups : Option (List Bytes) → Option Bytes
eight_groups none = none
eight_groups (some groups) = if length groups == 8 then group_bytes groups else none

unfoldable pub ipv6_to_bytes : Bytes → Result StunCodecError Bytes
unfolding expand_groups group_bytes
ipv6_to_bytes ip = elim (eight_groups (expand_groups (split_double_colon false ip))) [
  | none ↦ err (invalid_ipv6 ip)
  | some bytes ↦ ok bytes
]
