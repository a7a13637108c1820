-- ===== src/Frame/RoundTrip.antt =====
-- Encoding and parsing of data frames (frame.rs).
use p2psdk.Prelude.{
  ℕ, ◌+◌, ◌/◌, ◌^◌, ◌≤◌, ◌<◌, bit_and, ◌≡◌, refl, ap, inl, inr, false, some, ◌++◌, arith, ltb, ◌==◌,
  ltb-false, Bool-cases, length, length-append, ret, Returns,
}
use p2psdk.Constants.{type_data}
use p2psdk.Wire.{Bytes, u32, be32, be64, byte_at, slice, read_u32}
use p2psdk.Wire.Laws.{byte_at-lt, read_u32-in_bounds, slice-in_bounds, slice-middle}
use p2psdk.Frame.{is_stun_message, ParsedFrame, encode_data_frame_with_seq, read_u64, parse_frame}

module _ (text rest : Bytes) (seq_id : ℕ) where
  abbrev datagram : Bytes
  datagram = encode_data_frame_with_seq text seq_id ++ rest

  read_len : length text < 2 ^ 32 → read_u32 datagram 0 ≡ ret (length text)
  unfolding encode_data_frame_with_seq read_u32 byte_at be32 be64
  read_len h = ap ret (omega arith)

  read_type : read_u32 datagram 4 ≡ ret type_data
  unfolding encode_data_frame_with_seq read_u32 byte_at be32 be64
  read_type = refl

  read_seq : seq_id < 2 ^ 64 → read_u64 datagram 8 ≡ ret seq_id
  unfolding encode_data_frame_with_seq read_u64 read_u32 byte_at be32 be64
  read_seq k = ap ret (omega arith)

  length-datagram : length datagram ≡ 16 + length text + length rest
  unfolding encode_data_frame_with_seq be32 be64
  length-datagram = omega (arith, length-append text rest)

  slice_payload : slice datagram 16 (16 + length text) ≡ ret text
  unfolding encode_data_frame_with_seq be32 be64
  slice_payload =
      slice-middle (be32 (u32 (length text)) ++ (be32 type_data ++ be64 seq_id)) text rest 16
        (16 + length text) refl refl

  -- A frame of the peer's encoder is parsed back to its type, its sequence number and its payload,
  -- for a payload below 4 GiB and a 64-bit sequence number, whatever follows it in the datagram.
  pub parse_frame-encode_data_frame_with_seq :
      length text < 2 ^ 32
      → seq_id < 2 ^ 64
      → parse_frame (encode_data_frame_with_seq text seq_id ++ rest)
        ≡ ret (some (record { frame_type = type_data; seq_id = seq_id; payload = text }))
  unfolding parse_frame
  parse_frame-encode_data_frame_with_seq h k = rw (
    ltb-false (length datagram) 16 (omega (arith, length-datagram)),
    read_len h,
    read_type,
    read_seq k,
    ltb-false (length datagram) (16 + length text) (omega (arith, length-datagram)),
    slice_payload,
  )

  -- A data frame is never taken for a STUN message, whatever follows it in the datagram.
  pub is_stun_message-encode_data_frame_with_seq : is_stun_message datagram ≡ ret false
  unfolding is_stun_message
  is_stun_message-encode_data_frame_with_seq =
      let (first, e) = byte_at-lt datagram 0 (omega (arith, length-datagram)) in
      rw (ltb-false (length datagram) 8 (omega (arith, length-datagram)), e)
        (elim (Bool-cases (bit_and (first / 2 ^ 6) 3 == 0)) [
          | inl z ↦ rw (z, read_type) refl
          | inr z ↦ rw z refl
        ])

-- `parse_frame` never panics, on any datagram, and a frame that it returns fits in the datagram.
pub parse_frame-Returns :
    (bytes : Bytes)
    → Returns
        (λ o. (f : ParsedFrame) → o ≡ some f → 16 + length f.payload ≤ length bytes)
        (parse_frame bytes)
unfolding parse_frame read_u64
parse_frame-Returns bytes = elim (Bool-cases (ltb (length bytes) 16)) [
  | inl short ↦ rw short (λ f e. cc)
  | inr long ↦
      let fits : 16 ≤ length bytes = ground arith in
      let (n, en) = read_u32-in_bounds bytes 0 (omega arith) in
      let (t, et) = read_u32-in_bounds bytes 4 (omega arith) in
      let (hi, eh) = read_u32-in_bounds bytes 8 (omega arith) in
      let (lo, el) = read_u32-in_bounds bytes 12 (omega arith) in
      rw (long, en, et, eh, el)
        (elim (Bool-cases (ltb (length bytes) (16 + n))) [
          | inl cut ↦ rw cut (λ f e. cc)
          | inr whole ↦
              let (part, ep, size) =
                slice-in_bounds bytes 16 (16 + n) (omega arith) (ground arith) in
              rw (whole, ep) (λ f e. ground (arith, size))
        ])
]
