-- ===== src/Ice/StunCodec/Faults.antt =====
-- Messages that the parser of stun_codec.rs does not read as RFC 5389 means them.
use p2psdk.Prelude.{
  ℕ, suc, ◌+◌, ◌/◌, ◌%◌, ◌^◌, ◌≤◌, ◌<◌, min, ◌≡◌, refl, ap, ◌∙◌, true, some, [], ◌∷◌, ◌++◌, arith,
  le→leb, ltb-false, length, length-append, ret, panic, Returns, Returns-of_eq,
}
use p2psdk.Constants.{
  attr_priority, attr_error_code, stun_binding_request, stun_binding_error, stun_magic_cookie,
}
use p2psdk.Ice.StunCodec.{
  ParsedStunMessage, default_message, parse_ice_stun_message, parse_ice_attributes,
  parse_classified, classify, visit_ice,
}
use p2psdk.Ice.StunCodec.Parse.{started, parse_ice_stun_message-absorb}
use p2psdk.Stun.Builder.Laws.{header, length-header, length-encode_attributes}
use p2psdk.Stun.Walk.{walk, walk_attributes}
use p2psdk.Stun.Walk.Attributes.{Attribute, encode_attributes}
use p2psdk.Wire.{Bytes, be16, be32, byte_at, read_u16, read_u32, slice}
use p2psdk.Wire.Laws.{read_u16-shift, read_u32-shift, slice-middle}

read_u32_short : (value : Bytes) → length value < 4 → read_u32 value 0 ≡ panic
unfolding read_u32 byte_at
read_u32_short [] h = refl
read_u32_short (a ∷ []) h = refl
read_u32_short (a ∷ b ∷ []) h = refl
read_u32_short (a ∷ b ∷ c ∷ []) h = refl
read_u32_short (a ∷ b ∷ c ∷ d ∷ value) h = absurd (omega arith)

module _ (tid value : Bytes) (msg_len attr_len : ℕ) where
  -- A header, and a PRIORITY attribute whose value is cut off.
  unfoldable pub cut_request : Bytes
  cut_request =
      header stun_binding_request msg_len tid ++ (be16 attr_priority ++ (be16 attr_len ++ value))

  fields :
      msg_len < 2 ^ 16
      → attr_len < 2 ^ 16
      → length tid ≡ 12
      → (byte_at cut_request 0 ≡ ret 0)
        × (read_u16 cut_request 0 ≡ ret stun_binding_request)
        × (read_u16 cut_request 2 ≡ ret msg_len)
        × (read_u32 cut_request 4 ≡ ret stun_magic_cookie)
        × (slice cut_request 8 20 ≡ ret tid)
  fields h k twelve = (
    unfold cut_request byte_at header be16 in refl,
    unfold cut_request read_u16 byte_at header be16 in refl,
    unfold cut_request read_u16 byte_at header be16 in ap ret (omega arith),
    unfold cut_request read_u32 byte_at header be16 be32 in refl,
    unfold cut_request header be16 be32 in
        slice-middle (be16 stun_binding_request ++ (be16 msg_len ++ be32 stun_magic_cookie)) tid
          (be16 attr_priority ++ (be16 attr_len ++ value)) 8 20 refl (omega arith),
  )

  length_cut : length tid ≡ 12 → length cut_request ≡ 24 + length value
  unfolding cut_request header be16 be32
  length_cut twelve = omega (
    arith,
    length-append tid (
        (attr_priority / 256 % 256)
        ∷ (attr_priority % 256)
        ∷ (attr_len / 256 % 256)
        ∷ (attr_len % 256)
        ∷ value),
  )

  attribute_fields :
      attr_len < 2 ^ 16
      → length tid ≡ 12
      → length value < 4
      → (read_u16 cut_request 20 ≡ ret attr_priority)
        × (read_u16 cut_request 22 ≡ ret attr_len)
        × (read_u32 cut_request 24 ≡ panic)
  unfolding cut_request be16
  attribute_fields k twelve cut =
      let front = header stun_binding_request msg_len tid in
      let rest = be16 attr_priority ++ (be16 attr_len ++ value) in
      let size = length-header stun_binding_request msg_len tid in
      (
        read_u16-shift front rest 20 0 (omega arith) ∙ unfold read_u16 byte_at be16 in refl,
        read_u16-shift front rest 22 2 (omega arith)
            ∙ unfold read_u16 byte_at be16 in ap ret (omega arith),
        read_u32-shift front rest 24 4 (omega arith)
            ∙ read_u32-shift (be16 attr_priority ++ be16 attr_len) value 4 0 (unfold be16 in refl)
            ∙ read_u32_short value cut,
      )

  first_round :
      (r : ParsedStunMessage) (end fuel : ℕ)
      → attr_len < 2 ^ 16
      → length tid ≡ 12
      → length value < 4
      → 4 ≤ attr_len
      → 24 ≤ end
      → walk cut_request end (visit_ice cut_request) (suc fuel) 20 r ≡ panic
  unfolding walk visit_ice
  first_round r end fuel k twelve cut four more =
      let (t, l, v) = attribute_fields k twelve cut in
      rw (le→leb 24 end more, t, l, le→leb 4 attr_len four, v)

  -- A Binding Request whose PRIORITY attribute announces four bytes or more, of which fewer than four
  -- arrive, panics the parser: it checks the announced length and not the buffer's.
  pub parse_ice_stun_message-cut_request :
      length tid ≡ 12
      → length value < 4
      → 4 ≤ attr_len
      → attr_len < 2 ^ 16
      → 4 ≤ msg_len
      → msg_len < 2 ^ 16
      → parse_ice_stun_message cut_request ≡ panic
  unfolding parse_ice_stun_message parse_classified parse_ice_attributes walk_attributes
  parse_ice_stun_message-cut_request twelve cut four k more h =
      let (first, kind, count, cookie, id) = fields h k twelve in
      let size = length_cut twelve in
      let last = min (20 + msg_len) (length cut_request) in
      rw (
        ltb-false (length cut_request) 20 (omega arith),
        first,
        kind,
        cookie,
        id,
        classified,
        count,
        first_round
            (record default_message { is_stun = true; is_request = true; transaction_id = tid })
            last last k twelve cut four (omega arith),
      )
    where
      classified :
          classify stun_binding_request (started tid)
          ≡ some
              (record default_message { is_stun = true; is_request = true; transaction_id = tid })
      classified = unfold classify in refl

-- An ERROR-CODE attribute with the given first four bytes.
abbrev pub error_attribute : ℕ → ℕ → ℕ → ℕ → Bytes → Attribute
error_attribute a b c d reason = record {
  attr_type = attr_error_code;
  value = a ∷ b ∷ c ∷ d ∷ reason;
}

module _ (tid reason : Bytes) (class number : ℕ) where
  abbrev pub error_response : Attribute → Bytes
  error_response a =
      header stun_binding_error (length (encode_attributes (a ∷ []))) tid
      ++ encode_attributes (a ∷ [])

  -- In an error response with a transaction ID of twelve bytes that holds an ERROR-CODE attribute alone,
  -- laid out by RFC 5389, 15.6, with the class in the third byte and the number in the fourth and a
  -- reason phrase below 60000 bytes, the parser finds the class as the error code: it reads the second
  -- byte and the third.
  pub parse_ice_stun_message-standard_error :
      length tid ≡ 12
      → length reason < 60000
      → Returns
          (λ m. m.error_code ≡ class)
          (parse_ice_stun_message (error_response (error_attribute 0 0 class number reason)))
  parse_ice_stun_message-standard_error twelve short =
      Returns-of_eq (λ m. m.error_code ≡ class)
        (parse_ice_stun_message-absorb stun_binding_error tid
          (error_attribute 0 0 class number reason ∷ [])
          (record default_message {
            is_stun = true;
            is_error_response = true;
            transaction_id = tid;
          })
          (omega arith) (unfold classify in refl) twelve
          (omega (arith, length-encode_attributes (error_attribute 0 0 class number reason ∷ [])))
          (((omega arith, omega arith), λ e. omega arith), tt))
        (rw (le→leb 4 (length (0 ∷ 0 ∷ class ∷ number ∷ reason)) (omega arith)) (omega arith))
