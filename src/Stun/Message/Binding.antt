-- ===== src/Stun/Message/Binding.antt =====
-- sdk/crates/p2p-core/src/stun/message.rs: what `parse_binding_response` makes of a response.
use p2psdk.Prelude.{
  ℕ, suc, ◌+◌, ◌/◌, ◌%◌, ◌^◌, ◌≤◌, ◌<◌, bit_xor, ◌≡◌, refl, ap, ◌∙◌, [], ◌∷◌, ◌++◌, arith, le→leb,
  ltb-false, eq_bytes_refl, length, ok, ret, panic,
}
use p2psdk.Constants.{attr_xor_mapped_address, stun_binding_success, af_inet}
use p2psdk.Stun.Builder.Fields.{
  length-message, first_byte, type_field, length_field, cookie_field, tid_field,
}
use p2psdk.Stun.Builder.Laws.{header, length-header}
use p2psdk.Stun.Codec.{parse_xor_address, ipv4_to_string}
use p2psdk.Stun.Message.Responses.{
  or_zero, byte_or_zero, validate, visit_binding, binding_attributes, parse_binding_response,
}
use p2psdk.Stun.Walk.{exit, walk, walk_attributes}
use p2psdk.Wire.{Bytes, of_be16, byte_at, read_u16}
use p2psdk.Wire.Bits.{xor_twice, xor_port_twice}
use p2psdk.Wire.Laws.{byte_at-shift, read_u16-shift, get_elem?-shift}

abbrev pub response : Bytes → ℕ → Bytes → Bytes
response tid len rest = header stun_binding_success len tid ++ rest

module _ (tid : Bytes) (len : ℕ) (rest : Bytes) where
  -- A Binding Success for the right request comes to its attributes.
  parse_binding_response-attributes :
      length tid ≡ 12
      → parse_binding_response (response tid len rest) tid
        ≡ binding_attributes (response tid len rest)
  unfolding parse_binding_response validate
  parse_binding_response-attributes twelve = rw (
    ltb-false (length (response tid len rest)) 20
        (omega (arith, length-message stun_binding_success len tid rest twelve)),
    first_byte stun_binding_success len tid rest,
    type_field stun_binding_success len tid rest (omega arith),
    cookie_field stun_binding_success len tid rest,
    tid_field stun_binding_success len tid rest twelve,
    eq_bytes_refl tid,
  )

  byte_behind :
      length tid ≡ 12 → (i n : ℕ) → n ≡ 20 + i → byte_at (response tid len rest) n ≡ byte_at rest i
  byte_behind twelve i n e =
      byte_at-shift (header stun_binding_success len tid) rest n i
        (omega (arith, length-header stun_binding_success len tid))

-- A header alone that announces attributes panics the parser: the loop reads behind the datagram.
module _ (tid : Bytes) (len : ℕ) where
  pub parse_binding_response-cut :
      length tid ≡ 12
      → 4 ≤ len
      → len < 2 ^ 16
      → parse_binding_response (response tid len []) tid ≡ panic
  unfolding binding_attributes walk_attributes walk
  parse_binding_response-cut twelve four small =
      parse_binding_response-attributes tid len [] twelve
      ∙ rw (
        length_field stun_binding_success len tid [] small,
        le→leb 24 (20 + len) (omega arith),
        outside,
      )
    where
      outside : read_u16 (response tid len []) 20 ≡ panic
      outside =
          read_u16-shift (header stun_binding_success len tid) [] 20 0
            (omega (arith, length-header stun_binding_success len tid))
          ∙ unfold read_u16 byte_at in refl

-- XOR-MAPPED-ADDRESS with an IPv4 address, as RFC 5389, 15.2 masks it.
abbrev pub mapped_attribute : ℕ → ℕ → ℕ → ℕ → ℕ → Bytes
mapped_attribute a b c d port =
    let x = bit_xor port 0x2112 in
    0
    ∷ 0x20
    ∷ 0
    ∷ 8
    ∷ 0
    ∷ 1
    ∷ (x / 256)
    ∷ (x % 256)
    ∷ bit_xor a 0x21
    ∷ bit_xor b 0x12
    ∷ bit_xor c 0xA4
    ∷ bit_xor d 0x42
    ∷ []

module _ (tid : Bytes) (a b c d port : ℕ) where
  abbrev mapped_response : Bytes
  mapped_response = response tid 12 (mapped_attribute a b c d port)

  type_of_attribute : length tid ≡ 12 → read_u16 mapped_response 20 ≡ ret attr_xor_mapped_address
  type_of_attribute twelve =
      read_u16-shift (header stun_binding_success 12 tid) (mapped_attribute a b c d port) 20 0
        (omega (arith, length-header stun_binding_success 12 tid))
      ∙ unfold read_u16 byte_at in refl

  length_of_attribute : length tid ≡ 12 → read_u16 mapped_response 22 ≡ ret 8
  length_of_attribute twelve =
      read_u16-shift (header stun_binding_success 12 tid) (mapped_attribute a b c d port) 22 2
        (omega (arith, length-header stun_binding_success 12 tid))
      ∙ unfold read_u16 byte_at in refl

  family_of_attribute : length tid ≡ 12 → byte_or_zero mapped_response 25 ≡ af_inet
  family_of_attribute twelve =
      let there : 25 ≡ length (header stun_binding_success 12 tid) + 5 =
        omega (arith, length-header stun_binding_success 12 tid) in
      ap (λ n. byte_or_zero mapped_response n) there
      ∙ ap or_zero
          (get_elem?-shift (header stun_binding_success 12 tid) (mapped_attribute a b c d port) 5)

  first_round :
      (fuel : ℕ)
      → length tid ≡ 12
      → (a < 256) × (b < 256) × (c < 256) × (d < 256)
      → port < 2 ^ 16
      → walk mapped_response 32 (visit_binding mapped_response) (suc fuel) 20 tt
        ≡ ret (exit (ok (record { ip = ipv4_to_string a b c d; port = port })))
  unfolding walk visit_binding parse_xor_address
  first_round fuel twelve bytes small =
      let at = byte_behind tid 12 (mapped_attribute a b c d port) in
      let masked = xor_port_twice port small in
      let size =
        length-message stun_binding_success 12 tid (mapped_attribute a b c d port) twelve in
      let port_bytes : of_be16 (bit_xor port 0x2112 / 256) (bit_xor port 0x2112 % 256)
          ≡ bit_xor port 0x2112 =
        omega arith in
      rw
        (
          type_of_attribute twelve,
          length_of_attribute twelve,
          family_of_attribute twelve,
          tid_field stun_binding_success 12 tid (mapped_attribute a b c d port) twelve,
          ltb-false (length mapped_response) 28 (omega (arith, size)),
          at twelve 5 25 refl,
          at twelve 6 26 refl,
          at twelve 7 27 refl,
          ltb-false (length mapped_response) 32 (omega (arith, size)),
          at twelve 8 28 refl,
          at twelve 9 29 refl,
          at twelve 10 30 refl,
          at twelve 11 31 refl,
        )
        (unfold byte_at in
          rw (
            port_bytes,
            masked.0,
            (xor_twice a 0x21 bytes.0 (omega arith)).0,
            (xor_twice b 0x12 bytes.1 (omega arith)).0,
            (xor_twice c 0xA4 bytes.2 (omega arith)).0,
            (xor_twice d 0x42 bytes.3 (omega arith)).0,
          ))

  pub parse_binding_response-mapped :
      length tid ≡ 12
      → (a < 256) × (b < 256) × (c < 256) × (d < 256)
      → port < 2 ^ 16
      → parse_binding_response mapped_response tid
        ≡ ret (ok (record { ip = ipv4_to_string a b c d; port = port }))
  unfolding binding_attributes walk_attributes
  parse_binding_response-mapped twelve bytes small =
      parse_binding_response-attributes tid 12 (mapped_attribute a b c d port) twelve
      ∙ rw (
        length_field stun_binding_success 12 tid (mapped_attribute a b c d port) (omega arith),
        first_round 32 twelve bytes small,
      )
