-- ===== src/Ice/StunCodec/Parse.antt =====
-- Parsing a connectivity check (stun_codec.rs): on a message that is a list of attributes the loop
-- folds over them.
use p2psdk.Prelude.{
  ℕ, zero, suc, ◌+◌, ◌*◌, ◌/◌, ◌%◌, ◌^◌, ◌≤◌, ◌<◌, min, bit_and, ◌≡◌, refl, sym, ap, ◌∙◌, ◌≢◌, inl,
  inr, Bool, true, false, ◌&&◌, none, some, List, [], ◌∷◌, ◌++◌, append_assoc, append-nil, arith,
  ltb, leb, ◌==◌, if◌then◌else◌, leb→le, le→leb, ltb-false, ==_iff, Bool-cases, All-map, length,
  get_elem?, All, length-append, ret,
}
use mathlib.Core.List.{foldl}
use p2psdk.Constants.{
  attr_username, attr_priority, attr_use_candidate, attr_ice_controlling, attr_ice_controlled,
  attr_error_code, attr_xor_mapped_address,
}
use p2psdk.Ice.StunCodec.{
  ParsedStunMessage, default_message, visit_ice, classify, parse_ice_attributes, parse_classified,
  parse_ice_stun_message,
}
use p2psdk.Stun.Builder.Laws.{header, length-header}
use p2psdk.Stun.Builder.Fields.{
  length-message, first_byte, type_field, length_field, cookie_field, tid_field,
}
use p2psdk.Stun.Codec.{pad_to_4}
use p2psdk.Stun.Walk.{next, walk_attributes}
use p2psdk.Stun.Walk.Attributes.{
  Attribute, Fits, padding, encode_attribute, encode_attributes, length-encode_attribute, visit_all,
  walk-encode_attributes,
}
use p2psdk.Text.Utf8.{from_utf8_lossy}
use p2psdk.Wire.{Bytes, of_be32, be16, byte_at, slice, read_u32}
use p2psdk.Wire.Bits.{top_bits_clear}
use p2psdk.Wire.Laws.{byte_at-shift, slice-middle, length-be16}

abbrev pub byte_of : Bytes → ℕ → ℕ
byte_of value i = elim (get_elem? value i) [ none ↦ 0 | some b ↦ b ]

abbrev pub word_of : Bytes → ℕ
word_of value = of_be32 (byte_of value 0) (byte_of value 1) (byte_of value 2) (byte_of value 3)

-- What one attribute adds to the result, read from its value alone.
abbrev pub absorb : ParsedStunMessage → Attribute → ParsedStunMessage
absorb r a =
    if a.attr_type == attr_username && ltb 0 (length a.value)
    then record r { username = from_utf8_lossy a.value }
    else if a.attr_type == attr_priority && leb 4 (length a.value)
    then record r { priority = word_of a.value }
    else if a.attr_type == attr_use_candidate
    then record r { use_candidate = true }
    else if a.attr_type == attr_ice_controlling && leb 8 (length a.value)
    then record r { controlling = some true }
    else if a.attr_type == attr_ice_controlled && leb 8 (length a.value)
    then record r { controlling = some false }
    else if a.attr_type == attr_error_code && leb 4 (length a.value)
    then record r { error_code = bit_and (byte_of a.value 1) 0x07 * 100 + byte_of a.value 2 }
    else r

-- No XOR-MAPPED-ADDRESS, whose value is not read by this fold.
abbrev pub Plain : Attribute → Type 0
Plain a = Fits a × (a.attr_type ≢ attr_xor_mapped_address)

byte_of-append :
    (value rest : Bytes) (i : ℕ)
    → i < length value
    → byte_at (value ++ rest) i ≡ ret (byte_of value i)
unfolding byte_at
byte_of-append [] rest i h = absurd (omega arith)
byte_of-append (x ∷ value) rest zero h = refl
byte_of-append (x ∷ value) rest (suc i) h = byte_of-append value rest i (omega arith)

and_leb : (b : Bool) (m n : ℕ) → (b && leb m n) ≡ true → m ≤ n
and_leb true m n h = leb→le m n h
and_leb false m n h = cc

module _ (front rest : Bytes) (a : Attribute) (bytes : Bytes) (off : ℕ)
    (eb : bytes ≡ front ++ (encode_attribute a ++ rest)) (eo : off ≡ length front) where
  head : Bytes
  head = front ++ (be16 a.attr_type ++ be16 (length a.value))

  length-head : length head ≡ off + 4
  unfolding head
  length-head = omega (
    arith,
    length-append front (be16 a.attr_type ++ be16 (length a.value)),
    length-append (be16 a.attr_type) (be16 (length a.value)),
    length-be16 a.attr_type,
    length-be16 (length a.value),
  )

  parts : bytes ≡ head ++ (a.value ++ (padding (length a.value) ++ rest))
  unfolding head encode_attribute
  parts = eb ∙ simp append_assoc

  value_slice : slice bytes (off + 4) (off + 4 + length a.value) ≡ ret a.value
  value_slice = rw parts (
      slice-middle head a.value (padding (length a.value) ++ rest) (off + 4)
        (off + 4 + length a.value) (sym length-head) (omega (arith, length-head)))

  value_inside : off + 4 + length a.value ≤ length bytes
  value_inside = omega (
    arith,
    ap length parts,
    length-head,
    length-append head (a.value ++ (padding (length a.value) ++ rest)),
    length-append a.value (padding (length a.value) ++ rest),
  )

  value_byte :
      (i n : ℕ) → i < length a.value → n ≡ off + 4 + i → byte_at bytes n ≡ ret (byte_of a.value i)
  value_byte i n h e =
      rw
        (
          parts,
          byte_at-shift head (a.value ++ (padding (length a.value) ++ rest)) n i
              (omega (arith, length-head)),
        )
        (byte_of-append a.value (padding (length a.value) ++ rest) i h)

  value_word : 4 ≤ length a.value → read_u32 bytes (off + 4) ≡ ret (word_of a.value)
  unfolding read_u32
  value_word h = rw (
    value_byte 0 (off + 4) (omega arith) (omega arith),
    value_byte 1 (off + 4 + 1) (omega arith) (omega arith),
    value_byte 2 (off + 4 + 2) (omega arith) (omega arith),
    value_byte 3 (off + 4 + 3) (omega arith) (omega arith),
  )

  visit_ice-absorb :
      (r : ParsedStunMessage)
      → a.attr_type ≢ attr_xor_mapped_address
      → visit_ice bytes a.attr_type (length a.value) off r ≡ ret (next (absorb r a))
  unfolding visit_ice
  visit_ice-absorb r h =
      elim (Bool-cases (a.attr_type == attr_username && ltb 0 (length a.value))) [
        | inl e ↦ rw (e, le→leb (off + 4 + length a.value) (length bytes) value_inside, value_slice)
        | inr e ↦ rw e (elim (Bool-cases (a.attr_type == attr_priority && leb 4 (length a.value))) [
          | inl e ↦ rw (e, value_word (and_leb _ 4 _ e))
          | inr e ↦ rw e (elim (Bool-cases (a.attr_type == attr_use_candidate)) [
            | inl e ↦ rw e
            | inr e ↦
                rw e
                  (elim (Bool-cases
                    (a.attr_type == attr_ice_controlling && leb 8 (length a.value))) [
                      | inl e ↦ rw e
                      | inr e ↦
                          rw e
                            (elim (Bool-cases
                              (a.attr_type == attr_ice_controlled && leb 8 (length a.value))) [
                                | inl e ↦ rw e
                                | inr e ↦
                                    rw (e, other)
                                      (elim (Bool-cases (
                                        a.attr_type == attr_error_code && leb 4 (length a.value))) [
                                          | inl e ↦
                                              let four : 4 ≤ length a.value =
                                                and_leb (a.attr_type == attr_error_code) 4
                                                  (length a.value) e in
                                              rw (
                                                e,
                                                value_byte 1 (off + 5) (omega arith) (omega arith),
                                                value_byte 2 (off + 6) (omega arith) (omega arith),
                                              )
                                          | inr e ↦ rw e
                                        ])
                              ])
                    ])
          ])
        ])
      ]
    where
      other : (a.attr_type == attr_xor_mapped_address) ≡ false
      other = elim (Bool-cases (a.attr_type == attr_xor_mapped_address)) [
        | inl e ↦ absurd (h ((==_iff a.attr_type attr_xor_mapped_address).0 e))
        | inr e ↦ e
      ]

module _ (bytes : Bytes) where
  visit_all-absorb :
      (front rest : Bytes) (as' : List Attribute) (off : ℕ) (r : ParsedStunMessage)
      → bytes ≡ front ++ (encode_attributes as' ++ rest)
      → off ≡ length front
      → All Plain as'
      → visit_all (visit_ice bytes) off as' r ≡ ret (next (foldl absorb r as'))
  unfolding visit_all encode_attributes
  visit_all-absorb front rest [] off r eb eo plain = refl
  visit_all-absorb front rest (a ∷ as') off r eb eo plain =
      let there : bytes ≡ front ++ (encode_attribute a ++ (encode_attributes as' ++ rest)) =
        eb
        ∙ ap (λ l. front ++ l) (append_assoc (encode_attribute a) (encode_attributes as') rest) in
      rw (visit_ice-absorb front (encode_attributes as' ++ rest) a bytes off there eo r plain.0.1) (
        visit_all-absorb (front ++ encode_attribute a) rest as'
          (off + (4 + pad_to_4 (length a.value))) (absorb r a)
          (there ∙ sym (append_assoc front (encode_attribute a) (encode_attributes as' ++ rest)))
          (omega (arith, length-append front (encode_attribute a), length-encode_attribute a))
          plain.1)

-- The first result, with the kind of the message.
abbrev pub started : Bytes → ParsedStunMessage
started tid = record default_message { is_stun = true; transaction_id = tid }

module _ (msg_type : ℕ) (tid : Bytes) (as' : List Attribute) where
  abbrev whole : Bytes
  whole = header msg_type (length (encode_attributes as')) tid ++ encode_attributes as'

  attributes_absorb :
      (r : ParsedStunMessage)
      → length tid ≡ 12
      → length (encode_attributes as') < 2 ^ 16
      → All Plain as'
      → parse_ice_attributes whole r ≡ ret (foldl absorb r as')
  unfolding parse_ice_attributes walk_attributes
  attributes_absorb r twelve fits plain =
      let len = length (encode_attributes as') in
      let front = header msg_type len tid in
      let shape : whole ≡ front ++ (encode_attributes as' ++ []) =
        ap (λ l. front ++ l) (sym (append-nil (encode_attributes as'))) in
      let twenty = length-header msg_type len tid in
      let stop : min (20 + len) (length whole) ≡ 20 + len = omega (
        arith,
        length-message msg_type (length (encode_attributes as')) tid (encode_attributes as') twelve,
      ) in
      rw (
        length_field msg_type (length (encode_attributes as')) tid (encode_attributes as') fits,
        stop,
        walk-encode_attributes (visit_ice whole) front [] as' (All-map as' (λ a p. p.0) plain) whole
            (20 + len) shape (omega arith) (suc (20 + len)) 20 r (omega arith) (omega arith)
            (omega arith),
        visit_all-absorb whole front [] as' 20 r shape (omega arith) plain,
      )

  -- A message of a known type whose length field counts its attributes is parsed without a panic to
  -- the fold of `absorb` over the attributes, in their order.
  pub parse_ice_stun_message-absorb :
      (r : ParsedStunMessage)
      → msg_type < 2 ^ 14
      → classify msg_type (started tid) ≡ some r
      → length tid ≡ 12
      → length (encode_attributes as') < 2 ^ 16
      → All Plain as'
      → parse_ice_stun_message whole ≡ ret (foldl absorb r as')
  unfolding parse_ice_stun_message parse_classified
  parse_ice_stun_message-absorb r small known twelve fits plain =
      rw
        (
          ltb-false (length whole) 20 (
              omega (
                arith,
                length-message msg_type (length (encode_attributes as')) tid (encode_attributes as')
                    twelve,
              )),
          first_byte msg_type (length (encode_attributes as')) tid (encode_attributes as'),
          top_bits_clear (msg_type / 256 % 256) (omega arith),
          type_field msg_type (length (encode_attributes as')) tid (encode_attributes as') small,
          cookie_field msg_type (length (encode_attributes as')) tid (encode_attributes as'),
          tid_field msg_type (length (encode_attributes as')) tid (encode_attributes as') twelve,
          known,
        )
        (attributes_absorb r twelve fits plain)
