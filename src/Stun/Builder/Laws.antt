-- ===== src/Stun/Builder/Laws.antt =====
-- Writing attribute after attribute into a zeroed buffer gives the encoded list.
use p2psdk.Prelude.{
  ℕ, zero, suc, ◌+◌, ◌-◌, ◌≤◌, ◌≡◌, refl, sym, ap, ◌∙◌, List, [], ◌∷◌, ◌++◌, append_assoc,
  append-nil, arith, length, replicate, length-append, length-replicate, ret,
}
use p2psdk.Constants.{stun_magic_cookie}
use p2psdk.Stun.Builder.{write_stun_header, write_attribute_header, write_attribute}
use p2psdk.Stun.Codec.{pad_to_4}
use p2psdk.Stun.Walk.Attributes.{
  Attribute, encode_attribute, encode_attributes, length-encode_attribute,
}
use p2psdk.Wire.{Bytes, be16, be32, slice, write_bytes, write_u16, write_u32}
use p2psdk.Wire.Laws.{write_bytes-middle, slice-middle, length-be16, length-be32}

abbrev pub zeros : ℕ → Bytes
zeros n = replicate n 0

unfoldable pub header : ℕ → ℕ → Bytes → Bytes
header msg_type len tid = be16 msg_type ++ (be16 len ++ (be32 stun_magic_cookie ++ tid))

pub length-header :
    (msg_type len : ℕ) (tid : Bytes) → length (header msg_type len tid) ≡ 8 + length tid
unfolding header be16 be32
length-header msg_type len tid = omega arith

zeros-split : (m n : ℕ) → m ≤ n → zeros n ≡ zeros m ++ zeros (n - m)
zeros-split zero n h = ap zeros (omega arith)
zeros-split (suc m) zero h = absurd (omega arith)
zeros-split (suc m) (suc n) h =
    ap (λ l. 0 ∷ l) (zeros-split m n (omega arith) ∙ ap (λ k. zeros m ++ zeros k) (omega arith))

zeros-add : (m n : ℕ) → zeros (m + n) ≡ zeros m ++ zeros n
zeros-add m n =
    let left : m + n - m ≡ n = omega arith in
    zeros-split m (m + n) (omega arith) ∙ ap (λ k. zeros m ++ zeros k) left

-- A write into the zeros behind `front`.
pub write-zeros :
    (front new : Bytes) (n m offset : ℕ)
    → offset ≡ length front
    → length new + m ≡ n
    → write_bytes (front ++ zeros n) offset new ≡ ret ((front ++ new) ++ zeros m)
write-zeros front new n m offset e h =
    let left : n - length new ≡ m = omega arith in
    ap (λ l. write_bytes (front ++ l) offset new) (zeros-split (length new) n (omega arith))
    ∙ write_bytes-middle front (zeros (length new)) (zeros (n - length new)) new offset e
        (length-replicate {A = ℕ} (length new) 0)
    ∙ ap (λ k. ret (front ++ (new ++ zeros k))) left
    ∙ ap ret (sym (append_assoc front new (zeros m)))

pub write_stun_header_lem :
    (msg_type len n : ℕ) (tid : Bytes)
    → length tid ≡ 12
    → write_stun_header (zeros (20 + n)) msg_type len tid ≡ ret (header msg_type len tid ++ zeros n)
unfolding write_stun_header write_u16 write_u32
write_stun_header_lem msg_type len n tid e =
    let two = length-be16 msg_type in
    let two' = length-be16 len in
    let four = length-be32 stun_magic_cookie in
    let front = be16 msg_type ++ be16 len in
    let size : length front ≡ 4 = omega (arith, length-append (be16 msg_type) (be16 len)) in
    let size' : length (front ++ be32 stun_magic_cookie) ≡ 8 =
      omega (arith, length-append front (be32 stun_magic_cookie)) in
    rw
      (
        write-zeros [] (be16 msg_type) (20 + n) (18 + n) 0 refl (omega arith),
        write-zeros (be16 msg_type) (be16 len) (18 + n) (16 + n) 2 (omega arith) (omega arith),
        write-zeros front (be32 stun_magic_cookie) (16 + n) (12 + n) 4 (omega arith) (omega arith),
        write-zeros (front ++ be32 stun_magic_cookie) tid (12 + n) n 8 (omega arith) (omega arith),
      )
      (unfold header be16 be32 in refl)

-- The buffer after the attributes of a list.
abbrev pub message : ℕ → ℕ → Bytes → List Attribute → ℕ → Bytes
message msg_type len tid attributes n =
    (header msg_type len tid ++ encode_attributes attributes) ++ zeros n

encode_attributes-append :
    (xs ys : List Attribute)
    → encode_attributes (xs ++ ys) ≡ encode_attributes xs ++ encode_attributes ys
unfolding encode_attributes
encode_attributes-append [] ys = refl
encode_attributes-append (x ∷ xs) ys =
    ap (λ l. encode_attribute x ++ l) (encode_attributes-append xs ys)
    ∙ sym (append_assoc (encode_attribute x) (encode_attributes xs) (encode_attributes ys))

encode_attributes_one : (a : Attribute) → encode_attributes (a ∷ []) ≡ encode_attribute a
unfolding encode_attributes
encode_attributes_one a = append-nil (encode_attribute a)

pub length-encode_attributes_snoc :
    (as' : List Attribute) (a : Attribute)
    → length (encode_attributes (as' ++ (a ∷ [])))
      ≡ length (encode_attributes as') + (4 + pad_to_4 (length a.value))
length-encode_attributes_snoc as' a =
    rw (encode_attributes-append as' (a ∷ []), encode_attributes_one a)
      (omega (
        arith,
        length-append (encode_attributes as') (encode_attribute a),
        length-encode_attribute a,
      ))

-- Type and length, in front of zeros.
pub write_attribute_header_lem :
    (front : Bytes) (attr_type len n m offset : ℕ)
    → offset ≡ length front
    → n ≡ 4 + m
    → write_attribute_header (front ++ zeros n) offset attr_type len
      ≡ ret ((front ++ (be16 attr_type ++ be16 len)) ++ zeros m)
unfolding write_attribute_header write_u16
write_attribute_header_lem front attr_type len n m offset e h = rw (
  write-zeros front (be16 attr_type) n (2 + m) offset e (omega (arith, length-be16 attr_type)),
  write-zeros (front ++ be16 attr_type) (be16 len) (2 + m) m (offset + 2)
      (omega (arith, length-append front (be16 attr_type), length-be16 attr_type))
      (omega (arith, length-be16 len)),
  append_assoc front (be16 attr_type) (be16 len),
)

-- The value behind them.
pub finish_attribute :
    (front : Bytes) (attr_type : ℕ) (value : Bytes) (n m offset : ℕ)
    → offset ≡ length front
    → n ≡ pad_to_4 (length value) + m
    → write_bytes ((front ++ (be16 attr_type ++ be16 (length value))) ++ zeros n) (offset + 4) value
      ≡ ret
          ((front ++ encode_attribute (record { attr_type = attr_type; value = value })) ++ zeros m)
unfolding encode_attribute
finish_attribute front attr_type value n m offset e h =
    let head = be16 attr_type ++ be16 (length value) in
    let gap = pad_to_4 (length value) - length value in
    write-zeros (front ++ head) value n (gap + m) (offset + 4)
      (omega (
        arith,
        length-append front head,
        length-append (be16 attr_type) (be16 (length value)),
        length-be16 attr_type,
        length-be16 (length value),
      ))
      (omega arith)
    ∙ ap (λ l. ret (((front ++ head) ++ value) ++ l)) (zeros-add gap m)
    ∙ simp append_assoc

-- A whole attribute, in front of zeros.
pub write_attribute_lem :
    (front : Bytes) (attr_type : ℕ) (value : Bytes) (n m offset : ℕ)
    → offset ≡ length front
    → n ≡ 4 + pad_to_4 (length value) + m
    → write_attribute (front ++ zeros n) offset attr_type value
      ≡ ret
          ((front ++ encode_attribute (record { attr_type = attr_type; value = value })) ++ zeros m)
unfolding write_attribute
write_attribute_lem front attr_type value n m offset e h =
    rw
      (write_attribute_header_lem front attr_type (length value) n (pad_to_4 (length value) + m)
        offset e (omega arith))
      (finish_attribute front attr_type value (pad_to_4 (length value) + m) m offset e refl)

-- A new length in the header.
pub set_length :
    (msg_type len len' : ℕ) (tid rest : Bytes)
    → write_u16 (header msg_type len tid ++ rest) 2 len' ≡ ret (header msg_type len' tid ++ rest)
unfolding write_u16 header
set_length msg_type len len' tid rest = simp append_assoc (
    write_bytes-middle (be16 msg_type) (be16 len) (be32 stun_magic_cookie ++ (tid ++ rest))
      (be16 len') 2 (sym (length-be16 msg_type)) (length-be16 len ∙ sym (length-be16 len')))

pub slice-front :
    (front rest : Bytes) (to : ℕ) → to ≡ length front → slice (front ++ rest) 0 to ≡ ret front
slice-front front rest to e = slice-middle [] front rest 0 to refl (omega arith)

pub slice-all : (bytes : Bytes) (to : ℕ) → to ≡ length bytes → slice bytes 0 to ≡ ret bytes
slice-all bytes to e = ap (λ l. slice l 0 to) (sym (append-nil bytes)) ∙ slice-front bytes [] to e

abbrev pub attributes_size : List Attribute → ℕ
attributes_size [] = 0
attributes_size (a ∷ as') = 4 + pad_to_4 (length a.value) + attributes_size as'

pub length-encode_attributes :
    (as' : List Attribute) → length (encode_attributes as') ≡ attributes_size as'
unfolding encode_attributes
length-encode_attributes [] = refl
length-encode_attributes (a ∷ as') = omega (
  arith,
  length-append (encode_attribute a) (encode_attributes as'),
  length-encode_attribute a,
  length-encode_attributes as',
)

module _ (msg_type len : ℕ) (tid : Bytes) where
  pub length-header_attributes :
      (as' : List Attribute)
      → length (header msg_type len tid ++ encode_attributes as')
        ≡ 8 + length tid + attributes_size as'
  length-header_attributes as' = omega (
    arith,
    length-append (header msg_type len tid) (encode_attributes as'),
    length-header msg_type len tid,
    length-encode_attributes as',
  )

  pub regroup_attribute :
      (as' : List Attribute) (a : Attribute)
      → (header msg_type len tid ++ encode_attributes as') ++ encode_attribute a
        ≡ header msg_type len tid ++ encode_attributes (as' ++ (a ∷ []))
  regroup_attribute as' a =
      append_assoc (header msg_type len tid) (encode_attributes as') (encode_attribute a)
      ∙ rw (encode_attributes-append as' (a ∷ []), encode_attributes_one a)

  -- One more attribute behind those that are written.
  pub append_attribute :
      (as' : List Attribute) (attr_type : ℕ) (value : Bytes) (n m offset : ℕ)
      → offset ≡ 8 + length tid + attributes_size as'
      → n ≡ 4 + pad_to_4 (length value) + m
      → write_attribute
          ((header msg_type len tid ++ encode_attributes as') ++ zeros n)
          offset
          attr_type
          value
        ≡ ret (
            (header msg_type len tid
              ++ encode_attributes (as' ++ (record { attr_type = attr_type; value = value } ∷ [])))
            ++ zeros m)
  append_attribute as' attr_type value n m offset e h =
      write_attribute_lem (header msg_type len tid ++ encode_attributes as') attr_type value n m
        offset (e ∙ sym (length-header_attributes as')) h
      ∙ ap (λ l. ret (l ++ zeros m))
          (regroup_attribute as' (record { attr_type = attr_type; value = value }))

-- The buffer with its header and no attribute yet.
pub start_message :
    (msg_type len n : ℕ) (tid : Bytes)
    → length tid ≡ 12
    → write_stun_header (zeros (20 + n)) msg_type len tid
      ≡ ret ((header msg_type len tid ++ encode_attributes []) ++ zeros n)
start_message msg_type len n tid e =
    write_stun_header_lem msg_type len n tid e
    ∙ ap (λ l. ret (l ++ zeros n))
        (unfold encode_attributes in sym (append-nil (header msg_type len tid)))
