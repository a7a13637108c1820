-- ===== src/Stun/Message/Requests.antt =====
-- sdk/crates/p2p-core/src/stun/message.rs: the bytes of the requests to the servers.
use p2psdk.Prelude.{ℕ, ◌+◌, ◌<◌, ◌≡◌, refl, List, [], ◌∷◌, ◌++◌, append-nil, arith, length, ret}
use p2psdk.Constants.{
  attr_requested_transport, attr_software, attr_p2p_token, attr_requested_address_family,
  stun_binding_request, stun_allocate_request, turn_transport_udp,
}
use p2psdk.Stun.Builder.Laws.{header, start_message, append_attribute, attributes_size}
use p2psdk.Stun.Codec.{pad_to_4}
use p2psdk.Stun.Message.{software, build_binding_request, build_allocate_request}
use p2psdk.Stun.Walk.Attributes.{Attribute, encode_attributes}
use p2psdk.Wire.{Bytes, u16}

abbrev attribute : ℕ → Bytes → Attribute
attribute t v = record { attr_type = t; value = v }

-- A message whose length field counts its attributes.
abbrev pub framed : ℕ → Bytes → List Attribute → Bytes
framed msg_type tid as' = header msg_type (attributes_size as') tid ++ encode_attributes as'

abbrev pub binding_attributes_of : Bytes → List Attribute
binding_attributes_of token = attribute attr_p2p_token token ∷ attribute attr_software software ∷ []

abbrev pub allocate_attributes_of : Bytes → ℕ → List Attribute
allocate_attributes_of token family =
    attribute attr_requested_transport (turn_transport_udp ∷ 0 ∷ 0 ∷ 0 ∷ [])
    ∷ attribute attr_requested_address_family (family ∷ 0 ∷ 0 ∷ 0 ∷ [])
    ∷ binding_attributes_of token

module _ (tid token : Bytes) where
  -- For a token below 65000 bytes a Binding Request is P2P-TOKEN and SOFTWARE behind a header that
  -- counts them, and building it does not panic.
  pub build_binding_request_lem :
      length tid ≡ 12
      → length token < 65000
      → build_binding_request tid token
        ≡ ret (record {
          bytes = framed stun_binding_request tid (binding_attributes_of token);
          transaction_id = tid;
        })
  unfolding build_binding_request
  build_binding_request_lem twelve short =
      let t = stun_binding_request in
      let l = pad_to_4 (4 + length token) + 12 in
      let fits : u16 l ≡ l = omega arith in
      let counted : l ≡ attributes_size (binding_attributes_of token) = omega arith in
      rw
        (
          fits,
          start_message t l l tid twelve,
          append_attribute t l tid [] attr_p2p_token token l 12 20 (omega arith) (omega arith),
          append_attribute t l tid (attribute attr_p2p_token token ∷ []) attr_software software 12 0
              (20 + pad_to_4 (4 + length token)) (omega arith) (omega arith),
          append-nil (header t l tid ++ encode_attributes (binding_attributes_of token)),
        )
        (rw counted refl)

  -- For a token below 65000 bytes an Allocate Request is REQUESTED-TRANSPORT for UDP,
  -- REQUESTED-ADDRESS-FAMILY, P2P-TOKEN and SOFTWARE behind a header that counts them, and building it
  -- does not panic.
  pub build_allocate_request_lem :
      (family : ℕ)
      → length tid ≡ 12
      → length token < 65000
      → build_allocate_request tid token family
        ≡ ret (record {
          bytes = framed stun_allocate_request tid (allocate_attributes_of token family);
          transaction_id = tid;
        })
  unfolding build_allocate_request
  build_allocate_request_lem family twelve short =
      let t = stun_allocate_request in
      let p = pad_to_4 (4 + length token) in
      let l = 8 + 8 + p + 12 in
      let fits : u16 l ≡ l = omega arith in
      let rt = attribute attr_requested_transport (turn_transport_udp ∷ 0 ∷ 0 ∷ 0 ∷ []) in
      let raf = attribute attr_requested_address_family (family ∷ 0 ∷ 0 ∷ 0 ∷ []) in
      let counted : l ≡ attributes_size (allocate_attributes_of token family) = omega arith in
      rw
        (
          fits,
          start_message t l l tid twelve,
          append_attribute t l tid [] attr_requested_transport rt.value l (8 + p + 12) 20
              (omega arith) (omega arith),
          append_attribute t l tid (rt ∷ []) attr_requested_address_family raf.value (8 + p + 12)
              (p + 12) 28 (omega arith) (omega arith),
          append_attribute t l tid (rt ∷ raf ∷ []) attr_p2p_token token (p + 12) 12 36 (omega arith)
              (omega arith),
          append_attribute t l tid (rt ∷ raf ∷ attribute attr_p2p_token token ∷ []) attr_software
              software 12 0 (36 + p) (omega arith) (omega arith),
          append-nil (header t l tid ++ encode_attributes (allocate_attributes_of token family)),
        )
        (rw counted refl)
