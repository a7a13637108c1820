-- ===== src/Sdk/Client/Deliver.antt =====
-- sdk/crates/p2p-sdk/src/client.rs: how frames from the peer reach the application, and how its answers
-- carry their sequence numbers.
use p2psdk.Prelude.{
  ℕ, ◌^◌, ◌≤◌, ◌<◌, bit_and, ◌≡◌, refl, sym, ap, ◌∙◌, inl, inr, some, [], append-nil, arith, ltb,
  ◌==◌, Bool-cases, length, ret,
}
use p2psdk.Constants.{type_data}
use p2psdk.Frame.{encode_data_frame_with_seq, parse_frame}
use p2psdk.Frame.RoundTrip.{parse_frame-encode_data_frame_with_seq}
use p2psdk.Ice.Agent.{IceAgent}
use p2psdk.Ice.Agent.Incoming.{handle_incoming_data}
use p2psdk.Ice.StunCodec.{default_message, parse_ice_stun_message}
use p2psdk.Sdk.Client.{ClientInner, fire_on_data, handle_incoming_udp, incoming_agent}
use p2psdk.Sdk.Client.Receive.{queue_seq_id, deliver_frame, handle_app_data, handle_datagram}
use p2psdk.Wire.{Bytes, be32, be64}
use p2psdk.Wire.Laws.{byte_at-lt, read_u16-in_bounds}
use p2psdk.Wire.{byte_at, read_u32}

-- What the ICE agent takes for data is handed on as it came, and changes nothing.
pub handle_incoming_udp-data :
    (inner : ClientInner) (a : IceAgent) (bytes ip : Bytes) (port : ℕ)
    → inner.ice_agent ≡ some a
    → parse_ice_stun_message bytes ≡ ret default_message
    → handle_incoming_udp inner bytes ip port
      ≡ ret (inner, record { app_data = some bytes; actions = [] })
unfolding handle_incoming_udp handle_incoming_data
handle_incoming_udp-data inner a bytes ip port e plain =
    ap (incoming_agent inner bytes ip port) e
    ∙ rw plain (
        ap
          (λ o.
            ret (record inner { ice_agent = o }, record { app_data = some bytes; actions = [] }))
          (sym e))

module _ (text : Bytes) (seq_id : ℕ) where
  abbrev frame : Bytes
  frame = encode_data_frame_with_seq text seq_id

  frame_magic : read_u32 frame 4 ≡ ret type_data
  unfolding encode_data_frame_with_seq read_u32 byte_at be32 be64
  frame_magic = refl

  pub parse_ice_stun_message-frame : parse_ice_stun_message frame ≡ ret default_message
  unfolding parse_ice_stun_message
  parse_ice_stun_message-frame = elim (Bool-cases (ltb (length frame) 20)) [
    | inl short ↦ rw short refl
    | inr long ↦
        let fits : 20 ≤ length frame = ground arith in
        let (first, f) = byte_at-lt frame 0 (omega arith) in
        let (kind, k) = read_u16-in_bounds frame 0 (omega arith) in
        rw (long, f)
          (elim (Bool-cases (bit_and first 0xC0 == 0)) [
            | inl z ↦ rw (z, k, frame_magic) refl
            | inr z ↦ rw z refl
          ])
  ]

  pub parse_frame-frame :
      length text < 2 ^ 32
      → seq_id < 2 ^ 64
      → parse_frame frame
        ≡ ret (some (record { frame_type = type_data; seq_id = seq_id; payload = text }))
  parse_frame-frame h k =
      ap parse_frame (sym (append-nil frame))
      ∙ parse_frame-encode_data_frame_with_seq text [] seq_id h k

  handle_app_data-frame :
      (during : ClientInner → ClientInner) (clock : ℕ) (inner : ClientInner)
      → length text < 2 ^ 32
      → seq_id < 2 ^ 64
      → handle_app_data during clock inner frame
        ≡ ret (
            fire_on_data during
              (queue_seq_id (record inner { last_recv_instant = some clock }) seq_id)
              text)
  unfolding handle_app_data deliver_frame
  handle_app_data-frame during clock inner h k =
      rw (parse_frame-frame h k) (elim (Bool-cases (ltb 0 inner.heartbeat_interval_secs)) [
        | inl z ↦ rw z refl
        | inr z ↦ rw z refl
      ])

  -- A data frame of a peer, with a payload below 4 GiB and a 64-bit sequence number, is never taken
  -- for a connectivity check: whatever address it comes from, the payload is handed to the callback,
  -- its sequence number is queued if it is not 0, nothing is sent, and the ICE agent stays as it is.
  pub handle_datagram-encode_data_frame_with_seq :
      (during : ClientInner → ClientInner) (clock : ℕ) (inner : ClientInner) (a : IceAgent)
      (ip : Bytes) (port : ℕ)
      → inner.ice_agent ≡ some a
      → length text < 2 ^ 32
      → seq_id < 2 ^ 64
      → handle_datagram during clock inner (encode_data_frame_with_seq text seq_id) ip port
        ≡ ret (
            fire_on_data during
              (queue_seq_id (record inner { last_recv_instant = some clock }) seq_id)
              text)
  unfolding handle_datagram
  handle_datagram-encode_data_frame_with_seq during clock inner a ip port e h k = rw (
    handle_incoming_udp-data inner a frame ip port e parse_ice_stun_message-frame,
    handle_app_data-frame during clock inner h k,
  )
