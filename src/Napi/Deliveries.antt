-- ===== src/Napi/Deliveries.antt =====
-- sdk/crates/p2p-napi/src/client_napi.rs: what the application is handed.
use p2psdk.Prelude.{
  ℕ, ◌^◌, ◌<◌, ◌≡◌, refl, sym, ap, ◌∙◌, inl, inr, some, [], ◌∷◌, ◌++◌, ltb, if◌then◌else◌,
  Bool-cases, length, ret,
}
use p2psdk.Frame.{encode_data_frame_with_seq}
use p2psdk.Ice.Agent.{IceAgent}
use p2psdk.Ice.Agent.Incoming.{handle_incoming_data}
use p2psdk.Napi.{Inner}
use p2psdk.Napi.Threads.{handle_app_data, handle_datagram, incoming_agent}
use p2psdk.Sdk.Client.{data_received}
use p2psdk.Sdk.Client.Deliver.{parse_ice_stun_message-frame, parse_frame-frame}
use p2psdk.Wire.{Bytes}

module _ {Json : Type 0} (inner : Inner Json) where
  abbrev pub noted : ℕ → Inner Json
  noted seq_id =
      if ltb 0 seq_id
      then record inner { pending_seq_ids = inner.pending_seq_ids ++ (seq_id ∷ []) }
      else inner

  incoming_agent-frame :
      (a : IceAgent) (text : Bytes) (seq_id : ℕ) (ip : Bytes) (port : ℕ)
      → inner.ice_agent ≡ some a
      → incoming_agent inner (encode_data_frame_with_seq text seq_id) ip port inner.ice_agent
        ≡ ret (
          inner,
          record { app_data = some (encode_data_frame_with_seq text seq_id); actions = [] },
        )
  unfolding handle_incoming_data
  incoming_agent-frame a text seq_id ip port e =
      ap (incoming_agent inner (encode_data_frame_with_seq text seq_id) ip port) e
      ∙ rw (parse_ice_stun_message-frame text seq_id) (
          ap
            (λ o. ret (
              record inner { ice_agent = o },
              record { app_data = some (encode_data_frame_with_seq text seq_id); actions = [] },
            ))
            (sym e))

  handle_app_data-frame :
      (text : Bytes) (seq_id : ℕ)
      → length text < 2 ^ 32
      → seq_id < 2 ^ 64
      → handle_app_data inner (encode_data_frame_with_seq text seq_id)
        ≡ ret (noted seq_id, data_received (encode_data_frame_with_seq text seq_id) ∷ [])
  unfolding handle_app_data
  handle_app_data-frame text seq_id h k =
      rw (parse_frame-frame text seq_id h k) (elim (Bool-cases (ltb 0 inner.heartbeat_interval)) [
        | inl z ↦ rw z refl
        | inr z ↦ rw z refl
      ])

-- On the connector's path a data frame of a peer, with a payload below 4 GiB and a 64-bit sequence
-- number, is handed to the application whole, its header included, and its sequence number is queued if
-- it is not 0.
pub handle_datagram-whole :
    {Json : Type 0} (inner : Inner Json) (a : IceAgent) (text : Bytes) (seq_id : ℕ) (ip : Bytes)
    (port : ℕ)
    → inner.ice_agent ≡ some a
    → length text < 2 ^ 32
    → seq_id < 2 ^ 64
    → handle_datagram inner (encode_data_frame_with_seq text seq_id) ip port
      ≡ ret (noted inner seq_id, data_received (encode_data_frame_with_seq text seq_id) ∷ [])
unfolding handle_datagram
handle_datagram-whole inner a text seq_id ip port e h k =
    rw
      (
        incoming_agent-frame inner a text seq_id ip port e,
        handle_app_data-frame inner text seq_id h k,
      )
      refl
