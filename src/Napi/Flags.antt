-- ===== src/Napi/Flags.antt =====
-- sdk/crates/p2p-napi/src/client_napi.rs: no message of the signalling server changes the connector's
-- flags.
use p2psdk.Prelude.{
  ℕ, ◌≡◌, refl, ◌∙◌, inl, inr, Bool, Option, none, some, List, [], ◌∷◌, Bool-cases, eq_bytes,
  Result, ok, err,
}
use p2psdk.Napi.{Inner, send_via_connector, start_ice_threads_inner, stop_ice_threads}
use p2psdk.Napi.Connection.{handle_messages}
use p2psdk.Napi.Messages.{
  handle_connector_msg_inner, handle_ice_answer_inner, handle_ice_offer_inner, answered,
  answer_offer, offer_at, offer_on, offered_agent, take_answer, take_candidate, with_candidate,
}
use p2psdk.Ice.Agent.{IceAgent}
use p2psdk.Sdk.Client.Gather.{Draws}
use p2psdk.Sdk.Connector.{Signaling, ConnectorMessage}
use p2psdk.Sdk.Io.{Io}
use p2psdk.Sdk.Signals.{IceCodec, IceDataMessage, IceCandidateMessage, describe, or_blank}
use p2psdk.Types.{IceSessionDescription, codes}
use p2psdk.Wire.{Bytes}

abbrev pub flags : {Json : Type 0} → Inner Json → Bool × Bool
flags inner = (inner.connector_registered, inner.connector_stop)

module _ {Json : Type 0} where
  take_answer-flags :
      (i : Inner Json) (desc : IceSessionDescription) (o : Option IceAgent)
      → flags (take_answer i desc o) ≡ flags i
  take_answer-flags i desc none = refl
  take_answer-flags i desc (some a) = refl

  answered-flags :
      (i : Inner Json) (r : Result Bytes IceDataMessage) → flags (answered i r) ≡ flags i
  answered-flags i (err e) = refl
  answered-flags i (ok m) = take_answer-flags i (describe m) i.ice_agent

  with_candidate-flags :
      (i : Inner Json) (m : IceCandidateMessage) (o : Option IceAgent)
      → flags (with_candidate i m o) ≡ flags i
  with_candidate-flags i m none = refl
  with_candidate-flags i m (some a) = refl

  take_candidate-flags :
      (i : Inner Json) (r : Result Bytes IceCandidateMessage) → flags (take_candidate i r) ≡ flags i
  take_candidate-flags i (err e) = refl
  take_candidate-flags i (ok m) = with_candidate-flags i m i.ice_agent

module _ (io : Io) {Json : Type 0} (codec : IceCodec Json) (null : Json) (draws : Draws) where
  answer_offer-flags :
      (i : Inner Json) (id : Bytes) (a : IceAgent) (r : Result Bytes IceDataMessage)
      → flags (answer_offer io codec null draws i id a r) ≡ flags i
  unfolding send_via_connector start_ice_threads_inner stop_ice_threads
  answer_offer-flags i id a (err e) = refl
  answer_offer-flags i id a (ok m) = refl

  offer_at-flags :
      (i : Inner Json) (id : Bytes) (v : Json) (w : io.World) (r : Result Bytes (Bytes × ℕ))
      → flags (offer_at io codec null draws i id v w r).1 ≡ flags i
  offer_at-flags i id v w (err e) = refl
  offer_at-flags i id v w (ok (ip, port)) =
      answer_offer-flags i id (offered_agent io codec null draws i port (io.get_local_addresses w))
        (codec.from_value v)

  offer_on-flags :
      (i : Inner Json) (id : Bytes) (v : Json) (r : io.World × Result Bytes io.Socket)
      → flags (offer_on io codec null draws i id v r).1 ≡ flags i
  offer_on-flags i id v (w, err e) = refl
  offer_on-flags i id v (w, ok udp) = offer_at-flags i id v w (io.local_addr w udp)

  handle_ice_offer_inner-flags :
      (w : io.World) (i : Inner Json) (id : Bytes) (v : Json)
      → flags (handle_ice_offer_inner io codec null draws w i id v).1 ≡ flags i
  unfolding handle_ice_offer_inner stop_ice_threads
  handle_ice_offer_inner-flags w i id v =
      offer_on-flags (record (stop_ice_threads i) { ice_agent = none }) id v (io.create_udp w)

  handle_connector_msg_inner-flags :
      (w : io.World) (i : Inner Json) (id : Bytes) (v : Json)
      → flags (handle_connector_msg_inner io codec null draws w i id v).1 ≡ flags i
  unfolding handle_connector_msg_inner handle_ice_answer_inner
  handle_connector_msg_inner-flags w i id v =
      let action = or_blank (codec.action_of v) in
      elim (Bool-cases (eq_bytes action (codes "iceOffer"))) [
        | inl z ↦ rw z (handle_ice_offer_inner-flags w i id v)
        | inr z ↦ rw z (elim (Bool-cases (eq_bytes action (codes "iceAnswer"))) [
          | inl z ↦ rw z (answered-flags i (codec.from_value v))
          | inr z ↦ rw z (elim (Bool-cases (eq_bytes action (codes "iceCandidate"))) [
            | inl z ↦ rw z (take_candidate-flags i (codec.candidate_from_value v))
            | inr z ↦ rw z refl
          ])
        ])
      ]

module _ (signaling : Signaling) (io : Io) (codec : IceCodec signaling.Json) (null : signaling.Json)
    (draws : Draws) where
  pub handle_messages-flags :
      (w : io.World) (i : Inner signaling.Json) (msgs : List (ConnectorMessage signaling.Json))
      → flags (handle_messages signaling io codec null draws w i msgs).1 ≡ flags i
  unfolding handle_messages
  handle_messages-flags w i [] = refl
  handle_messages-flags w i (msg ∷ msgs) =
      let one = handle_connector_msg_inner io codec null draws w i msg.from msg.data_value in
      handle_messages-flags one.0 one.1 msgs
      ∙ handle_connector_msg_inner-flags io codec null draws w i msg.from msg.data_value
