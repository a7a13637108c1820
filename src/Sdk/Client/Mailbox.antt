-- ===== src/Sdk/Client/Mailbox.antt =====
-- sdk/crates/p2p-sdk/src/client.rs: the queue of sequence numbers, seen as a mailbox of the application.
use p2psdk.Prelude.{
  ℕ, zero, suc, ◌^◌, ◌<◌, ◌≡◌, refl, ap, ap₂, Bool, true, false, some, List, [], ◌∷◌, ◌++◌, arith,
  ltb, if◌then◌else◌, length, All, Result, Outcome, ret, ◌>>=◌, Returns, Returns-bind,
}
use p2psdk.Frame.{encode_data_frame, encode_data_frame_with_seq}
use p2psdk.Ice.Agent.{IceAgent, IceAction, action_to, nominated_pair}
use p2psdk.Ice.Agent
use p2psdk.Sdk.Client.{
  ClientInner, Output, sent, data_received, fire_on_data, next_seq_id, pop_front, text_frame,
  send_text, send_data, send_from,
}
use p2psdk.Sdk.Client.Receive.{queue_seq_id, handle_datagram, receive_from, recv_round}
use p2psdk.Sdk.Client.Deliver.{handle_datagram-encode_data_frame_with_seq}
use p2psdk.Types.{CandidatePair}
use p2psdk.Wire.{Bytes}

-- What happens to the client: a data frame arrives at a time and from an address, or the application
-- sends a text.
pub data Use : Type 0 where
  incoming : Bytes → ℕ → ℕ → Bytes → ℕ → Use
  reply : Bytes → Use

unfoldable pub use_client :
    Result Bytes (Unit {0}) → ClientInner → Use → Outcome (ClientInner × List Output)
use_client returned inner (incoming text seq_id clock ip port) =
    recv_round (λ c. c) clock inner (some (encode_data_frame_with_seq text seq_id, ip, port))
use_client returned inner (reply text) =
    let done = send_text returned inner text in ret (done.0, done.1.1)

unfoldable pub use_all :
    Result Bytes (Unit {0}) → ClientInner → List Use → Outcome (ClientInner × List Output)
use_all returned inner [] = ret (inner, [])
use_all returned inner (u ∷ us) = do
  one ← use_client returned inner u
  rest ← use_all returned one.0 us
  ret (rest.0, one.1 ++ rest.1)

-- The mailbox: a queue of the sequence numbers, 0 left out, that were not answered yet.
abbrev pub enqueue : List ℕ → ℕ → List ℕ
enqueue q seq_id = if ltb 0 seq_id then q ++ (seq_id ∷ []) else q

abbrev pub mailbox_use : CandidatePair → List ℕ → Use → List ℕ × List Output
mailbox_use peer q (incoming text seq_id clock ip port) =
    (enqueue q seq_id, data_received text ∷ [])
mailbox_use peer q (reply text) =
    (pop_front q, sent (action_to (encode_data_frame_with_seq text (next_seq_id q)) peer) ∷ [])

abbrev pub mailbox : CandidatePair → List ℕ → List Use → List ℕ × List Output
mailbox peer q [] = (q, [])
mailbox peer q (u ∷ us) =
    let one = mailbox_use peer q u in let rest = mailbox peer one.0 us in (rest.0, one.1 ++ rest.1)

abbrev pub Small : Use → Type 0
Small (incoming text seq_id clock ip port) = (length text < 2 ^ 32) × (seq_id < 2 ^ 64)
Small (reply text) = Unit

-- A connected client with a data callback.
pub record Ready (a : IceAgent) (q : List ℕ) (inner : ClientInner) : Type 0 where
  pub agent_is : inner.ice_agent ≡ some a
  pub udp_is : inner.ice_udp ≡ true
  pub callback_is : inner.on_data ≡ true
  pub queue_is : inner.pending_seq_ids ≡ q

ltb-suc : (n : ℕ) → ltb 0 (suc n) ≡ true
ltb-suc n = ground arith

text_frame_lem :
    (text : Bytes) (seq_id : ℕ) → text_frame text seq_id ≡ encode_data_frame_with_seq text seq_id
unfolding encode_data_frame
text_frame_lem text zero = refl
text_frame_lem text (suc n) = rw (ltb-suc n) refl

recv_round-open :
    (during : ClientInner → ClientInner) (clock : ℕ) (inner : ClientInner) (bytes ip : Bytes)
    (port : ℕ)
    → inner.ice_udp ≡ true
    → recv_round during clock inner (some (bytes, ip, port))
      ≡ handle_datagram during clock inner bytes ip port
unfolding recv_round
recv_round-open during clock inner bytes ip port e =
    ap (λ udp. receive_from during clock inner udp (some (bytes, ip, port))) e

fire_on_data-on :
    (inner : ClientInner) (payload : Bytes)
    → inner.on_data ≡ true
    → fire_on_data (λ c. c) inner payload
      ≡ (record inner { on_data = true }, data_received payload ∷ [])
unfolding fire_on_data
fire_on_data-on inner payload e =
    ap
      (λ b.
        if b then (record inner { on_data = true }, data_received payload ∷ []) else (inner, []))
      e

queue_if-Ready :
    (a : IceAgent) (b : Bool) (q : List ℕ) (seq_id : ℕ) (inner : ClientInner)
    → Ready a q inner
    → Ready a (if b then q ++ (seq_id ∷ []) else q) (
        if b
        then record inner { pending_seq_ids = inner.pending_seq_ids ++ (seq_id ∷ []) }
        else inner)
queue_if-Ready a true q seq_id inner r = record {
  agent_is = r.agent_is;
  udp_is = r.udp_is;
  callback_is = r.callback_is;
  queue_is = ap (λ p. p ++ (seq_id ∷ [])) r.queue_is;
}
queue_if-Ready a false q seq_id inner r = r

module _ (a : IceAgent) (peer : CandidatePair) (nominated : nominated_pair a ≡ some peer)
    (returned : Result Bytes (Unit {0})) where
  abbrev Did : List ℕ → List Output → ClientInner × List Output → Type 0
  Did q outputs done = Ready a q done.0 × (done.1 ≡ outputs)

  reply-sent :
      (inner : ClientInner) (q : List ℕ) (text : Bytes)
      → Ready a q inner
      → (send_from returned inner.ice_agent inner.ice_udp
          (text_frame text (next_seq_id inner.pending_seq_ids))).1
        ≡ sent (action_to (encode_data_frame_with_seq text (next_seq_id q)) peer) ∷ []
  unfolding Agent.send_data
  reply-sent inner q text r =
      rw (r.agent_is, r.udp_is, r.queue_is, nominated, text_frame_lem text (next_seq_id q))

  use_client-Did :
      (inner : ClientInner) (q : List ℕ) (u : Use)
      → Small u
      → Ready a q inner
      → Returns
          (Did (mailbox_use peer q u).0 (mailbox_use peer q u).1)
          (use_client returned inner u)
  unfolding use_client send_text send_data queue_seq_id
  use_client-Did inner q (reply text) small r = (
    record {
      agent_is = r.agent_is;
      udp_is = r.udp_is;
      callback_is = r.callback_is;
      queue_is = ap pop_front r.queue_is;
    },
    reply-sent inner q text r,
  )
  use_client-Did inner q (incoming text seq_id clock ip port) small r =
      let heard = record inner { last_recv_instant = some clock } in
      let queued : Ready a (enqueue q seq_id) (queue_seq_id heard seq_id) =
        queue_if-Ready a (ltb 0 seq_id) q seq_id heard (record {
          agent_is = r.agent_is;
          udp_is = r.udp_is;
          callback_is = r.callback_is;
          queue_is = r.queue_is;
        }) in
      rw
        (
          recv_round-open (λ c. c) clock inner (encode_data_frame_with_seq text seq_id) ip port
              r.udp_is,
          handle_datagram-encode_data_frame_with_seq text seq_id (λ c. c) clock inner a ip port
              r.agent_is small.0 small.1,
          fire_on_data-on (queue_seq_id heard seq_id) text queued.callback_is,
        )
        (
          record {
            agent_is = queued.agent_is;
            udp_is = queued.udp_is;
            callback_is = refl;
            queue_is = queued.queue_is;
          },
          refl,
        )

-- The frames that reach a connected client and the texts that its application sends, in any order,
-- have the effects of a mailbox: each payload below 4 GiB is handed to the callback, the sequence
-- numbers, 64 bits and 0 left out, wait in a queue, and each text goes to the nominated pair in a frame
-- with the oldest waiting number, or with 0 if none is waiting.
pub use_all-mailbox :
    (a : IceAgent) (peer : CandidatePair) (returned : Result Bytes (Unit {0})) (inner : ClientInner)
    (q : List ℕ) (us : List Use)
    → nominated_pair a ≡ some peer
    → Ready a q inner
    → All Small us
    → Returns
        (λ done.
          (done.0.pending_seq_ids ≡ (mailbox peer q us).0) × (done.1 ≡ (mailbox peer q us).1))
        (use_all returned inner us)
unfolding use_all
use_all-mailbox a peer returned inner q [] nominated r small = (r.queue_is, refl)
use_all-mailbox a peer returned inner q (u ∷ us) nominated r small =
    let one = mailbox_use peer q u in
    Returns-bind (Did a peer nominated returned one.0 one.1) _ _ _
      (use_client-Did a peer nominated returned inner q u small.0 r)
      (λ done d.
        Returns-bind
          (λ rest.
            (rest.0.pending_seq_ids ≡ (mailbox peer one.0 us).0)
            × (rest.1 ≡ (mailbox peer one.0 us).1))
          _ _ _ (use_all-mailbox a peer returned done.0 one.0 us nominated d.0 small.1)
          (λ rest h. (h.0, ap₂ ◌++◌ d.1 h.1)))
