-- ===== src/Stun/Client/Exchange.antt =====
-- sdk/crates/p2p-core/src/stun/client.rs: an exchange with a server that answers.
use p2psdk.Prelude.{ℕ, ◌^◌, ◌<◌, ◌≡◌, false, some, length, ok, ret}
use p2psdk.Dtls.{Dimpl, DtlsSession, new_session, encrypt, decrypt}
use p2psdk.Stun.Client.{Net, dtls_handshake, dtls_stun_exchange, get_external_address}
use p2psdk.Stun.Codec.{ipv4_to_string}
use p2psdk.Constants.{stun_binding_request}
use p2psdk.Stun.Message.Requests.{framed, binding_attributes_of, build_binding_request_lem}
use p2psdk.Stun.Message.Binding.{response, mapped_attribute, parse_binding_response-mapped}
use p2psdk.Wire.{Bytes}

-- A server that is reached and answers: the handshake succeeds, the request is encrypted to a datagram,
-- and the datagram that comes back decrypts to the response.
pub record Served (dimpl : Dimpl) (net : Net) (rounds fuel : ℕ) (w : net.World)
    (request answer : Bytes) : Type 0 where
  pub certified : dimpl.generate_self_signed_certificate ≡ ok tt
  pub configured : dimpl.build_config ≡ ok tt
  pub up : DtlsSession dimpl
  pub shaken : net.World
  pub shakes :
      dtls_handshake dimpl net rounds fuel w (record {
        dtls = some (dimpl.new_12 (net.now w));
        connected = false;
        start_instant = net.now w;
      })
      ≡ ret ((shaken, up), ok tt)
  pub used : DtlsSession dimpl
  pub encrypted : Bytes
  pub encrypts : encrypt dimpl up request ≡ (used, ok encrypted)
  pub after : net.World
  pub arrived : Bytes
  pub arrives : net.recv (net.send shaken encrypted) 5000 ≡ (after, some arrived)
  pub final : DtlsSession dimpl
  pub decrypts : decrypt dimpl used arrived ≡ (final, ok answer)

module _ (dimpl : Dimpl) (net : Net) (rounds fuel : ℕ) (w : net.World) (request answer : Bytes)
    (s : Served dimpl net rounds fuel w request answer) where
  abbrev session : DtlsSession dimpl
  session = record {
    dtls = some (dimpl.new_12 (net.now w));
    connected = false;
    start_instant = net.now w;
  }

  dtls_stun_exchange_lem :
      dtls_stun_exchange dimpl net rounds fuel w session request
      ≡ ret ((s.after, s.final), ok answer)
  unfolding dtls_stun_exchange
  dtls_stun_exchange_lem = rw (s.shakes, s.encrypts, s.arrives, s.decrypts)

  new_session_lem : new_session dimpl (net.now w) ≡ ok session
  unfolding new_session
  new_session_lem = rw (s.certified, s.configured)

-- From a server that is reached and answers with a Binding Success for the transaction ID that shows
-- where it saw the request come from, an IPv4 address and a port, `get_external_address` returns that
-- address and port; the request that it sends is P2P-TOKEN and SOFTWARE behind a header that counts
-- them, for a token below 65000 bytes and a transaction ID of twelve.
pub get_external_address-Served :
    (dimpl : Dimpl) (net : Net) (rounds fuel : ℕ) (w : net.World) (tid token : Bytes)
    (a b c d port : ℕ)
    (s : Served dimpl net rounds fuel w
      (framed stun_binding_request tid (binding_attributes_of token))
      (response tid 12 (mapped_attribute a b c d port)))
    → length tid ≡ 12
    → length token < 65000
    → (a < 256) × (b < 256) × (c < 256) × (d < 256)
    → port < 2 ^ 16
    → get_external_address dimpl net rounds fuel w tid token
      ≡ ret (s.after, ok (record { ip = ipv4_to_string a b c d; port = port }))
unfolding get_external_address
get_external_address-Served dimpl net rounds fuel w tid token a b c d port s twelve short bytes
      small =
    let request = framed stun_binding_request tid (binding_attributes_of token) in
    let answer = response tid 12 (mapped_attribute a b c d port) in
    rw (
      new_session_lem dimpl net rounds fuel w request answer s,
      build_binding_request_lem tid token twelve short,
      dtls_stun_exchange_lem dimpl net rounds fuel w request answer s,
      parse_binding_response-mapped tid a b c d port twelve bytes small,
    )
