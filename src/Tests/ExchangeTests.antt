-- ===== src/Tests/ExchangeTests.antt =====
-- A test of an exchange with a STUN server that answers.
use p2psdk.Prelude.{ℕ, ◌+◌, ◌≡◌, refl, true, some, List, [], ◌∷◌, ◌++◌, arith, ok, ret}
use p2psdk.Constants.{stun_binding_request}
use p2psdk.Dtls.{
  Dimpl, DtlsOutput, DtlsSession, packet, connected, timeout, application_data, handshake_step,
  poll_outputs, visit_output, step_result, encrypt, decrypt,
}
use p2psdk.Stun.Client.{Net, dtls_handshake, handshake_loop, handshake_round, get_external_address}
use p2psdk.Stun.Client.Exchange.{Served, get_external_address-Served}
use p2psdk.Stun.Codec.{ipv4_to_string}
use p2psdk.Stun.Message.Binding.{response, mapped_attribute}
use p2psdk.Stun.Message.Requests.{framed, binding_attributes_of}
use p2psdk.Tests.Fixtures.{tid}
use p2psdk.Types.{codes}
use p2psdk.Wire.{Bytes}

abbrev poll_queue : List DtlsOutput → List DtlsOutput × DtlsOutput
poll_queue [] = ([], timeout 7)
poll_queue (o ∷ os) = (os, o)

-- A library that is connected at once and encrypts nothing.
abbrev plain_dimpl : Dimpl
plain_dimpl = record {
  Dtls = List DtlsOutput;
  generate_self_signed_certificate = ok tt;
  build_config = ok tt;
  new_12 = λ start. connected ∷ [];
  handle_packet = λ d bytes. (d ++ (application_data bytes ∷ []), ok tt);
  poll_output = poll_queue;
  handle_timeout = λ d now. (d, ok tt);
  send_application_data = λ d bytes. (d ++ (packet bytes ∷ []), ok tt);
  close = λ d. [];
}

abbrev answer : Bytes
answer = response tid 12 (mapped_attribute 203 0 113 9 40000)

-- A server that sends the answer; the world is the clock.
abbrev answering_net : Net
answering_net = record {
  World = ℕ;
  send = λ w bytes. w;
  recv = λ w timeout_ms. (w + 20, some answer);
  now = λ w. w;
}

abbrev request : Bytes
request = framed stun_binding_request tid (binding_attributes_of (codes "token"))

abbrev session_up : DtlsSession plain_dimpl
session_up = record { dtls = some []; connected = true; start_instant = 100 }

served : Served plain_dimpl answering_net 2 4 100 request answer
unfolding dtls_handshake handshake_loop handshake_round handshake_step poll_outputs visit_output
    step_result encrypt decrypt
served = record {
  certified = refl;
  configured = refl;
  up = session_up;
  shaken = 100;
  shakes = refl;
  used = session_up;
  encrypted = request;
  encrypts = refl;
  after = 120;
  arrived = answer;
  arrives = refl;
  final = session_up;
  decrypts = refl;
}

get_external_address-Served_example :
    get_external_address plain_dimpl answering_net 2 4 100 tid (codes "token")
    ≡ ret (served.after, ok (record { ip = ipv4_to_string 203 0 113 9; port = 40000 }))
get_external_address-Served_example =
    get_external_address-Served plain_dimpl answering_net 2 4 100 tid (codes "token") 203 0 113 9
      40000 served refl (omega arith) (omega arith, omega arith, omega arith, omega arith)
      (omega arith)
