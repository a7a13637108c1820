-- ===== src/Tests/NapiTests.antt =====
-- Tests of the client behind the bindings.
use p2psdk.Prelude.{
  ℕ, ◌≡◌, refl, true, false, some, [], ◌∷◌, arith, if◌then◌else◌, replicate, ok, err, ret,
}
use p2psdk.Frame.{encode_data_frame_with_seq}
use p2psdk.Napi.{
  Inner, global_inner, connect_connector, is_connector_registered, send_via_connector,
}
use p2psdk.Napi.Connection.{connector_loop_inner, start_loop}
use p2psdk.Napi.Registered.{reported, is_connector_registered-reported}
use p2psdk.Sdk.Signals.{IceCodec}
use p2psdk.Tests.Doubles.{toy_io}
use p2psdk.Napi.Threads.{handle_datagram}
use p2psdk.Napi.Deliveries.{noted, handle_datagram-whole}
use p2psdk.Sdk.Client.{data_received}
use p2psdk.Tests.Fixtures.{address}
use p2psdk.Tests.SdkTests.{nominating_agent, an_answer, open_server, draws, url}
use p2psdk.Types.{IceState, codes}
use p2psdk.Wire.{Bytes}

abbrev bound_inner : Inner ℕ
bound_inner = record global_inner {
  ice_agent = some (nominating_agent IceState.completed);
  ice_udp = true;
}

handle_datagram-whole_example :
    handle_datagram bound_inner (encode_data_frame_with_seq (codes "hello") 42) address 5000
    ≡ ret (noted bound_inner 42, data_received (encode_data_frame_with_seq (codes "hello") 42) ∷ [])
handle_datagram-whole_example =
    handle_datagram-whole bound_inner (nominating_agent IceState.completed) (codes "hello") 42
      address 5000 refl (omega arith) (omega arith)

-- Values that are the actions of messages.
abbrev bytes_codec : IceCodec Bytes
bytes_codec = record {
  to_value = λ m. ok m.action;
  from_value = λ v. ok an_answer;
  candidate_from_value = λ v. err [];
  action_of = λ v. some v;
}

abbrev hello : Inner Bytes → Inner Bytes
hello inner = send_via_connector inner (codes "peer") (codes "hello")

is_connector_registered-reported_example :
    let done =
      connector_loop_inner open_server toy_io bytes_codec [] draws url
        (codes "me")
        []
        (replicate 5 hello)
        (start_loop open_server toy_io 0 0
          (connect_connector (λ i. i) global_inner (codes "me"))) in
    is_connector_registered done.0.inner ≡ (if reported false done.1 then 1 else 0)
unfolding send_via_connector
is_connector_registered-reported_example =
    is_connector_registered-reported open_server toy_io bytes_codec [] draws url (codes "me") [] 0 0
      (λ i. i) global_inner (replicate 5 hello) (λ i. refl)
      ((λ i. refl), ((λ i. refl), ((λ i. refl), ((λ i. refl), ((λ i. refl), tt)))))
