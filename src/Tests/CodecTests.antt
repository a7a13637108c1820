-- ===== src/Tests/CodecTests.antt =====
-- Tests of the frames, the texts and the STUN messages of the checks.
use p2psdk.Prelude.{
  ◌+◌, ◌≤◌, ◌≡◌, refl, true, false, some, List, [], ◌∷◌, ◌++◌, arith, length, ret, panic, ◌>>=◌,
  Returns,
}
use mathlib.Core.List.{foldl}
use p2psdk.Constants.{stun_allocate_request, attr_username, attr_priority, stun_binding_request}
use p2psdk.Frame.{is_stun_message, ParsedFrame, parse_frame, encode_data_frame_with_seq}
use p2psdk.Frame.RoundTrip.{
  is_stun_message-encode_data_frame_with_seq, parse_frame-encode_data_frame_with_seq,
  parse_frame-Returns,
}
use p2psdk.Ice.StunCodec.{
  classify, parse_ice_stun_message, build_ice_binding_request, request_attrs_len,
}
use p2psdk.Ice.StunCodec.Build.{attribute, request_attributes, build_ice_binding_request_lem}
use p2psdk.Ice.StunCodec.Faults.{
  cut_request, error_attribute, error_response, parse_ice_stun_message-cut_request,
  parse_ice_stun_message-standard_error,
}
use p2psdk.Ice.StunCodec.Parse.{absorb, parse_ice_stun_message-absorb, started}
use p2psdk.Ice.StunCodec.RoundTrip.{
  request_reading, parse_ice_stun_message-build_ice_binding_request,
}
use p2psdk.Stun.Builder.Laws.{header}
use p2psdk.Stun.Walk.Attributes.{Attribute, encode_attribute, encode_attributes}
use p2psdk.Stun.Message.{build_binding_request, build_allocate_request}
use p2psdk.Stun.Message.Binding.{response, parse_binding_response-cut}
use p2psdk.Stun.Message.Requests.{
  framed, binding_attributes_of, allocate_attributes_of, build_binding_request_lem,
  build_allocate_request_lem,
}
use p2psdk.Stun.Message.Responses.{parse_binding_response}
use p2psdk.Tests.Fixtures.{zero_crypto, tid}
use p2psdk.Text.Number.{parse_number, print_number, parse_number-print_number}
use p2psdk.Text.Utf8.{from_utf8_lossy, from_utf8_lossy-ascii}
use p2psdk.Types.{codes}
use p2psdk.Wire.{be16, u16}

parse_frame-encode_data_frame_with_seq_example :
    parse_frame (encode_data_frame_with_seq (codes "hello") 7 ++ (1 ∷ []))
    ≡ ret (some (record { frame_type = 2; seq_id = 7; payload = codes "hello" }))
parse_frame-encode_data_frame_with_seq_example =
    parse_frame-encode_data_frame_with_seq (codes "hello") (1 ∷ []) 7 (omega arith) (omega arith)

parse_frame-Returns_example :
    Returns
      (λ o. (f : ParsedFrame) → o ≡ some f → 16 + length f.payload ≤ 3)
      (parse_frame (1 ∷ 2 ∷ 3 ∷ []))
parse_frame-Returns_example = parse_frame-Returns (1 ∷ 2 ∷ 3 ∷ [])

parse_number-print_number_example : parse_number 10 65535 (print_number 10 5000) ≡ some 5000
parse_number-print_number_example =
    parse_number-print_number 10 65535 (omega arith) (omega arith) 5000 (omega arith)

from_utf8_lossy-ascii_example : from_utf8_lossy (codes "aa") ≡ codes "aa"
from_utf8_lossy-ascii_example = from_utf8_lossy-ascii (codes "aa") (omega arith, (omega arith, tt))

build_ice_binding_request_lem_example :
    build_ice_binding_request zero_crypto tid (codes "b:a") 100 true 5 true (some (codes "pw"))
    ≡ ret (record {
      bytes =
          header stun_binding_request
            (u16 (request_attrs_len (codes "b:a") true (some (codes "pw"))))
            tid
          ++ encode_attributes (
              request_attributes zero_crypto tid (codes "b:a") 100 true 5 true (some (codes "pw")));
      transaction_id = tid;
    })
build_ice_binding_request_lem_example =
    build_ice_binding_request_lem zero_crypto tid refl (codes "b:a") 100 true 5 true
      (some (codes "pw"))

parse_ice_stun_message-build_ice_binding_request_example :
    (build_ice_binding_request zero_crypto tid (codes "b:a") 100 true 5 true (some (codes "pw"))
      >>= λ r. parse_ice_stun_message r.bytes)
    ≡ ret (request_reading tid (codes "b:a") 100 true true)
parse_ice_stun_message-build_ice_binding_request_example =
    parse_ice_stun_message-build_ice_binding_request zero_crypto tid (codes "b:a") 100 true 5 true
      (some (codes "pw")) refl (omega arith) (omega arith)
      (from_utf8_lossy-ascii (codes "b:a") (omega arith, (omega arith, (omega arith, tt))))
      (omega arith)

abbrev two_attributes : List Attribute
two_attributes =
    attribute attr_username (codes "b:a") ∷ attribute attr_priority (0 ∷ 0 ∷ 1 ∷ 2 ∷ []) ∷ []

parse_ice_stun_message-absorb_example :
    parse_ice_stun_message (
      header stun_binding_request (length (encode_attributes two_attributes)) tid
      ++ encode_attributes two_attributes)
    ≡ ret (foldl absorb (record (started tid) { is_request = true }) two_attributes)
unfolding encode_attributes encode_attribute be16 classify
parse_ice_stun_message-absorb_example =
    parse_ice_stun_message-absorb stun_binding_request tid two_attributes
      (record (started tid) { is_request = true }) (omega arith) refl refl (omega arith)
      (
        ((omega arith, omega arith), λ e. omega arith),
        (((omega arith, omega arith), λ e. omega arith), tt),
      )

parse_ice_stun_message-cut_request_example :
    parse_ice_stun_message (cut_request tid (1 ∷ 2 ∷ []) 8 4) ≡ panic
parse_ice_stun_message-cut_request_example =
    parse_ice_stun_message-cut_request tid (1 ∷ 2 ∷ []) 8 4 refl (omega arith) (omega arith)
      (omega arith) (omega arith) (omega arith)

parse_ice_stun_message-standard_error_example :
    Returns
      (λ m. m.error_code ≡ 4)
      (parse_ice_stun_message (
        error_response tid
          (codes "Role Conflict")
          4
          87
          (error_attribute 0 0 4 87 (codes "Role Conflict"))))
parse_ice_stun_message-standard_error_example =
    parse_ice_stun_message-standard_error tid (codes "Role Conflict") 4 87 refl (omega arith)

parse_binding_response-cut_example : parse_binding_response (response tid 12 []) tid ≡ panic
parse_binding_response-cut_example =
    parse_binding_response-cut tid 12 refl (omega arith) (omega arith)

build_binding_request_lem_example :
    build_binding_request tid (codes "token")
    ≡ ret (record {
      bytes = framed stun_binding_request tid (binding_attributes_of (codes "token"));
      transaction_id = tid;
    })
build_binding_request_lem_example = build_binding_request_lem tid (codes "token") refl (omega arith)

build_allocate_request_lem_example :
    build_allocate_request tid (codes "token") 1
    ≡ ret (record {
      bytes = framed stun_allocate_request tid (allocate_attributes_of (codes "token") 1);
      transaction_id = tid;
    })
build_allocate_request_lem_example =
    build_allocate_request_lem tid (codes "token") 1 refl (omega arith)

is_stun_message-encode_data_frame_with_seq_example :
    is_stun_message (encode_data_frame_with_seq (codes "hello") 7 ++ (1 ∷ [])) ≡ ret false
is_stun_message-encode_data_frame_with_seq_example =
    is_stun_message-encode_data_frame_with_seq (codes "hello") (1 ∷ []) 7
