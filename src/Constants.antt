-- ===== src/Constants.antt =====
-- The numeric constants of sdk/crates/p2p-core/src/types.rs.
use Prim.Native.Nat.{ℕ}

abbrev pub attr_username : ℕ
attr_username = 0x0006

abbrev pub attr_priority : ℕ
attr_priority = 0x0024

abbrev pub attr_use_candidate : ℕ
attr_use_candidate = 0x0025

abbrev pub attr_ice_controlling : ℕ
attr_ice_controlling = 0x802A

abbrev pub attr_ice_controlled : ℕ
attr_ice_controlled = 0x8029

abbrev pub attr_fingerprint : ℕ
attr_fingerprint = 0x8028

abbrev pub attr_message_integrity : ℕ
attr_message_integrity = 0x0008

abbrev pub attr_error_code : ℕ
attr_error_code = 0x0009

abbrev pub attr_xor_mapped_address : ℕ
attr_xor_mapped_address = 0x0020

abbrev pub attr_xor_relayed_address : ℕ
attr_xor_relayed_address = 0x0016

abbrev pub attr_lifetime : ℕ
attr_lifetime = 0x000D

abbrev pub attr_requested_transport : ℕ
attr_requested_transport = 0x0019

abbrev pub attr_dont_fragment : ℕ
attr_dont_fragment = 0x001A

abbrev pub attr_reservation_token : ℕ
attr_reservation_token = 0x0022

abbrev pub attr_channel_number : ℕ
attr_channel_number = 0x000C

abbrev pub attr_nonce : ℕ
attr_nonce = 0x0015

abbrev pub attr_realm : ℕ
attr_realm = 0x0014

abbrev pub attr_software : ℕ
attr_software = 0x8022

abbrev pub attr_p2p_token : ℕ
attr_p2p_token = 0x0081

abbrev pub attr_requested_address_family : ℕ
attr_requested_address_family = 0x0017

abbrev pub attr_xor_peer_address : ℕ
attr_xor_peer_address = 0x0012

abbrev pub stun_binding_request : ℕ
stun_binding_request = 0x0001

abbrev pub stun_binding_success : ℕ
stun_binding_success = 0x0101

abbrev pub stun_binding_error : ℕ
stun_binding_error = 0x0111

abbrev pub stun_allocate_request : ℕ
stun_allocate_request = 0x0003

abbrev pub stun_allocate_success : ℕ
stun_allocate_success = 0x0103

abbrev pub stun_allocate_error : ℕ
stun_allocate_error = 0x0113

abbrev pub stun_refresh_request : ℕ
stun_refresh_request = 0x0004

abbrev pub stun_create_permission_request : ℕ
stun_create_permission_request = 0x0008

abbrev pub stun_create_permission_success : ℕ
stun_create_permission_success = 0x0108

abbrev pub stun_create_permission_error : ℕ
stun_create_permission_error = 0x0118

abbrev pub stun_channel_bind_request : ℕ
stun_channel_bind_request = 0x0009

abbrev pub ice_error_role_conflict : ℕ
ice_error_role_conflict = 487

abbrev pub stun_magic_cookie : ℕ
stun_magic_cookie = 0x2112A442

abbrev pub af_inet : ℕ
af_inet = 0x01

abbrev pub af_inet6 : ℕ
af_inet6 = 0x02

abbrev pub turn_transport_udp : ℕ
turn_transport_udp = 17

abbrev pub type_heartbeat : ℕ
type_heartbeat = 0x00000001

abbrev pub type_data : ℕ
type_data = 0x00000002
