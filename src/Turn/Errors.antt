-- ===== src/Turn/Errors.antt =====
-- sdk/crates/p2p-core/src/turn/session.rs: the text of an error response.
use p2psdk.Prelude.{ℕ, ◌+◌, ◌*◌, [], ◌∷◌, ◌++◌, length}
use p2psdk.Constants.{attr_error_code, stun_create_permission_error}
use p2psdk.Ice.StunCodec.Faults.{error_attribute}
use p2psdk.Stun.Builder.Laws.{header}
use p2psdk.Stun.Walk.Attributes.{Attribute, padding, encode_attributes}
use p2psdk.Text.Number.{print_decimal}
use p2psdk.Text.Utf8.{from_utf8_lossy}
use p2psdk.Wire.{Bytes, be16}

module _ (tid reason : Bytes) (class number : ℕ) where
  abbrev the_error : Attribute
  the_error = error_attribute 0 0 class number reason

  abbrev attrs : Bytes
  attrs = encode_attributes (the_error ∷ [])

  abbrev front : Bytes
  front = header stun_create_permission_error (length attrs) tid

  -- The message of the server.
  abbrev pub permission_error : Bytes
  permission_error = front ++ attrs

  -- The header of the attribute and the first four bytes of its value.
  abbrev eight : Bytes
  eight = be16 attr_error_code ++ (be16 (length the_error.value) ++ (0 ∷ 0 ∷ class ∷ number ∷ []))

  abbrev tail : Bytes
  tail = padding (length the_error.value)

  abbrev text : Bytes
  text = print_decimal (class * 256 + number) ++ (b' ' ∷ from_utf8_lossy reason)
