-- ===== src/Stun/Walk.antt =====
-- The loop over the attributes of a STUN message. The source writes it five times
-- (`parse_binding_response`, twice in `parse_allocate_response`, `parse_ice_stun_message` and
-- `parse_error_code`), each as
--   while offset + 4 <= end { read type and length; ...; offset += 4 + pad_to_4(attr_len); }
-- and here the body is a parameter.
pub mod Attributes
use p2psdk.Prelude.{
  ℕ, zero, suc, ◌+◌, ◌-◌, ◌*◌, ◌/◌, ◌%◌, ◌^◌, ◌≤◌, ◌<◌, min, max, bit_and, bit_xor, ◌≡◌, refl, sym,
  ap, ap₂, ◌∙◌, ◌≢◌, ◌↔◌, ◌⊎◌, inl, inr, Bool, true, false, not, ◌&&◌, ◌||◌, Option, none, some,
  List, [], ◌∷◌, ◌++◌, map, append_assoc, append-nil, arith, ltb, leb, ◌==◌, if◌then◌else◌, ltb→lt,
  leb→le, le→leb, leb-false, ltb-false, ==_iff, Bool-cases, Option-cases, eq_bytes, eq_bytes_refl,
  eq_bytes_sound, position, FirstAt, FoundBy, position-FoundBy, position-FirstAt, position-none,
  FirstAt-lt, All-map, length, get_elem?, take, drop, replicate, All, length-append, length-take,
  length-drop, length-replicate, take-append, drop-append, get_elem?-append, get_elem?-lt, Result,
  ok, err, Outcome, ret, panic, out_of_fuel, ◌>>=◌, ◌>>◌, Returns, Returns-eq, Returns-of_eq,
  Returns-bind,
}
use p2psdk.Wire.{Bytes, read_u16}
use p2psdk.Stun.Codec.{pad_to_4}

-- What one round does: go on with the loop's variables, or return from the function.
pub data Flow {ℓ κ} (S : Type ℓ) (R : Type κ) : Type (ℓ ⊔ κ) where
  next : S → Flow S R
  exit : R → Flow S R

module _ {S R : Type 0} where
  abbrev pub go_on : Flow S R → (S → Outcome (Flow S R)) → Outcome (Flow S R)
  go_on (next s) k = k s
  go_on (exit r) k = ret (exit r)

  -- `visit attr_type attr_len offset` is the body. A round moves `offset` by at least 4.
  unfoldable pub walk :
      Bytes → ℕ → (ℕ → ℕ → ℕ → S → Outcome (Flow S R)) → ℕ → ℕ → S → Outcome (Flow S R)
  walk bytes end visit zero offset s = out_of_fuel
  walk bytes end visit (suc fuel) offset s =
      let round = (do
        attr_type ← read_u16 bytes offset
        attr_len ← read_u16 bytes (offset + 2)
        flow ← visit attr_type attr_len offset s
        go_on flow (λ s'. walk bytes end visit fuel (offset + (4 + pad_to_4 attr_len)) s')) in
      if leb (offset + 4) end then round else ret (next s)

  -- `end` rounds are enough.
  unfoldable pub walk_attributes :
      Bytes → ℕ → (ℕ → ℕ → ℕ → S → Outcome (Flow S R)) → S → Outcome (Flow S R)
  walk_attributes bytes end visit s = walk bytes end visit (suc end) 20 s
