-- ===== src/Stun/Walk/Attributes.antt =====
-- The attribute loop on any message, and on a message that is a list of attributes.
use p2psdk.Prelude.{
  ℕ, zero, suc, ◌+◌, ◌-◌, ◌^◌, ◌≤◌, ◌<◌, ◌≡◌, sym, ap, ◌∙◌, inl, inr, List, [], ◌∷◌, ◌++◌,
  append_assoc, arith, leb, leb→le, le→leb, leb-false, Bool-cases, length, replicate, All,
  length-append, length-replicate, Outcome, ret, ◌>>=◌, Returns, Returns-bind,
}
use p2psdk.Stun.Codec.{pad_to_4}
use p2psdk.Stun.Walk.{Flow, next, exit, go_on, walk}
use mathlib.Core.Path.{fun_ext}
use p2psdk.Wire.{Bytes, be16, read_u16, byte_at}
use p2psdk.Wire.Laws.{read_u16-shift, read_u16-in_bounds}

pub record Attribute : Type 0 where
  pub attr_type : ℕ
  pub value : Bytes

-- Both header fields fit.
abbrev pub Fits : Attribute → Type 0
Fits a = (a.attr_type < 2 ^ 16) × (length a.value < 2 ^ 16)

abbrev pub padding : ℕ → Bytes
padding n = replicate (pad_to_4 n - n) 0

unfoldable pub encode_attribute : Attribute → Bytes
encode_attribute a =
    be16 a.attr_type ++ (be16 (length a.value) ++ (a.value ++ padding (length a.value)))

unfoldable pub encode_attributes : List Attribute → Bytes
encode_attributes [] = []
encode_attributes (a ∷ as') = encode_attribute a ++ encode_attributes as'

pub length-encode_attribute :
    (a : Attribute) → length (encode_attribute a) ≡ 4 + pad_to_4 (length a.value)
unfolding encode_attribute be16
length-encode_attribute a = omega (
  arith,
  length-append a.value (padding (length a.value)),
  length-replicate {A = ℕ} (pad_to_4 (length a.value) - length a.value) 0,
)

module _ (front rest : Bytes) (a : Attribute) (bytes : Bytes) (offset : ℕ) where
  read_header :
      Fits a
      → bytes ≡ front ++ (encode_attribute a ++ rest)
      → offset ≡ length front
      → read_u16 bytes offset ≡ ret a.attr_type
  unfolding encode_attribute
  read_header fits eb eo =
      rw (eb, read_u16-shift front (encode_attribute a ++ rest) offset 0 (omega arith))
        (unfold read_u16 byte_at be16 in ap ret (omega arith))

  read_header_length :
      Fits a
      → bytes ≡ front ++ (encode_attribute a ++ rest)
      → offset ≡ length front
      → read_u16 bytes (offset + 2) ≡ ret (length a.value)
  unfolding encode_attribute
  read_header_length fits eb eo =
      rw (eb, read_u16-shift front (encode_attribute a ++ rest) (offset + 2) 2 (omega arith))
        (unfold read_u16 byte_at be16 in ap ret (omega arith))

module _ {S R : Type 0} (visit : ℕ → ℕ → ℕ → S → Outcome (Flow S R)) where
  -- The rounds over the attributes of a list, the first one at `offset`.
  unfoldable pub visit_all : ℕ → List Attribute → S → Outcome (Flow S R)
  visit_all offset [] s = ret (next s)
  visit_all offset (a ∷ as') s = do
    flow ← visit a.attr_type (length a.value) offset s
    go_on flow (λ s'. visit_all (offset + (4 + pad_to_4 (length a.value))) as' s')

  -- What the loop keeps, and what it returns with.
  abbrev pub Good : (S → Type 0) → (R → Type 0) → Flow S R → Type 0
  Good Inv Post (next s) = Inv s
  Good Inv Post (exit r) = Post r

  go_on-Returns :
      (Inv : S → Type 0) (Post : R → Type 0) (flow : Flow S R) (k : S → Outcome (Flow S R))
      → Good Inv Post flow
      → ((s : S) → Inv s → Returns (Good Inv Post) (k s))
      → Returns (Good Inv Post) (go_on flow k)
  go_on-Returns Inv Post (next s) k h f = f s h
  go_on-Returns Inv Post (exit r) k h f = h

  -- With `end` inside the buffer the loop itself reads no byte out of bounds, it ends, and it
  -- keeps what each round keeps.
  pub walk-Returns :
      (bytes : Bytes) (end : ℕ) (Inv : S → Type 0) (Post : R → Type 0)
      → end ≤ length bytes
      → ((t l o : ℕ) (s : S) → Inv s → o + 4 ≤ end → Returns (Good Inv Post) (visit t l o s))
      → (fuel offset : ℕ) (s : S) → 0 < fuel
      → end < offset + fuel
      → Inv s
      → Returns (Good Inv Post) (walk bytes end visit fuel offset s)
  unfolding walk
  walk-Returns bytes end Inv Post inside keep zero offset s pos enough h = absurd (omega arith)
  walk-Returns bytes end Inv Post inside keep (suc fuel) offset s pos enough h =
      elim (Bool-cases (leb (offset + 4) end)) [
        | inr over ↦ rw over h
        | inl more ↦
            let room : offset + 4 ≤ end = leb→le (offset + 4) end more in
            let (t, et) = read_u16-in_bounds bytes offset (omega arith) in
            let (l, el) = read_u16-in_bounds bytes (offset + 2) (omega arith) in
            rw (more, et, el)
              (Returns-bind (Good Inv Post) (Good Inv Post) (visit t l offset s)
                (λ flow.
                  go_on flow (λ s'. walk bytes end visit fuel (offset + (4 + pad_to_4 l)) s'))
                (keep t l offset s h room)
                (λ flow g.
                  go_on-Returns Inv Post flow
                    (λ s'. walk bytes end visit fuel (offset + (4 + pad_to_4 l)) s') g
                    (λ s' h'.
                      walk-Returns bytes end Inv Post inside keep fuel (offset + (4 + pad_to_4 l))
                        s' (omega arith) (omega arith) h')))
      ]

  -- The loop over an encoded list of attributes makes one round for each attribute, in their order.
  pub walk-encode_attributes :
      (front rest : Bytes) (attributes : List Attribute)
      → All Fits attributes
      → (bytes : Bytes) (end : ℕ) → bytes ≡ front ++ (encode_attributes attributes ++ rest)
      → end ≡ length front + length (encode_attributes attributes)
      → (fuel offset : ℕ) (s : S) → offset ≡ length front
      → 0 < fuel
      → end < offset + fuel
      → walk bytes end visit fuel offset s ≡ visit_all offset attributes s
  unfolding walk visit_all encode_attributes
  walk-encode_attributes front rest attributes fits bytes end eb ee zero offset s eo pos enough =
      absurd (omega arith)
  walk-encode_attributes front rest [] fits bytes end eb ee (suc fuel) offset s eo pos enough =
      rw (leb-false (offset + 4) end (omega arith))
  walk-encode_attributes front rest (a ∷ as') fits bytes end eb ee (suc fuel) offset s eo pos
        enough =
      let size = length-encode_attribute a in
      let size' = length-append (encode_attribute a) (encode_attributes as') in
      let there : bytes ≡ front ++ (encode_attribute a ++ (encode_attributes as' ++ rest)) =
        eb
        ∙ ap (λ l. front ++ l) (append_assoc (encode_attribute a) (encode_attributes as') rest) in
      let deeper : bytes ≡ (front ++ encode_attribute a) ++ (encode_attributes as' ++ rest) =
        there ∙ sym (append_assoc front (encode_attribute a) (encode_attributes as' ++ rest)) in
      let grown = length-append front (encode_attribute a) in
      rw
        (
          le→leb (offset + 4) end (omega arith),
          read_header front (encode_attributes as' ++ rest) a bytes offset fits.0 there eo,
          read_header_length front (encode_attributes as' ++ rest) a bytes offset fits.0 there eo,
        )
        (ap (λ k. visit a.attr_type (length a.value) offset s >>= λ flow. go_on flow k)
          (fun_ext (λ s'.
            walk-encode_attributes (front ++ encode_attribute a) rest as' fits.1 bytes end deeper
              (omega arith) fuel (offset + (4 + pad_to_4 (length a.value))) s' (omega arith)
              (omega arith) (omega arith))))
