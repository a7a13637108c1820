-- ===== src/Wire/Laws.antt =====
-- Reading and writing inside a buffer that is given in parts, `front ++ rest`.
use p2psdk.Prelude.{
  ℕ, ◌+◌, ◌-◌, ◌<◌, ◌^◌, ◌≡◌, refl, ap, [], ◌∷◌, ◌++◌, length, length-append, take, drop,
  length-take, length-drop, ◌-◌, ◌*◌, ◌≤◌, take-append, drop-append, get_elem?, get_elem?-lt,
  le→leb, ret, arith,
}
use native.Mathlib.Nat.{zero-add, suc-add}
use p2psdk.Wire.{Bytes, byte_at, slice, write_bytes, be16, be32, read_u16, read_u32}

pub get_elem?-shift :
    (front rest : Bytes) (i : ℕ) → get_elem? (front ++ rest) (length front + i) ≡ get_elem? rest i
get_elem?-shift [] rest i = rw zero-add
get_elem?-shift (x ∷ front) rest i = rw suc-add (get_elem?-shift front rest i)

pub byte_at-shift :
    (front rest : Bytes) (n i : ℕ)
    → n ≡ length front + i
    → byte_at (front ++ rest) n ≡ byte_at rest i
unfolding byte_at
byte_at-shift front rest n i e = rw (e, get_elem?-shift front rest i)

pub read_u16-shift :
    (front rest : Bytes) (n i : ℕ)
    → n ≡ length front + i
    → read_u16 (front ++ rest) n ≡ read_u16 rest i
read_u16-shift front rest n i e =
    unfold read_u16 in
    rw (byte_at-shift front rest n i e, byte_at-shift front rest (n + 1) (i + 1) (omega arith))

pub read_u32-shift :
    (front rest : Bytes) (n i : ℕ)
    → n ≡ length front + i
    → read_u32 (front ++ rest) n ≡ read_u32 rest i
read_u32-shift front rest n i e =
    unfold read_u32 in
    rw (
      byte_at-shift front rest n i e,
      byte_at-shift front rest (n + 1) (i + 1) (omega arith),
      byte_at-shift front rest (n + 2) (i + 2) (omega arith),
      byte_at-shift front rest (n + 3) (i + 3) (omega arith),
    )

take-shift :
    (front rest : Bytes) (i : ℕ) → take (length front + i) (front ++ rest) ≡ front ++ take i rest
take-shift [] rest i = rw zero-add
take-shift (x ∷ front) rest i = rw (suc-add, take-shift front rest i)

drop-shift : (front rest : Bytes) (i : ℕ) → drop (length front + i) (front ++ rest) ≡ drop i rest
drop-shift [] rest i = rw zero-add
drop-shift (x ∷ front) rest i = rw suc-add (drop-shift front rest i)

-- The slice that stands behind `front`.
pub slice-middle :
    (front middle rest : Bytes) (from to : ℕ)
    → from ≡ length front
    → to ≡ length front + length middle
    → slice (front ++ (middle ++ rest)) from to ≡ ret middle
unfolding slice
slice-middle front middle rest from to p q =
    let span : to - from ≡ length middle = omega arith in
    rw (
      le→leb from to (omega arith),
      le→leb to (length (front ++ (middle ++ rest)))
          (omega (arith, length-append front (middle ++ rest), length-append middle rest)),
      span,
      p,
      drop-append front (middle ++ rest),
      take-append middle rest,
    )

-- A write over `old`, which is as long as what is written.
pub write_bytes-middle :
    (front old rest new : Bytes) (offset : ℕ)
    → offset ≡ length front
    → length old ≡ length new
    → write_bytes (front ++ (old ++ rest)) offset new ≡ ret (front ++ (new ++ rest))
unfolding write_bytes
write_bytes-middle front old rest new offset p q = rw (
  le→leb (offset + length new) (length (front ++ (old ++ rest)))
      (omega (arith, length-append front (old ++ rest), length-append old rest)),
  p,
  take-append front (old ++ rest),
  ← q,
  drop-shift front (old ++ rest) (length old),
  drop-append old rest,
)

-- What is in bounds can be read.
pub byte_at-lt : (buf : Bytes) (i : ℕ) → i < length buf → (b : ℕ) × (byte_at buf i ≡ ret b)
unfolding byte_at
byte_at-lt buf i h = let (b, e) = get_elem?-lt buf i h in (b, rw e)

pub length-be16 : (v : ℕ) → length (be16 v) ≡ 2
unfolding be16
length-be16 v = refl

pub length-be32 : (v : ℕ) → length (be32 v) ≡ 4
unfolding be32
length-be32 v = refl

pub read_u16-be16 : (v : ℕ) (rest : Bytes) → v < 2 ^ 16 → read_u16 (be16 v ++ rest) 0 ≡ ret v
unfolding read_u16 be16
read_u16-be16 v rest h = ap ret (omega arith)

pub read_u32-be32 : (v : ℕ) (rest : Bytes) → v < 2 ^ 32 → read_u32 (be32 v ++ rest) 0 ≡ ret v
unfolding read_u32 be32
read_u32-be32 v rest h = ap ret (omega arith)

pub slice-in_bounds :
    (buf : Bytes) (from to : ℕ)
    → from ≤ to
    → to ≤ length buf
    → (part : Bytes) × (slice buf from to ≡ ret part) × (length part ≡ to - from)
unfolding slice
slice-in_bounds buf from to p q = (
  take (to - from) (drop from buf),
  rw (le→leb from to p, le→leb to (length buf) q),
  omega (arith, length-take (to - from) (drop from buf), length-drop from buf),
)

pub read_u16-in_bounds :
    (buf : Bytes) (i : ℕ) → i + 2 ≤ length buf → (v : ℕ) × (read_u16 buf i ≡ ret v)
unfolding read_u16
read_u16-in_bounds buf i h =
    let (a, ea) = byte_at-lt buf i (omega arith) in
    let (b, eb) = byte_at-lt buf (i + 1) (omega arith) in (a * 256 + b, rw (ea, eb))

pub read_u32-in_bounds :
    (buf : Bytes) (i : ℕ) → i + 4 ≤ length buf → (v : ℕ) × (read_u32 buf i ≡ ret v)
unfolding read_u32
read_u32-in_bounds buf i h =
    let (a, ea) = byte_at-lt buf i (omega arith) in
    let (b, eb) = byte_at-lt buf (i + 1) (omega arith) in
    let (c, ec) = byte_at-lt buf (i + 2) (omega arith) in
    let (d, ed) = byte_at-lt buf (i + 3) (omega arith) in
    (a * 2 ^ 24 + b * 2 ^ 16 + c * 256 + d, rw (ea, eb, ec, ed))
