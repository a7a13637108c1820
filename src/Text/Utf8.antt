-- ===== src/Text/Utf8.antt =====
-- `String::from_utf8_lossy`: each maximal part that is no UTF-8 becomes U+FFFD.
use p2psdk.Prelude.{
  ℕ, zero, suc, ◌<◌, ◌≡◌, refl, Bool, ◌&&◌, [], ◌∷◌, ◌++◌, arith, ltb, leb, ◌==◌, if◌then◌else◌,
  length, All,
}
use p2psdk.Wire.{Bytes}

abbrev replacement : Bytes
replacement = 0xEF ∷ 0xBF ∷ 0xBD ∷ []

abbrev within : ℕ → ℕ → ℕ → Bool
within lo hi b = leb lo b && leb b hi

abbrev is_continuation : ℕ → Bool
is_continuation = within 0x80 0xBF

-- The second byte of a sequence of three or four bytes; overlong forms, surrogates and what lies
-- above U+10FFFF are ruled out here.
second_fits : ℕ → ℕ → Bool
second_fits b c =
    if b == 0xE0
    then within 0xA0 0xBF c
    else if b == 0xED
    then within 0x80 0x9F c
    else if b == 0xF0
    then within 0x90 0xBF c
    else if b == 0xF4
    then within 0x80 0x8F c
    else is_continuation c

-- The last bytes that a started sequence still needs: as many as the count says.
finish_char : ℕ → Bytes → Bytes → Bytes × Bytes
finish_char zero seen bs = (seen, bs)
finish_char (suc n) seen [] = (replacement, [])
finish_char (suc n) seen (c ∷ bs) =
    let more = finish_char n (seen ++ (c ∷ [])) bs in
    if is_continuation c then more else (replacement, c ∷ bs)

long_char : ℕ → ℕ → Bytes → Bytes × Bytes
long_char n b [] = (replacement, [])
long_char n b (c ∷ bs) =
    if second_fits b c then finish_char n (b ∷ c ∷ []) bs else (replacement, c ∷ bs)

-- What the first character or maximal invalid part gives, and the bytes behind it.
next_char : ℕ → Bytes → Bytes × Bytes
unfolding long_char finish_char second_fits
next_char b bs =
    if ltb b 0x80
    then (b ∷ [], bs)
    else if within 0xC2 0xDF b
    then finish_char 1 (b ∷ []) bs
    else if within 0xE0 0xEF b
    then long_char 1 b bs
    else if within 0xF0 0xF4 b
    then long_char 2 b bs
    else (replacement, bs)

lossy_from : ℕ → Bytes → Bytes
unfolding next_char
lossy_from zero bs = []
lossy_from (suc fuel) [] = []
lossy_from (suc fuel) (b ∷ bs) = let (out, rest) = next_char b bs in out ++ lossy_from fuel rest

-- Each round takes a byte at least.
unfoldable pub from_utf8_lossy : Bytes → Bytes
unfolding lossy_from
from_utf8_lossy bs = lossy_from (length bs) bs

-- ASCII text is kept as it is.
pub from_utf8_lossy-ascii : (bs : Bytes) → All (λ b. b < 128) bs → from_utf8_lossy bs ≡ bs
unfolding from_utf8_lossy
from_utf8_lossy-ascii bs h = go bs h
  where
    go : (bs : Bytes) → All (λ b. b < 128) bs → lossy_from (length bs) bs ≡ bs
    go [] h = refl
    go (b ∷ bs) h = ground (arith, go bs h.1)
