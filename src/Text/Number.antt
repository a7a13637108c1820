-- ===== src/Text/Number.antt =====
-- Printing and parsing of unsigned numbers: `format!("{n}")`, `format!("{n:x}")`, `str::parse` and
-- `from_str_radix` of the standard library, as the source calls them.
use p2psdk.Prelude.{
  ℕ, zero, suc, ◌+◌, ◌-◌, ◌*◌, ◌/◌, ◌%◌, ◌≤◌, ◌<◌, ◌≡◌, refl, sym, ap, ◌∙◌, inl, inr, true, false,
  ◌&&◌, Option, none, some, [], ◌∷◌, arith, ltb, leb, ◌==◌, if◌then◌else◌, le→leb, Bool-cases,
}
use native.Mathlib.Nat.{div-add-mod}
use p2psdk.Wire.{Bytes}

unfoldable pub digit_char : ℕ → ℕ
digit_char d = if ltb d 10 then b'0' + d else b'a' + (d - 10)

abbrev pub below : ℕ → ℕ → Option ℕ
below radix d = if ltb d radix then some d else none

unfoldable pub char_digit : ℕ → ℕ → Option ℕ
char_digit radix c =
    if leb b'0' c && leb c b'9'
    then below radix (c - b'0')
    else if leb b'a' c && leb c b'z'
    then below radix (c - b'a' + 10)
    else if leb b'A' c && leb c b'Z'
    then below radix (c - b'A' + 10)
    else none

-- The digits of `n`, put in front of `rest`. `n` rounds are more than enough.
print_from : ℕ → ℕ → ℕ → Bytes → Bytes
print_from zero radix n rest = rest
print_from (suc fuel) radix n rest =
    let digits = digit_char (n % radix) ∷ rest in
    let more = print_from fuel radix (n / radix) digits in if n / radix == 0 then digits else more

unfoldable pub print_number : ℕ → ℕ → Bytes
unfolding print_from
print_number radix n = print_from (suc n) radix n []

unfoldable pub print_decimal : ℕ → Bytes
unfolding print_number
print_decimal n = print_number 10 n

unfoldable pub print_hex : ℕ → Bytes
unfolding print_number
print_hex n = print_number 16 n

-- Checked arithmetic: `none` above the type's greatest value.
parse_from : ℕ → ℕ → ℕ → Bytes → Option ℕ
parse_from radix greatest acc [] = some acc
parse_from radix greatest acc (c ∷ cs) = elim (char_digit radix c) [
  | none ↦ none
  | some d ↦ elim (leb (acc * radix + d) greatest) [
    | true ↦ parse_from radix greatest (acc * radix + d) cs
    | false ↦ none
  ]
]

-- One `+` may stand in front of the digits.
unfoldable pub parse_number : ℕ → ℕ → Bytes → Option ℕ
unfolding parse_from
parse_number radix greatest [] = none
parse_number radix greatest (c ∷ []) = parse_from radix greatest 0 (c ∷ [])
parse_number radix greatest (c ∷ d ∷ cs) =
    if c == b'+'
    then parse_from radix greatest 0 (d ∷ cs)
    else parse_from radix greatest 0 (c ∷ d ∷ cs)

char_digit-digit_char :
    (radix d : ℕ) → radix ≤ 16 → d < radix → char_digit radix (digit_char d) ≡ some d
unfolding char_digit digit_char
char_digit-digit_char radix d h k = ground arith

module _ (radix greatest : ℕ) (two : 2 ≤ radix) (sixteen : radix ≤ 16) where
  parse_digit :
      (acc : ℕ) (rest : Bytes) (d : ℕ)
      → d < radix
      → acc * radix + d ≤ greatest
      → parse_from radix greatest acc (digit_char d ∷ rest)
        ≡ parse_from radix greatest (acc * radix + d) rest
  unfolding parse_from
  parse_digit acc rest d h k =
      rw (char_digit-digit_char radix d sixteen h, le→leb (acc * radix + d) greatest k, parse_from)

  parse_from-print_from :
      (fuel n : ℕ) (rest : Bytes)
      → n < fuel
      → n ≤ greatest
      → parse_from radix greatest 0 (print_from fuel radix n rest)
        ≡ parse_from radix greatest n rest
  unfolding print_from
  parse_from-print_from zero n rest h k = absurd (omega arith)
  parse_from-print_from (suc fuel) n rest h k =
      let whole : n / radix * radix + n % radix ≡ n = grind (arith, div-add-mod n radix) in
      let small : n % radix < radix = grind arith in
      elim (Bool-cases (n / radix == 0)) [
        | inl one ↦
            let none_left : n / radix ≡ 0 = ground arith in
            rw one (
              parse_digit 0 rest (n % radix) small (ground arith)
              ∙ ap (λ m. parse_from radix greatest m rest) (ground arith))
        | inr several ↦
            let some_left : 0 < n / radix = ground arith in
            let falls : n / radix < n = grind arith in
            rw several (
              parse_from-print_from fuel (n / radix) (digit_char (n % radix) ∷ rest) (omega arith)
                (omega arith)
              ∙ parse_digit (n / radix) rest (n % radix) small (omega arith)
              ∙ ap (λ m. parse_from radix greatest m rest) whole)
      ]

  print_from-head :
      (fuel n : ℕ) (rest : Bytes)
      → (d : ℕ) × (ds : Bytes) × (d < radix)
        × (print_from (suc fuel) radix n rest ≡ digit_char d ∷ ds)
  unfolding print_from
  print_from-head zero n rest = (n % radix, rest, grind arith, ground arith)
  print_from-head (suc fuel) n rest = elim (Bool-cases (n / radix == 0)) [
    | inl one ↦ (n % radix, rest, grind arith, rw one)
    | inr several ↦ rw several (print_from-head fuel (n / radix) (digit_char (n % radix) ∷ rest))
  ]

  parse_number-digit :
      (d : ℕ) (ds : Bytes)
      → d < radix
      → parse_number radix greatest (digit_char d ∷ ds)
        ≡ parse_from radix greatest 0 (digit_char d ∷ ds)
  unfolding parse_number
  parse_number-digit d [] h = refl
  parse_number-digit d (c ∷ cs) h = rw (plus_no_digit d h)
    where
      plus_no_digit : (d : ℕ) → d < radix → (digit_char d == b'+') ≡ false
      plus_no_digit d h = unfold digit_char in ground arith

  -- A number that the type holds is parsed back from its digits.
  pub parse_number-print_number :
      (n : ℕ) → n ≤ greatest → parse_number radix greatest (print_number radix n) ≡ some n
  unfolding print_number
  parse_number-print_number n h =
      let (d, ds, small, shape) = print_from-head n n [] in
      rw shape (parse_number-digit d ds small)
      ∙ ap (parse_from radix greatest 0) (sym shape)
      ∙ parse_from-print_from (suc n) n [] (omega arith) h
      ∙ unfold parse_from in refl
