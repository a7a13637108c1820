-- ===== src/Ice/Candidate.antt =====
-- sdk/crates/p2p-core/src/ice/candidate.rs: candidate lines.
use p2psdk.Prelude.{
  ℕ, ◌+◌, ◌-◌, ◌^◌, Bool, true, false, ◌&&◌, Option, none, some, List, [], ◌∷◌, ◌++◌, ltb,
  if◌then◌else◌, eq_bytes, length, get_elem?, drop,
}
use p2psdk.Text.Number.{print_decimal, parse_number}
use p2psdk.Text.Words.{strip_prefix, split_whitespace}
use p2psdk.Types.{IceCandidate, codes, as_str, from_str}
use p2psdk.Wire.{Bytes}

-- `parts[i]`; every index that is read is in bounds.
abbrev part : List Bytes → ℕ → Bytes
part parts i = elim (get_elem? parts i) [ none ↦ [] | some p ↦ p ]

abbrev or_zero : Option ℕ → ℕ
or_zero none = 0
or_zero (some n) = n

-- The loop over the parts behind the type, two neighbours at a time.
related : List Bytes → Bytes → ℕ → Bytes × ℕ
related [] address port = (address, port)
related (w ∷ []) address port = (address, port)
related (w ∷ v ∷ parts) address port =
    related (v ∷ parts) (if eq_bytes w (codes "raddr") then v else address)
      (if eq_bytes w (codes "rport") then or_zero (parse_number 10 (2 ^ 16 - 1) v) else port)

infixl 5 ◌>>?◌
abbrev ◌>>?◌ {ℓ κ} : {A : Type ℓ} {B : Type κ} → Option A → (A → Option B) → Option B
none >>? f = none
some a >>? f = f a

-- `parts[6]` may be `typ`, or the type itself.
parse_parts : List Bytes → Option IceCandidate
unfolding related
parse_parts parts =
    let type_idx : ℕ =
      if ltb 7 (length parts) && eq_bytes (part parts 6) (codes "typ") then 7 else 6 in
    let (address, port) = related (drop (type_idx + 1) parts) [] 0 in
    parse_number 10 255 (part parts 1) >>? λ component_id.
    parse_number 10 (2 ^ 32 - 1) (part parts 3) >>? λ priority.
    parse_number 10 (2 ^ 16 - 1) (part parts 5) >>? λ own_port.
    from_str (part parts type_idx) >>? λ candidate_type. some (record {
      foundation = part parts 0;
      component_id = component_id;
      transport = part parts 2;
      priority = priority;
      connection_address = part parts 4;
      port = own_port;
      candidate_type = candidate_type;
      related_address = address;
      related_port = port;
    })

unfoldable pub parse_candidate_line : Bytes → Option IceCandidate
unfolding parse_parts
parse_candidate_line line = strip_prefix (codes "candidate:") line >>? λ stripped.
    let parts = split_whitespace stripped in
    if ltb (length parts) 7 then none else parse_parts parts

abbrev is_nil : Bytes → Bool
is_nil [] = true
is_nil (c ∷ cs) = false

abbrev space : Bytes → Bytes → Bytes
space a b = a ++ (b' ' ∷ b)

unfoldable pub format_candidate_line : IceCandidate → Bytes
format_candidate_line cand =
    codes "candidate:"
    ++ (space cand.foundation (
          space (print_decimal cand.component_id) (
            space cand.transport (
              space (print_decimal cand.priority) (
                space cand.connection_address (
                  space (print_decimal cand.port)
                    (space (codes "typ") (as_str cand.candidate_type)))))))
        ++ (if is_nil cand.related_address
            then []
            else codes " raddr "
              ++ (cand.related_address ++ (codes " rport " ++ print_decimal cand.related_port))))
