-- ===== src/Text/Words.antt =====
-- The string functions that the source calls: `strip_prefix`, `split`, `trim`, `splitn`, `rfind` and others.
use p2psdk.Prelude.{
  ℕ, zero, suc, Bool, true, false, not, ◌&&◌, ◌||◌, Option, none, some, List, [], ◌∷◌, ◌++◌, leb,
  ◌==◌, if◌then◌else◌,
}
use p2psdk.Wire.{Bytes}

unfoldable pub strip_prefix : Bytes → Bytes → Option Bytes
strip_prefix [] s = some s
strip_prefix (p ∷ ps) [] = none
strip_prefix (p ∷ ps) (c ∷ cs) = let rest = strip_prefix ps cs in if p == c then rest else none

-- How many bytes the white space takes that the text begins with; 0 if it begins with none. These
-- are the code points of the Unicode property White_Space.
unfoldable pub space_len : Bytes → ℕ
space_len (a ∷ b ∷ c ∷ bs) =
    if a == 0x20 || leb 0x09 a && leb a 0x0D
    then 1
    else if a == 0xC2 && (b == 0x85 || b == 0xA0)
    then 2
    else if a == 0xE1 && b == 0x9A && c == 0x80
    then 3
    else if a == 0xE2 && b == 0x80 && (leb c 0x8A || c == 0xA8 || c == 0xA9 || c == 0xAF)
    then 3
    else if a == 0xE2 && b == 0x81 && c == 0x9F
    then 3
    else if a == 0xE3 && b == 0x80 && c == 0x80
    then 3
    else 0
space_len (a ∷ b ∷ []) =
    if a == 0x20 || leb 0x09 a && leb a 0x0D
    then 1
    else if a == 0xC2 && (b == 0x85 || b == 0xA0)
    then 2
    else 0
space_len (a ∷ []) = if a == 0x20 || leb 0x09 a && leb a 0x0D then 1 else 0
space_len [] = 0

abbrev add_word : Bytes → List Bytes → List Bytes
add_word [] ws = ws
add_word (c ∷ cs) ws = (c ∷ cs) ∷ ws

-- `skip` bytes of white space are still to pass; `word` is the word so far.
words : ℕ → Bytes → Bytes → List Bytes
words skip word [] = add_word word []
words (suc skip) word (c ∷ cs) = words skip word cs
words zero word (c ∷ cs) = elim (space_len (c ∷ cs)) [
  | zero ↦ words zero (word ++ (c ∷ [])) cs
  | suc k ↦ add_word word (words k [] cs)
]

unfoldable pub split_whitespace : Bytes → List Bytes
unfolding words space_len
split_whitespace s = words 0 [] s

abbrev pub push_left : ℕ → Option (Bytes × Bytes) → Option (Bytes × Bytes)
push_left c none = none
push_left c (some (left, right)) = some (c ∷ left, right)

-- The parts before and behind the first `:`; `none` if there is none.
unfoldable pub split_colon : Bytes → Option (Bytes × Bytes)
split_colon [] = none
split_colon (c ∷ cs) =
    let rest = split_colon cs in if c == b':' then some ([], cs) else push_left c rest

abbrev pub push_front : ℕ → List Bytes → List Bytes
push_front c [] = (c ∷ []) ∷ []
push_front c (w ∷ ws) = (c ∷ w) ∷ ws

-- `split` at a character: one part more than there are such characters.
unfoldable pub split_on : ℕ → Bytes → List Bytes
split_on separator [] = [] ∷ []
split_on separator (c ∷ cs) =
    let rest = split_on separator cs in if c == separator then [] ∷ rest else push_front c rest

-- `split("::")`; `pending` says that a colon stands before the text.
unfoldable pub split_double_colon : Bool → Bytes → List Bytes
split_double_colon pending [] = if pending then (b':' ∷ []) ∷ [] else [] ∷ []
split_double_colon pending (c ∷ cs) =
    let rest = split_double_colon (c == b':' && not pending) cs in
    if c == b':'
    then (if pending then [] ∷ rest else rest)
    else (if pending then push_front b':' (push_front c rest) else push_front c rest)

abbrev pub or_colon : ℕ → Bytes → Option (Bytes × Bytes) → Option (Bytes × Bytes)
or_colon c cs none = if c == b':' then some ([], cs) else none
or_colon c cs (some (left, right)) = some (c ∷ left, right)

-- The parts before and behind the last `:`.
unfoldable pub split_last_colon : Bytes → Option (Bytes × Bytes)
split_last_colon [] = none
split_last_colon (c ∷ cs) = or_colon c cs (split_last_colon cs)

unfoldable pub contains : ℕ → Bytes → Bool
contains b [] = false
contains b (c ∷ cs) = c == b || contains b cs

-- `split("\r\n")`; `pending` says that a carriage return stands before the text.
unfoldable pub split_crlf : Bool → Bytes → List Bytes
split_crlf pending [] = if pending then (13 ∷ []) ∷ [] else [] ∷ []
split_crlf pending (c ∷ cs) =
    let rest = split_crlf (c == 13) cs in
    if pending && c == 10
    then [] ∷ rest
    else if c == 13
    then (if pending then push_front 13 rest else rest)
    else (if pending then push_front 13 (push_front c rest) else push_front c rest)

-- White space only; `skip` bytes of it are still to pass.
unfoldable pub all_space : ℕ → Bytes → Bool
all_space skip [] = true
all_space (suc skip) (c ∷ cs) = all_space skip cs
all_space zero (c ∷ cs) = elim (space_len (c ∷ cs)) [ zero ↦ false | suc k ↦ all_space k cs ]

unfoldable pub trim_start : ℕ → Bytes → Bytes
trim_start skip [] = []
trim_start (suc skip) (c ∷ cs) = trim_start skip cs
trim_start zero (c ∷ cs) = elim (space_len (c ∷ cs)) [ zero ↦ c ∷ cs | suc k ↦ trim_start k cs ]

unfoldable pub trim_end : Bytes → Bytes
trim_end [] = []
trim_end (c ∷ cs) = let rest = trim_end cs in if all_space 0 (c ∷ cs) then [] else c ∷ rest

unfoldable pub trim : Bytes → Bytes
trim s = trim_end (trim_start 0 s)
