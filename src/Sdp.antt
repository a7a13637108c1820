-- ===== src/Sdp.antt =====
-- sdk/crates/p2p-core/src/sdp.rs: the offer that is sent and the answer that is read. The time is an
-- argument.
use p2psdk.Prelude.{
  ℕ, Bool, true, false, Option, none, some, List, [], ◌∷◌, ◌++◌, map, if◌then◌else◌, eq_bytes,
}
use p2psdk.Text.Number.{print_decimal}
use p2psdk.Text.Words.{strip_prefix, split_crlf, trim}
use p2psdk.Types.{codes}
use p2psdk.Wire.{Bytes}

pub record SdpAnswerInfo : Type 0 where
  pub ufrag : Bytes
  pub pwd : Bytes
  pub is_lite : Bool
  pub candidates : List Bytes

abbrev pub crlf : Bytes
crlf = 13 ∷ 10 ∷ []

-- `lines.join("\r\n")`, and the line end behind the last line.
unfoldable pub join_lines : List Bytes → Bytes
join_lines [] = []
join_lines (line ∷ lines) = line ++ (crlf ++ join_lines lines)

unfoldable pub offer_lines : Bytes → Bytes → Bytes → List Bytes → Bytes → ℕ → ℕ → List Bytes
offer_lines odid local_ufrag local_pwd candidates default_ip default_port timestamp =
    codes "v=0"
    ∷ (codes "o="
        ++ (odid ++ (b' ' ∷ (print_decimal timestamp ++ (codes " 1 IN IP4 " ++ default_ip)))))
    ∷ codes "s=-"
    ∷ codes "t=0 0"
    ∷ (codes "m=data " ++ (print_decimal default_port ++ codes " UDP/RTP/AVP 0"))
    ∷ (codes "c=IN IP4 " ++ default_ip)
    ∷ (codes "a=ice-ufrag:" ++ local_ufrag)
    ∷ (codes "a=ice-pwd:" ++ local_pwd)
    ∷ map (λ cand. codes "a=" ++ cand) candidates

unfoldable pub generate_sdp_offer : Bytes → Bytes → Bytes → List Bytes → Bytes → ℕ → ℕ → Bytes
generate_sdp_offer odid local_ufrag local_pwd candidates default_ip default_port timestamp =
    join_lines (offer_lines odid local_ufrag local_pwd candidates default_ip default_port timestamp)

abbrev set_ufrag : SdpAnswerInfo → Option Bytes → Option SdpAnswerInfo
set_ufrag info none = none
set_ufrag info (some val) = some (record info { ufrag = val })

abbrev set_pwd : SdpAnswerInfo → Option Bytes → Option SdpAnswerInfo
set_pwd info none = none
set_pwd info (some val) = some (record info { pwd = val })

abbrev set_lite : SdpAnswerInfo → Bool → Option SdpAnswerInfo
set_lite info lite = if lite then some (record info { is_lite = true }) else none

abbrev push_candidate : SdpAnswerInfo → Option Bytes → SdpAnswerInfo
push_candidate info none = info
push_candidate info (some line) = record info {
  candidates = info.candidates ++ ((codes "candidate:" ++ line) ∷ []);
}

-- The first alternative that applies.
abbrev or_else {ℓ} : {A : Type ℓ} → Option A → Option A → Option A
or_else (some a) o = some a
or_else none o = o

abbrev or_keep {ℓ} : {A : Type ℓ} → Option A → A → A
or_keep (some a) b = a
or_keep none b = b

unfoldable pub read_line : SdpAnswerInfo → Bytes → SdpAnswerInfo
read_line info line =
    let trimmed = trim line in
    or_keep
      (or_else (set_ufrag info (strip_prefix (codes "a=ice-ufrag:") trimmed)) (
        or_else (set_pwd info (strip_prefix (codes "a=ice-pwd:") trimmed))
          (set_lite info (eq_bytes trimmed (codes "a=ice-lite")))))
      (push_candidate info (strip_prefix (codes "a=candidate:") trimmed))

unfoldable pub read_lines : SdpAnswerInfo → List Bytes → SdpAnswerInfo
read_lines info [] = info
read_lines info (line ∷ lines) = read_lines (read_line info line) lines

unfoldable pub parse_sdp_answer : Bytes → SdpAnswerInfo
parse_sdp_answer sdp_text =
    read_lines (record { ufrag = []; pwd = []; is_lite = false; candidates = [] })
      (split_crlf false sdp_text)
