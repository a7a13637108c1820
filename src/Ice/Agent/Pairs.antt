-- ===== src/Ice/Agent/Pairs.antt =====
-- sdk/crates/p2p-core/src/ice/agent.rs: how the code changes one pair of the check list, and the
-- retransmission timer of RFC 8445 that it keeps.
use p2psdk.Prelude.{
  ℕ, zero, suc, ◌+◌, ◌*◌, ◌^◌, ◌≤◌, ◌<◌, min, ◌≡◌, refl, ap, ◌∙◌, inl, inr, false, List, [], ◌∷◌,
  map, arith, leb, Bool-cases, length, All,
}
use p2psdk.Ice.Agent.Incoming.{modify_at, succeed, start_nomination, restart_pair}
use p2psdk.Ice.Agent.Tick.{sent_pair}
use p2psdk.Ice.CheckList.{new_pair, max_retransmits, max_rto_ms, initial_rto_ms}
use p2psdk.Types.{CandidatePair, IceCandidate, IceRole, is_terminal, is_in_progress}
use p2psdk.Wire.{Bytes, u32, u64}

-- The time to wait after `count` requests: doubled from 500 ms, at most 16 s.
abbrev pub backoff : ℕ → ℕ
backoff count = min (initial_rto_ms * 2 ^ count) max_rto_ms

abbrev pub PairOk : CandidatePair → Type 0
PairOk p =
    (p.retransmit_count ≤ max_retransmits)
    × (p.retransmit_timer_ms ≡ backoff p.retransmit_count)
    × (is_terminal p.state ≡ false → p.retransmit_count < max_retransmits)

-- The requests that the pairs count.
abbrev pub requests : List CandidatePair → ℕ
requests [] = 0
requests (p ∷ ps) = p.retransmit_count + requests ps

-- Sound pairs count seven requests each at most.
pub requests-bounded : (ps : List CandidatePair) → All PairOk ps → requests ps ≤ 7 * length ps
requests-bounded [] h = omega arith
requests-bounded (p ∷ ps) h = omega (arith, h.0.0, requests-bounded ps h.1)

-- A request that is sent is counted.
pub sent_pair-counted :
    (p : CandidatePair) (tid : Bytes) (now_ms : ℕ)
    → is_terminal p.state ≡ false
    → PairOk p
    → (sent_pair p tid now_ms).retransmit_count ≡ 1 + p.retransmit_count
unfolding sent_pair
sent_pair-counted p tid now_ms unsettled pok = omega (arith, pok.2 unsettled)

backoff-suc : (c : ℕ) → c < 7 → min (u64 (backoff c * 2)) max_rto_ms ≡ backoff (suc c)
backoff-suc c h = omega arith

pub sent_pair-PairOk :
    (p : CandidatePair) (tid : Bytes) (now_ms : ℕ)
    → is_terminal p.state ≡ false
    → PairOk p
    → PairOk (sent_pair p tid now_ms)
unfolding sent_pair
sent_pair-PairOk p tid now_ms unsettled pok =
    let below = pok.2 unsettled in
    let next : u32 (p.retransmit_count + 1) ≡ suc p.retransmit_count = omega arith in
    elim (Bool-cases (leb max_retransmits (suc p.retransmit_count))) [
      | inl e ↦
          let last : p.retransmit_count ≡ 6 = ground arith in
          rw (next, e) (omega arith, pok.1 ∙ (rw last refl), λ h. cc)
      | inr e ↦
          rw (next, e)
            (
              omega arith,
              ap (λ t. min (u64 (t * 2)) max_rto_ms) pok.1 ∙ backoff-suc p.retransmit_count below,
              λ h. ground arith,
            )
    ]

pub new_pair-PairOk : (role : IceRole) (l r : IceCandidate) → PairOk (new_pair role l r)
unfolding new_pair
new_pair-PairOk role l r = (omega arith, refl, λ e. omega arith)

pub restart_pair-PairOk : (p : CandidatePair) → PairOk p → PairOk (restart_pair p)
unfolding restart_pair
restart_pair-PairOk p pok = elim (Bool-cases (is_in_progress p.state)) [
  | inl e ↦ rw e (omega arith, refl, λ h. omega arith)
  | inr e ↦ rw e pok
]

pub succeed-PairOk : (p : CandidatePair) → PairOk p → PairOk (succeed p)
succeed-PairOk p pok = (pok.0, pok.1, λ e. cc)

pub start_nomination-PairOk : (p : CandidatePair) → PairOk (start_nomination p)
start_nomination-PairOk p = (omega arith, refl, λ e. omega arith)

module _ (f : CandidatePair → CandidatePair) where
  pub length-modify_at : (i : ℕ) (ps : List CandidatePair) → length (modify_at f i ps) ≡ length ps
  length-modify_at i [] = refl
  length-modify_at zero (p ∷ ps) = refl
  length-modify_at (suc i) (p ∷ ps) = ap suc (length-modify_at i ps)

  pub modify_at-All :
      (P : CandidatePair → Type 0)
      → ((p : CandidatePair) → P p → P (f p))
      → (i : ℕ) (ps : List CandidatePair) → All P ps
      → All P (modify_at f i ps)
  modify_at-All P keeps i [] h = tt
  modify_at-All P keeps zero (p ∷ ps) h = (keeps p h.0, h.1)
  modify_at-All P keeps (suc i) (p ∷ ps) h = (h.0, modify_at-All P keeps i ps h.1)

module _ (f : CandidatePair → CandidatePair) where
  pub length-map : (ps : List CandidatePair) → length (map f ps) ≡ length ps
  length-map [] = refl
  length-map (p ∷ ps) = ap suc (length-map ps)

  pub map-All :
      (P : CandidatePair → Type 0)
      → ((p : CandidatePair) → P p → P (f p))
      → (ps : List CandidatePair) → All P ps
      → All P (map f ps)
  map-All P keeps [] h = tt
  map-All P keeps (p ∷ ps) h = (keeps p h.0, map-All P keeps ps h.1)
