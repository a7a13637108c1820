-- ===== src/Ice/CheckList/Priority.antt =====
-- Priorities of candidates and of pairs (check_list.rs).
use p2psdk.Prelude.{ℕ, ◌+◌, ◌-◌, ◌*◌, ◌^◌, ◌≤◌, ◌<◌, min, max, ◌≡◌, refl, arith, ltb, if◌then◌else◌}
use p2psdk.Ice.CheckList.{calc_candidate_priority, calc_pair_priority}
use p2psdk.Types.{CandidateType, host, srflx, relay, IceRole, controlling, controlled}

-- Host candidates come before server-reflexive ones and those before relayed ones, and every
-- priority is one that RFC 8445 allows, from 1 to 2^31 - 1.
pub calc_candidate_priority_order :
    (calc_candidate_priority srflx < calc_candidate_priority host)
    × (calc_candidate_priority relay < calc_candidate_priority srflx)
    × ((t : CandidateType) → (1 ≤ calc_candidate_priority t) × (calc_candidate_priority t < 2 ^ 31))
unfolding calc_candidate_priority
calc_candidate_priority_order = (omega arith, omega arith, bounds)
  where
    bounds :
        (t : CandidateType) → (1 ≤ calc_candidate_priority t) × (calc_candidate_priority t < 2 ^ 31)
    bounds host = omega arith
    bounds srflx = omega arith
    bounds relay = omega arith

-- The 64-bit sum is exact (RFC 8445, 6.1.2.3) unless both priorities are the greatest number of 32
-- bits, and then it wraps.
pub calc_pair_priority_exact :
    (l r : ℕ)
    → l < 2 ^ 32
    → r < 2 ^ 32
    → (min l r < 2 ^ 32 - 1
        → calc_pair_priority l r controlling
          ≡ 2 ^ 32 * min l r + 2 * max l r + (if ltb r l then 1 else 0))
      × (min l r ≡ 2 ^ 32 - 1 → calc_pair_priority l r controlling ≡ 2 ^ 32 - 2)
unfolding calc_pair_priority
calc_pair_priority_exact l r hl hr = (λ h. ground arith, λ h. ground arith)

-- The controlling agent and the controlled one give a pair the same priority.
pub calc_pair_priority_agree :
    (l r : ℕ) → calc_pair_priority l r controlling ≡ calc_pair_priority r l controlled
unfolding calc_pair_priority
calc_pair_priority_agree l r = refl

-- Below 2^31 a pair's priority determines both candidates' priorities.
pub calc_pair_priority_injective :
    (role : IceRole) (l r l' r' : ℕ)
    → l < 2 ^ 31
    → r < 2 ^ 31
    → l' < 2 ^ 31
    → r' < 2 ^ 31
    → calc_pair_priority l r role ≡ calc_pair_priority l' r' role
    → (l ≡ l') × (r ≡ r')
unfolding calc_pair_priority
calc_pair_priority_injective controlling l r l' r' a b c d e = ground arith
calc_pair_priority_injective controlled l r l' r' a b c d e = ground arith
