-- ===== src/Ice/CheckList.antt =====
-- sdk/crates/p2p-core/src/ice/check_list.rs: priorities of candidates and pairs, the check list and
-- its lookups. The same priorities and the same sort stand in `start_checks` of
-- sdk/crates/p2p-core/src/ice/agent.rs.
pub mod Sorted
pub mod Lookup
pub mod Priority
use p2psdk.Prelude.{
  ℕ, zero, suc, ◌+◌, ◌-◌, ◌*◌, ◌/◌, ◌%◌, ◌^◌, ◌≤◌, ◌<◌, min, max, bit_and, bit_xor, ◌≡◌, refl, sym,
  ap, ap₂, ◌∙◌, ◌≢◌, ◌↔◌, ◌⊎◌, inl, inr, Bool, true, false, not, ◌&&◌, ◌||◌, Option, none, some,
  List, [], ◌∷◌, ◌++◌, map, append_assoc, append-nil, arith, ltb, leb, ◌==◌, if◌then◌else◌, ltb→lt,
  leb→le, le→leb, leb-false, ltb-false, ==_iff, Bool-cases, Option-cases, eq_bytes, eq_bytes_refl,
  eq_bytes_sound, position, length, get_elem?, take, drop, replicate, All, length-append,
  length-take, length-drop, length-replicate, take-append, drop-append, get_elem?-append,
  get_elem?-lt, Outcome, ret, panic, out_of_fuel, ◌>>=◌, ◌>>◌, Returns, Returns-eq, Returns-of_eq,
  Returns-bind,
}
use Prim.Native.Nat.{bit_or}
use p2psdk.Wire.{Bytes, u64}
use p2psdk.Types.{
  CandidateType, host, srflx, relay, IceRole, controlling, controlled, IceCandidate, CandidatePair,
  CheckState, waiting, is_succeeded, is_terminal,
}

abbrev local_pref : ℕ
local_pref = 0

abbrev component_id : ℕ
component_id = 1

abbrev pub max_retransmits : ℕ
max_retransmits = 7

abbrev pub initial_rto_ms : ℕ
initial_rto_ms = 500

abbrev pub max_rto_ms : ℕ
max_rto_ms = 16000

type_pref : CandidateType → ℕ
type_pref host = 126
type_pref srflx = 110
type_pref relay = 0

unfoldable pub calc_candidate_priority : CandidateType → ℕ
unfolding type_pref
calc_candidate_priority t =
    bit_or (bit_or (type_pref t * 2 ^ 24) (bit_and local_pref 0xFFFF * 2 ^ 8)) (256 - component_id)

-- The controlling side's priority and the controlled side's.
by_role : IceRole → ℕ → ℕ → ℕ × ℕ
by_role controlling l r = (l, r)
by_role controlled l r = (r, l)

abbrev min_max : ℕ → ℕ → ℕ × ℕ
min_max g d = if ltb g d then (g, d) else (d, g)

-- `2^32 * min(G, D) + 2 * max(G, D) + (G > D ? 1 : 0)` in 64 bits.
unfoldable pub calc_pair_priority : ℕ → ℕ → IceRole → ℕ
unfolding by_role
calc_pair_priority local_priority remote_priority role =
    let (g, d) = by_role role local_priority remote_priority in
    let (min_gd, max_gd) = min_max g d in
    u64 (2 ^ 32 * min_gd + 2 * max_gd + (if ltb d g then 1 else 0))

-- A new pair, as the loops of `build_check_list` and `start_checks` push it.
unfoldable pub new_pair : IceRole → IceCandidate → IceCandidate → CandidatePair
new_pair role l r = record {
  local = l;
  remote = r;
  state = waiting;
  nominated = false;
  priority = calc_pair_priority l.priority r.priority role;
  retransmit_count = 0;
  retransmit_timer_ms = initial_rto_ms;
  last_sent_time_ms = 0;
  transaction_id = [];
}

-- All pairs, the local candidate in the outer loop.
unfoldable pub all_pairs : IceRole → List IceCandidate → List IceCandidate → List CandidatePair
all_pairs role [] remotes = []
all_pairs role (l ∷ ls) remotes = map (new_pair role l) remotes ++ all_pairs role ls remotes

-- `sort_by(|a, b| b.priority.cmp(&a.priority))`: stable, by falling priority. A pair is put in
-- front of the first pair behind it that is not greater.
unfoldable pub insert_pair : CandidatePair → List CandidatePair → List CandidatePair
insert_pair p [] = p ∷ []
insert_pair p (q ∷ qs) = if ltb p.priority q.priority then q ∷ insert_pair p qs else p ∷ q ∷ qs

unfoldable pub sort_pairs : List CandidatePair → List CandidatePair
sort_pairs [] = []
sort_pairs (p ∷ ps) = insert_pair p (sort_pairs ps)

unfoldable pub build_check_list :
    List IceCandidate → List IceCandidate → IceRole → List CandidatePair
build_check_list local remote role = sort_pairs (all_pairs role local remote)

unfoldable pub find_pair_by_tid : List CandidatePair → Bytes → Option ℕ
find_pair_by_tid pairs tid = position (λ p. eq_bytes p.transaction_id tid) pairs

unfoldable pub find_pair_by_remote : List CandidatePair → Bytes → ℕ → Option ℕ
find_pair_by_remote pairs ip port =
    position (λ p. eq_bytes p.remote.connection_address ip && p.remote.port == port) pairs

unfoldable pub find_best_succeeded : List CandidatePair → Option ℕ
find_best_succeeded pairs = position (λ p. is_succeeded p.state) pairs

-- `iter().all`
abbrev pub all_of : (CandidatePair → Bool) → List CandidatePair → Bool
all_of test [] = true
all_of test (p ∷ ps) = test p && all_of test ps

abbrev pub is_empty {ℓ} : {A : Type ℓ} → List A → Bool
is_empty [] = true
is_empty (x ∷ xs) = false

unfoldable pub all_pairs_failed : List CandidatePair → Bool
all_pairs_failed pairs =
    if is_empty pairs
    then false
    else all_of (λ p. is_terminal p.state) pairs && all_of (λ p. not (is_succeeded p.state)) pairs
