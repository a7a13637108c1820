-- ===== src/Ice/CheckList/Lookup.antt =====
-- The lookups in the check list (check_list.rs).
use p2psdk.Prelude.{
  ℕ, zero, suc, ◌≤◌, ◌≡◌, refl, ◌≢◌, ◌↔◌, true, not, none, some, List, [], ◌∷◌, arith, FirstAt,
  position-FirstAt, position-none, All-map, get_elem?, All,
}
use p2psdk.Ice.CheckList.{find_best_succeeded, all_pairs_failed, all_of}
use p2psdk.Ice.CheckList.Sorted.{IsSorted}
use p2psdk.Types.{CandidatePair, succeeded, failed, is_succeeded, is_terminal, CheckState}

-- No succeeded pair has a greater priority.
abbrev pub IsBest : CandidatePair → List CandidatePair → Type 0
IsBest p qs = All (λ q. q.state ≡ succeeded → q.priority ≤ p.priority) qs

IsBest-below :
    (p : CandidatePair) (qs : List CandidatePair)
    → All (λ q. q.priority ≤ p.priority) qs
    → IsBest p qs
IsBest-below p [] h = tt
IsBest-below p (q ∷ qs) h = (λ e. h.0, IsBest-below p qs h.1)

is_succeeded-true : (s : CheckState) → is_succeeded s ≡ true → s ≡ succeeded
is_succeeded-true s h = ground arith

first_succeeded-IsBest :
    (ps : List CandidatePair) (i : ℕ)
    → IsSorted ps
    → FirstAt (λ p. is_succeeded p.state) ps i
    → (p : CandidatePair) × (get_elem? ps i ≡ some p) × (p.state ≡ succeeded) × IsBest p ps
first_succeeded-IsBest [] i h f = absurd f
first_succeeded-IsBest (p ∷ ps) zero h f =
    (p, refl, is_succeeded-true p.state f, (λ e. omega arith, IsBest-below p ps h.0))
first_succeeded-IsBest (p ∷ ps) (suc i) h f =
    let (q, at, ok, best) = first_succeeded-IsBest ps i h.1 f.1 in
    (q, at, ok, (λ e. ground arith, best))

-- In a sorted check list the lookup finds a succeeded pair of the greatest priority among the
-- succeeded ones, and it finds none only if no pair has succeeded.
pub find_best_succeeded_lem :
    (ps : List CandidatePair)
    → IsSorted ps
    → ((i : ℕ)
        → find_best_succeeded ps ≡ some i
        → (p : CandidatePair) × (get_elem? ps i ≡ some p) × (p.state ≡ succeeded) × IsBest p ps)
      × (find_best_succeeded ps ≡ none → All (λ p. p.state ≢ succeeded) ps)
unfolding find_best_succeeded
find_best_succeeded_lem ps h = (
  λ i e. first_succeeded-IsBest ps i h (position-FirstAt (λ p. is_succeeded p.state) ps e),
  λ e. All-map ps (λ p f. λ k. ground arith) (position-none (λ p. is_succeeded p.state) ps e),
)

All-failed-true :
    (ps : List CandidatePair)
    → all_of (λ p. is_terminal p.state) ps ≡ true
    → all_of (λ p. not (is_succeeded p.state)) ps ≡ true
    → All (λ p. p.state ≡ failed) ps
All-failed-true [] h k = tt
All-failed-true (p ∷ ps) h k = (ground arith, All-failed-true ps (ground arith) (ground arith))

All-failed_tests :
    (ps : List CandidatePair)
    → All (λ p. p.state ≡ failed) ps
    → (all_of (λ p. is_terminal p.state) ps ≡ true)
      × (all_of (λ p. not (is_succeeded p.state)) ps ≡ true)
All-failed_tests [] h = (refl, refl)
All-failed_tests (p ∷ ps) h = let (a, b) = All-failed_tests ps h.1 in rw (h.0, a, b) (refl, refl)

-- `all_pairs_failed` holds exactly if there is a pair and every pair has failed.
pub all_pairs_failed_iff :
    (ps : List CandidatePair)
    → (all_pairs_failed ps ≡ true) ↔ ((ps ≢ []) × All (λ p. p.state ≡ failed) ps)
unfolding all_pairs_failed
all_pairs_failed_iff [] = (λ h. cc, λ h. absurd (h.0 refl))
all_pairs_failed_iff (p ∷ ps) = (
  λ h. (λ e. cc, All-failed-true (p ∷ ps) (ground arith) (ground arith)),
  λ h. let (a, b) = All-failed_tests (p ∷ ps) h.1 in rw (a, b),
)
