-- ===== src/Ice/CheckList/Sorted.antt =====
-- The check list is the sorted list of all pairs (check_list.rs).
use p2psdk.Prelude.{
  ℕ, suc, ◌*◌, ◌≤◌, ◌≡◌, refl, ap, ◌∙◌, inl, inr, List, [], ◌∷◌, ◌++◌, map, arith, ltb, Bool-cases,
  length, All, length-append,
}
use mathlib.Core.List.{Perm}
use mathlib.Core.List.Perm
use p2psdk.Ice.CheckList.{new_pair, all_pairs, insert_pair, sort_pairs, build_check_list}
use p2psdk.Types.{CandidatePair, IceCandidate, IceRole}

-- No pair is behind one of a smaller priority.
abbrev pub IsSorted : List CandidatePair → Type 0
IsSorted [] = Unit
IsSorted (p ∷ ps) = All (λ q. q.priority ≤ p.priority) ps × IsSorted ps

All-le_trans :
    (a b : ℕ) (ps : List CandidatePair)
    → All (λ q. q.priority ≤ a) ps
    → a ≤ b
    → All (λ q. q.priority ≤ b) ps
All-le_trans a b [] h k = tt
All-le_trans a b (p ∷ ps) h k = (omega arith, All-le_trans a b ps h.1 k)

module _ (P : CandidatePair → Type 0) where
  insert_pair-All :
      (p : CandidatePair) (ps : List CandidatePair) → P p → All P ps → All P (insert_pair p ps)
  unfolding insert_pair
  insert_pair-All p [] h k = (h, tt)
  insert_pair-All p (q ∷ qs) h k = elim (Bool-cases (ltb p.priority q.priority)) [
    | inl e ↦ rw e (k.0, insert_pair-All p qs h k.1)
    | inr e ↦ rw e (h, k)
  ]

  sort_pairs-All : (ps : List CandidatePair) → All P ps → All P (sort_pairs ps)
  unfolding sort_pairs
  sort_pairs-All [] h = tt
  sort_pairs-All (p ∷ ps) h = insert_pair-All p (sort_pairs ps) h.0 (sort_pairs-All ps h.1)

  append-All : (ps qs : List CandidatePair) → All P ps → All P qs → All P (ps ++ qs)
  append-All [] qs h k = k
  append-All (p ∷ ps) qs h k = (h.0, append-All ps qs h.1 k)

  module _ (role : IceRole) (fresh : (l r : IceCandidate) → P (new_pair role l r)) where
    map-new_pair-All :
        (l : IceCandidate) (rs : List IceCandidate) → All P (map (new_pair role l) rs)
    map-new_pair-All l [] = tt
    map-new_pair-All l (r ∷ rs) = (fresh l r, map-new_pair-All l rs)

    all_pairs-All : (ls rs : List IceCandidate) → All P (all_pairs role ls rs)
    unfolding all_pairs
    all_pairs-All [] rs = tt
    all_pairs-All (l ∷ ls) rs =
        append-All (map (new_pair role l) rs) (all_pairs role ls rs) (map-new_pair-All l rs)
          (all_pairs-All ls rs)

    pub build_check_list-All : (ls rs : List IceCandidate) → All P (build_check_list ls rs role)
    unfolding build_check_list
    build_check_list-All ls rs = sort_pairs-All (all_pairs role ls rs) (all_pairs-All ls rs)

insert_pair-IsSorted :
    (p : CandidatePair) (ps : List CandidatePair) → IsSorted ps → IsSorted (insert_pair p ps)
unfolding insert_pair
insert_pair-IsSorted p [] h = (tt, tt)
insert_pair-IsSorted p (q ∷ qs) h = elim (Bool-cases (ltb p.priority q.priority)) [
  | inl e ↦ rw e (
    insert_pair-All (λ r. r.priority ≤ q.priority) p qs (ground arith) h.0,
    insert_pair-IsSorted p qs h.1,
  )
  | inr e ↦
      let below : q.priority ≤ p.priority = ground arith in
      rw e ((below, All-le_trans q.priority p.priority qs h.0 below), h)
]

insert_pair-perm : (p : CandidatePair) (ps : List CandidatePair) → Perm (insert_pair p ps) (p ∷ ps)
unfolding insert_pair
insert_pair-perm p [] = Perm.refl _
insert_pair-perm p (q ∷ qs) = elim (Bool-cases (ltb p.priority q.priority)) [
  | inl e ↦ rw e (Perm.trans (Perm.cons q (insert_pair-perm p qs)) (Perm.swap p q qs))
  | inr e ↦ rw e (Perm.refl _)
]

pub sort_pairs-IsSorted : (ps : List CandidatePair) → IsSorted (sort_pairs ps)
unfolding sort_pairs
sort_pairs-IsSorted [] = tt
sort_pairs-IsSorted (p ∷ ps) = insert_pair-IsSorted p (sort_pairs ps) (sort_pairs-IsSorted ps)

pub sort_pairs-perm : (ps : List CandidatePair) → Perm (sort_pairs ps) ps
unfolding sort_pairs
sort_pairs-perm [] = Perm.refl _
sort_pairs-perm (p ∷ ps) =
    Perm.trans (insert_pair-perm p (sort_pairs ps)) (Perm.cons p (sort_pairs-perm ps))

length-insert_pair :
    (p : CandidatePair) (ps : List CandidatePair) → length (insert_pair p ps) ≡ suc (length ps)
unfolding insert_pair
length-insert_pair p [] = refl
length-insert_pair p (q ∷ qs) = ground (arith, length-insert_pair p qs)

length-sort_pairs : (ps : List CandidatePair) → length (sort_pairs ps) ≡ length ps
unfolding sort_pairs
length-sort_pairs [] = refl
length-sort_pairs (p ∷ ps) =
    omega (arith, length-insert_pair p (sort_pairs ps), length-sort_pairs ps)

length-map-new_pair :
    (role : IceRole) (l : IceCandidate) (rs : List IceCandidate)
    → length (map (new_pair role l) rs) ≡ length rs
length-map-new_pair role l [] = refl
length-map-new_pair role l (r ∷ rs) = ap suc (length-map-new_pair role l rs)

length-all_pairs :
    (role : IceRole) (ls rs : List IceCandidate)
    → length (all_pairs role ls rs) ≡ length ls * length rs
unfolding all_pairs
length-all_pairs role [] rs = omega arith
length-all_pairs role (l ∷ ls) rs = grind (
  arith,
  length-append (map (new_pair role l) rs) (all_pairs role ls rs),
  length-map-new_pair role l rs,
  length-all_pairs role ls rs,
)

-- The check list holds each pair of a local and a remote candidate as often as the loops make it, in
-- the order of falling priority, and has as many entries as there are such pairs.
pub build_check_list_lem :
    (locals remotes : List IceCandidate) (role : IceRole)
    → IsSorted (build_check_list locals remotes role)
      × Perm (build_check_list locals remotes role) (all_pairs role locals remotes)
      × (length (build_check_list locals remotes role) ≡ length locals * length remotes)
unfolding build_check_list
build_check_list_lem locals remotes role = (
  sort_pairs-IsSorted (all_pairs role locals remotes),
  sort_pairs-perm (all_pairs role locals remotes),
  length-sort_pairs (all_pairs role locals remotes) ∙ length-all_pairs role locals remotes,
)
