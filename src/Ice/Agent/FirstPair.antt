-- ===== src/Ice/Agent/FirstPair.antt =====
-- sdk/crates/p2p-core/src/ice/agent.rs and check_list.rs: the first pair that a datagram is about.
use p2psdk.Prelude.{
  ℕ, ◌≡◌, refl, ap, ◌≢◌, inl, inr, Bool, true, false, ◌&&◌, some, List, [], ◌∷◌, ◌++◌, ◌==◌, ==_iff,
  Bool-cases, eq_bytes, eq_bytes_refl, eq_bytes_sound, position, All-map, length, All,
}
use p2psdk.Ice.Agent.Incoming.{modify_at}
use p2psdk.Ice.CheckList.{find_pair_by_remote, find_pair_by_tid}
use p2psdk.Types.{CandidatePair}
use p2psdk.Wire.{Bytes}

position-append :
    {A : Type 0} (test : A → Bool) (pre : List A) (x : A) (post : List A)
    → All (λ y. test y ≡ false) pre
    → test x ≡ true
    → position test (pre ++ (x ∷ post)) ≡ some (length pre)
unfolding position
position-append test [] x post before found = rw found refl
position-append test (y ∷ pre) x post before found =
    rw (before.0, position-append test pre x post before.1 found) refl

eq_bytes-other : (xs ys : Bytes) → xs ≢ ys → eq_bytes xs ys ≡ false
eq_bytes-other xs ys differ = elim (Bool-cases (eq_bytes xs ys)) [
  | inl e ↦ absurd (differ (eq_bytes_sound xs ys e))
  | inr e ↦ e
]

-- The pair's remote candidate has the address and the port.
abbrev pub EndsAt : Bytes → ℕ → CandidatePair → Type 0
EndsAt ip port q = (q.remote.connection_address ≡ ip) × (q.remote.port ≡ port)

module _ (pre : List CandidatePair) (p : CandidatePair) (post : List CandidatePair) where
  pub modify_at-first :
      (f : CandidatePair → CandidatePair)
      → modify_at f (length pre) (pre ++ (p ∷ post)) ≡ pre ++ (f p ∷ post)
  modify_at-first f = go f pre p post
    where
      go :
          (f : CandidatePair → CandidatePair) (pre : List CandidatePair) (p : CandidatePair)
          (post : List CandidatePair)
          → modify_at f (length pre) (pre ++ (p ∷ post)) ≡ pre ++ (f p ∷ post)
      go f [] p post = refl
      go f (q ∷ pre) p post = ap (λ rest. q ∷ rest) (go f pre p post)

  pub find_pair_by_tid-first :
      (tid : Bytes)
      → All (λ q. q.transaction_id ≢ tid) pre
      → p.transaction_id ≡ tid
      → find_pair_by_tid (pre ++ (p ∷ post)) tid ≡ some (length pre)
  unfolding find_pair_by_tid
  find_pair_by_tid-first tid before found =
      position-append (λ q. eq_bytes q.transaction_id tid) pre p post
        (All-map pre (λ q differ. eq_bytes-other q.transaction_id tid differ) before)
        (rw found (eq_bytes_refl tid))

  EndsAt-false :
      (ip : Bytes) (port : ℕ) (q : CandidatePair)
      → ¬ EndsAt ip port q
      → (eq_bytes q.remote.connection_address ip && q.remote.port == port) ≡ false
  EndsAt-false ip port q differ = elim (Bool-cases (eq_bytes q.remote.connection_address ip)) [
    | inl e ↦ rw e (elim (Bool-cases (q.remote.port == port)) [
      | inl k ↦ absurd (differ (eq_bytes_sound _ _ e, (==_iff q.remote.port port).0 k))
      | inr k ↦ k
    ])
    | inr e ↦ rw e refl
  ]

  pub find_pair_by_remote-first :
      (ip : Bytes) (port : ℕ)
      → All (λ q. ¬ EndsAt ip port q) pre
      → EndsAt ip port p
      → find_pair_by_remote (pre ++ (p ∷ post)) ip port ≡ some (length pre)
  unfolding find_pair_by_remote
  find_pair_by_remote-first ip port before (here, there) =
      position-append (λ q. eq_bytes q.remote.connection_address ip && q.remote.port == port) pre p
        post (All-map pre (EndsAt-false ip port) before)
        (rw (here, eq_bytes_refl ip, (==_iff p.remote.port port).1 there) refl)
