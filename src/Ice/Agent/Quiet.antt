-- ===== src/Ice/Agent/Quiet.antt =====
-- sdk/crates/p2p-core/src/ice/agent.rs: the rounds in which `tick` has nothing to do, and a check
-- that can never be finished.
use p2psdk.Prelude.{
  ℕ, zero, suc, ◌+◌, ◌<◌, ◌≡◌, refl, sym, ap, ◌∙◌, ◌≢◌, inl, inr, true, false, none, some, List, [],
  ◌∷◌, arith, ◌==◌, Bool-cases, Option-cases, get_elem?, ret,
}
use p2psdk.Crypto.{Crypto}
use p2psdk.Ice.Agent.{IceAgent, nominated_pair, pair_at}
use p2psdk.Ice.Agent.Tick.{is_over, skips, tick_pair, tick_pairs, check_completion, tick}
use p2psdk.Ice.CheckList.{all_pairs_failed}
use p2psdk.Types.{CandidatePair, is_terminal}
use p2psdk.Wire.{Bytes}

module _ (crypto : Crypto) (fresh : ℕ → Bytes) (agent : IceAgent) (now_ms : ℕ) where
  -- The loop passes over every pair of a list that starts at index `i`.
  abbrev AllSkipped : ℕ → List CandidatePair → Type 0
  AllSkipped i [] = Unit
  AllSkipped i (p ∷ ps) = (skips agent now_ms i p ≡ true) × AllSkipped (suc i) ps

  tick_pairs-skipped :
      (i : ℕ) (ps : List CandidatePair)
      → AllSkipped i ps
      → tick_pairs crypto fresh agent now_ms i ps ≡ ret (ps, [])
  unfolding tick_pairs tick_pair
  tick_pairs-skipped i [] h = refl
  tick_pairs-skipped i (p ∷ ps) h = rw (h.0, tick_pairs-skipped (suc i) ps h.1) refl

  tick-skipped :
      AllSkipped 0 agent.check_list
      → all_pairs_failed agent.check_list ≡ false
      → tick crypto fresh agent now_ms ≡ ret (agent, [])
  unfolding tick check_completion
  tick-skipped h some_left = elim (Bool-cases (is_over agent.state)) [
    | inl e ↦ rw e
    | inr e ↦ rw (e, tick_pairs-skipped 0 agent.check_list h, some_left)
  ]

  skips-terminal :
      (i : ℕ) (p : CandidatePair) → is_terminal p.state ≡ true → skips agent now_ms i p ≡ true
  unfolding skips
  skips-terminal i p over = rw over refl

  skips-frozen :
      (i k : ℕ) (p : CandidatePair)
      → agent.nominated_pair_idx ≡ some k
      → k ≢ i
      → skips agent now_ms i p ≡ true
  skips-frozen i k p n other = elim (Bool-cases (is_terminal p.state)) [
    | inl e ↦ skips-terminal i p e
    | inr e ↦
        let differs : (k == i) ≡ false = ground (arith, other) in unfold skips in rw (e, n, differs)
  ]

  frozen_after :
      (i k : ℕ) (ps : List CandidatePair)
      → agent.nominated_pair_idx ≡ some k
      → k < i
      → AllSkipped i ps
  frozen_after i k [] n h = tt
  frozen_after i k (p ∷ ps) n h =
      (skips-frozen i k p n (λ e. omega arith), frozen_after (suc i) k ps n (omega arith))

  frozen_skips :
      (i j : ℕ) (ps : List CandidatePair) (p : CandidatePair)
      → agent.nominated_pair_idx ≡ some (i + j)
      → get_elem? ps j ≡ some p
      → is_terminal p.state ≡ true
      → AllSkipped i ps
  frozen_skips i j [] p n at_j over = tt
  frozen_skips i zero (q ∷ ps) p n at_j over =
      let same : q ≡ p = cc in
      (
        skips-terminal i q (rw same over),
        frozen_after (suc i) i ps (n ∙ ap some (omega arith)) (omega arith),
      )
  frozen_skips i (suc j) (q ∷ ps) p n at_j over = (
    skips-frozen i (i + suc j) q n (λ e. omega arith),
    frozen_skips (suc i) j ps p (n ∙ ap some (omega arith)) at_j over,
  )

  -- When the nominated pair has failed, or has succeeded and is not asked again, and not all pairs have
  -- failed, `tick` sends nothing and changes nothing, at any time.
  pub tick-stuck :
      (p : CandidatePair)
      → nominated_pair agent ≡ some p
      → is_terminal p.state ≡ true
      → all_pairs_failed agent.check_list ≡ false
      → tick crypto fresh agent now_ms ≡ ret (agent, [])
  unfolding nominated_pair
  tick-stuck p n over some_left = elim (Option-cases agent.nominated_pair_idx) [
    | inl e ↦ absurd (none_at n e)
    | inr (i, e) ↦
        tick-skipped
          (frozen_skips 0 i agent.check_list p (e ∙ ap some (omega arith))
            (sym (ap (pair_at agent.check_list) e) ∙ n) over)
          some_left
  ]
    where
      none_at :
          pair_at agent.check_list agent.nominated_pair_idx ≡ some p
          → agent.nominated_pair_idx ≡ none
          → ⊥
      none_at n e = cc (sym (ap (pair_at agent.check_list) e) ∙ n)
