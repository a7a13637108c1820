-- ===== src/Ice/Agent/Total.antt =====
-- sdk/crates/p2p-core/src/ice/agent.rs: `tick` always returns, and what it leaves.
use p2psdk.Prelude.{
  ℕ, suc, ◌+◌, ◌≤◌, ◌≡◌, refl, ap, ◌∙◌, inl, inr, false, List, [], ◌∷◌, ◌++◌, arith, Bool-cases,
  length, All, length-append, Returns, Returns-eq, Returns-bind,
}
use p2psdk.Crypto.{Crypto}
use p2psdk.Ice.Agent.{IceAgent, IceAction, set_state}
use p2psdk.Ice.Agent.Invariant.{AgentOk, set_state-AgentOk}
use p2psdk.Ice.Agent.Pairs.{PairOk, sent_pair-PairOk, sent_pair-counted, requests}
use p2psdk.Ice.Agent.Tick.{
  is_over, skips, password, request_of, tick_pair, tick_pairs, check_completion, tick,
}
use p2psdk.Ice.CheckList.{all_pairs_failed}
use p2psdk.Ice.StunCodec.Build.{build_ice_binding_request_lem}
use p2psdk.Types.{CandidatePair, IceState, is_terminal, is_controlling}
use p2psdk.Wire.{Bytes}

module _ (crypto : Crypto) (fresh : ℕ → Bytes) (twelve : (i : ℕ) → length (fresh i) ≡ 12)
    (agent : IceAgent) (now_ms : ℕ) where
  request_of-Returns :
      (i : ℕ) (p : CandidatePair) → Returns (λ b. Unit {0}) (request_of crypto (fresh i) agent p)
  request_of-Returns i p =
      rw
        (build_ice_binding_request_lem crypto (fresh i) (twelve i)
          (agent.remote_ufrag ++ (b':' ∷ agent.local_ufrag)) p.local.priority
          (is_controlling agent.role) agent.tie_breaker p.nominated (password agent.remote_pwd))
        tt

  -- What the loop does with one pair.
  abbrev Kept : CandidatePair → CandidatePair × List IceAction → Type 0
  Kept p done =
      (PairOk p → PairOk done.0)
      × (length done.1 ≤ 1)
      × (PairOk p → done.0.retransmit_count ≡ length done.1 + p.retransmit_count)

  skips-open :
      (i : ℕ) (p : CandidatePair) → skips agent now_ms i p ≡ false → is_terminal p.state ≡ false
  unfolding skips
  skips-open i p e = elim (Bool-cases (is_terminal p.state)) [ inl h ↦ cc | inr h ↦ h ]

  tick_pair-Returns :
      (i : ℕ) (p : CandidatePair) → Returns (Kept p) (tick_pair crypto fresh agent now_ms i p)
  unfolding tick_pair
  tick_pair-Returns i p = elim (Bool-cases (skips agent now_ms i p)) [
    | inl e ↦ rw e (λ h. h, omega arith, λ h. omega arith)
    | inr e ↦
        let (b, sent, u) =
          Returns-eq (request_of crypto (fresh i) agent p) (request_of-Returns i p) in
        rw (e, sent)
          (
            sent_pair-PairOk p (fresh i) now_ms (skips-open i p e),
            omega arith,
            sent_pair-counted p (fresh i) now_ms (skips-open i p e),
          )
  ]

  abbrev pub AllKept : List CandidatePair → List CandidatePair × List IceAction → Type 0
  AllKept ps done =
      (All PairOk ps → All PairOk done.0)
      × (length done.0 ≡ length ps)
      × (length done.1 ≤ length ps)
      × (All PairOk ps → requests done.0 ≡ length done.1 + requests ps)

  tick_pairs-Returns :
      (i : ℕ) (ps : List CandidatePair)
      → Returns (AllKept ps) (tick_pairs crypto fresh agent now_ms i ps)
  unfolding tick_pairs
  tick_pairs-Returns i [] = (λ h. h, refl, omega arith, λ h. omega arith)
  tick_pairs-Returns i (p ∷ ps) =
      Returns-bind (Kept p) (AllKept (p ∷ ps)) _ _ (tick_pair-Returns i p) (λ one kept.
        Returns-bind (AllKept ps) (AllKept (p ∷ ps)) _ _ (tick_pairs-Returns (suc i) ps) (λ rest h.
          (
            (λ ok. (kept.0 ok.0, h.0 ok.1)),
            ap suc h.1,
            omega (arith, length-append one.1 rest.1, kept.1, h.2),
            (λ ok. omega (arith, length-append one.1 rest.1, kept.2 ok.0, h.3 ok.1)),
          )))

  abbrev pub Ticked : IceAgent × List IceAction → Type 0
  Ticked done =
      (AgentOk agent → AgentOk done.0)
      × (length done.0.check_list ≡ length agent.check_list)
      × (length done.1 ≤ length agent.check_list)
      × (AgentOk agent → requests done.0.check_list ≡ length done.1 + requests agent.check_list)

  check_completion-AgentOk : (a : IceAgent) → AgentOk a → AgentOk (check_completion a)
  unfolding check_completion
  check_completion-AgentOk a h = elim (Bool-cases (all_pairs_failed a.check_list)) [
    | inl e ↦ rw e (set_state-AgentOk a IceState.failed refl refl h)
    | inr e ↦ rw e h
  ]

  check_completion-check_list : (a : IceAgent) → (check_completion a).check_list ≡ a.check_list
  unfolding check_completion set_state
  check_completion-check_list a = elim (Bool-cases (all_pairs_failed a.check_list)) [
    | inl e ↦ rw e refl
    | inr e ↦ rw e refl
  ]

  -- With transaction IDs of twelve bytes `tick` never panics. It leaves a sound agent sound, keeps the
  -- number of pairs, and sends at most one request for each pair; the pairs of a sound agent count the
  -- requests that it sends.
  pub tick-Returns : Returns Ticked (tick crypto fresh agent now_ms)
  unfolding tick
  tick-Returns = elim (Bool-cases (is_over agent.state)) [
    | inl e ↦ rw e (λ h. h, refl, omega arith, λ h. omega arith)
    | inr e ↦ rw e (
        Returns-bind (AllKept agent.check_list) Ticked _ _ (tick_pairs-Returns 0 agent.check_list)
          (λ done h.
            let after = record agent { check_list = done.0 } in
            let same = ap length (check_completion-check_list after) in
            (
              (λ ok. check_completion-AgentOk after (record {
                pairs_ok = h.0 ok.pairs_ok;
                bounded = omega (arith, ok.bounded, h.1);
                nominated_in = rw h.1 ok.nominated_in;
                completed_confirmed = ok.completed_confirmed;
                closed_empty = λ c. h.1 ∙ ok.closed_empty c;
              })),
              same ∙ h.1,
              h.2,
              (λ ok. ap requests (check_completion-check_list after) ∙ h.3 ok.pairs_ok),
            )))
  ]
