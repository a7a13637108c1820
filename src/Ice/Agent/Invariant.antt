-- ===== src/Ice/Agent/Invariant.antt =====
-- sdk/crates/p2p-core/src/ice/agent.rs: what holds of an agent between two calls, and the operations
-- that change an agent without a datagram.
use p2psdk.Prelude.{
  ℕ, ◌*◌, ◌≤◌, ◌<◌, ◌≡◌, refl, inl, inr, Bool, true, false, ◌||◌, Option, none, some, List, [], ◌∷◌,
  arith, Bool-cases, Option-cases, length, All, length-append,
}
use p2psdk.Ice.Agent.{
  IceAgent, set_state, new_agent, add_local_candidate, add_remote_cand, add_remote_candidate,
  add_remote_candidates, set_remote_session_description, set_remote_pwd, start_checks, stop, any_of,
  same_address,
}
use p2psdk.Ice.Agent.Pairs.{PairOk, new_pair-PairOk}
use p2psdk.Ice.Candidate.{parse_candidate_line}
use p2psdk.Ice.CheckList.{is_empty}
use p2psdk.Ice.CheckList.Sorted.{build_check_list-All, build_check_list_lem}
use p2psdk.Types.{IceCandidate, IceState, IceSessionDescription}
use p2psdk.Wire.{Bytes}

abbrev pub is_completed : IceState → Bool
is_completed IceState.completed = true
is_completed _ = false

abbrev pub is_closed : IceState → Bool
is_closed IceState.closed = true
is_closed _ = false

abbrev pub InRange : Option ℕ → ℕ → Type 0
InRange none n = Unit
InRange (some i) n = i < n

-- The timers follow the schedule; the check list is no longer than the candidates allow; the
-- nominated pair is in it; a completed agent has a confirmed pair; a closed one has no pairs.
pub record AgentOk (a : IceAgent) : Type 0 where
  pub pairs_ok : All PairOk a.check_list
  pub bounded : length a.check_list ≤ length a.local_candidates * length a.remote_candidates
  pub nominated_in : InRange a.nominated_pair_idx (length a.check_list)
  pub completed_confirmed : is_completed a.state ≡ true → a.nominated_pair_confirmed ≡ true
  pub closed_empty : is_closed a.state ≡ true → length a.check_list ≡ 0

pub new_agent-AgentOk :
    (c : Bool) (ufrag pwd : Bytes) (tie : ℕ) → AgentOk (new_agent c ufrag pwd tie)
unfolding new_agent
new_agent-AgentOk c ufrag pwd tie = record {
  pairs_ok = tt;
  bounded = omega arith;
  nominated_in = tt;
  completed_confirmed = λ e. cc;
  closed_empty = λ e. refl;
}

pub add_local_candidate-AgentOk :
    (a : IceAgent) (c : IceCandidate) → AgentOk a → AgentOk (add_local_candidate a c)
unfolding add_local_candidate
add_local_candidate-AgentOk a c h = record {
  pairs_ok = h.pairs_ok;
  bounded = grind (arith, h.bounded, length-append a.local_candidates (c ∷ []));
  nominated_in = h.nominated_in;
  completed_confirmed = h.completed_confirmed;
  closed_empty = h.closed_empty;
}

add_remote_cand-AgentOk :
    (a : IceAgent) (c : IceCandidate) → AgentOk a → AgentOk (add_remote_cand a c)
unfolding add_remote_cand
add_remote_cand-AgentOk a c h = elim (Bool-cases (any_of (same_address c) a.remote_candidates)) [
  | inl e ↦ rw e h
  | inr e ↦ rw e (record {
    pairs_ok = h.pairs_ok;
    bounded = grind (arith, h.bounded, length-append a.remote_candidates (c ∷ []));
    nominated_in = h.nominated_in;
    completed_confirmed = h.completed_confirmed;
    closed_empty = h.closed_empty;
  })
]

pub add_remote_candidate-AgentOk :
    (a : IceAgent) (line : Bytes) → AgentOk a → AgentOk (add_remote_candidate a line)
unfolding add_remote_candidate
add_remote_candidate-AgentOk a line h = elim (Option-cases (parse_candidate_line line)) [
  | inl e ↦ rw e h
  | inr (c, e) ↦ rw e (add_remote_cand-AgentOk a c h)
]

add_remote_candidates-AgentOk :
    (a : IceAgent) (lines : List Bytes) → AgentOk a → AgentOk (add_remote_candidates a lines)
unfolding add_remote_candidates
add_remote_candidates-AgentOk a [] h = h
add_remote_candidates-AgentOk a (line ∷ lines) h =
    add_remote_candidates-AgentOk (add_remote_candidate a line) lines
      (add_remote_candidate-AgentOk a line h)

pub set_remote_session_description-AgentOk :
    (a : IceAgent) (desc : IceSessionDescription)
    → AgentOk a
    → AgentOk (set_remote_session_description a desc)
unfolding set_remote_session_description
set_remote_session_description-AgentOk a desc h =
    add_remote_candidates-AgentOk _ desc.candidates (record {
      pairs_ok = h.pairs_ok;
      bounded = h.bounded;
      nominated_in = h.nominated_in;
      completed_confirmed = h.completed_confirmed;
      closed_empty = h.closed_empty;
    })

pub set_remote_pwd-AgentOk :
    (a : IceAgent) (pwd : Bytes) → AgentOk a → AgentOk (set_remote_pwd a pwd)
unfolding set_remote_pwd
set_remote_pwd-AgentOk a pwd h = record {
  pairs_ok = h.pairs_ok;
  bounded = h.bounded;
  nominated_in = h.nominated_in;
  completed_confirmed = h.completed_confirmed;
  closed_empty = h.closed_empty;
}

InRange-le : (o : Option ℕ) (m n : ℕ) → m ≤ n → InRange o m → InRange o n
InRange-le none m n le h = tt
InRange-le (some i) m n le h = omega arith

-- An agent in a state that asks nothing of the others.
pub set_state-AgentOk :
    (a : IceAgent) (s : IceState)
    → is_completed s ≡ false
    → is_closed s ≡ false
    → AgentOk a
    → AgentOk (set_state a s)
unfolding set_state
set_state-AgentOk a s open_ended running h = record {
  pairs_ok = h.pairs_ok;
  bounded = h.bounded;
  nominated_in = h.nominated_in;
  completed_confirmed = λ e. cc;
  closed_empty = λ e. cc;
}

-- The index of the nominated pair is kept by a restart; the new check list is no shorter.
pub start_checks-AgentOk : (a : IceAgent) → AgentOk a → AgentOk (start_checks a).0
unfolding start_checks set_state
start_checks-AgentOk a h = elim (Bool-cases (is_empty a.remote_ufrag)) [
  | inl e ↦ rw e (set_state-AgentOk a IceState.failed refl refl h)
  | inr e ↦ elim (Bool-cases (is_empty a.local_candidates || is_empty a.remote_candidates)) [
    | inl k ↦ rw (e, k) (set_state-AgentOk a IceState.failed refl refl h)
    | inr k ↦
        let full = (build_check_list_lem a.local_candidates a.remote_candidates a.role).2 in
        rw (e, k)
          (record {
            pairs_ok =
                build_check_list-All PairOk a.role (new_pair-PairOk a.role) a.local_candidates
                  a.remote_candidates;
            bounded = omega arith;
            nominated_in =
                InRange-le a.nominated_pair_idx (length a.check_list) _ (omega (arith, h.bounded))
                  h.nominated_in;
            completed_confirmed = λ d. cc;
            closed_empty = λ d. cc;
          })
  ]
]

pub stop-AgentOk : (a : IceAgent) → AgentOk (stop a)
unfolding stop set_state
stop-AgentOk a = record {
  pairs_ok = tt;
  bounded = omega arith;
  nominated_in = tt;
  completed_confirmed = λ e. cc;
  closed_empty = λ e. refl;
}
