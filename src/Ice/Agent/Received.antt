-- ===== src/Ice/Agent/Received.antt =====
-- sdk/crates/p2p-core/src/ice/agent.rs: a datagram leaves a sound agent sound.
use p2psdk.Prelude.{
  ℕ, ◌<◌, ◌≡◌, refl, ◌∙◌, inl, inr, Bool, true, false, not, ◌&&◌, Option, none, some, List, map,
  arith, ◌==◌, if◌then◌else◌, Bool-cases, Option-cases, position, position-FirstAt, FirstAt-lt,
  length, All,
}
use p2psdk.Ice.Agent.{IceAgent, set_state}
use p2psdk.Ice.Agent.Incoming.{
  modify_at, resolve_conflict, succeed, succeed_nominated, confirm, mark_pair, is_early,
  is_connecting, connect_if, respond, switch_role, restart_pair, start_nomination, nominate_at,
  nominate_best, nominate_or_confirm, nominate_after, pair_responded, any_pair_responded,
  handle_stun_response,
}
use p2psdk.Constants.{ice_error_role_conflict}
use p2psdk.Ice.Agent.Invariant.{AgentOk, set_state-AgentOk, InRange}
use p2psdk.Ice.Agent.Pairs.{
  PairOk, succeed-PairOk, start_nomination-PairOk, restart_pair-PairOk, length-modify_at,
  modify_at-All, length-map, map-All,
}
use p2psdk.Ice.CheckList.{find_pair_by_remote, find_pair_by_tid, find_best_succeeded}
use p2psdk.Ice.StunCodec.{ParsedStunMessage}
use p2psdk.Types.{CandidatePair, IceState, IceRole, controlled, is_controlling, is_succeeded}
use p2psdk.Wire.{Bytes}

-- The fields that the invariant reads are kept, but for the check list, which keeps its length.
relist-AgentOk :
    (a : IceAgent) (role : IceRole) (ps : List CandidatePair)
    → All PairOk ps
    → length ps ≡ length a.check_list
    → AgentOk a
    → AgentOk (record a { role = role; check_list = ps })
relist-AgentOk a role ps timers same h = record {
  pairs_ok = timers;
  bounded = omega (arith, h.bounded);
  nominated_in = rw same h.nominated_in;
  completed_confirmed = h.completed_confirmed;
  closed_empty = λ c. same ∙ h.closed_empty c;
}

module _ (f : CandidatePair → CandidatePair)
    (keeps : (p : CandidatePair) → PairOk p → PairOk (f p)) where
  modify-AgentOk :
      (a : IceAgent) (i : ℕ)
      → AgentOk a
      → AgentOk (record a { check_list = modify_at f i a.check_list })
  modify-AgentOk a i h =
      relist-AgentOk a a.role (modify_at f i a.check_list)
        (modify_at-All f PairOk keeps i a.check_list h.pairs_ok) (length-modify_at f i a.check_list)
        h

  nominate-AgentOk :
      (a : IceAgent) (i : ℕ)
      → i < length a.check_list
      → AgentOk a
      → AgentOk (record a { check_list = modify_at f i a.check_list; nominated_pair_idx = some i })
  nominate-AgentOk a i inside h =
      let m = modify-AgentOk a i h in
      record {
        pairs_ok = m.pairs_ok;
        bounded = m.bounded;
        nominated_in = rw (length-modify_at f i a.check_list) inside;
        completed_confirmed = m.completed_confirmed;
        closed_empty = m.closed_empty;
      }

confirm-AgentOk : (a : IceAgent) → AgentOk a → AgentOk (confirm a)
unfolding confirm set_state
confirm-AgentOk a h =
    elim a.nominated_pair_confirmed
      as (λ c. AgentOk (
        if c
        then a
        else record a { nominated_pair_confirmed = true; state = IceState.completed })) [
          | true ↦ h
          | false ↦ record {
            pairs_ok = h.pairs_ok;
            bounded = h.bounded;
            nominated_in = h.nominated_in;
            completed_confirmed = λ c. refl;
            closed_empty = λ c. cc;
          }
        ]

connect_if-AgentOk :
    (test : IceState → Bool) (a : IceAgent) → AgentOk a → AgentOk (connect_if test a)
unfolding connect_if
connect_if-AgentOk test a h = elim (Bool-cases (test a.state)) [
  | inl e ↦ rw e (set_state-AgentOk a IceState.connected refl refl h)
  | inr e ↦ rw e h
]

pub resolve_conflict-AgentOk :
    (o : Option Bool) (a : IceAgent) → AgentOk a → AgentOk (resolve_conflict o a)
unfolding resolve_conflict
resolve_conflict-AgentOk none a h = h
resolve_conflict-AgentOk (some c) a h = elim (Bool-cases (c && is_controlling a.role)) [
  | inl e ↦ rw e (relist-AgentOk a controlled a.check_list h.pairs_ok refl h)
  | inr e ↦ rw e h
]

-- An index that `position` finds is inside the list.
position-lt :
    (test : CandidatePair → Bool) (ps : List CandidatePair) {i : ℕ}
    → position test ps ≡ some i
    → i < length ps
position-lt test ps e = FirstAt-lt test ps _ (position-FirstAt test ps e)

mark_pair-AgentOk :
    (flag : Bool) (o : Option ℕ) (a : IceAgent)
    → InRange o (length a.check_list)
    → AgentOk a
    → AgentOk (mark_pair flag o a)
unfolding mark_pair
mark_pair-AgentOk flag none a inside h = h
mark_pair-AgentOk flag (some i) a inside h =
    elim (Bool-cases (flag && not (is_controlling a.role))) [
      | inl e ↦
          rw e (confirm-AgentOk _ (nominate-AgentOk succeed_nominated succeed-PairOk a i inside h))
      | inr e ↦ rw e (modify-AgentOk succeed succeed-PairOk a i h)
    ]

find-InRange :
    (test : CandidatePair → Bool) (ps : List CandidatePair) → InRange (position test ps) (length ps)
find-InRange test ps = elim (Option-cases (position test ps)) [
  | inl e ↦ rw e tt
  | inr (i, e) ↦ rw e (position-lt test ps e)
]

pub respond-AgentOk :
    (m : ParsedStunMessage) (ip : Bytes) (port : ℕ) (a : IceAgent) (o : Option Bytes)
    → AgentOk a
    → AgentOk (respond m ip port a o).0
unfolding respond find_pair_by_remote
respond-AgentOk m ip port a none h = h
respond-AgentOk m ip port a (some resp) h =
    connect_if-AgentOk is_early _
      (mark_pair-AgentOk m.use_candidate _ a (find-InRange _ a.check_list) h)

nominate_best-AgentOk : (a : IceAgent) → AgentOk a → AgentOk (nominate_best a)
unfolding nominate_best nominate_at find_best_succeeded
nominate_best-AgentOk a h =
    elim (Option-cases (position (λ p. is_succeeded p.state) a.check_list)) [
      | inl e ↦ rw e h
      | inr (i, e) ↦ rw e (
          nominate-AgentOk start_nomination (λ p ok. start_nomination-PairOk p) a i
            (position-lt _ a.check_list e) h)
    ]

nominate_or_confirm-AgentOk :
    (a : IceAgent) (i : ℕ) (o : Option ℕ) → AgentOk a → AgentOk (nominate_or_confirm a i o)
nominate_or_confirm-AgentOk a i none h = nominate_best-AgentOk a h
nominate_or_confirm-AgentOk a i (some j) h = elim (Bool-cases (j == i)) [
  | inl e ↦ rw e (confirm-AgentOk a h)
  | inr e ↦ rw e h
]

pair_responded-AgentOk : (i : ℕ) (a : IceAgent) → AgentOk a → AgentOk (pair_responded i a)
unfolding pair_responded nominate_after
pair_responded-AgentOk i a h =
    let b = record a { check_list = modify_at succeed i a.check_list } in
    let ok = modify-AgentOk succeed succeed-PairOk a i h in
    connect_if-AgentOk is_connecting _
      (elim (Bool-cases (is_controlling a.role && not a.nominated_pair_confirmed)) [
        | inl e ↦ rw e (nominate_or_confirm-AgentOk b i a.nominated_pair_idx ok)
        | inr e ↦ rw e ok
      ])

pub handle_stun_response-AgentOk :
    (a : IceAgent) (m : ParsedStunMessage) → AgentOk a → AgentOk (handle_stun_response a m)
unfolding handle_stun_response
handle_stun_response-AgentOk a m h =
    elim (Bool-cases (m.is_error_response && m.error_code == ice_error_role_conflict)) [
      | inl e ↦ rw e (
          relist-AgentOk a (switch_role a.role) (map restart_pair a.check_list)
            (map-All restart_pair PairOk restart_pair-PairOk a.check_list h.pairs_ok)
            (length-map restart_pair a.check_list) h)
      | inr e ↦ rw e (elim (Bool-cases m.is_response) [
        | inl r ↦ rw r (any-AgentOk (find_pair_by_tid a.check_list m.transaction_id))
        | inr r ↦ rw r h
      ])
    ]
  where
    any-AgentOk : (o : Option ℕ) → AgentOk (any_pair_responded a o)
    any-AgentOk none = h
    any-AgentOk (some i) = pair_responded-AgentOk i a h
