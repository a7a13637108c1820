-- ===== src/Tests/AgentTests.antt =====
-- Tests of the ICE agent, each at a concrete agent.
use p2psdk.Prelude.{
  ℕ, ◌+◌, ◌-◌, ◌*◌, ◌^◌, ◌<◌, min, max, ◌≡◌, refl, ap, ◌≢◌, ◌↔◌, inl, true, false, none, some, List,
  [], ◌∷◌, ◌++◌, arith, ltb, if◌then◌else◌, length, get_elem?, All, ret, Returns,
}
use p2psdk.Ice.Agent.{IceAgent, nominated_pair}
use p2psdk.Ice.Agent.Events.{FreshIds}
use p2psdk.Ice.Agent.Requests.{Bounded, run_and_tick, run_and_tick-Bounded}
use p2psdk.Constants.{stun_binding_success}
use p2psdk.Ice.Agent.States.{ByDatagram, handle_incoming_data-ByDatagram}
use p2psdk.Ice.Agent.Exchange.{
  asked, success_to, listed, seen, chosen, success_reading, parse_ice_stun_message-success,
  handle_incoming_data-check,
}
use p2psdk.Stun.Builder.Laws.{header}
use p2psdk.Text.Utf8.{from_utf8_lossy-ascii}
use p2psdk.Ice.Agent.Incoming.{
  handle_incoming_data, accepts_username, handle_incoming_stun, no_result,
}
use p2psdk.Ice.Agent.Invariant.{new_agent-AgentOk}
use p2psdk.Ice.Agent.Quiet.{tick-stuck}
use p2psdk.Ice.Agent.Tick.{tick}
use p2psdk.Ice.Agent.Total.{Ticked, tick-Returns}
use p2psdk.Ice.Agent.Usernames.{accepts_username_iff, handle_incoming_stun-other_username}
use p2psdk.Ice.CheckList.{
  all_pairs_failed, build_check_list, all_pairs, calc_pair_priority, find_best_succeeded,
}
use p2psdk.Ice.CheckList.Lookup.{IsBest, find_best_succeeded_lem, all_pairs_failed_iff}
use p2psdk.Ice.CheckList.Priority.{calc_pair_priority_exact, calc_pair_priority_injective}
use p2psdk.Ice.CheckList.Sorted.{IsSorted, build_check_list_lem}
use p2psdk.Ice.StunCodec.{parse_ice_stun_message, default_message}
use p2psdk.Tests.Fixtures.{
  tid, zero_crypto, ids, address, a_candidate, a_pair, an_agent, fresh_agent, call_sequence,
}
use p2psdk.Types.{CandidatePair, CheckState, IceRole, codes}
use mathlib.Core.List.{Perm}

abbrev late_ticks : List (FreshIds × ℕ)
late_ticks = (ids, 2000) ∷ (ids, 4000) ∷ (ids, 30000) ∷ []

run_and_tick-Bounded_example :
    Returns Bounded (run_and_tick zero_crypto fresh_agent call_sequence late_ticks)
unfolding parse_ice_stun_message
run_and_tick-Bounded_example =
    run_and_tick-Bounded zero_crypto fresh_agent call_sequence late_ticks
      (tt, (tt, (tt, (tt, (tt, (tt, (tt, (tt, tt))))))))
      (new_agent-AgentOk true (codes "aaaa") (codes "secret") 5)

abbrev two_waiting : IceAgent
two_waiting = an_agent (a_pair CheckState.waiting 9 ∷ a_pair CheckState.waiting 8 ∷ []) none

tick-Returns_example :
    Returns
      (Ticked zero_crypto ids.id ids.twelve two_waiting 500)
      (tick zero_crypto ids.id two_waiting 500)
tick-Returns_example = tick-Returns zero_crypto ids.id ids.twelve two_waiting 500

-- The nominated pair has failed, the other one has succeeded.
abbrev stuck_agent : IceAgent
stuck_agent = an_agent (a_pair CheckState.failed 9 ∷ a_pair CheckState.succeeded 8 ∷ []) (some 0)

tick-stuck_example : tick zero_crypto ids.id stuck_agent 99999 ≡ ret (stuck_agent, [])
unfolding nominated_pair all_pairs_failed
tick-stuck_example =
    tick-stuck zero_crypto ids.id stuck_agent 99999 (a_pair CheckState.failed 9) refl refl refl

accepts_username_iff_example :
    (accepts_username two_waiting (codes "aaaa" ++ (b':' ∷ codes "bbbb")) ≡ true)
    ↔ ((codes "aaaa" ≡ codes "aaaa") × (codes "bbbb" ≡ codes "bbbb"))
accepts_username_iff_example =
    accepts_username_iff two_waiting (codes "aaaa") (codes "bbbb")
      ((λ e. omega arith), ((λ e. omega arith), ((λ e. omega arith), ((λ e. omega arith), tt))))

abbrev first : List ℕ → ℕ
first [] = 0
first (c ∷ cs) = c

handle_incoming_stun-other_username_example :
    handle_incoming_stun two_waiting []
      (record default_message { username = codes "cccc:bbbb" })
      address
      5000
    ≡ ret (two_waiting, no_result)
handle_incoming_stun-other_username_example =
    handle_incoming_stun-other_username two_waiting []
      (record default_message { username = codes "cccc:bbbb" }) (codes "cccc") (codes "bbbb")
      address 5000 refl
      ((λ e. omega arith), ((λ e. omega arith), ((λ e. omega arith), ((λ e. omega arith), tt))))
      (inl (λ e. omega (arith, ap first e)))

build_check_list_lem_example :
    IsSorted (
      build_check_list
        (a_candidate 5 1 ∷ [])
        (a_candidate 6 2 ∷ a_candidate 7 3 ∷ [])
        IceRole.controlled)
    × Perm
        (build_check_list
          (a_candidate 5 1 ∷ [])
          (a_candidate 6 2 ∷ a_candidate 7 3 ∷ [])
          IceRole.controlled)
        (all_pairs IceRole.controlled
          (a_candidate 5 1 ∷ [])
          (a_candidate 6 2 ∷ a_candidate 7 3 ∷ []))
    × (length (
          build_check_list
            (a_candidate 5 1 ∷ [])
            (a_candidate 6 2 ∷ a_candidate 7 3 ∷ [])
            IceRole.controlled)
        ≡ 1 * 2)
build_check_list_lem_example =
    build_check_list_lem (a_candidate 5 1 ∷ []) (a_candidate 6 2 ∷ a_candidate 7 3 ∷ [])
      IceRole.controlled

abbrev some_pairs : List CandidatePair
some_pairs =
    a_pair CheckState.failed 9 ∷ a_pair CheckState.succeeded 8 ∷ a_pair CheckState.succeeded 7 ∷ []

find_best_succeeded_lem_example :
    ((i : ℕ)
      → find_best_succeeded some_pairs ≡ some i
      → (p : CandidatePair) × (get_elem? some_pairs i ≡ some p)
        × (p.state ≡ CheckState.succeeded)
        × IsBest p some_pairs)
    × (find_best_succeeded some_pairs ≡ none → All (λ p. p.state ≢ CheckState.succeeded) some_pairs)
find_best_succeeded_lem_example =
    find_best_succeeded_lem some_pairs
      ((omega arith, (omega arith, tt)), ((omega arith, tt), (tt, tt)))

all_pairs_failed_iff_example :
    (all_pairs_failed some_pairs ≡ true)
    ↔ ((some_pairs ≢ []) × All (λ p. p.state ≡ CheckState.failed) some_pairs)
all_pairs_failed_iff_example = all_pairs_failed_iff some_pairs

calc_pair_priority_exact_example :
    (min 100 90 < 2 ^ 32 - 1
      → calc_pair_priority 100 90 IceRole.controlling
        ≡ 2 ^ 32 * min 100 90 + 2 * max 100 90 + (if ltb 90 100 then 1 else 0))
    × (min 100 90 ≡ 2 ^ 32 - 1 → calc_pair_priority 100 90 IceRole.controlling ≡ 2 ^ 32 - 2)
calc_pair_priority_exact_example = calc_pair_priority_exact 100 90 (omega arith) (omega arith)

calc_pair_priority_injective_example : (◌≡◌ {A = ℕ} 100 100) × (◌≡◌ {A = ℕ} 90 90)
calc_pair_priority_injective_example =
    calc_pair_priority_injective IceRole.controlled 100 90 100 90 (omega arith) (omega arith)
      (omega arith) (omega arith) refl

-- The first pair ends at another port, the second and the third at the address of the check.
abbrev elsewhere : CandidatePair
elsewhere = record (a_pair CheckState.waiting 9) { remote = a_candidate 90 6000 }

handle_incoming_data-check_example :
    let a = an_agent [] none in
    let p = a_pair CheckState.waiting 8 in
    let last = a_pair CheckState.waiting 7 ∷ [] in
    (asked zero_crypto tid
        (listed a (elsewhere ∷ []) p last)
        100
        true
        9
        false
        (some (codes "secret"))
        address
        5000
      ≡ ret (seen a (elsewhere ∷ []) p last true, success_to tid address 5000))
    × (asked zero_crypto tid
          (listed a (elsewhere ∷ []) p last)
          100
          true
          9
          true
          (some (codes "secret"))
          address
          5000
        ≡ ret (chosen a (elsewhere ∷ []) p last, success_to tid address 5000))
handle_incoming_data-check_example =
    handle_incoming_data-check (an_agent [] none) (elsewhere ∷ []) (a_pair CheckState.waiting 8)
      (a_pair CheckState.waiting 7 ∷ []) zero_crypto tid refl address 5000
      ((λ e. omega (arith, e.1)), tt) (refl, refl) 100 true 9 (some (codes "secret"))
      ((λ e. omega arith), ((λ e. omega arith), ((λ e. omega arith), ((λ e. omega arith), tt))))
      (omega arith)
      (from_utf8_lossy-ascii (codes "aaaa:bbbb") (
        omega arith,
        (
          omega arith,
          (
            omega arith,
            (
              omega arith,
              (omega arith, (omega arith, (omega arith, (omega arith, (omega arith, tt))))),
            ),
          ),
        ),
      ))
      (omega arith)

-- A pair whose check is answered, behind one that waits.
abbrev in_flight : CandidatePair
in_flight = record (a_pair CheckState.in_progress 8) { transaction_id = tid }

handle_incoming_data-ByDatagram_example :
    Returns
      (λ done. ByDatagram fresh_agent.state done.0.state)
      (handle_incoming_data fresh_agent (header stun_binding_success 0 tid) address 5000)
handle_incoming_data-ByDatagram_example =
    handle_incoming_data-ByDatagram fresh_agent (header stun_binding_success 0 tid) address 5000
      (success_reading tid) (parse_ice_stun_message-success tid refl)
      (new_agent-AgentOk true (codes "aaaa") (codes "secret") 5)
