-- ===== src/Ice/Agent/States.antt =====
-- sdk/crates/p2p-core/src/ice/agent.rs: how `IceState` moves, as a relation of its own.
use p2psdk.Prelude.{
  ℕ, ◌≡◌, refl, inl, inr, Bool, true, false, not, ◌&&◌, Option, none, some, arith, ◌==◌,
  if◌then◌else◌, Bool-cases, Option-cases, eq_bytes, position, position-FirstAt, FirstAt-lt, ret,
  Returns, Returns-bind, Returns-if,
}
use p2psdk.Ice.Agent.{IceAgent, HandleDataResult, set_state}
use p2psdk.Ice.Agent.Incoming.{
  resolve_conflict, confirm, mark_pair, is_early, is_connecting, connect_if, respond,
  handle_incoming_stun, nominate_at, nominate_best, nominate_or_confirm, nominate_after,
  pair_responded, handle_stun_response, handle_incoming_data, accepts_username,
}
use p2psdk.Constants.{ice_error_role_conflict}
use p2psdk.Ice.CheckList.{find_pair_by_remote, find_pair_by_tid, find_best_succeeded}
use p2psdk.Ice.Agent.Events.{build_ice_binding_response-Returns}
use mathlib.Core.Path.{subst}
use p2psdk.Ice.Agent.Received.{resolve_conflict-AgentOk}
use p2psdk.Ice.Agent.Invariant.{AgentOk, is_closed}
use p2psdk.Ice.StunCodec.{ParsedStunMessage, parse_ice_stun_message}
use p2psdk.Types.{CandidatePair, IceState, is_controlling}
use p2psdk.Wire.{Bytes}

-- The moves that a datagram can cause.
pub data ByDatagram : IceState → IceState → Type 0 where
  stays : (s : IceState) → ByDatagram s s
  connects : (s : IceState) → is_early s ≡ true → ByDatagram s IceState.connected
  completes : (s : IceState) → is_closed s ≡ false → ByDatagram s IceState.completed

connecting_early : (s : IceState) → is_connecting s ≡ true → is_early s ≡ true
connecting_early s h = ground arith

-- The move to `connected` at the end of a handler, behind what the handler did before.
connect-ByDatagram :
    (test : IceState → Bool) (s t : IceState)
    → ((u : IceState) → test u ≡ true → is_early u ≡ true)
    → ByDatagram s t
    → ByDatagram s (if test t then IceState.connected else t)
connect-ByDatagram test _ _ early (stays s) = elim (Bool-cases (test s)) [
  | inl e ↦ rw e (connects s (early s e))
  | inr e ↦ rw e (stays s)
]
connect-ByDatagram test _ _ early (connects s h) = elim (Bool-cases (test IceState.connected)) [
  | inl e ↦ rw e (connects s h)
  | inr e ↦ rw e (connects s h)
]
connect-ByDatagram test _ _ early (completes s h) = elim (Bool-cases (test IceState.completed)) [
  | inl e ↦ absurd (cc (early IceState.completed e))
  | inr e ↦ rw e (completes s h)
]

connect_if-state :
    (test : IceState → Bool) (a : IceAgent)
    → (connect_if test a).state ≡ (if test a.state then IceState.connected else a.state)
unfolding connect_if set_state
connect_if-state test a = elim (Bool-cases (test a.state)) [ inl e ↦ rw e refl | inr e ↦ rw e refl ]

connect_if-ByDatagram :
    (test : IceState → Bool) (s : IceState) (a : IceAgent)
    → ((u : IceState) → test u ≡ true → is_early u ≡ true)
    → ByDatagram s a.state
    → ByDatagram s (connect_if test a).state
connect_if-ByDatagram test s a early h =
    rw (connect_if-state test a) (connect-ByDatagram test s a.state early h)

confirm-ByDatagram :
    (a : IceAgent) → is_closed a.state ≡ false → ByDatagram a.state (confirm a).state
unfolding confirm set_state
confirm-ByDatagram a running =
    elim a.nominated_pair_confirmed
      as (λ c.
        ByDatagram a.state
          (if c
            then a
            else record a { nominated_pair_confirmed = true; state = IceState.completed }).state) [
              | true ↦ stays a.state
              | false ↦ completes a.state running
            ]

-- A closed agent has no pair that could be found.
found_running :
    (a : IceAgent) (test : CandidatePair → Bool) (i : ℕ)
    → AgentOk a
    → position test a.check_list ≡ some i
    → is_closed a.state ≡ false
found_running a test i sound e = elim (Bool-cases (is_closed a.state)) [
  | inl c ↦
      let inside = FirstAt-lt test a.check_list i (position-FirstAt test a.check_list e) in
      absurd (omega (arith, sound.closed_empty c, inside))
  | inr c ↦ c
]

mark_pair-ByDatagram :
    (flag : Bool) (o : Option ℕ) (a : IceAgent)
    → ((i : ℕ) → o ≡ some i → is_closed a.state ≡ false)
    → ByDatagram a.state (mark_pair flag o a).state
unfolding mark_pair
mark_pair-ByDatagram flag none a running = stays a.state
mark_pair-ByDatagram flag (some i) a running =
    elim (Bool-cases (flag && not (is_controlling a.role))) [
      | inl e ↦ rw e (confirm-ByDatagram _ (running i refl))
      | inr e ↦ rw e (stays a.state)
    ]

resolve_conflict-state : (o : Option Bool) (a : IceAgent) → (resolve_conflict o a).state ≡ a.state
unfolding resolve_conflict
resolve_conflict-state none a = refl
resolve_conflict-state (some c) a = elim (Bool-cases (c && is_controlling a.role)) [
  | inl e ↦ rw e refl
  | inr e ↦ rw e refl
]

respond-ByDatagram :
    (m : ParsedStunMessage) (ip : Bytes) (port : ℕ) (a : IceAgent) (o : Option Bytes)
    → AgentOk a
    → ByDatagram a.state (respond m ip port a o).0.state
unfolding respond find_pair_by_remote
respond-ByDatagram m ip port a none sound = stays a.state
respond-ByDatagram m ip port a (some resp) sound =
    connect_if-ByDatagram is_early a.state _ (λ u h. h)
      (mark_pair-ByDatagram m.use_candidate _ a (λ i e. found_running a _ i sound e))

nominate_at-state : (a : IceAgent) (o : Option ℕ) → (nominate_at a o).state ≡ a.state
unfolding nominate_at
nominate_at-state a none = refl
nominate_at-state a (some j) = refl

nominate_or_confirm-ByDatagram :
    (a : IceAgent) (i : ℕ) (o : Option ℕ)
    → is_closed a.state ≡ false
    → ByDatagram a.state (nominate_or_confirm a i o).state
unfolding nominate_best
nominate_or_confirm-ByDatagram a i none running =
    rw (nominate_at-state a (find_best_succeeded a.check_list)) (stays a.state)
nominate_or_confirm-ByDatagram a i (some j) running = elim (Bool-cases (j == i)) [
  | inl e ↦ rw e (confirm-ByDatagram a running)
  | inr e ↦ rw e (stays a.state)
]

pair_responded-ByDatagram :
    (i : ℕ) (a : IceAgent)
    → is_closed a.state ≡ false
    → ByDatagram a.state (pair_responded i a).state
unfolding pair_responded nominate_after
pair_responded-ByDatagram i a running =
    connect_if-ByDatagram is_connecting a.state _ connecting_early
      (elim (Bool-cases (is_controlling a.role && not a.nominated_pair_confirmed)) [
        | inl e ↦ rw e (nominate_or_confirm-ByDatagram _ i a.nominated_pair_idx running)
        | inr e ↦ rw e (stays a.state)
      ])

handle_stun_response-ByDatagram :
    (a : IceAgent) (m : ParsedStunMessage)
    → AgentOk a
    → ByDatagram a.state (handle_stun_response a m).state
unfolding handle_stun_response find_pair_by_tid
handle_stun_response-ByDatagram a m sound =
    elim (Bool-cases (m.is_error_response && m.error_code == ice_error_role_conflict)) [
      | inl e ↦ rw e (stays a.state)
      | inr e ↦ rw e (elim (Bool-cases m.is_response) [
        | inr r ↦ rw r (stays a.state)
        | inl r ↦
            rw r
              (elim (Option-cases
                (position (λ p. eq_bytes p.transaction_id m.transaction_id) a.check_list)) [
                  | inl n ↦ rw n (stays a.state)
                  | inr (i, n) ↦ rw n (pair_responded-ByDatagram i a (found_running a _ i sound n))
                ])
      ])
    ]

handle_incoming_stun-ByDatagram :
    (a : IceAgent) (raw : Bytes) (m : ParsedStunMessage) (ip : Bytes) (port : ℕ)
    → AgentOk a
    → Returns (λ done. ByDatagram a.state done.0.state) (handle_incoming_stun a raw m ip port)
unfolding handle_incoming_stun
handle_incoming_stun-ByDatagram a raw m ip port sound =
    elim (Bool-cases (accepts_username a m.username)) [
      | inr e ↦ rw e (stays a.state)
      | inl e ↦ rw e (
          Returns-bind (λ o. Unit {0}) (λ done. ByDatagram a.state done.0.state) _ _
            (build_ice_binding_response-Returns raw)
            (λ o u.
              subst
                (λ s. ByDatagram s (respond m ip port (resolve_conflict m.controlling a) o).0.state)
                (resolve_conflict-state m.controlling a)
                (respond-ByDatagram m ip port (resolve_conflict m.controlling a) o
                  (resolve_conflict-AgentOk m.controlling a sound))))
    ]

-- A datagram that the parser returns from leaves the state of a sound agent as it is, or connects an
-- agent that was new, gathering or connecting, or completes one that was not closed.
pub handle_incoming_data-ByDatagram :
    (a : IceAgent) (bytes ip : Bytes) (port : ℕ) (m : ParsedStunMessage)
    → parse_ice_stun_message bytes ≡ ret m
    → AgentOk a
    → Returns (λ done. ByDatagram a.state done.0.state) (handle_incoming_data a bytes ip port)
unfolding handle_incoming_data
handle_incoming_data-ByDatagram a bytes ip port m parsed sound =
    let Ok : IceAgent × HandleDataResult → Type 0 = λ done. ByDatagram a.state done.0.state in
    rw parsed (
      Returns-if Ok (not m.is_stun) _ _ (stays a.state) (
        Returns-if Ok m.is_request _ _ (handle_incoming_stun-ByDatagram a bytes m ip port sound)
          (handle_stun_response-ByDatagram a m sound)))
