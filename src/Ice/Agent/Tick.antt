-- ===== src/Ice/Agent/Tick.antt =====
-- sdk/crates/p2p-core/src/ice/agent.rs: one round of connectivity checks, `tick`.
use p2psdk.Prelude.{
  ℕ, suc, ◌+◌, ◌*◌, min, Bool, true, false, not, ◌||◌, Option, none, some, List, [], ◌∷◌, ◌++◌, ltb,
  leb, ◌==◌, if◌then◌else◌, Outcome, ret, ◌>>=◌,
}
use p2psdk.Crypto.{Crypto}
use p2psdk.Ice.Agent.{IceAgent, IceAction, action_to, set_state}
use p2psdk.Ice.CheckList.{all_pairs_failed, max_retransmits, max_rto_ms}
use p2psdk.Ice.StunCodec.{build_ice_binding_request}
use p2psdk.Types.{CandidatePair, CheckState, IceState, is_terminal, is_controlling}
use p2psdk.Wire.{Bytes, u32, u64}

-- `Completed | Failed | Closed`
abbrev pub is_over : IceState → Bool
is_over IceState.completed = true
is_over IceState.failed = true
is_over IceState.closed = true
is_over _ = false

-- `frozen && self.nominated_pair_idx != Some(i)`
abbrev pub frozen_out : Option ℕ → ℕ → Bool
frozen_out none i = false
frozen_out (some j) i = not (j == i)

-- The `continue`s of the loop.
unfoldable pub skips : IceAgent → ℕ → ℕ → CandidatePair → Bool
skips agent now_ms i pair =
    is_terminal pair.state
    || frozen_out agent.nominated_pair_idx i
    || ltb now_ms (u64 (pair.last_sent_time_ms + pair.retransmit_timer_ms))

abbrev pub password : Bytes → Option Bytes
password [] = none
password (c ∷ cs) = some (c ∷ cs)

-- The pair after its request was sent.
unfoldable pub sent_pair : CandidatePair → Bytes → ℕ → CandidatePair
sent_pair pair transaction_id now_ms =
    let count = u32 (pair.retransmit_count + 1) in
    record pair {
      transaction_id = transaction_id;
      last_sent_time_ms = now_ms;
      retransmit_count = count;
      state = if leb max_retransmits count then CheckState.failed else CheckState.in_progress;
      retransmit_timer_ms =
          if leb max_retransmits count
          then pair.retransmit_timer_ms
          else min (u64 (pair.retransmit_timer_ms * 2)) max_rto_ms;
    }

abbrev pub request_of : Crypto → Bytes → IceAgent → CandidatePair → Outcome Bytes
request_of crypto transaction_id agent pair = do
  result ←
      build_ice_binding_request crypto transaction_id
        (agent.remote_ufrag ++ (b':' ∷ agent.local_ufrag)) pair.local.priority
        (is_controlling agent.role) agent.tie_breaker pair.nominated (password agent.remote_pwd)
  ret result.bytes

-- The body of the loop for the pair at index `i`; `fresh i` is the random transaction ID that a
-- request for it draws.
unfoldable pub tick_pair :
    Crypto
    → (ℕ → Bytes)
    → IceAgent
    → ℕ
    → ℕ
    → CandidatePair
    → Outcome (CandidatePair × List IceAction)
tick_pair crypto fresh agent now_ms i pair =
    if skips agent now_ms i pair then ret (pair, []) else do
      bytes ← request_of crypto (fresh i) agent pair
      ret (sent_pair pair (fresh i) now_ms, action_to bytes pair ∷ [])

unfoldable pub tick_pairs :
    Crypto
    → (ℕ → Bytes)
    → IceAgent
    → ℕ
    → ℕ
    → List CandidatePair
    → Outcome (List CandidatePair × List IceAction)
tick_pairs crypto fresh agent now_ms i [] = ret ([], [])
tick_pairs crypto fresh agent now_ms i (p ∷ ps) = do
  one ← tick_pair crypto fresh agent now_ms i p
  rest ← tick_pairs crypto fresh agent now_ms (suc i) ps
  ret (one.0 ∷ rest.0, one.1 ++ rest.1)

unfoldable pub check_completion : IceAgent → IceAgent
check_completion agent =
    if all_pairs_failed agent.check_list then set_state agent IceState.failed else agent

unfoldable pub tick : Crypto → (ℕ → Bytes) → IceAgent → ℕ → Outcome (IceAgent × List IceAction)
tick crypto fresh agent now_ms = if is_over agent.state then ret (agent, []) else do
  done ← tick_pairs crypto fresh agent now_ms 0 agent.check_list
  ret (check_completion (record agent { check_list = done.0 }), done.1)
