-- ===== src/Ice/Agent/Incoming.antt =====
-- sdk/crates/p2p-core/src/ice/agent.rs: incoming datagrams, `handle_incoming_data` and the
-- nomination of a pair.
use p2psdk.Prelude.{
  ℕ, zero, suc, Bool, true, false, not, ◌&&◌, Option, none, some, List, [], ◌∷◌, map, ◌==◌,
  if◌then◌else◌, eq_bytes, Outcome, ret, ◌>>=◌,
}
use p2psdk.Constants.{ice_error_role_conflict}
use p2psdk.Ice.Agent.{IceAgent, HandleDataResult, set_state}
use p2psdk.Ice.CheckList.{
  find_pair_by_remote, find_pair_by_tid, find_best_succeeded, is_empty, initial_rto_ms,
}
use p2psdk.Ice.StunCodec.{ParsedStunMessage, build_ice_binding_response, parse_ice_stun_message}
use p2psdk.Text.Words.{split_colon}
use p2psdk.Types.{
  CandidatePair, CheckState, IceState, IceRole, controlling, controlled, is_in_progress,
  is_controlling,
}
use p2psdk.Wire.{Bytes}

abbrev pub no_result : HandleDataResult
no_result = record { app_data = none; actions = [] }

-- The pair at an index replaced by what `f` makes of it.
abbrev pub modify_at : (CandidatePair → CandidatePair) → ℕ → List CandidatePair → List CandidatePair
modify_at f i [] = []
modify_at f zero (p ∷ ps) = f p ∷ ps
modify_at f (suc i) (p ∷ ps) = p ∷ modify_at f i ps

abbrev names_us : IceAgent → Option (Bytes × Bytes) → Bool
names_us agent none = false
names_us agent (some (ours, theirs)) =
    eq_bytes ours agent.local_ufrag && eq_bytes theirs agent.remote_ufrag

-- The user name is empty, or it is `ours:theirs`, split at its first colon.
unfoldable pub accepts_username : IceAgent → Bytes → Bool
accepts_username agent username =
    if is_empty username then true else names_us agent (split_colon username)

-- Only a controlling agent gives way.
unfoldable pub resolve_conflict : Option Bool → IceAgent → IceAgent
resolve_conflict none agent = agent
resolve_conflict (some peer_controlling) agent =
    if peer_controlling && is_controlling agent.role
    then record agent { role = controlled }
    else agent

abbrev pub succeed : CandidatePair → CandidatePair
succeed pair = record pair { state = CheckState.succeeded }

abbrev pub succeed_nominated : CandidatePair → CandidatePair
succeed_nominated pair = record pair { state = CheckState.succeeded; nominated = true }

unfoldable pub confirm : IceAgent → IceAgent
confirm agent =
    if agent.nominated_pair_confirmed
    then agent
    else set_state (record agent { nominated_pair_confirmed = true }) IceState.completed

-- "Mark pair"
unfoldable pub mark_pair : Bool → Option ℕ → IceAgent → IceAgent
mark_pair use_candidate none agent = agent
mark_pair use_candidate (some i) agent =
    if use_candidate && not (is_controlling agent.role)
    then confirm (record agent {
      check_list = modify_at succeed_nominated i agent.check_list;
      nominated_pair_idx = some i;
    })
    else record agent { check_list = modify_at succeed i agent.check_list }

-- `New | Gathering | Connecting`
abbrev pub is_early : IceState → Bool
is_early IceState.new = true
is_early IceState.gathering = true
is_early IceState.connecting = true
is_early _ = false

abbrev pub is_connecting : IceState → Bool
is_connecting IceState.connecting = true
is_connecting _ = false

unfoldable pub connect_if : (IceState → Bool) → IceAgent → IceAgent
connect_if test agent = if test agent.state then set_state agent IceState.connected else agent

unfoldable pub respond :
    ParsedStunMessage → Bytes → ℕ → IceAgent → Option Bytes → IceAgent × HandleDataResult
respond parsed from_ip from_port agent none = (agent, no_result)
respond parsed from_ip from_port agent (some resp) = (
  connect_if is_early (
      mark_pair parsed.use_candidate (find_pair_by_remote agent.check_list from_ip from_port)
        agent),
  record {
    app_data = none;
    actions = record { bytes = resp; target_ip = from_ip; target_port = from_port } ∷ [];
  },
)

unfoldable pub handle_incoming_stun :
    IceAgent → Bytes → ParsedStunMessage → Bytes → ℕ → Outcome (IceAgent × HandleDataResult)
handle_incoming_stun agent raw parsed from_ip from_port =
    if not (accepts_username agent parsed.username) then ret (agent, no_result) else do
      resp ← build_ice_binding_response raw
      ret (respond parsed from_ip from_port (resolve_conflict parsed.controlling agent) resp)

abbrev pub switch_role : IceRole → IceRole
switch_role controlling = controlled
switch_role controlled = controlling

unfoldable pub restart_pair : CandidatePair → CandidatePair
restart_pair pair =
    if is_in_progress pair.state
    then record pair {
      state = CheckState.waiting;
      retransmit_count = 0;
      retransmit_timer_ms = initial_rto_ms;
    }
    else pair

abbrev pub start_nomination : CandidatePair → CandidatePair
start_nomination pair = record pair {
  state = CheckState.in_progress;
  retransmit_count = 0;
  retransmit_timer_ms = initial_rto_ms;
  nominated = true;
}

unfoldable pub nominate_at : IceAgent → Option ℕ → IceAgent
nominate_at agent none = agent
nominate_at agent (some i) = record agent {
  check_list = modify_at start_nomination i agent.check_list;
  nominated_pair_idx = some i;
}

unfoldable pub nominate_best : IceAgent → IceAgent
nominate_best agent = nominate_at agent (find_best_succeeded agent.check_list)

abbrev pub nominate_or_confirm : IceAgent → ℕ → Option ℕ → IceAgent
nominate_or_confirm agent i none = nominate_best agent
nominate_or_confirm agent i (some j) = if j == i then confirm agent else agent

-- "Controlling nomination", for the pair at index `i` that has succeeded.
unfoldable pub nominate_after : ℕ → IceAgent → IceAgent
nominate_after i agent =
    if is_controlling agent.role && not agent.nominated_pair_confirmed
    then nominate_or_confirm agent i agent.nominated_pair_idx
    else agent

-- The response to the pair at index `i`.
unfoldable pub pair_responded : ℕ → IceAgent → IceAgent
pair_responded i agent =
    connect_if is_connecting
      (nominate_after i (record agent { check_list = modify_at succeed i agent.check_list }))

abbrev pub any_pair_responded : IceAgent → Option ℕ → IceAgent
any_pair_responded agent none = agent
any_pair_responded agent (some i) = pair_responded i agent

unfoldable pub handle_stun_response : IceAgent → ParsedStunMessage → IceAgent
handle_stun_response agent parsed =
    if parsed.is_error_response && parsed.error_code == ice_error_role_conflict
    then record agent {
      role = switch_role agent.role;
      check_list = map restart_pair agent.check_list;
    }
    else if not parsed.is_response
    then agent
    else any_pair_responded agent (find_pair_by_tid agent.check_list parsed.transaction_id)

unfoldable pub handle_incoming_data :
    IceAgent → Bytes → Bytes → ℕ → Outcome (IceAgent × HandleDataResult)
handle_incoming_data agent bytes from_ip from_port = do
  parsed ← parse_ice_stun_message bytes
  if not parsed.is_stun
      then ret (agent, record { app_data = some bytes; actions = [] })
      else if parsed.is_request
      then handle_incoming_stun agent bytes parsed from_ip from_port
      else ret (handle_stun_response agent parsed, no_result)
