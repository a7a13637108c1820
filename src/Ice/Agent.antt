-- ===== src/Ice/Agent.antt =====
-- sdk/crates/p2p-core/src/ice/agent.rs: the state machine of the ICE agent. What the random generator
-- yields is an argument; the log lines are left out.
pub mod Tick
pub mod Incoming
pub mod Pairs
pub mod Invariant
pub mod Total
pub mod Received
pub mod Events
pub mod Quiet
pub mod Requests
pub mod FirstPair
pub mod Exchange
pub mod States
pub mod Usernames
use p2psdk.Prelude.{
  ℕ, zero, suc, ◌+◌, ◌-◌, ◌*◌, ◌/◌, ◌%◌, ◌^◌, ◌≤◌, ◌<◌, min, max, bit_and, bit_xor, ◌≡◌, refl, sym,
  ap, ap₂, ◌∙◌, ◌≢◌, ◌↔◌, ◌⊎◌, inl, inr, Bool, true, false, not, ◌&&◌, ◌||◌, Option, none, some,
  List, [], ◌∷◌, ◌++◌, map, append_assoc, append-nil, arith, ltb, leb, ◌==◌, if◌then◌else◌, ltb→lt,
  leb→le, le→leb, leb-false, ltb-false, ==_iff, Bool-cases, Option-cases, eq_bytes, eq_bytes_refl,
  eq_bytes_sound, position, FirstAt, FoundBy, position-FoundBy, position-FirstAt, position-none,
  FirstAt-lt, All-map, length, get_elem?, take, drop, replicate, All, length-append, length-take,
  length-drop, length-replicate, take-append, drop-append, get_elem?-append, get_elem?-lt, Result,
  ok, err, Outcome, ret, panic, out_of_fuel, ◌>>=◌, ◌>>◌, Returns, Returns-eq, Returns-of_eq,
  Returns-bind,
}
use mathlib.Core.Option
use p2psdk.Constants.{ice_error_role_conflict}
use p2psdk.Crypto.{Crypto}
use p2psdk.Ice.Candidate.{format_candidate_line, parse_candidate_line}
use p2psdk.Ice.CheckList.{
  calc_candidate_priority, build_check_list, find_pair_by_remote, find_pair_by_tid,
  find_best_succeeded, all_pairs_failed, is_empty, initial_rto_ms, max_retransmits, max_rto_ms,
}
use p2psdk.Ice.StunCodec.{
  ParsedStunMessage, IceBindingRequestResult, build_ice_binding_request, build_ice_binding_response,
  parse_ice_stun_message,
}
use p2psdk.Text.Words.{split_colon}
use p2psdk.Types.{
  IceCandidate, CandidatePair, CandidateType, IceRole, controlling, controlled, IceState,
  IceSessionDescription, CheckState, is_waiting, is_in_progress, is_succeeded, is_terminal,
  is_controlling, codes,
}
use p2psdk.Wire.{Bytes, u32, u64}

pub record IceAction : Type 0 where
  pub bytes : Bytes
  pub target_ip : Bytes
  pub target_port : ℕ

pub record HandleDataResult : Type 0 where
  pub app_data : Option Bytes
  pub actions : List IceAction

pub record IceAgent : Type 0 where
  pub state : IceState
  pub local_ufrag : Bytes
  pub local_pwd : Bytes
  pub tie_breaker : ℕ
  pub role : IceRole
  pub local_candidates : List IceCandidate
  pub remote_candidates : List IceCandidate
  pub remote_ufrag : Bytes
  pub remote_pwd : Bytes
  pub remote_is_lite : Bool
  pub check_list : List CandidatePair
  pub nominated_pair_idx : Option ℕ
  pub nominated_pair_confirmed : Bool

-- `new`: the user fragment, the password and the tie-breaker are random.
unfoldable pub new_agent : Bool → Bytes → Bytes → ℕ → IceAgent
new_agent is_controlling_config local_ufrag local_pwd tie_breaker = record {
  state = IceState.new;
  local_ufrag = local_ufrag;
  local_pwd = local_pwd;
  tie_breaker = tie_breaker;
  role = if is_controlling_config then controlling else controlled;
  local_candidates = [];
  remote_candidates = [];
  remote_ufrag = [];
  remote_pwd = [];
  remote_is_lite = false;
  check_list = [];
  nominated_pair_idx = none;
  nominated_pair_confirmed = false;
}

-- `set_state`: to set a state that is set already changes nothing.
unfoldable pub set_state : IceAgent → IceState → IceAgent
set_state agent s = record agent { state = s }

-- `nominated_pair_idx.and_then(|i| check_list.get(i))`
abbrev pub pair_at : List CandidatePair → Option ℕ → Option CandidatePair
pair_at pairs none = none
pair_at pairs (some i) = get_elem? pairs i

unfoldable pub nominated_pair : IceAgent → Option CandidatePair
nominated_pair agent = pair_at agent.check_list agent.nominated_pair_idx

abbrev pub remote_of : CandidatePair → Bytes × ℕ
remote_of p = (p.remote.connection_address, p.remote.port)

unfoldable pub nominated_remote : IceAgent → Option (Bytes × ℕ)
nominated_remote agent = Option.map remote_of (nominated_pair agent)

abbrev pub action_to : Bytes → CandidatePair → IceAction
action_to bytes p = record {
  bytes = bytes;
  target_ip = p.remote.connection_address;
  target_port = p.remote.port;
}

unfoldable pub send_data : IceAgent → Bytes → Option IceAction
send_data agent bytes = Option.map (action_to bytes) (nominated_pair agent)

unfoldable pub add_local_candidate : IceAgent → IceCandidate → IceAgent
add_local_candidate agent cand = record agent {
  local_candidates = agent.local_candidates ++ (cand ∷ []);
}

unfoldable pub host_candidate : Bytes → ℕ → IceCandidate
host_candidate addr port = record {
  foundation = codes "host-" ++ addr;
  component_id = 1;
  transport = codes "UDP";
  priority = calc_candidate_priority CandidateType.host;
  connection_address = addr;
  port = port;
  candidate_type = CandidateType.host;
  related_address = [];
  related_port = 0;
}

unfoldable pub add_host_candidate : IceAgent → Bytes → ℕ → IceAgent
add_host_candidate agent addr port = add_local_candidate agent (host_candidate addr port)

unfoldable pub local_session_description : IceAgent → IceSessionDescription
local_session_description agent = record {
  ice_ufrag = agent.local_ufrag;
  ice_pwd = agent.local_pwd;
  is_lite = false;
  candidates = map format_candidate_line agent.local_candidates;
}

abbrev pub same_address : IceCandidate → IceCandidate → Bool
same_address cand c = eq_bytes c.connection_address cand.connection_address && c.port == cand.port

-- `iter().any`
abbrev pub any_of : (IceCandidate → Bool) → List IceCandidate → Bool
any_of test [] = false
any_of test (c ∷ cs) = test c || any_of test cs

unfoldable pub add_remote_cand : IceAgent → IceCandidate → IceAgent
add_remote_cand agent cand =
    if any_of (same_address cand) agent.remote_candidates
    then agent
    else record agent { remote_candidates = agent.remote_candidates ++ (cand ∷ []) }

-- A line that is no candidate is passed over.
abbrev pub add_parsed : IceAgent → Option IceCandidate → IceAgent
add_parsed agent none = agent
add_parsed agent (some c) = add_remote_cand agent c

unfoldable pub add_remote_candidate : IceAgent → Bytes → IceAgent
add_remote_candidate agent line = add_parsed agent (parse_candidate_line line)

unfoldable pub add_remote_candidates : IceAgent → List Bytes → IceAgent
add_remote_candidates agent [] = agent
add_remote_candidates agent (line ∷ lines) =
    add_remote_candidates (add_remote_candidate agent line) lines

unfoldable pub set_remote_session_description : IceAgent → IceSessionDescription → IceAgent
set_remote_session_description agent desc =
    add_remote_candidates
      (record agent {
        remote_ufrag = desc.ice_ufrag;
        remote_pwd = desc.ice_pwd;
        remote_is_lite = desc.is_lite;
      })
      desc.candidates

unfoldable pub set_remote_pwd : IceAgent → Bytes → IceAgent
set_remote_pwd agent pwd = record agent { remote_pwd = pwd }

-- The pairs are built and sorted the way `build_check_list` does it.
unfoldable pub start_checks : IceAgent → IceAgent × Result Bytes (Unit {0})
start_checks agent =
    if is_empty agent.remote_ufrag
    then (set_state agent IceState.failed, err (codes "remote ufrag not set"))
    else if is_empty agent.local_candidates || is_empty agent.remote_candidates
    then (set_state agent IceState.failed, err (codes "no candidates to check"))
    else (
      set_state
          (record agent {
            check_list = build_check_list agent.local_candidates agent.remote_candidates agent.role;
          })
          IceState.connecting,
      ok tt,
    )

unfoldable pub stop : IceAgent → IceAgent
stop agent = record (set_state agent IceState.closed) { check_list = []; nominated_pair_idx = none }
