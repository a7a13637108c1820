-- ===== src/Tests/Fixtures.antt =====
-- Concrete data for the tests.
use p2psdk.Prelude.{ℕ, true, false, Option, List, [], ◌∷◌, arith, replicate, length-replicate}
use p2psdk.Crypto.{Crypto}
use p2psdk.Ice.Agent.{IceAgent, new_agent}
use p2psdk.Ice.Agent.Events.{FreshIds, Event}
use p2psdk.Ice.CheckList.{initial_rto_ms}
use p2psdk.Types.{IceCandidate, CandidatePair, CandidateType, CheckState, IceRole, IceState, codes}
use p2psdk.Wire.{Bytes}

-- Checksums that are all zero.
abbrev pub zero_crypto : Crypto
zero_crypto = record {
  hmac_sha1 = λ key bytes. replicate 20 0;
  length-hmac_sha1 = λ key bytes. length-replicate {A = ℕ} 20 0;
  crc32 = λ bytes. 0;
  crc32-lt = λ bytes. omega arith;
}

abbrev pub ids : FreshIds
ids = record { id = λ i. replicate 12 i; twelve = λ i. length-replicate {A = ℕ} 12 i }

abbrev pub tid : Bytes
tid = replicate 12 7

abbrev pub address : Bytes
address = codes "10.0.0.2"

abbrev pub a_candidate : ℕ → ℕ → IceCandidate
a_candidate priority port = record {
  foundation = codes "h";
  component_id = 1;
  transport = codes "UDP";
  priority = priority;
  connection_address = address;
  port = port;
  candidate_type = CandidateType.host;
  related_address = [];
  related_port = 0;
}

abbrev pub a_pair : CheckState → ℕ → CandidatePair
a_pair state priority = record {
  local = a_candidate 100 4000;
  remote = a_candidate 90 5000;
  state = state;
  nominated = false;
  priority = priority;
  retransmit_count = 0;
  retransmit_timer_ms = initial_rto_ms;
  last_sent_time_ms = 0;
  transaction_id = [];
}

abbrev pub an_agent : List CandidatePair → Option ℕ → IceAgent
an_agent pairs nominated = record {
  state = IceState.connecting;
  local_ufrag = codes "aaaa";
  local_pwd = codes "secret";
  tie_breaker = 5;
  role = IceRole.controlling;
  local_candidates = [];
  remote_candidates = [];
  remote_ufrag = codes "bbbb";
  remote_pwd = codes "other";
  remote_is_lite = false;
  check_list = pairs;
  nominated_pair_idx = nominated;
  nominated_pair_confirmed = false;
}

abbrev pub fresh_agent : IceAgent
fresh_agent = new_agent true (codes "aaaa") (codes "secret") 5

-- A call for each operation, two rounds of checks and a datagram of the peer's application.
abbrev pub call_sequence : List Event
call_sequence =
    Event.host_address (codes "10.0.0.1") 4000
    ∷ Event.remote_description (record {
      ice_ufrag = codes "bbbb";
      ice_pwd = codes "other";
      is_lite = false;
      candidates = codes "candidate:h 1 UDP 90 10.0.0.2 5000 typ host" ∷ [];
    })
    ∷ Event.remote_candidate (codes "candidate:h 1 UDP 90 10.0.0.3 5000 typ host")
    ∷ Event.checks_started
    ∷ Event.ticked ids 500
    ∷ Event.received (1 ∷ 2 ∷ 3 ∷ []) address 5000
    ∷ Event.ticked ids 1500
    ∷ Event.stopped
    ∷ []
