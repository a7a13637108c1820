-- ===== src/Types.antt =====
-- sdk/crates/p2p-core/src/types.rs: candidates, states and protocol constants. A Rust `String` is
-- the list of its UTF-8 bytes.
use p2psdk.Prelude.{
  ℕ, Bool, true, false, Option, none, some, List, [], ◌∷◌, if◌then◌else◌, eq_bytes,
}
use Prim.Native.Char.{code}
use Prim.Native.String.{String}
use p2psdk.Wire.{Bytes}

-- The bytes of an ASCII literal.
abbrev pub codes : String → Bytes
codes String.[] = []
codes (String.◌∷◌ c s) = code c ∷ codes s

pub data CandidateType : Type 0 where
  host srflx relay : CandidateType

pub data CheckState : Type 0 where
  waiting in_progress succeeded failed : CheckState

pub data IceRole : Type 0 where
  controlling controlled : IceRole

pub data IceState : Type 0 where
  new gathering connecting connected completed failed disconnected closed : IceState

pub record IceCandidate : Type 0 where
  pub foundation : Bytes
  pub component_id : ℕ
  pub transport : Bytes
  pub priority : ℕ
  pub connection_address : Bytes
  pub port : ℕ
  pub candidate_type : CandidateType
  pub related_address : Bytes
  pub related_port : ℕ

pub record CandidatePair : Type 0 where
  pub local : IceCandidate
  pub remote : IceCandidate
  pub state : CheckState
  pub nominated : Bool
  pub priority : ℕ
  pub retransmit_count : ℕ
  pub retransmit_timer_ms : ℕ
  pub last_sent_time_ms : ℕ
  pub transaction_id : Bytes

pub record IceSessionDescription : Type 0 where
  pub ice_ufrag : Bytes
  pub ice_pwd : Bytes
  pub is_lite : Bool
  pub candidates : List Bytes

unfoldable pub as_str : CandidateType → Bytes
as_str host = codes "host"
as_str srflx = codes "srflx"
as_str relay = codes "relay"

unfoldable pub from_str : Bytes → Option CandidateType
from_str s =
    if eq_bytes s (codes "host")
    then some host
    else if eq_bytes s (codes "srflx")
    then some srflx
    else if eq_bytes s (codes "relay")
    then some relay
    else none

-- `matches!` on the enumerations.
abbrev pub is_waiting : CheckState → Bool
is_waiting waiting = true
is_waiting _ = false

abbrev pub is_in_progress : CheckState → Bool
is_in_progress in_progress = true
is_in_progress _ = false

abbrev pub is_succeeded : CheckState → Bool
is_succeeded succeeded = true
is_succeeded _ = false

-- `Succeeded | Failed`
abbrev pub is_terminal : CheckState → Bool
is_terminal succeeded = true
is_terminal failed = true
is_terminal _ = false

abbrev pub is_controlling : IceRole → Bool
is_controlling controlling = true
is_controlling controlled = false
