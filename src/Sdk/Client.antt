-- ===== src/Sdk/Client.antt =====
-- sdk/crates/p2p-sdk/src/client.rs: the state of the client and its operations on the ICE data flow.
-- What the UDP socket's `send_to` returns is an argument; the lock is held by one operation at a time,
-- and the log lines are left out.
pub mod Receive
pub mod Deliver
pub mod Mailbox
pub mod Ticker
pub mod Heartbeats
pub mod Soundness
pub mod Calls
pub mod Route
pub mod Gather
pub mod Info
use p2psdk.Prelude.{
  ℕ, zero, suc, ◌+◌, ◌-◌, ◌*◌, ◌/◌, ◌%◌, ◌^◌, ◌≤◌, ◌<◌, min, max, bit_and, bit_xor, ◌≡◌, refl, sym,
  ap, ap₂, ◌∙◌, ◌≢◌, ◌↔◌, ◌⊎◌, inl, inr, Bool, true, false, not, ◌&&◌, ◌||◌, Option, none, some,
  List, [], ◌∷◌, ◌++◌, map, append_assoc, append-nil, arith, ltb, leb, ◌==◌, if◌then◌else◌, ltb→lt,
  leb→le, le→leb, leb-false, ltb-false, ==_iff, Bool-cases, Option-cases, eq_bytes, eq_bytes_refl,
  eq_bytes_sound, position, FirstAt, FoundBy, position-FoundBy, position-FirstAt, position-none,
  FirstAt-lt, All-map, length, get_elem?, take, drop, replicate, All, length-append, length-take,
  length-drop, length-replicate, take-append, drop-append, get_elem?-append, get_elem?-lt, Result,
  ok, err, Outcome, ret, panic, out_of_fuel, ◌>>=◌, ◌>>◌, Returns, Returns-eq, Returns-of_eq,
  Returns-bind, Returns-if,
}
use mathlib.Core.Option
use p2psdk.Crypto.{Crypto}
use p2psdk.Frame.{ParsedFrame, encode_data_frame, encode_data_frame_with_seq, parse_frame}
use p2psdk.Ice.Agent.{IceAgent, IceAction, HandleDataResult}
use p2psdk.Ice.Agent
use p2psdk.Ice.Agent.Incoming.{handle_incoming_data, no_result}
use p2psdk.Ice.Agent.Tick
use p2psdk.Types.{IceState, codes}
use p2psdk.Wire.{Bytes}

pub record NatRoute : Type 0 where
  pub stun_ip : Bytes
  pub stun_port : ℕ
  pub turn_ip : Bytes
  pub turn_port : ℕ

-- Of the I/O provider, the socket, the threads and the callbacks the state holds whether they are
-- there. `last_recv_instant` is in milliseconds of the machine's clock.
pub record ClientInner : Type 0 where
  pub io : Bool
  pub nat_route : Option NatRoute
  pub stun_external_ip : Bytes
  pub stun_external_port : ℕ
  pub turn_relay_ip : Bytes
  pub turn_relay_port : ℕ
  pub turn_mapped_ip : Bytes
  pub turn_mapped_port : ℕ
  pub ice_agent : Option IceAgent
  pub ice_udp : Bool
  pub tick_handle : Bool
  pub recv_handle : Bool
  pub ice_stop : Bool
  pub on_state_change : Bool
  pub on_data : Bool
  pub heartbeat_interval_secs : ℕ
  pub last_recv_instant : Option ℕ
  pub pending_seq_ids : List ℕ

unfoldable pub new_inner : ClientInner
new_inner = record {
  io = false;
  nat_route = none;
  stun_external_ip = [];
  stun_external_port = 0;
  turn_relay_ip = [];
  turn_relay_port = 0;
  turn_mapped_ip = [];
  turn_mapped_port = 0;
  ice_agent = none;
  ice_udp = false;
  tick_handle = false;
  recv_handle = false;
  ice_stop = false;
  on_state_change = false;
  on_data = false;
  heartbeat_interval_secs = 0;
  last_recv_instant = none;
  pending_seq_ids = [];
}

-- What the client lets the outside see: a datagram sent, and the two callbacks.
pub data Output : Type 0 where
  sent : IceAction → Output
  state_changed : IceState → Output
  data_received : Bytes → Output

-- The callback is taken out of the state while it runs; `during` is what happens to the state then.
unfoldable pub fire_state_change :
    (ClientInner → ClientInner) → ClientInner → IceState → ClientInner × List Output
fire_state_change during inner state =
    if inner.on_state_change
    then (
      record (during (record inner { on_state_change = false })) { on_state_change = true },
      state_changed state ∷ [],
    )
    else (inner, [])

unfoldable pub fire_on_data :
    (ClientInner → ClientInner) → ClientInner → Bytes → ClientInner × List Output
fire_on_data during inner payload =
    if inner.on_data
    then (
      record (during (record inner { on_data = false })) { on_data = true },
      data_received payload ∷ [],
    )
    else (inner, [])

abbrev pub send_action :
    Result Bytes (Unit {0}) → Option IceAction → Result Bytes (Unit {0}) × List Output
send_action returned none = (err (codes "no nominated pair"), [])
send_action returned (some act) = (returned, sent act ∷ [])

abbrev pub send_from :
    Result Bytes (Unit {0}) → Option IceAgent → Bool → Bytes → Result Bytes (Unit {0}) × List Output
send_from returned none udp bytes = (err (codes "no ICE agent"), [])
send_from returned (some agent) false bytes = (err (codes "no UDP socket"), [])
send_from returned (some agent) true bytes = send_action returned (Agent.send_data agent bytes)

-- `returned` is what `udp.send_to` returns.
unfoldable pub send_data :
    Result Bytes (Unit {0}) → ClientInner → Bytes → Result Bytes (Unit {0}) × List Output
send_data returned inner bytes = send_from returned inner.ice_agent inner.ice_udp bytes

-- `pop_front().unwrap_or(0)`
abbrev pub next_seq_id : List ℕ → ℕ
next_seq_id [] = 0
next_seq_id (seq_id ∷ rest) = seq_id

abbrev pub pop_front : List ℕ → List ℕ
pop_front [] = []
pop_front (seq_id ∷ rest) = rest

abbrev pub text_frame : Bytes → ℕ → Bytes
text_frame text seq_id =
    if ltb 0 seq_id then encode_data_frame_with_seq text seq_id else encode_data_frame text

unfoldable pub send_text :
    Result Bytes (Unit {0})
    → ClientInner
    → Bytes
    → ClientInner × (Result Bytes (Unit {0}) × List Output)
send_text returned inner text =
    let popped = record inner { pending_seq_ids = pop_front inner.pending_seq_ids } in
    (popped, send_data returned popped (text_frame text (next_seq_id inner.pending_seq_ids)))

unfoldable pub parse_received : Bytes → Outcome (Option ParsedFrame)
parse_received bytes = parse_frame bytes

abbrev pub set_agent : ClientInner → IceAgent → ClientInner
set_agent inner agent = record inner { ice_agent = some agent }

abbrev pub tick_agent :
    Crypto
    → (ℕ → Bytes)
    → ClientInner
    → ℕ
    → Option IceAgent
    → Outcome (ClientInner × List IceAction)
tick_agent crypto fresh inner now_ms none = ret (inner, [])
tick_agent crypto fresh inner now_ms (some agent) = do
  done ← Tick.tick crypto fresh agent now_ms
  ret (set_agent inner done.0, done.1)

unfoldable pub tick :
    Crypto → (ℕ → Bytes) → ClientInner → ℕ → Outcome (ClientInner × List IceAction)
tick crypto fresh inner now_ms = tick_agent crypto fresh inner now_ms inner.ice_agent

abbrev pub incoming_agent :
    ClientInner → Bytes → Bytes → ℕ → Option IceAgent → Outcome (ClientInner × HandleDataResult)
incoming_agent inner bytes from_ip from_port none = ret (inner, no_result)
incoming_agent inner bytes from_ip from_port (some agent) = do
  done ← handle_incoming_data agent bytes from_ip from_port
  ret (set_agent inner done.0, done.1)

unfoldable pub handle_incoming_udp :
    ClientInner → Bytes → Bytes → ℕ → Outcome (ClientInner × HandleDataResult)
handle_incoming_udp inner bytes from_ip from_port =
    incoming_agent inner bytes from_ip from_port inner.ice_agent

unfoldable pub ice_state : ClientInner → Option IceState
ice_state inner = Option.map (λ agent. agent.state) inner.ice_agent

-- `==` of two states.
abbrev pub state_tag : IceState → ℕ
state_tag IceState.new = 0
state_tag IceState.gathering = 1
state_tag IceState.connecting = 2
state_tag IceState.connected = 3
state_tag IceState.completed = 4
state_tag IceState.failed = 5
state_tag IceState.disconnected = 6
state_tag IceState.closed = 7

abbrev pub is_some_state : Option IceState → IceState → Bool
is_some_state none s = false
is_some_state (some r) s = state_tag r == state_tag s

unfoldable pub is_ice_completed : ClientInner → Bool
is_ice_completed inner = is_some_state (ice_state inner) IceState.completed

-- The thread that a call comes from: in a callback one of the client's own, or any other.
pub data Caller : Type 0 where
  on_tick_thread on_recv_thread elsewhere : Caller

unfoldable pub joins_itself : Caller → ClientInner → Bool
joins_itself on_tick_thread inner = inner.tick_handle
joins_itself on_recv_thread inner = inner.recv_handle
joins_itself elsewhere inner = false

-- The threads have ended when their handles are joined.
unfoldable pub threads_joined : ClientInner → ClientInner
threads_joined inner = record inner { ice_stop = true; tick_handle = false; recv_handle = false }

-- `JoinHandle::join` panics in the thread that it would wait for.
unfoldable pub stop_ice_threads : Caller → ClientInner → Outcome ClientInner
stop_ice_threads caller inner =
    if joins_itself caller inner then panic else ret (threads_joined inner)

-- The bodies of the threads are the rounds of `Receive` and `Ticker`. The caller is the thread of
-- `connect`, which is neither of those that it waits for.
unfoldable pub start_ice_threads : ClientInner → ClientInner
start_ice_threads inner = record (threads_joined inner) {
  ice_stop = false;
  tick_handle = true;
  recv_handle = true;
}

abbrev pub stopped_agent : ClientInner → ClientInner
stopped_agent inner = record inner { ice_agent = Option.map Agent.stop inner.ice_agent }

unfoldable pub stop_ice : Caller → ClientInner → Outcome ClientInner
stop_ice caller inner = do stopped ← stop_ice_threads caller inner; ret (stopped_agent stopped)

abbrev pub forgotten : ClientInner → ClientInner
forgotten inner = record inner { ice_agent = none; ice_udp = false; heartbeat_interval_secs = 0 }

unfoldable pub close : Caller → ClientInner → Outcome ClientInner
close caller inner = do stopped ← stop_ice_threads caller inner; ret (forgotten stopped)
