-- ===== src/Lib.antt =====
-- P2P SDK: the protocol core of sdk/crates/p2p-core, which does no input or output of its own, and the
-- library of sdk/crates/p2p-sdk, which applications use. The core's callers hand it datagrams and the
-- time, and carry out the actions that it returns.
--
-- An ICE agent (ice/agent.rs) keeps candidates, builds the check list (ice/check_list.rs), sends STUN
-- connectivity checks (ice/stun_codec.rs) on `tick`, answers those of the peer, and nominates a pair.
-- Candidates are exchanged as text lines (ice/candidate.rs). Application data travels in frames
-- (frame.rs). STUN and TURN messages to the servers (stun/, turn/) go over DTLS (dtls/).
--
-- The client (sdk/crates/p2p-sdk/src/client.rs) gathers candidates from the servers, negotiates with the
-- peer over HTTP (ids.rs) or over the signalling server (connector.rs), and runs two threads: one ticks
-- the agent and sends heartbeats, the other receives, answers and hands payloads to the application.
--
-- Files, with the source below sdk/crates/p2p-core/src:
--   Prelude, Wire         lists, tests, panics; byte buffers with `read_u16`, `write_u16` and others
--   Constants, Types      types.rs: the constants; candidates, pairs, states
--   Text                  what the code uses of the standard library on texts: numbers, UTF-8, words
--   Crypto                crypto.rs: HMAC-SHA1 and CRC-32 as a parameter, `stun_fingerprint`
--   Frame                 frame.rs: `encode_data_frame_with_seq`, `parse_frame`, `is_stun_message`
--   Stun.Codec            stun/codec.rs: `pad_to_4`, `ipv6_to_bytes`, `parse_xor_address` and others
--   Stun.Walk             the attribute loop of the parsers
--   Stun.Builder          stun/message.rs: `write_stun_header`; attributes in a zeroed buffer
--   Stun.Message          stun/message.rs: the requests to the servers; Responses: the parsers
--   Sdp                   sdp.rs: `generate_sdp_offer`, `parse_sdp_answer`
--   Ice.CheckList         ice/check_list.rs: priorities, `build_check_list`, the lookups
--   Ice.StunCodec         ice/stun_codec.rs: the requests and responses of the checks
--   Ice.Candidate         ice/candidate.rs: `parse_candidate_line`, `format_candidate_line`
--   Ice.Agent             ice/agent.rs: the agent's state and the calls without a datagram
--   Ice.Agent.Tick        ice/agent.rs: `tick`, one pair at a time, and `check_completion`
--   Ice.Agent.Incoming    ice/agent.rs: `handle_incoming_data` and what it calls
--   Ice.Agent.Events      ice/agent.rs: sequences of calls
--   Ice.Agent.States      ice/agent.rs: the moves of `IceState` as a relation
--   Ice.Agent.Requests    ice/agent.rs: the requests that a series of `tick`s sends
--   Ice.Agent.FirstPair   ice/check_list.rs: the first pair with an ID or an address
--   Ice.Agent.Exchange    ice/agent.rs: a check to the peer and back
--   Dtls, Dtls.Laws       dtls/session.rs: `DtlsSession`; its polling loop
--   Stun.Client           stun/client.rs: `dtls_handshake`, `dtls_stun_exchange`, the two requests
--   Turn, Turn.Errors     turn/session.rs: `TurnSession`, `parse_error_code`
-- and with the source below sdk/crates/p2p-sdk/src:
--   Sdk.Connector         connector.rs: `ConnectorClient`; Runs: `run_with_reconnect`
--   Sdk.Io                the traits of sdk/crates/p2p-io/src/traits.rs and JSON, as a parameter
--   Sdk.Ids               ids.rs: `register_ids`, `query_ids`, `send_ice_offer`
--   Sdk.Token             token.rs: `fetch_remote_token` and others
--   Sdk.Client            client.rs: `ClientInner`, `send_data`, `send_text`, `close` and others
--   Sdk.Client.Receive    client.rs: a round of the receiving thread; Deliver, Mailbox: what it delivers
--   Sdk.Client.Ticker     client.rs: a round of the ticking thread; Heartbeats: runs of both
--   Sdk.Client.Calls      client.rs: the rounds of both threads and the calls, in any order
--   Sdk.Client.Route      client.rs: `resolve_nat_route`
--   Sdk.Client.Gather     client.rs: `setup_ice_and_gather`, `gather_candidates`
--   Sdk.Client.Info       client.rs: `gather_candidate_info`
--   Sdk.Connect           client.rs: `connect_background`, `connect`
--   Sdk.Signals           client.rs: `P2pClient`, `initiate_ice`, `handle_signaling_message` and others
-- and with the source below sdk/crates/p2p-napi/src:
--   Napi, Napi.Messages   client_napi.rs: the global state and the calls; the messages
--   Napi.Offers           client_napi.rs: `initiate_ice`
--   Napi.Connection       client_napi.rs: `connector_loop_inner`; Flags, Registered: its flags
--   Napi.Threads          client_napi.rs: the rounds of both threads
--   Tests                 concrete runs
--
-- Reading the model. A `Vec<u8>`, a slice or a `String` is the list of its bytes. Numbers are natural
-- numbers, with the wrap of u16, u32 and u64 written out where a sum or a cast can reach it. A value
-- `Outcome A` is what code returns, or a panic, as of an index out of bounds. `&mut self` is the
-- new agent in the result. What the random generator yields (transaction IDs, credentials) is an
-- argument. Where the source looks a pair up and then changes it through a reference, the model changes
-- the list at the index. What the operating system, the network, the DTLS library and serde_json do is a
-- record of functions over a world that is passed on (`Signaling`, `Io`, `Net`, `Dimpl`). The client's lock
-- is held for one operation at a time; a callback runs without it, and what happens to the state then is
-- an argument (`during`); such a callback returns: one that calls `stop_ice` or `close` waits for its own
-- thread, which panics (`stop_ice_threads`). A thread is the sequence of its rounds, and the rounds are
-- over when a thread is joined, but for the connector's loop of client_napi.rs, whose last round may still
-- change the state (`ending`); `run_with_reconnect` is a machine that takes a step at each reading of the
-- stop flag. The sums that Rust checks only in debug builds wrap.
--
-- Bounds. The attribute loop runs on fuel: one more than the end of the attributes, and every round moves
-- on by four bytes or more, so the fuel is not reached (`walk-Returns`). `from_utf8_lossy` and the
-- printing of numbers run on the length and on the number itself, which each round makes smaller. The
-- handshake's loop and the polling of the DTLS library run on fuel; how much is enough follows from how
-- long a call of `recv` waits, how often it returns at once, with a queued datagram or an error, and how
-- many outputs the library may hold.
--
-- Not modelled: the certificates, records and handshakes of DTLS (sdk/crates/dimpl, a copy of another
-- project's library), the log lines, the bindings of sdk/crates/p2p-napi and of their client
-- (client_napi.rs) `init`, `connect` and the HTTP calls, the sockets of
-- sdk/crates/p2p-tokio, and the demonstration programs.
pub mod Prelude
pub mod Wire
pub mod Constants
pub mod Types
pub mod Text
pub mod Crypto
pub mod Frame
pub mod Dtls
pub mod Stun
pub mod Turn
pub mod Sdk
pub mod Napi
pub mod Sdp
pub mod Ice
pub mod Tests
