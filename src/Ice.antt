-- ===== src/Ice.antt =====
-- sdk/crates/p2p-core/src/ice: the ICE agent and its parts.
pub mod CheckList
pub mod StunCodec
pub mod Candidate
pub mod Agent
