-- ===== src/Stun.antt =====
-- sdk/crates/p2p-core/src/stun: STUN and TURN messages over DTLS.
pub mod Codec
pub mod Walk
pub mod Builder
pub mod Message
pub mod Client
