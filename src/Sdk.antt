-- ===== src/Sdk.antt =====
-- sdk/crates/p2p-sdk/src/: the library that applications use, on top of the core.
pub mod Connector
pub mod Client
pub mod Io
pub mod Ids
pub mod Signals
pub mod Connect
pub mod Token
