-- ===== src/Tests.antt =====
-- The tests.
mod Fixtures
mod AgentTests
mod CodecTests
mod Doubles
mod SdkTests
mod ServerTests
mod CallTests
mod ExchangeTests
mod NapiTests
