-- ===== src/Tests/ServerTests.antt =====
-- Tests of the exchanges with the STUN and TURN servers.
use p2psdk.Prelude.{false, some, arith, Returns}
use p2psdk.Dtls.{DtlsSession}
use p2psdk.Stun.Client.{dtls_handshake}
use p2psdk.Stun.Client.Handshake.{dtls_handshake-Returns}
use p2psdk.Tests.Doubles.{toy_dimpl, toy-Drains, queued_net, queued_passes}

abbrev a_session : DtlsSession toy_dimpl
a_session = record { dtls = some false; connected = false; start_instant = 0 }

dtls_handshake-Returns_example :
    Returns (λ done. Unit {0}) (dtls_handshake toy_dimpl queued_net 19 4 (0, 2) a_session)
dtls_handshake-Returns_example =
    dtls_handshake-Returns toy_dimpl queued_net 1 1000 19 4 (0, 2) a_session queued_passes
      toy-Drains (omega arith) (omega arith) (omega arith)
