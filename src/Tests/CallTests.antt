-- ===== src/Tests/CallTests.antt =====
-- A run of a client with calls of every kind.
use p2psdk.Prelude.{true, some, List, [], ◌∷◌, ok, Returns}
use p2psdk.Ice.Agent.Invariant.{new_agent-AgentOk}
use p2psdk.Ice.StunCodec.{parse_ice_stun_message}
use p2psdk.Sdk.Client.{ClientInner, send_text}
use p2psdk.Sdk.Client.Calls.{Call, call_all, Sound, call_all-Returns}
use p2psdk.Sdk.Client.Ticker.{new_thread}
use p2psdk.Sdk.Signals.{IceDataMessage}
use p2psdk.Tests.Fixtures.{zero_crypto, ids, address, fresh_agent}
use p2psdk.Tests.SdkTests.{a_client, an_answer, toy_codec}
use p2psdk.Types.{codes}

abbrev new_client : ClientInner
new_client = record a_client { ice_agent = some fresh_agent }

-- A callback that has a text answered.
abbrev listen : ClientInner → ClientInner
listen inner = (send_text (ok tt) inner (codes "pong")).0

abbrev calls : List (Call IceDataMessage)
calls =
    Call.ticked ids listen 100
    ∷ Call.signalled (record an_answer { action = codes "iceOffer" })
    ∷ Call.received listen 120 (some (1 ∷ 2 ∷ 3 ∷ [], address, 5000))
    ∷ Call.sent_text (ok tt) (codes "hello")
    ∷ Call.ticked ids listen 150
    ∷ Call.checks_ticked ids 200
    ∷ Call.stopped
    ∷ Call.closed
    ∷ []

call_all-Returns_example :
    Returns
      (Sound zero_crypto toy_codec)
      (call_all zero_crypto toy_codec (new_thread, new_client) calls)
unfolding parse_ice_stun_message send_text
call_all-Returns_example =
    call_all-Returns zero_crypto toy_codec (new_thread, new_client) calls
      ((λ c h. h), (tt, (((λ c h. h), tt), (tt, ((λ c h. h), (tt, (tt, (tt, tt))))))))
      (new_agent-AgentOk true (codes "aaaa") (codes "secret") 5)
