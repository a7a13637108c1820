-- ===== src/Napi/Registered.antt =====
-- sdk/crates/p2p-napi/src/client_napi.rs: what `is_connector_registered` tells of the connector's loop.
use p2psdk.Prelude.{
  ℕ, ◌≡◌, refl, sym, ap, ◌∙◌, inl, inr, Bool, true, false, not, ◌&&◌, ◌||◌, List, [], ◌∷◌, ◌++◌,
  if◌then◌else◌, Bool-cases, All, Result, ok, err,
}
use p2psdk.Napi.{
  Inner, connector_stopped, connect_connector, stop_connector, is_connector_registered,
}
use p2psdk.Napi.Connection.{
  start_loop, send_queued, queued, drain, ConnectorLoop, after_connect_inner, after_poll_inner,
  connector_step, connector_loop_inner, poll_round,
}
use p2psdk.Sdk.Client.Gather.{Draws}
use p2psdk.Sdk.Connector.{
  Effect, state_changed, message, slept, Signaling, ConnectorMessage, ConnectorClient,
  ConnectorError, Phase, outer, polling, waiting, finished, connect, new_client, poll,
}
use p2psdk.Sdk.Io.{Io}
use p2psdk.Sdk.Signals.{IceCodec}
use p2psdk.Wire.{Bytes}
use p2psdk.Napi.Flags.{flags, handle_messages-flags}

unfoldable pub is_polling : Phase → Bool
is_polling outer = false
is_polling polling = true
is_polling waiting = false
is_polling finished = false

-- The last state that was reported, `state` if none was.
unfoldable pub reported : {Json : Type 0} → Bool → List (Effect Json) → Bool
reported state [] = state
reported state (state_changed next ∷ effects) = reported next effects
reported state (message m ∷ effects) = reported state effects
reported state (slept delay ∷ effects) = reported state effects

reported-append :
    {Json : Type 0} (state : Bool) (es fs : List (Effect Json))
    → reported state (es ++ fs) ≡ reported (reported state es) fs
unfolding reported
reported-append state [] fs = refl
reported-append state (state_changed next ∷ es) fs = reported-append next es fs
reported-append state (message m ∷ es) fs = reported-append state es fs
reported-append state (slept delay ∷ es) fs = reported-append state es fs

reported-registers :
    (Json : Type 0) (registers was : Bool)
    → registers || was
      ≡ reported {Json = Json} was
          ((if registers then state_changed true ∷ [] else []) ++ (slept 50 ∷ []))
unfolding reported
reported-registers Json true was = refl
reported-registers Json false was = refl

module _ (signaling : Signaling) (io : Io) (codec : IceCodec signaling.Json) (null : signaling.Json)
    (draws : Draws) where
  -- The flag says that the loop is polling and has reported the registration.
  abbrev pub Tracks : ConnectorLoop signaling io → Type 0
  Tracks l = flags l.inner ≡ (is_polling l.phase && l.was_registered, false)

  after_connect_inner-Tracks :
      (l : ConnectorLoop signaling io)
      (r : ConnectorClient signaling × Result ConnectorError (Unit {0}))
      → l.phase ≡ outer
      → Tracks l
      → Tracks (after_connect_inner signaling io codec null draws l r).0
  unfolding is_polling
  after_connect_inner-Tracks l (client, ok u) e t = ap (λ f. (false, f.1)) t
  after_connect_inner-Tracks l (client, err x) e t = t

  after_poll_inner-Tracks :
      (l : ConnectorLoop signaling io)
      (r : ConnectorClient signaling × List (ConnectorMessage signaling.Json))
      → l.phase ≡ polling
      → flags l.inner ≡ (l.was_registered, false)
      → Tracks (after_poll_inner signaling io codec null draws l r).0
  unfolding is_polling
  after_poll_inner-Tracks l (client, msgs) e t =
      elim (Bool-cases (not (signaling.is_connected client.ws))) [
        | inl z ↦ rw z (elim (Bool-cases l.was_registered) [
          | inl was ↦ rw was (ap (λ f. (false, f.1)) t)
          | inr was ↦ rw was (t ∙ ap (λ b. (b, false)) was)
        ])
        | inr z ↦
            let registers = client.registered && not l.was_registered in
            rw z (
              handle_messages-flags signaling io codec null draws l.world
                (record l.inner {
                  connector_registered = registers || l.inner.connector_registered;
                })
                msgs
              ∙ ap (λ f. (registers || f.0, f.1)) t
              ∙ ap (λ p. (is_polling p && (registers || l.was_registered), false)) (sym e))
      ]

  after_connect_inner-reported :
      (l : ConnectorLoop signaling io)
      (r : ConnectorClient signaling × Result ConnectorError (Unit {0}))
      → flags l.inner ≡ (false, false)
      → flags (after_connect_inner signaling io codec null draws l r).0.inner ≡ (
        reported l.inner.connector_registered
            (after_connect_inner signaling io codec null draws l r).1,
        false,
      )
  unfolding reported
  after_connect_inner-reported l (client, ok u) t =
      ap (λ f. (false, f.1)) t ∙ ap (λ f. (f.0, false)) (sym t)
  after_connect_inner-reported l (client, err x) t = ap (λ f. (l.inner.connector_registered, f.1)) t

  after_poll_inner-reported :
      (l : ConnectorLoop signaling io)
      (r : ConnectorClient signaling × List (ConnectorMessage signaling.Json))
      → flags l.inner ≡ (l.was_registered, false)
      → flags (after_poll_inner signaling io codec null draws l r).0.inner
        ≡ (reported l.was_registered (after_poll_inner signaling io codec null draws l r).1, false)
  unfolding reported
  after_poll_inner-reported l (client, msgs) t =
      elim (Bool-cases (not (signaling.is_connected client.ws))) [
        | inl z ↦ rw z (elim (Bool-cases l.was_registered) [
          | inl was ↦ rw was (ap (λ f. (false, f.1)) t)
          | inr was ↦ rw was (t ∙ ap (λ b. (b, false)) was)
        ])
        | inr z ↦
            let registers = client.registered && not l.was_registered in
            rw z (
              handle_messages-flags signaling io codec null draws l.world
                (record l.inner {
                  connector_registered = registers || l.inner.connector_registered;
                })
                msgs
              ∙ ap (λ f. (registers || f.0, f.1)) t
              ∙ ap (λ b. (b, false)) (reported-registers signaling.Json registers l.was_registered))
      ]

  module _ (url identifier auth_token : Bytes) where
    connector_step-Tracks :
        (phase : Phase) (l : ConnectorLoop signaling io)
        → l.phase ≡ phase
        → Tracks l
        → Tracks
            (connector_step signaling io codec null draws url identifier auth_token phase false l).0
    unfolding connector_step is_polling
    connector_step-Tracks outer l e t =
        after_connect_inner-Tracks l
          (connect signaling (new_client signaling l.client.ws) url identifier auth_token) e t
    connector_step-Tracks polling l e t =
        after_poll_inner-Tracks (record l { inner = drain signaling io codec null draws l.inner })
          (poll signaling (
            send_queued signaling io codec null draws l.client
              (queued signaling io codec null draws l.inner.connector_tx)))
          e (t ∙ ap (λ p. (is_polling p && l.was_registered, false)) e)
    connector_step-Tracks waiting l e t = t ∙ ap (λ p. (is_polling p && l.was_registered, false)) e
    connector_step-Tracks finished l e t = t

    connector_step-reported :
        (phase : Phase) (l : ConnectorLoop signaling io)
        → l.phase ≡ phase
        → Tracks l
        → flags
            (connector_step signaling io codec null draws url identifier auth_token phase false
              l).0.inner
          ≡ (
            reported l.inner.connector_registered
                (connector_step signaling io codec null draws url identifier auth_token phase false
                  l).1,
            false,
          )
    unfolding connector_step is_polling reported
    connector_step-reported outer l e t =
        after_connect_inner-reported l
          (connect signaling (new_client signaling l.client.ws) url identifier auth_token)
          (t ∙ ap (λ p. (is_polling p && l.was_registered, false)) e)
    connector_step-reported polling l e t =
        let known = t ∙ ap (λ p. (is_polling p && l.was_registered, false)) e in
        after_poll_inner-reported (record l { inner = drain signaling io codec null draws l.inner })
          (poll signaling (
            send_queued signaling io codec null draws l.client
              (queued signaling io codec null draws l.inner.connector_tx)))
          known
        ∙ ap (λ f. (reported f.0 (poll_round signaling io codec null draws l).1, false)) (sym known)
    connector_step-reported waiting l e t = ap (λ f. (l.inner.connector_registered, f.1)) t
    connector_step-reported finished l e t = ap (λ f. (l.inner.connector_registered, f.1)) t

    going-Tracks :
        (stop : Bool) (l : ConnectorLoop signaling io)
        → stop ≡ false
        → Tracks l
        → Tracks
            (connector_step signaling io codec null draws url identifier auth_token l.phase stop
              l).0
    going-Tracks stop l z t = rw z (connector_step-Tracks l.phase l refl t)

    going-reported :
        (stop : Bool) (l : ConnectorLoop signaling io)
        → stop ≡ false
        → Tracks l
        → flags
            (connector_step signaling io codec null draws url identifier auth_token l.phase stop
              l).0.inner
          ≡ (
            reported l.inner.connector_registered
                (connector_step signaling io codec null draws url identifier auth_token l.phase stop
                  l).1,
            false,
          )
    going-reported stop l z t = rw z (connector_step-reported l.phase l refl t)

    connector_loop_inner-flags :
        (calls : List (Inner signaling.Json → Inner signaling.Json))
        (l : ConnectorLoop signaling io)
        → All (λ call. (i : Inner signaling.Json) → flags (call i) ≡ flags i) calls
        → Tracks l
        → flags
            (connector_loop_inner signaling io codec null draws url identifier auth_token calls
              l).0.inner
          ≡ (
            reported l.inner.connector_registered
                (connector_loop_inner signaling io codec null draws url identifier auth_token calls
                  l).1,
            false,
          )
    unfolding connector_loop_inner reported
    connector_loop_inner-flags [] l ks t = ap (λ f. (l.inner.connector_registered, f.1)) t
    connector_loop_inner-flags (call ∷ calls) l (k, ks) t =
        let called = record l { inner = call l.inner } in
        let kept = k l.inner ∙ t in
        let running = ap (λ f. f.1) kept in
        let stop = called.inner.connector_stop in
        let one =
          connector_step signaling io codec null draws url identifier auth_token l.phase stop
            called in
        let rest =
          connector_loop_inner signaling io codec null draws url identifier auth_token calls
            one.0 in
        connector_loop_inner-flags calls one.0 ks (going-Tracks stop called running kept)
        ∙ ap (λ f. (reported f.0 rest.1, false)) (going-reported stop called running kept)
        ∙ ap (λ f. (reported (reported f.0 one.1) rest.1, false)) (k l.inner)
        ∙ ap (λ b. (b, false)) (sym (reported-append l.inner.connector_registered one.1 rest.1))

    -- Whatever the signalling server does, and whatever the application calls between the steps of the
    -- loop that leaves the flags of the connector alone, from `connect_connector` on, at the end of each
    -- step, `is_connector_registered` returns 1 if the last state that the loop has reported is
    -- registered, and else 0. The loop of an earlier connection, which `connect_connector` waits for,
    -- must leave the flags alone in the rest of its last round.
    pub is_connector_registered-reported :
        (ws : signaling.World) (w : io.World) (ending : Inner signaling.Json → Inner signaling.Json)
        (inner : Inner signaling.Json) (calls : List (Inner signaling.Json → Inner signaling.Json))
        → ((i : Inner signaling.Json) → flags (ending i) ≡ flags i)
        → All (λ call. (i : Inner signaling.Json) → flags (call i) ≡ flags i) calls
        → is_connector_registered
            (connector_loop_inner signaling io codec null draws url identifier auth_token calls
              (start_loop signaling io ws w (connect_connector ending inner identifier))).0.inner
          ≡ (if reported false
                (connector_loop_inner signaling io codec null draws url identifier auth_token calls
                  (start_loop signaling io ws w (connect_connector ending inner identifier))).1
              then 1
              else 0)
    unfolding is_connector_registered is_polling connect_connector stop_connector start_loop
    is_connector_registered-reported ws w ending inner calls kept ks =
        let code : Bool → ℕ = λ b. if b then 1 else 0 in
        let start = start_loop signaling io ws w (connect_connector ending inner identifier) in
        let effects =
          (connector_loop_inner signaling io codec null draws url identifier auth_token calls
            start).1 in
        let quiet = kept (connector_stopped inner) in
        ap (λ f. code f.0)
          (connector_loop_inner-flags calls start ks (ap (λ f. (f.0, false)) quiet))
        ∙ ap (λ f. code (reported f.0 effects)) quiet
