-- ===== src/Sdk/Connector/Runs.antt =====
-- sdk/crates/p2p-sdk/src/connector.rs: runs of `run_with_reconnect`.
use p2psdk.Prelude.{
  ℕ, zero, suc, ◌*◌, ◌^◌, min, ◌≡◌, refl, sym, ap, ◌∙◌, inl, inr, Bool, true, false, not, ◌&&◌,
  Option, none, some, List, [], ◌∷◌, ◌++◌, map, arith, if◌then◌else◌, Bool-cases, replicate, Result,
  ok, err,
}
use p2psdk.Sdk.Connector.{
  ConnectorClient, ConnectorError, ConnectorMessage, Effect, state_changed, message, slept,
  Signaling, Phase, outer, polling, waiting, finished, Runner, connect, register_with, with_world,
  send_json, register_message, poll, perform_all, doing, after_connect, after_poll, step_from,
  start_run, handle_message, handle_texts, run_with_reconnect, next_delay,
}
use p2psdk.Wire.{Bytes}

module _ {J : Type 0} where
  -- The last value that `on_state_change` was called with, where `b` was the last before.
  abbrev pub told : Bool → List (Effect J) → Bool
  told b [] = b
  told b (state_changed c ∷ es) = told c es
  told b (message m ∷ es) = told b es
  told b (slept n ∷ es) = told b es

  -- Each call of `on_state_change` brings another value than the call before it.
  abbrev pub Alternates : Bool → List (Effect J) → Type 0
  Alternates b [] = Unit
  Alternates b (state_changed c ∷ es) = (c ≡ not b) × Alternates c es
  Alternates b (message m ∷ es) = Alternates b es
  Alternates b (slept n ∷ es) = Alternates b es

  Alternates-append :
      (b : Bool) (xs ys : List (Effect J))
      → Alternates b xs
      → Alternates (told b xs) ys
      → Alternates b (xs ++ ys)
  Alternates-append b [] ys h k = k
  Alternates-append b (state_changed c ∷ xs) ys h k = (h.0, Alternates-append c xs ys h.1 k)
  Alternates-append b (message m ∷ xs) ys h k = Alternates-append b xs ys h k
  Alternates-append b (slept n ∷ xs) ys h k = Alternates-append b xs ys h k

  told-append : (b : Bool) (xs ys : List (Effect J)) → told b (xs ++ ys) ≡ told (told b xs) ys
  told-append b [] ys = refl
  told-append b (state_changed c ∷ xs) ys = told-append c xs ys
  told-append b (message m ∷ xs) ys = told-append b xs ys
  told-append b (slept n ∷ xs) ys = told-append b xs ys

  -- The calls of `on_message` and the sleep of a round.
  abbrev round : List (ConnectorMessage J) → List (Effect J)
  round msgs = map message msgs ++ (slept 50 ∷ [])

  told-round : (b : Bool) (msgs : List (ConnectorMessage J)) → told b (round msgs) ≡ b
  told-round b [] = refl
  told-round b (m ∷ ms) = told-round b ms

  round-Alternates : (b : Bool) (msgs : List (ConnectorMessage J)) → Alternates b (round msgs)
  round-Alternates b [] = tt
  round-Alternates b (m ∷ ms) = round-Alternates b ms

  report-told :
      (r b : Bool) (msgs : List (ConnectorMessage J))
      → (b ≡ true → r ≡ true)
      → let effects = (if r && not b then state_changed true ∷ [] else []) ++ round msgs in
        Alternates b effects × (r ≡ told b effects)
  report-told true true msgs kept = (round-Alternates true msgs, sym (told-round true msgs))
  report-told true false msgs kept =
      ((refl, round-Alternates true msgs), sym (told-round true msgs))
  report-told false true msgs kept = cc (kept refl)
  report-told false false msgs kept = (round-Alternates false msgs, sym (told-round false msgs))

module _ (signaling : Signaling) where
  handle_message-registered :
      (state : Bool × List (ConnectorMessage signaling.Json))
      (msg : Option (ConnectorMessage signaling.Json))
      → state.0 ≡ true
      → (handle_message signaling state msg).0 ≡ true
  unfolding handle_message
  handle_message-registered (r, incoming) none h = h
  handle_message-registered (r, incoming) (some msg) h = ground arith

  handle_texts-registered :
      (state : Bool × List (ConnectorMessage signaling.Json)) (texts : List Bytes)
      → state.0 ≡ true
      → (handle_texts signaling state texts).0 ≡ true
  unfolding handle_texts
  handle_texts-registered state [] h = h
  handle_texts-registered state (text ∷ texts) h =
      handle_texts-registered (handle_message signaling state (signaling.from_str text)) texts
        (handle_message-registered state (signaling.from_str text) h)

module _ {signaling : Signaling} where
  -- What the application was told last agrees with where the loop stands.
  abbrev Reported : Phase → Bool → ConnectorClient signaling → Type 0
  Reported outer b client = b ≡ false
  Reported polling b client = client.registered ≡ b
  Reported waiting b client = b ≡ false
  Reported finished b client = Unit

  abbrev RoundOk : Bool → Runner signaling × List (Effect signaling.Json) → Type 0
  RoundOk b (runner, effects) =
      Alternates b effects × Reported runner.phase (told b effects) runner.client

  registered-perform_all :
      (client : ConnectorClient signaling) (es : List (Effect signaling.Json))
      → (perform_all signaling client es).registered ≡ client.registered
  unfolding perform_all
  registered-perform_all client [] = refl
  registered-perform_all client (e ∷ es) =
      registered-perform_all (record client { ws = signaling.perform client.ws e }) es

  lost-RoundOk :
      (delay : ℕ) (b : Bool) (client : ConnectorClient signaling)
      → RoundOk b (
          doing signaling waiting
            (record client { registered = false })
            delay
            (if b then state_changed false ∷ [] else []))
  lost-RoundOk delay true client = ((refl, tt), refl)
  lost-RoundOk delay false client = (tt, refl)

  report-RoundOk :
      (delay : ℕ) (b : Bool) (client : ConnectorClient signaling)
      (msgs : List (ConnectorMessage signaling.Json))
      → (b ≡ true → client.registered ≡ true)
      → RoundOk b (
          doing signaling polling client delay
            ((if client.registered && not b then state_changed true ∷ [] else []) ++ round msgs))
  report-RoundOk delay b client msgs kept =
      let effects =
        (if client.registered && not b then state_changed true ∷ [] else []) ++ round msgs in
      let told_all = report-told client.registered b msgs kept in
      (told_all.0, registered-perform_all client effects ∙ told_all.1)

  after_poll-RoundOk :
      (delay : ℕ) (b : Bool)
      (polled : ConnectorClient signaling × List (ConnectorMessage signaling.Json))
      → (b ≡ true → polled.0.registered ≡ true)
      → RoundOk b (after_poll signaling delay b polled)
  after_poll-RoundOk delay b (client, msgs) kept =
      elim (Bool-cases (signaling.is_connected client.ws)) [
        | inl e ↦ rw e (report-RoundOk delay b client msgs kept)
        | inr e ↦ rw e (lost-RoundOk delay b client)
      ]

  with_world-RoundOk :
      (delay : ℕ) (client : ConnectorClient signaling)
      (done : signaling.World × Result ConnectorError (Unit {0}))
      → client.registered ≡ false
      → RoundOk false (after_connect signaling delay (with_world signaling client done))
  unfolding perform_all
  with_world-RoundOk delay client (w, ok u) h = (tt, h)
  with_world-RoundOk delay client (w, err e) h = (tt, refl)

  connect-RoundOk :
      (delay : ℕ) (client : ConnectorClient signaling) (identifier auth_token : Bytes)
      (connected : signaling.World × Result Bytes (Unit {0}))
      → RoundOk false (
          after_connect signaling delay
            (register_with signaling client identifier auth_token connected))
  connect-RoundOk delay client identifier auth_token (w, ok u) =
      with_world-RoundOk delay (record client { identifier = identifier; registered = false })
        (send_json signaling w
          (signaling.to_string (register_message signaling identifier auth_token)))
        refl
  connect-RoundOk delay client identifier auth_token (w, err e) = (tt, refl)

  step_from-RoundOk :
      (url identifier auth_token : Bytes) (phase : Phase) (b : Bool) (runner : Runner signaling)
      → runner.phase ≡ phase
      → Reported phase b runner.client
      → RoundOk b (step_from signaling url identifier auth_token phase false runner)
  unfolding step_from connect poll
  step_from-RoundOk url identifier auth_token outer b runner e h = rw h (
      connect-RoundOk runner.delay runner.client identifier auth_token
        (signaling.connect runner.client.ws url))
  step_from-RoundOk url identifier auth_token polling b runner e h = rw (sym h) (
      after_poll-RoundOk runner.delay runner.client.registered (poll signaling runner.client) (λ k.
        handle_texts-registered signaling (runner.client.registered, [])
          (signaling.received runner.client.ws).1 k))
  step_from-RoundOk url identifier auth_token waiting b runner e h = (tt, h)
  step_from-RoundOk url identifier auth_token finished b runner e h = (tt, rw e tt)

  run-Alternates :
      (url identifier auth_token : Bytes) (n : ℕ) (b : Bool) (runner : Runner signaling)
      → Reported runner.phase b runner.client
      → Alternates b
          (run_with_reconnect signaling url identifier auth_token (replicate n false) runner).1
  unfolding run_with_reconnect
  run-Alternates url identifier auth_token zero b runner h = tt
  run-Alternates url identifier auth_token (suc n) b runner h =
      let one = step_from signaling url identifier auth_token runner.phase false runner in
      let good = step_from-RoundOk url identifier auth_token runner.phase b runner refl h in
      Alternates-append b one.1
        (run_with_reconnect signaling url identifier auth_token (replicate n false) one.0).1 good.0
        (run-Alternates url identifier auth_token n (told b one.1) one.0 good.1)

-- As long as the stop flag reads false, the calls of `on_state_change` alternate, and the first of
-- them says that the client is registered.
pub run_with_reconnect-Alternates :
    (signaling : Signaling) (url identifier auth_token : Bytes) (n : ℕ)
    (client : ConnectorClient signaling)
    → Alternates false
        (run_with_reconnect signaling url identifier auth_token
          (replicate n false)
          (start_run signaling client)).1
unfolding start_run
run_with_reconnect-Alternates signaling url identifier auth_token n client =
    run-Alternates url identifier auth_token n false (start_run signaling client) refl

module _ {signaling : Signaling} (url identifier auth_token : Bytes) where
  stop-from :
      (phase : Phase) (runner : Runner signaling)
      → runner.phase ≡ phase
      → let done =
          run_with_reconnect signaling url identifier auth_token (replicate 3 true) runner in
        (done.0.phase ≡ finished) × (done.1 ≡ [])
  unfolding run_with_reconnect step_from perform_all
  stop-from outer runner e = rw e (refl, refl)
  stop-from polling runner e = rw e (refl, refl)
  stop-from waiting runner e = rw e (refl, refl)
  stop-from finished runner e = rw e (refl, refl)

-- Wherever the loop stands, three readings of a set flag end it, without a callback and without a
-- sleep.
pub run_with_reconnect-stop :
    (signaling : Signaling) (url identifier auth_token : Bytes) (runner : Runner signaling)
    → let done = run_with_reconnect signaling url identifier auth_token (replicate 3 true) runner in
      (done.0.phase ≡ finished) × (done.1 ≡ [])
unfolding run_with_reconnect step_from
run_with_reconnect-stop signaling url identifier auth_token runner =
    stop-from url identifier auth_token runner.phase runner refl

-- The sleep after the failed attempt number `i` of a row, counted from 0.
abbrev pub backoff : ℕ → ℕ
backoff i = min (1000 * 2 ^ i) 30000

abbrev pub backoffs : {J : Type 0} → ℕ → ℕ → List (Effect J)
backoffs i zero = []
backoffs i (suc n) = slept (backoff i) ∷ backoffs (suc i) n

next_delay-backoff : (i : ℕ) → next_delay (backoff i) ≡ backoff (suc i)
unfolding next_delay
next_delay-backoff i = omega arith

module _ {signaling : Signaling} (url identifier auth_token : Bytes)
    (reason : signaling.World → Bytes)
    (refused : (w : signaling.World) → (signaling.connect w url).1 ≡ err (reason w)) where
  backoff-from :
      (n i : ℕ) (runner : Runner signaling)
      → runner.phase ≡ outer
      → runner.delay ≡ backoff i
      → (run_with_reconnect signaling url identifier auth_token (replicate n false) runner).1
        ≡ backoffs i n
  unfolding run_with_reconnect step_from perform_all connect
  backoff-from zero i runner e d = refl
  backoff-from (suc n) i runner e d =
      rw (e, refused runner.client.ws, d)
        (ap (◌∷◌ (slept (backoff i))) (
          backoff-from n (suc i)
            (doing signaling outer
              (record runner.client { ws = (signaling.connect runner.client.ws url).0 })
              (next_delay (backoff i)) (slept (backoff i) ∷ [])).0
            refl (next_delay-backoff i)))

-- While every attempt to connect fails, the attempts are 1, 2, 4, 8 and 16 seconds apart and then 30
-- seconds: the only effects are sleeps, of 2^i seconds after attempt number i, and 30 at most.
pub run_with_reconnect-backoff :
    (signaling : Signaling) (url identifier auth_token : Bytes) (reason : signaling.World → Bytes)
    (n : ℕ) (client : ConnectorClient signaling)
    → ((w : signaling.World) → (signaling.connect w url).1 ≡ err (reason w))
    → (run_with_reconnect signaling url identifier auth_token
        (replicate n false)
        (start_run signaling client)).1
      ≡ backoffs 0 n
unfolding start_run
run_with_reconnect-backoff signaling url identifier auth_token reason n client refused =
    backoff-from url identifier auth_token reason refused n 0 (start_run signaling client) refl refl
