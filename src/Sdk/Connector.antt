-- ===== src/Sdk/Connector.antt =====
-- sdk/crates/p2p-sdk/src/connector.rs: the client of the signalling server. The WebSocket, the JSON
-- library, the clock and the application behind the callbacks are a parameter.
pub mod Runs
use p2psdk.Prelude.{
  ℕ, zero, suc, ◌+◌, ◌-◌, ◌*◌, ◌/◌, ◌%◌, ◌^◌, ◌≤◌, ◌<◌, min, max, bit_and, bit_xor, ◌≡◌, refl, sym,
  ap, ap₂, ◌∙◌, ◌≢◌, ◌↔◌, ◌⊎◌, inl, inr, Bool, true, false, not, ◌&&◌, ◌||◌, Option, none, some,
  List, [], ◌∷◌, ◌++◌, map, append_assoc, append-nil, arith, ltb, leb, ◌==◌, if◌then◌else◌, ltb→lt,
  leb→le, le→leb, leb-false, ltb-false, ==_iff, Bool-cases, Option-cases, eq_bytes, eq_bytes_refl,
  eq_bytes_sound, position, FirstAt, FoundBy, position-FoundBy, position-FirstAt, position-none,
  FirstAt-lt, All-map, length, get_elem?, take, drop, replicate, All, length-append, length-take,
  length-drop, length-replicate, take-append, drop-append, get_elem?-append, get_elem?-lt, Result,
  ok, err, Outcome, ret, panic, out_of_fuel, ◌>>=◌, ◌>>◌, Returns, Returns-eq, Returns-of_eq,
  Returns-bind, Returns-if,
}
use p2psdk.Types.{codes}
use p2psdk.Wire.{Bytes}

-- sdk/crates/p2p-core/src/types.rs; `Json` is `serde_json::Value`.
pub record ConnectorMessage (Json : Type 0) : Type 0 where
  pub msg_type : Bytes
  pub from : Bytes
  pub to : Bytes
  pub data_value : Json
  pub auth : Bytes
  pub reason : Bytes
  pub timestamp : ℕ

abbrev pub connector_type_register : Bytes
connector_type_register = codes "register"

abbrev pub connector_type_send : Bytes
connector_type_send = codes "send"

abbrev pub connector_type_register_ok : Bytes
connector_type_register_ok = codes "register_ok"

abbrev pub connector_type_message : Bytes
connector_type_message = codes "message"

-- What `run_with_reconnect` lets the outside see: the two callbacks and the sleeps, in milliseconds.
pub data Effect (Json : Type 0) : Type 0 where
  state_changed : Bool → Effect Json
  message : ConnectorMessage Json → Effect Json
  slept : ℕ → Effect Json

pub record Signaling : Type 1 where
  -- everything outside the client
  pub World : Type 0
  -- `serde_json::Value`
  pub Json : Type 0
  -- `serde_json::Value::String`
  pub string_value : Bytes → Json
  -- `serde_json::to_string`, and `from_str` where it succeeds
  pub to_string : ConnectorMessage Json → Result Bytes Bytes
  pub from_str : Bytes → Option (ConnectorMessage Json)
  -- the methods of `SignalingTransport`; `received` are the texts that `try_recv` yields, one by one,
  -- until it yields nothing
  pub connect : World → Bytes → World × Result Bytes (Unit {0})
  pub send : World → Bytes → World × Result Bytes (Unit {0})
  pub received : World → World × List Bytes
  pub is_connected : World → Bool
  pub close : World → World
  -- a callback runs, or time passes
  pub perform : World → Effect Json → World

pub data ConnectorError : Type 0 where
  not_connected not_registered : ConnectorError
  send_failed : Bytes → ConnectorError

-- `impl Display for ConnectorError`
unfoldable pub display : ConnectorError → Bytes
display not_connected = codes "not connected"
display not_registered = codes "not registered"
display (send_failed msg) = codes "send failed: " ++ msg

pub record ConnectorClient (signaling : Signaling) : Type 0 where
  pub ws : signaling.World
  pub identifier : Bytes
  pub registered : Bool

-- `map_err(|e| ConnectorError::SendFailed(e.to_string()))`
abbrev pub map_send {ℓ} : {A : Type ℓ} → Result Bytes A → Result ConnectorError A
map_send (ok a) = ok a
map_send (err e) = err (send_failed e)

module _ (signaling : Signaling) where
  unfoldable pub new_client : signaling.World → ConnectorClient signaling
  new_client ws = record { ws = ws; identifier = []; registered = false }

  unfoldable pub register_message : Bytes → Bytes → ConnectorMessage signaling.Json
  register_message identifier auth_token = record {
    msg_type = connector_type_register;
    from = identifier;
    to = [];
    data_value = signaling.string_value [];
    auth = auth_token;
    reason = [];
    timestamp = 0;
  }

  unfoldable pub send_message : Bytes → Bytes → signaling.Json → ConnectorMessage signaling.Json
  send_message identifier target_id value = record {
    msg_type = connector_type_send;
    from = identifier;
    to = target_id;
    data_value = value;
    auth = [];
    reason = [];
    timestamp = 0;
  }

  -- `to_string(&msg)?` and then `ws.send(&json)?`
  abbrev pub send_json :
      signaling.World → Result Bytes Bytes → signaling.World × Result ConnectorError (Unit {0})
  send_json w (err e) = (w, err (send_failed e))
  send_json w (ok json) = let sent = signaling.send w json in (sent.0, map_send sent.1)

  abbrev pub with_world :
      ConnectorClient signaling
      → signaling.World × Result ConnectorError (Unit {0})
      → ConnectorClient signaling × Result ConnectorError (Unit {0})
  with_world client done = (record client { ws = done.0 }, done.1)

  -- The rest of `connect` once the WebSocket is connected, or not.
  abbrev pub register_with :
      ConnectorClient signaling
      → Bytes
      → Bytes
      → signaling.World × Result Bytes (Unit {0})
      → ConnectorClient signaling × Result ConnectorError (Unit {0})
  register_with client identifier auth_token (w, err e) =
      (record client { ws = w }, err (send_failed e))
  register_with client identifier auth_token (w, ok u) =
      with_world (record client { identifier = identifier; registered = false })
        (send_json w (signaling.to_string (register_message identifier auth_token)))

  unfoldable pub connect :
      ConnectorClient signaling
      → Bytes
      → Bytes
      → Bytes
      → ConnectorClient signaling × Result ConnectorError (Unit {0})
  connect client url identifier auth_token =
      register_with client identifier auth_token (signaling.connect client.ws url)

  -- What one received message does: it registers the client, or it is handed on, or neither.
  unfoldable pub handle_message :
      Bool × List (ConnectorMessage signaling.Json)
      → Option (ConnectorMessage signaling.Json)
      → Bool × List (ConnectorMessage signaling.Json)
  handle_message (registered, incoming) none = (registered, incoming)
  handle_message (registered, incoming) (some msg) =
      if eq_bytes msg.msg_type connector_type_register_ok
      then (true, incoming)
      else if eq_bytes msg.msg_type connector_type_message
      then (registered, incoming ++ (msg ∷ []))
      else (registered, incoming)

  unfoldable pub handle_texts :
      Bool × List (ConnectorMessage signaling.Json)
      → List Bytes
      → Bool × List (ConnectorMessage signaling.Json)
  handle_texts state [] = state
  handle_texts state (text ∷ texts) =
      handle_texts (handle_message state (signaling.from_str text)) texts

  unfoldable pub poll :
      ConnectorClient signaling → ConnectorClient signaling × List (ConnectorMessage signaling.Json)
  poll client =
      let got = signaling.received client.ws in
      let done = handle_texts (client.registered, []) got.1 in
      (record client { ws = got.0; registered = done.0 }, done.1)

  unfoldable pub send_to :
      ConnectorClient signaling
      → Bytes
      → signaling.Json
      → ConnectorClient signaling × Result ConnectorError (Unit {0})
  send_to client target_id value =
      if signaling.is_connected client.ws
      then with_world client (
          send_json client.ws
            (signaling.to_string (send_message client.identifier target_id value)))
      else (client, err not_connected)

  unfoldable pub disconnect : ConnectorClient signaling → ConnectorClient signaling
  disconnect client = record client { ws = signaling.close client.ws; registered = false }

-- Where `run_with_reconnect` stands: at the head of the outer loop, at the head of the poll loop, at
-- the reconnect delay, or behind the outer loop. At the first three it reads the stop flag.
pub data Phase : Type 0 where
  outer polling waiting finished : Phase

abbrev pub initial_delay : ℕ
initial_delay = 1000

abbrev pub max_delay : ℕ
max_delay = 30000

-- `(delay * 2).min(max_delay)`
unfoldable pub next_delay : ℕ → ℕ
next_delay delay = min (delay * 2) max_delay

pub record Runner (signaling : Signaling) : Type 0 where
  pub phase : Phase
  pub client : ConnectorClient signaling
  pub delay : ℕ

module _ (signaling : Signaling) where
  -- The client's world after the effects, in their order.
  unfoldable pub perform_all :
      ConnectorClient signaling → List (Effect signaling.Json) → ConnectorClient signaling
  perform_all client [] = client
  perform_all client (e ∷ es) =
      perform_all (record client { ws = signaling.perform client.ws e }) es

  abbrev pub doing :
      Phase
      → ConnectorClient signaling
      → ℕ
      → List (Effect signaling.Json)
      → Runner signaling × List (Effect signaling.Json)
  doing phase client delay effects =
      (record { phase = phase; client = perform_all client effects; delay = delay }, effects)

  -- The outer loop's body up to the poll loop: `continue` after a failure.
  abbrev pub after_connect :
      ℕ
      → ConnectorClient signaling × Result ConnectorError (Unit {0})
      → Runner signaling × List (Effect signaling.Json)
  after_connect delay (client, ok u) = doing polling client initial_delay []
  after_connect delay (client, err e) = doing outer client (next_delay delay) (slept delay ∷ [])

  -- The body of the poll loop; `msgs` were polled.
  abbrev pub after_poll :
      ℕ
      → Bool
      → ConnectorClient signaling × List (ConnectorMessage signaling.Json)
      → Runner signaling × List (Effect signaling.Json)
  after_poll delay was_registered (client, msgs) =
      if not (signaling.is_connected client.ws)
      then doing waiting (record client { registered = false }) delay
          (if was_registered then state_changed false ∷ [] else [])
      else doing polling client delay (
          (if client.registered && not was_registered then state_changed true ∷ [] else [])
          ++ (map message msgs ++ (slept 50 ∷ [])))

  -- From one reading of the stop flag to the next; `stop` is what it read.
  unfoldable pub step_from :
      Bytes
      → Bytes
      → Bytes
      → Phase
      → Bool
      → Runner signaling
      → Runner signaling × List (Effect signaling.Json)
  step_from url identifier auth_token outer true runner =
      doing finished (disconnect signaling runner.client) runner.delay []
  step_from url identifier auth_token outer false runner =
      after_connect runner.delay (connect signaling runner.client url identifier auth_token)
  step_from url identifier auth_token polling true runner =
      doing waiting runner.client runner.delay []
  step_from url identifier auth_token polling false runner =
      after_poll runner.delay runner.client.registered (poll signaling runner.client)
  step_from url identifier auth_token waiting true runner =
      doing outer runner.client runner.delay []
  step_from url identifier auth_token waiting false runner =
      doing outer runner.client (next_delay runner.delay) (slept runner.delay ∷ [])
  step_from url identifier auth_token finished stop runner = (runner, [])

  unfoldable pub start_run : ConnectorClient signaling → Runner signaling
  start_run client = record { phase = outer; client = client; delay = initial_delay }

  -- The flag's readings in their order, and all that the outside sees.
  unfoldable pub run_with_reconnect :
      Bytes
      → Bytes
      → Bytes
      → List Bool
      → Runner signaling
      → Runner signaling × List (Effect signaling.Json)
  run_with_reconnect url identifier auth_token [] runner = (runner, [])
  run_with_reconnect url identifier auth_token (stop ∷ stops) runner =
      let one = step_from url identifier auth_token runner.phase stop runner in
      let rest = run_with_reconnect url identifier auth_token stops one.0 in
      (rest.0, one.1 ++ rest.1)
