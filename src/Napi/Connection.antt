-- ===== src/Napi/Connection.antt =====
-- sdk/crates/p2p-napi/src/client_napi.rs: the thread that keeps the connection to the signalling server.
-- Calls of the application come between its steps; a step ends where the stop flag is read.
use p2psdk.Prelude.{
  ℕ, Bool, true, false, not, ◌&&◌, ◌||◌, Option, none, some, List, [], ◌∷◌, ◌++◌, if◌then◌else◌,
  Result, ok, err,
}
use p2psdk.Napi.{Inner}
use p2psdk.Napi.Messages.{handle_connector_msg_inner}
use p2psdk.Sdk.Client.Gather.{Draws}
use p2psdk.Sdk.Connector.{
  Signaling, ConnectorMessage, ConnectorClient, ConnectorError, Effect, Phase, state_changed, slept,
  outer, polling, waiting, finished, initial_delay, next_delay, new_client, connect, poll, send_to,
  disconnect, perform_all,
}
use p2psdk.Sdk.Io.{Io}
use p2psdk.Sdk.Signals.{IceCodec}
use p2psdk.Wire.{Bytes}

-- `state_changed` stands for the two calls `fire_connector_state` and `fire_state`.
pub record ConnectorLoop (signaling : Signaling) (io : Io) : Type 0 where
  pub phase : Phase
  pub client : ConnectorClient signaling
  pub delay : ℕ
  pub was_registered : Bool
  pub world : io.World
  pub inner : Inner signaling.Json

-- The thread that `connect_connector` starts.
unfoldable pub start_loop :
    (signaling : Signaling) (io : Io)
    → signaling.World
    → io.World
    → Inner signaling.Json
    → ConnectorLoop signaling io
start_loop signaling io ws w inner = record {
  phase = outer;
  client = new_client signaling ws;
  delay = initial_delay;
  was_registered = false;
  world = w;
  inner = inner;
}

module _ (signaling : Signaling) (io : Io) (codec : IceCodec signaling.Json) (null : signaling.Json)
    (draws : Draws) where
  abbrev pub Stepped : Type 0
  Stepped = ConnectorLoop signaling io × List (Effect signaling.Json)

  -- An error is logged.
  unfoldable pub send_queued :
      ConnectorClient signaling → List (Bytes × signaling.Json) → ConnectorClient signaling
  send_queued client [] = client
  send_queued client ((target_id, value) ∷ queue) =
      send_queued (send_to signaling client target_id value).0 queue

  abbrev pub queued : Option (List (Bytes × signaling.Json)) → List (Bytes × signaling.Json)
  queued none = []
  queued (some queue) = queue

  abbrev pub drained :
      Option (List (Bytes × signaling.Json)) → Option (List (Bytes × signaling.Json))
  drained none = none
  drained (some queue) = some []

  -- `while rx.try_recv().is_ok() {}`
  abbrev pub drain : Inner signaling.Json → Inner signaling.Json
  drain inner = record inner { connector_tx = drained inner.connector_tx }

  unfoldable pub handle_messages :
      io.World
      → Inner signaling.Json
      → List (ConnectorMessage signaling.Json)
      → io.World × Inner signaling.Json
  handle_messages w inner [] = (w, inner)
  handle_messages w inner (msg ∷ msgs) =
      let one = handle_connector_msg_inner io codec null draws w inner msg.from msg.data_value in
      handle_messages one.0 one.1 msgs

  abbrev pub after_connect_inner :
      ConnectorLoop signaling io
      → ConnectorClient signaling × Result ConnectorError (Unit {0})
      → Stepped
  after_connect_inner l (client, ok u) = (
    record l {
      phase = polling;
      client = client;
      delay = initial_delay;
      was_registered = false;
      inner = record l.inner { connector_registered = false };
    },
    [],
  )
  after_connect_inner l (client, err e) =
      let effects = slept l.delay ∷ [] in
      (
        record l { client = perform_all signaling client effects; delay = next_delay l.delay },
        effects,
      )

  -- Behind the poll loop: the connection is closed and the queue is emptied.
  abbrev pub leave_polling : ConnectorLoop signaling io → List (Effect signaling.Json) → Stepped
  leave_polling l effects = (
    record l {
      phase = waiting;
      client = disconnect signaling (perform_all signaling l.client effects);
      inner = drain l.inner;
    },
    effects,
  )

  -- The messages of a round that finds the connection closed are dropped.
  abbrev pub after_poll_inner :
      ConnectorLoop signaling io
      → ConnectorClient signaling × List (ConnectorMessage signaling.Json)
      → Stepped
  after_poll_inner l (client, msgs) =
      if not (signaling.is_connected client.ws)
      then (if l.was_registered
          then leave_polling
              (record l {
                client = client;
                inner = record l.inner { connector_registered = false };
              })
              (state_changed false ∷ [])
          else leave_polling (record l { client = client }) [])
      else (let registers = client.registered && not l.was_registered in
          let effects = (if registers then state_changed true ∷ [] else []) ++ (slept 50 ∷ []) in
          let handled =
            handle_messages l.world
              (record l.inner { connector_registered = registers || l.inner.connector_registered })
              msgs in
          (
            record l {
              client = perform_all signaling client effects;
              was_registered = registers || l.was_registered;
              world = handled.0;
              inner = handled.1;
            },
            effects,
          ))

  -- A round of the poll loop: the queue is sent first.
  abbrev pub poll_round : ConnectorLoop signaling io → Stepped
  poll_round l =
      after_poll_inner (record l { inner = drain l.inner })
        (poll signaling (send_queued l.client (queued l.inner.connector_tx)))

  -- From one reading of the stop flag to the next. Each connection has a WebSocket of its own.
  unfoldable pub connector_step :
      Bytes → Bytes → Bytes → Phase → Bool → ConnectorLoop signaling io → Stepped
  connector_step url identifier auth_token outer true l = (record l { phase = finished }, [])
  connector_step url identifier auth_token outer false l =
      after_connect_inner l
        (connect signaling (new_client signaling l.client.ws) url identifier auth_token)
  connector_step url identifier auth_token polling true l = leave_polling l []
  connector_step url identifier auth_token polling false l = poll_round l
  connector_step url identifier auth_token waiting true l = (record l { phase = outer }, [])
  connector_step url identifier auth_token waiting false l =
      let effects = slept l.delay ∷ [] in
      (
        record l {
          phase = outer;
          client = perform_all signaling l.client effects;
          delay = next_delay l.delay;
        },
        effects,
      )
  connector_step url identifier auth_token finished stop l = (l, [])

  -- The calls of the application, each followed by a step.
  unfoldable pub connector_loop_inner :
      Bytes
      → Bytes
      → Bytes
      → List (Inner signaling.Json → Inner signaling.Json)
      → ConnectorLoop signaling io
      → Stepped
  connector_loop_inner url identifier auth_token [] l = (l, [])
  connector_loop_inner url identifier auth_token (call ∷ calls) l =
      let called = record l { inner = call l.inner } in
      let one =
        connector_step url identifier auth_token called.phase called.inner.connector_stop called in
      let rest = connector_loop_inner url identifier auth_token calls one.0 in
      (rest.0, one.1 ++ rest.1)
