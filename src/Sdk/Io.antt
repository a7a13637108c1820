-- ===== src/Sdk/Io.antt =====
-- What the client takes from outside, as the traits of sdk/crates/p2p-io/src/traits.rs and serde_json
-- give it: HTTP, UDP sockets, the platform's addresses, the clock and JSON values.
use p2psdk.Prelude.{ℕ, Bool, ◌&&◌, Option, none, some, List, ltb, leb, Result, ok, err}
use p2psdk.Stun.Client.{Net}
use p2psdk.Wire.{Bytes}

abbrev pub Headers : Type 0
Headers = List (Bytes × Bytes)

pub record IdsRecord : Type 0 where
  pub app_id : Bytes
  pub user_id : Bytes
  pub type_ : Bytes
  pub odid : Bytes
  pub token : Bytes

-- The answer of `query_ids`, without its message.
pub record Envelope : Type 0 where
  pub code : ℕ
  pub records : List IdsRecord

-- Errors stand as the text that they print as.
pub record Io : Type 1 where
  pub World : Type 0
  -- `HttpTransport`: the status and the body of the response
  pub post : World → Bytes → Headers → Bytes → World × Result Bytes (ℕ × Bytes)
  pub get : World → Bytes → Headers → World × Result Bytes (ℕ × Bytes)
  -- `IoProvider::create_udp(0)` and `UdpTransport`
  pub Socket : Type 0
  pub create_udp : World → World × Result Bytes Socket
  pub send_to : World → Socket → Bytes → Bytes → ℕ → World × Result Bytes (Unit {0})
  pub recv_from : World → Socket → ℕ → World × Result Bytes (Bytes × Bytes × ℕ)
  pub local_addr : World → Socket → Result Bytes (Bytes × ℕ)
  -- `Platform`
  pub get_local_addresses : World → List Bytes
  -- milliseconds
  pub now : World → ℕ
  -- `SystemTime::now()` in seconds
  pub unix_time : World → ℕ
  -- serde_json
  pub Value : Type 0
  pub null : Value
  pub string_object : List (Bytes × Bytes) → Value
  pub number_object : Bytes → ℕ → Value
  pub to_vec : Value → Result Bytes Bytes
  pub from_str : Bytes → Result Bytes Value
  pub get_member : Value → Bytes → Option Value
  pub as_u64 : Value → Option ℕ
  pub as_str : Value → Option Bytes
  pub parse_envelope : Bytes → Result Bytes Envelope

abbrev pub received_bytes : Result Bytes (Bytes × Bytes × ℕ) → Option Bytes
received_bytes (ok (bytes, ip, port)) = some bytes
received_bytes (err e) = none

-- The closures `send` and `recv` that the client makes for one server.
abbrev pub net_to : (io : Io) → io.Socket → Bytes → ℕ → Net
net_to io udp ip port = record {
  World = io.World;
  send = λ w bytes. (io.send_to w udp bytes ip port).0;
  recv = λ w timeout_ms.
      ((io.recv_from w udp timeout_ms).0, received_bytes (io.recv_from w udp timeout_ms).1);
  now = io.now;
}

-- `(200..300).contains(&status)`
abbrev pub is_success : ℕ → Bool
is_success status = leb 200 status && ltb status 300

-- `and_then` and `unwrap_or`.
abbrev pub or_default {ℓ} : {A : Type ℓ} → A → Option A → A
or_default d none = d
or_default d (some a) = a
