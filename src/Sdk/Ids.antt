-- ===== src/Sdk/Ids.antt =====
-- sdk/crates/p2p-sdk/src/ids.rs: the client of the identifier service.
use p2psdk.Prelude.{
  ℕ, not, Option, none, some, List, [], ◌∷◌, ◌++◌, ◌==◌, if◌then◌else◌, eq_bytes, Result, ok, err,
}
use p2psdk.Sdk.Io.{Io, Headers, IdsRecord, Envelope, is_success, or_default}
use p2psdk.Text.Number.{print_decimal}
use p2psdk.Text.Words.{trim}
use p2psdk.Types.{codes}
use p2psdk.Wire.{Bytes}

unfoldable pub headers : Headers
headers = (codes "Content-Type", codes "application/json") ∷ []

-- `iter().find(|r| r.type_ == "service")`
abbrev pub find_service : List IdsRecord → Option IdsRecord
find_service [] = none
find_service (r ∷ rs) = if eq_bytes r.type_ (codes "service") then some r else find_service rs

abbrev pub service_or : Option IdsRecord → Result Bytes IdsRecord
service_or none = err (codes "No service record found in IDS")
service_or (some r) = ok r

abbrev pub read_envelope : Result Bytes Envelope → Result Bytes IdsRecord
read_envelope (err e) = err e
read_envelope (ok env) =
    if not (env.code == 200)
    then err (codes "IDS query error: code=" ++ print_decimal env.code)
    else service_or (find_service env.records)

-- `resp.trim()`, which may not be empty.
abbrev pub answer_or : Bytes → Result Bytes Bytes
answer_or [] = err (codes "ICE offer: empty SDP answer")
answer_or (b ∷ bs) = ok (b ∷ bs)

abbrev pub read_answer : Result Bytes (ℕ × Bytes) → Result Bytes Bytes
read_answer (err e) = err (codes "HTTP: " ++ e)
read_answer (ok (status, resp)) =
    if not (is_success status)
    then err (codes "ICE offer failed: HTTP " ++ print_decimal status)
    else answer_or (trim resp)

module _ (io : Io) where
  abbrev pub member_u64 : io.Value → Bytes → ℕ
  member_u64 env key =
      or_default 0 (elim (io.get_member env key) [ none ↦ none | some v ↦ io.as_u64 v ])

  abbrev pub member_str : io.Value → Bytes → Bytes → Bytes
  member_str env key default =
      or_default default (elim (io.get_member env key) [ none ↦ none | some v ↦ io.as_str v ])

  abbrev pub read_registration : Result Bytes io.Value → Result Bytes (Unit {0})
  read_registration (err e) = err e
  read_registration (ok env) =
      let code = member_u64 env (codes "code") in
      if not (code == 200)
      then err (
          codes "IDS register error: code="
          ++ (print_decimal code
              ++ (codes ", msg=" ++ member_str env (codes "message") (codes "unknown"))))
      else ok tt

  abbrev pub registered_by : Result Bytes (ℕ × Bytes) → Result Bytes (Unit {0})
  registered_by (err e) = err (codes "HTTP: " ++ e)
  registered_by (ok (status, resp)) =
      if not (is_success status)
      then err (codes "IDS register failed: HTTP " ++ print_decimal status)
      else read_registration (io.from_str resp)

  abbrev pub post_registration :
      io.World → Bytes → Result Bytes Bytes → io.World × Result Bytes (Unit {0})
  post_registration w url (err e) = (w, err e)
  post_registration w url (ok body) =
      let done = io.post w url headers body in (done.0, registered_by done.1)

  unfoldable pub register_ids :
      io.World → Bytes → Bytes → Bytes → Bytes → Bytes → Bytes → io.World × Result Bytes (Unit {0})
  register_ids w host app_id user_id type_ odid token =
      post_registration w (host ++ codes "/api/ids") (
        io.to_vec (
          io.string_object (
            (codes "appId", app_id)
            ∷ (codes "userId", user_id)
            ∷ (codes "type", type_)
            ∷ (codes "odid", odid)
            ∷ (codes "token", token)
            ∷ [])))

  abbrev pub queried : Result Bytes (ℕ × Bytes) → Result Bytes IdsRecord
  queried (err e) = err (codes "HTTP: " ++ e)
  queried (ok (status, resp)) =
      if not (is_success status)
      then err (codes "IDS query failed: HTTP " ++ print_decimal status)
      else read_envelope (io.parse_envelope resp)

  unfoldable pub query_ids : io.World → Bytes → Bytes → Bytes → io.World × Result Bytes IdsRecord
  query_ids w host app_id user_id =
      let done = io.get w (host ++ (codes "/api/ids/" ++ (app_id ++ (b'/' ∷ user_id)))) headers in
      (done.0, queried done.1)

  unfoldable pub send_ice_offer : io.World → Bytes → Bytes → io.World × Result Bytes Bytes
  send_ice_offer w peer_addr sdp_offer =
      let done =
        io.post w (codes "http://" ++ (peer_addr ++ codes "/api/ice/offer"))
          ((codes "Content-Type", codes "application/sdp") ∷ []) sdp_offer in
      (done.0, read_answer done.1)
