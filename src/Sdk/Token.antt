-- ===== src/Sdk/Token.antt =====
-- sdk/crates/p2p-sdk/src/token.rs: the token for the NAT service. The HTTP client and the decryption of
-- the token that the build embeds are libraries: what they give is an argument.
use p2psdk.Prelude.{Option, none, some, [], ◌∷◌, ◌++◌, if◌then◌else◌, Result, ok, err}
use p2psdk.Sdk.Io.{Io, or_default}
use p2psdk.Text.Words.{contains}
use p2psdk.Types.{codes}
use p2psdk.Wire.{Bytes}

unfoldable pub token_url : Bytes → Bytes
token_url nat_token_url =
    nat_token_url
    ++ ((if contains b'?' nat_token_url then codes "&" else codes "?")
        ++ codes "serviceId=unspecified&serviceType=nat")

abbrev pub found_token : Option Bytes → Result Bytes Bytes
found_token none = err (codes "token field missing in response")
found_token (some token) = ok token

-- `decrypted` is what `embedded::decrypt` returns.
unfoldable pub generate_token : Option Bytes → Bytes
generate_token decrypted = or_default [] decrypted

module _ (io : Io) (call : io.World → Bytes → io.World × Result Bytes (Result Bytes io.Value)) where
  abbrev pub token_member : Option io.Value → Result Bytes Bytes
  token_member none = found_token none
  token_member (some v) = found_token (io.as_str v)

  -- The request may fail, and so may the parsing of its answer.
  abbrev pub read_token : Result Bytes (Result Bytes io.Value) → Result Bytes Bytes
  read_token (err e) = err (codes "token request failed: " ++ e)
  read_token (ok (err e)) = err (codes "token response parse failed: " ++ e)
  read_token (ok (ok body)) = token_member (io.get_member body (codes "token"))

  abbrev pub fetch_from : io.World → Bytes → io.World × Result Bytes Bytes
  fetch_from w [] = (w, err (codes "nat_token_url is empty"))
  fetch_from w (c ∷ cs) = let done = call w (token_url (c ∷ cs)) in (done.0, read_token done.1)

  unfoldable pub fetch_remote_token : io.World → Bytes → io.World × Result Bytes Bytes
  fetch_remote_token w nat_token_url = fetch_from w nat_token_url

  unfoldable pub generate_token_with_url : io.World → Bytes → io.World × Result Bytes Bytes
  generate_token_with_url w nat_token_url = fetch_remote_token w nat_token_url
