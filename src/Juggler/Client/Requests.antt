-- ===== src/Juggler/Client/Requests.antt =====
-- juggler/client/client.go: the requests of a client, and its loop over what it receives.
pub mod Early
use exp.Base.{Bool, true, false, Option, none, some, List, [], ◌∷◌, Text, ℤ}
use exp.Juggler.Msg
use exp.Juggler.Msg.{Msg, call_msg}
use exp.Juggler.Msg.Create.{new_meta, new_call, new_sub, new_unsb, new_pub}
use exp.Juggler.Msg.Unmarshal.{Json, Result, done, failed, unmarshal_response}
use exp.Juggler.Client.{Client, handle_message, call_timeout}

-- What a request does, in order: it writes a message, enters a call into the table, and starts the
-- goroutine that waits for the timeout of a call.
pub data Effect : Type 0 where
  wrote : Msg → Effect
  entered : Text → Effect
  waits : Msg.Meta → Msg.CallBody → ℤ → Effect

-- The UUID of the message, or the error.
pub data Returned : Type 0 where
  with_uuid : Text → Returned
  with_error : Text → Returned

-- `write_json` is the error of `WriteJSON`; the arguments are those that `json.Marshal` made.
module _ (write_json : Msg → Option Text) where
  abbrev pub written_unless : Option Text → Msg → Text → List Effect → Returned × List Effect
  written_unless (some e) m u behind = (with_error e, [])
  written_unless none m u behind = (with_uuid u, wrote m ∷ behind)

  abbrev pub written : Msg → Text → List Effect → Returned × List Effect
  written m u behind = written_unless (write_json m) m u behind

  abbrev pub call_body : Text → Text → ℤ → Msg.CallBody
  call_body uri args timeout = record { uri = uri; timeout = timeout; args = args }

  unfoldable pub call : ℤ → Text → Text → Result Text → ℤ → Returned × List Effect
  call configured u uri (failed e) timeout = (with_error e, [])
  call configured u uri (done args) timeout =
      let to = call_timeout configured timeout in
      written (new_call u uri args to) u
        (entered u ∷ waits (new_meta call_msg u) (call_body uri args to) to ∷ [])

  unfoldable pub sub : Text → Text → Bool → Returned × List Effect
  sub u channel is_pattern = written (new_sub u channel is_pattern) u []

  unfoldable pub unsb : Text → Text → Bool → Returned × List Effect
  unsb u channel is_pattern = written (new_unsb u channel is_pattern) u []

  unfoldable pub publish : Text → Text → Result Text → Returned × List Effect
  publish u channel (failed e) = (with_error e, [])
  publish u channel (done args) = written (new_pub u channel args) u []

-- What `NextReader` returns: an error, or the text of a message.
pub data Incoming : Type 0 where
  reader_failed : Text → Incoming
  incoming : Text → Incoming

-- The loop of `handleMessages` on what has come; the flag tells whether `stop` was closed. The log is
-- left out.
module _ (json : Json) where
  abbrev pub handled_if : Result Msg → Client → Client
  handled_if (failed e) c = c
  handled_if (done m) c = handle_message m c

  unfoldable pub handle_messages : List Incoming → Client → Client × Bool
  handle_messages [] c = (c, false)
  handle_messages (reader_failed e ∷ is) c = (c, true)
  handle_messages (incoming r ∷ is) c =
      handle_messages is (handled_if (unmarshal_response json r) c)
