-- ===== src/Juggler/Client.antt =====
-- juggler/client/client.go: the client's table of pending calls, and what its goroutines do with it.
-- Each event is one critical section of the mutex with the call of the handler that it decides; an
-- interleaving of the goroutines is a list of events.
pub mod Pending
pub mod Requests
use exp.Base.{
  ℕ, zero, suc, Bool, true, false, Option, none, some, List, [], ◌∷◌, ◌++◌, Text, text_eq,
  if◌then◌else◌, ℤ, pos, int_eq, lt_int,
}
use exp.Juggler.Msg
use exp.Juggler.Msg.{Msg, MessageType, call_msg, uuid_of}

-- `Exp`: the message that the client raises for itself when a call has expired.
pub record Exp : Type 0 where
  pub t : MessageType
  pub u : Text
  pub for : Text
  pub uri : Text
  pub args : Text

-- `newExp` on the metadata and the payload of the call; `exp_msg` is the registered type.
unfoldable pub new_exp : MessageType → Text → Msg.Meta → Msg.CallBody → Exp
new_exp exp_msg u m b = record { t = exp_msg; u = u; for = m.u; uri = b.uri; args = b.args }

-- What the handler is called with.
pub data Delivery : Type 0 where
  message : Msg → Delivery
  expired : Exp → Delivery

-- The keys of `results`, and the deliveries so far.
pub record Client : Type 0 where
  pub results : List Text
  pub handled : List Delivery

unfoldable pub is_pending : Text → List Text → Bool
is_pending key [] = false
is_pending key (k ∷ ks) = if text_eq k key then true else is_pending key ks

-- `delete(c.results, key)`
unfoldable pub remove : Text → List Text → List Text
remove key [] = []
remove key (k ∷ ks) = let rest = remove key ks in if text_eq k key then rest else k ∷ rest

-- A write to the map, which has each key once.
unfoldable pub add_pending : Text → Client → Client
unfolding is_pending
add_pending key c = if is_pending key c.results then c else record c { results = key ∷ c.results }

unfoldable pub delete_pending : Text → Client → Bool × Client
unfolding is_pending remove
delete_pending key c = (is_pending key c.results, record c { results = remove key c.results })

unfoldable pub handle : Delivery → Client → Client
handle d c = record c { handled = c.handled ++ d ∷ [] }

-- A round of the loop of `handleMessages`, on a message that `UnmarshalResponse` returned.
unfoldable pub handle_message : Msg → Client → Client
unfolding delete_pending handle
handle_message (Msg.res m b) c =
    let c' = (delete_pending b.for c).1 in
    if (delete_pending b.for c).0 then handle (message (Msg.res m b)) c' else c'
handle_message (Msg.err m b) c =
    let c' = if int_eq b.for_type call_msg then (delete_pending b.for c).1 else c in
    handle (message (Msg.err m b)) c'
handle_message m c = handle (message m) c

-- `handleExpiredCall`, once the timeout is over.
unfoldable pub handle_expired_call : MessageType → Text → Msg.Meta → Msg.CallBody → Client → Client
unfolding delete_pending handle new_exp
handle_expired_call exp_msg u m b c =
    let c' = (delete_pending m.u c).1 in
    if (delete_pending m.u c).0 then handle (expired (new_exp exp_msg u m b)) c' else c'

-- The timeout of `handleExpiredCall`, in nanoseconds; a minute is the broker's default.
unfoldable pub expiry : ℤ → ℤ
expiry timeout = if lt_int (pos 0) timeout then timeout else pos 60_000_000_000

-- The timeout that `Call` sends and waits for.
unfoldable pub call_timeout : ℤ → ℤ → ℤ
call_timeout configured timeout = if int_eq timeout (pos 0) then configured else timeout

pub data Event : Type 0 where
  added : Text → Event
  received : Msg → Event
  timed_out : Text → Msg.Meta → Msg.CallBody → Event

module _ (exp_msg : MessageType) where
  unfoldable pub step : Client → Event → Client
  unfolding add_pending handle_message handle_expired_call
  step c (added key) = add_pending key c
  step c (received m) = handle_message m c
  step c (timed_out u m b) = handle_expired_call exp_msg u m b c

  unfoldable pub run : Client → List Event → Client
  unfolding step
  run c [] = c
  run c (e ∷ es) = run (step c e) es
