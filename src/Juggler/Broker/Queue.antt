-- ===== src/Juggler/Broker/Queue.antt =====
-- juggler/broker/redisbroker: the calls for a URI are a bounded queue.
pub mod Calls
pub mod Moves
pub mod Fifo
use exp.Base.{
  ◌≡◌, refl, ap, sym, ◌∙◌, Option, some, List, [], ◌∷◌, ◌++◌, Text, ℤ, pos, lt_int, true,
}
use exp.Juggler.Msg.{CallPayload}
use exp.Juggler.Broker.{Json, decoded}
use exp.Juggler.Broker.Streams.{Stream, Line, expired, ttl_failed, nanos, with_ttl, poll_calls}

-- What `Unmarshal` leaves of a call: the fields that JSON has, with the arguments as `json.Marshal`
-- rewrites a `RawMessage`.
abbrev pub in_json : (Text → Text) → CallPayload → CallPayload
in_json rewritten cp = record cp { args = rewritten cp.args; ttl_after_read = pos 0 }

-- The calls that came into the list, the oldest first: those that `Call` accepted, in their order, and
-- some of those for which it returned an error because the reply of the server was lost.
pub data Entered (lost_by : Text → Type 0)
    : List CallPayload → List (CallPayload × Text) → List CallPayload → Type 0 where
  none_entered : Entered lost_by [] [] []
  entered_accepted :
      {accepted entered : List CallPayload} {failed : List (CallPayload × Text)} (cp : CallPayload)
      → Entered lost_by accepted failed entered
      → Entered lost_by (accepted ++ cp ∷ []) failed (entered ++ cp ∷ [])
  stayed_out :
      {accepted entered : List CallPayload} {failed : List (CallPayload × Text)} (cp : CallPayload)
      (t : Text)
      → Entered lost_by accepted failed entered
      → Entered lost_by accepted (failed ++ (cp, t) ∷ []) entered
  entered_unknown :
      {accepted entered : List CallPayload} {failed : List (CallPayload × Text)} (cp : CallPayload)
      (t : Text)
      → lost_by t
      → Entered lost_by accepted failed entered
      → Entered lost_by accepted (failed ++ (cp, t) ∷ []) (entered ++ cp ∷ [])

-- Calls, the oldest first, and the list that holds them, whose head is the newest.
pub data Held (json : Json CallPayload) (rewritten : Text → Text)
    : List CallPayload → List Text → Type 0 where
  none_held : Held json rewritten [] []
  pushed :
      {cps : List CallPayload} {ts : List Text} (cp : CallPayload) (t : Text)
      → json.unmarshal t ≡ decoded (in_json rewritten cp)
      → Held json rewritten cps ts
      → Held json rewritten (cps ++ cp ∷ []) (t ∷ ts)

-- A call that was taken off the list and lost with the reply of BRPOP: at most one, and then the
-- goroutine has ended with an error.
pub data Lost : List CallPayload → Option Text → Type 0 where
  none_lost : {err : Option Text} → Lost [] err
  one_lost : (cp : CallPayload) (t : Text) → Lost (cp ∷ []) (some t)

-- What became of calls that were taken off the list, the oldest first: each was sent, with the time
-- that it has to live, which is positive, or a line of the log says why not.
pub data Handled (rewritten : Text → Text)
    : List CallPayload → List CallPayload → List Line → Type 0 where
  none_handled : Handled rewritten [] [] []
  delivered :
      {cps sent : List CallPayload} {log : List Line} (cp : CallPayload) (ttl : ℤ)
      → lt_int (pos 0) ttl ≡ true
      → Handled rewritten cps sent log
      → Handled rewritten
          (cps ++ cp ∷ [])
          (sent ++ record cp { args = rewritten cp.args; ttl_after_read = nanos ttl } ∷ [])
          log
  was_expired :
      {cps sent : List CallPayload} {log : List Line} (cp : CallPayload)
      → Handled rewritten cps sent log
      → Handled rewritten (cps ++ cp ∷ []) sent (log ++ expired cp.msg_uuid ∷ [])
  without_ttl :
      {cps sent : List CallPayload} {log : List Line} (cp : CallPayload) (t : Text)
      → Handled rewritten cps sent log
      → Handled rewritten (cps ++ cp ∷ []) sent (log ++ ttl_failed t ∷ [])
