-- ===== src/Juggler/Callee/Served.antt =====
-- juggler/callee/callee.go: each call is answered in time, once, or a line of the log says why not.
use exp.Base.{
  ◌≡◌, Bool, true, false, if◌then◌else◌, text_eq, Option, none, some, List, [], ◌∷◌, ◌++◌, Text, ℤ,
  pos, lt_int,
}
use exp.Juggler.Msg.{CallPayload, ResPayload}
use exp.Juggler.Callee.{
  Callee, Reply, InvokeError, Marshaled, bytes, marshal_error, Action, result, dropping_expired,
  store_failed, stored_value, remain, thunk_of, logged_error, Opened, refused, connected,
  open_calls, close, Outcome, returns, uris_of,
}

module _ {V : Type 0} (callee : Callee V) where
  -- What the reply of a thunk is stored as, if it can be marshaled.
  abbrev marshaled_reply : Reply V → Marshaled
  marshaled_reply r = callee.marshal (stored_value callee r.v r.err)

  -- A result of the call, with what its thunk replied, stored with the time that the call has left,
  -- which is positive.
  pub record Answers (fn : CallPayload → Reply V) (cp : CallPayload) (rp : ResPayload) (timeout : ℤ)
      : Type 0 where
    pub same_conn : rp.conn_uuid ≡ cp.conn_uuid
    pub same_msg : rp.msg_uuid ≡ cp.msg_uuid
    pub same_uri : rp.uri ≡ cp.uri
    pub replied : marshaled_reply (fn cp) ≡ bytes rp.args
    pub in_time : lt_int (pos 0) timeout ≡ true
    pub time_left : timeout ≡ remain callee cp

  -- What is done for one call, by its thunk.
  pub data ServesOne (fn : CallPayload → Reply V) (cp : CallPayload) : List Action → Type 0 where
    answered :
        (rp : ResPayload) (t : ℤ)
        → Answers fn cp rp t
        → callee.result_error rp t ≡ none
        → ServesOne fn cp (result rp t ∷ [])
    broker_failed :
        (rp : ResPayload) (t : ℤ) (e : Text)
        → Answers fn cp rp t
        → callee.result_error rp t ≡ some e
        → ServesOne fn cp (result rp t ∷ store_failed cp.msg_uuid e ∷ [])
    not_marshaled :
        (e : Text)
        → marshaled_reply (fn cp) ≡ marshal_error e
        → lt_int (pos 0) (remain callee cp) ≡ true
        → ServesOne fn cp (store_failed cp.msg_uuid e ∷ [])
    too_late :
        lt_int (pos 0) (remain callee cp) ≡ false
        → ServesOne fn cp (dropping_expired cp.msg_uuid ∷ [])

  -- What is done for calls, one after the other, each by the thunk of its URI.
  pub data Serves (m : List (Text × (CallPayload → Reply V)))
      : List CallPayload → List Action → Type 0 where
    no_calls : Serves m [] []
    next_call :
        {cps : List CallPayload} {rest : List Action} (fn : CallPayload → Reply V)
        (cp : CallPayload) (as_ : List Action)
        → thunk_of callee m cp.uri ≡ some fn
        → ServesOne fn cp as_
        → Serves m cps rest
        → Serves m (cp ∷ cps) (as_ ++ rest)

  -- Each call is for a URI that has a thunk.
  abbrev AllKnown : List (Text × (CallPayload → Reply V)) → List CallPayload → Type 0
  AllKnown m [] = Unit
  AllKnown m (cp ∷ cps) =
      ((fn : CallPayload → Reply V) × (thunk_of callee m cp.uri ≡ some fn)) × AllKnown m cps

  abbrev pub is_among : List Text → Text → Bool
  is_among [] uri = false
  is_among (u ∷ us) uri = if text_eq u uri then true else is_among us uri

  abbrev pub AllAmong : List Text → List CallPayload → Type 0
  AllAmong us [] = Unit
  AllAmong us (cp ∷ cps) = (is_among us cp.uri ≡ true) × AllAmong us cps

  -- `Calls` is documented to deliver the calls for the URIs that it is given.
  abbrev pub IsForUris : List Text → Opened → Type 0
  IsForUris us (refused e) = Unit
  IsForUris us (connected cps e) = AllAmong us cps

  -- What `Listen` does: nothing without thunks; otherwise it opens a connection for the URIs, and
  -- either returns the broker's error or serves the calls, closes the connection and returns the
  -- error that ended the calls.
  pub data Listens : List (Text × (CallPayload → Reply V)) → Outcome → Type 0 where
    no_thunks : Listens [] (returns [] none)
    not_opened :
        {m : List (Text × (CallPayload → Reply V))} (t : Text × (CallPayload → Reply V)) (e : Text)
        → callee.calls (uris_of callee (t ∷ m)) ≡ refused e
        → Listens (t ∷ m) (returns (open_calls (uris_of callee (t ∷ m)) ∷ []) (some e))
    served :
        {m : List (Text × (CallPayload → Reply V))} (t : Text × (CallPayload → Reply V))
        (cps : List CallPayload) (as_ : List Action) (err : Option Text)
        → callee.calls (uris_of callee (t ∷ m)) ≡ connected cps err
        → Serves (t ∷ m) cps as_
        → Listens (t ∷ m) (returns (open_calls (uris_of callee (t ∷ m)) ∷ as_ ++ close ∷ []) err)

  abbrev done : CallPayload → List Action × Option InvokeError → List Action
  done cp r = r.0 ++ logged_error callee cp.msg_uuid r.1
