-- ===== src/Juggler/Callee.antt =====
-- juggler/callee/callee.go: the calls that a callee invokes, and the results that it stores.
pub mod Served
mod Samples
use exp.Base.{
  Bool, Option, none, some, List, [], ◌∷◌, ◌++◌, Text, text_eq, if◌then◌else◌, ℤ, pos, lt_int,
  minus,
}
use exp.Juggler.Msg.{CallPayload, ResPayload}

-- A Go error, with the value that stands for it if it is a `json.Marshaler`.
pub record GoError (V : Type 0) : Type 0 where
  pub marshaler : Option V
  pub message : Text

-- What a `Thunk` returns (one that panics is left out), and what `json.Marshal` does.
pub record Reply (V : Type 0) : Type 0 where
  pub v : V
  pub err : Option (GoError V)

pub data Marshaled : Type 0 where
  bytes : Text → Marshaled
  marshal_error : Text → Marshaled

-- What the broker's `Calls` returns: an error, or a connection, with the calls that its channel
-- delivers until it is closed and what `CallsErr` returns then.
pub data Opened : Type 0 where
  refused : Text → Opened
  connected : List CallPayload → Option Text → Opened

-- What the callee takes from elsewhere: JSON, the value `msg.ErrResult` of a message, the broker's
-- `Calls`, the error of its `Result`, and the time, in nanoseconds, that a thunk takes for a call.
pub record Callee (V : Type 0) : Type 0 where
  pub marshal : V → Marshaled
  pub err_result : Text → V
  pub calls : List Text → Opened
  pub result_error : ResPayload → ℤ → Option Text
  pub elapsed : CallPayload → ℤ

pub data InvokeError : Type 0 where
  call_expired : InvokeError
  store_error : Text → InvokeError

-- The calls of `Broker.Calls`, of `Close` of its connection and of `Broker.Result`, and the two lines
-- of the log.
pub data Action : Type 0 where
  open_calls : List Text → Action
  close : Action
  result : ResPayload → ℤ → Action
  dropping_expired : Text → Action
  store_failed : Text → Text → Action

-- How the loop of `Listen` ends: at the end of the calls, or with the call of a nil `Thunk`.
pub data Listened : Type 0 where
  stopped : List Action → Listened
  nil_thunk : List Action → Listened

-- How `Listen` ends: it returns, with an error or nil, or it panics.
pub data Outcome : Type 0 where
  returns : List Action → Option Text → Outcome
  panics : List Action → Outcome

module _ {V : Type 0} (callee : Callee V) where
  -- The value that is stored for a reply.
  unfoldable pub stored_value : V → Option (GoError V) → V
  stored_value v none = v
  stored_value v (some e) = elim e.marshaler [ some w ↦ w | none ↦ callee.err_result e.message ]

  abbrev pub res_payload : CallPayload → Text → ResPayload
  res_payload cp b = record {
    conn_uuid = cp.conn_uuid;
    msg_uuid = cp.msg_uuid;
    uri = cp.uri;
    args = b;
  }

  abbrev pub stored : Option Text → Option InvokeError
  stored none = none
  stored (some e) = some (store_error e)

  unfoldable pub store_result : CallPayload → Reply V → ℤ → List Action × Option InvokeError
  unfolding stored_value
  store_result cp r timeout = elim (callee.marshal (stored_value r.v r.err)) [
    | marshal_error e ↦ ([], some (store_error e))
    | bytes b ↦ (
      result (res_payload cp b) timeout ∷ [],
      stored (callee.result_error (res_payload cp b) timeout),
    )
  ]

  -- The time that a call has left once its thunk is done.
  abbrev pub remain : CallPayload → ℤ
  remain cp = minus cp.ttl_after_read (callee.elapsed cp)

  unfoldable pub invoke_and_store_result :
      CallPayload → (CallPayload → Reply V) → List Action × Option InvokeError
  unfolding store_result
  invoke_and_store_result cp fn =
      if lt_int (pos 0) (remain cp)
      then store_result cp (fn cp) (remain cp)
      else ([], some call_expired)

  -- `m[cp.URI]`
  unfoldable pub thunk_of :
      List (Text × (CallPayload → Reply V)) → Text → Option (CallPayload → Reply V)
  thunk_of [] uri = none
  thunk_of ((k, fn) ∷ m) uri = if text_eq k uri then some fn else thunk_of m uri

  -- What a round of `Listen` adds to the log.
  abbrev pub logged_error : Text → Option InvokeError → List Action
  logged_error u none = []
  logged_error u (some call_expired) = dropping_expired u ∷ []
  logged_error u (some (store_error e)) = store_failed u e ∷ []

  abbrev pub after : List Action → Listened → Listened
  after as_ (stopped bs) = stopped (as_ ++ bs)
  after as_ (nil_thunk bs) = nil_thunk (as_ ++ bs)

  -- The loop of `Listen` over the calls that its connection receives until it is closed.
  unfoldable pub listen_loop : List (Text × (CallPayload → Reply V)) → List CallPayload → Listened
  unfolding invoke_and_store_result thunk_of
  listen_loop m [] = stopped []
  listen_loop m (cp ∷ cps) =
      let rest = listen_loop m cps in
      elim (thunk_of m cp.uri) [
        | none ↦ nil_thunk []
        | some fn ↦
            after
              ((invoke_and_store_result cp fn).0
                ++ logged_error cp.msg_uuid (invoke_and_store_result cp fn).1)
              rest
      ]

  -- The keys of `m`, in the order in which the range over `m` has them.
  unfoldable pub uris_of : List (Text × (CallPayload → Reply V)) → List Text
  uris_of [] = []
  uris_of ((k, fn) ∷ m) = k ∷ uris_of m

  -- The end of the loop, and the deferred `Close`.
  abbrev pub closed : List Text → Option Text → Listened → Outcome
  closed uris err (stopped as_) = returns (open_calls uris ∷ as_ ++ close ∷ []) err
  closed uris err (nil_thunk as_) = panics (open_calls uris ∷ as_ ++ close ∷ [])

  unfoldable pub listen : List (Text × (CallPayload → Reply V)) → Outcome
  listen [] = returns [] none
  listen (t ∷ m) = elim (callee.calls (uris_of (t ∷ m))) [
    | refused err ↦ returns (open_calls (uris_of (t ∷ m)) ∷ []) (some err)
    | connected cps err ↦ closed (uris_of (t ∷ m)) err (listen_loop (t ∷ m) cps)
  ]
