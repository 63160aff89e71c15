-- ===== src/Juggler/Broker/Streams.antt =====
-- juggler/broker/redisbroker/calls.go, results.go and pubsub.go: the goroutines that read payloads.
use exp.Base.{
  ◌*◌, ◌+◌, Bool, true, false, Option, none, some, List, [], ◌∷◌, ◌++◌, Text, if◌then◌else◌, ℤ, pos,
  negsuc, neg, lt_int, quotient, map,
}
use exp.Juggler.Msg.{CallPayload, ResPayload, PubPayload, EvntPayload}
use exp.Juggler.Broker.{
  Redis, Link, reply_came, not_reached, reply_lost, Popped, nil_reply, pop_failed, popped, Decoded,
  decoded, decode_error, Json, call_key, call_timeout_key, res_key, res_timeout_key,
}

-- A line of the log.
pub data Line : Type 0 where
  bad_payload : Text → Line
  ttl_failed : Text → Line
  expired : Text → Line

-- `callsConn`, `resultsConn` or `pubSubConn`: what was sent to the channel, the log, and the error,
-- with which the goroutine ends.
pub record Stream (A : Type 0) : Type 0 where
  pub sent : List A
  pub log : List Line
  pub err : Option Text

module _ {A : Type 0} where
  abbrev pub send_on : A → Stream A → Stream A
  send_on a s = record s { sent = s.sent ++ a ∷ [] }

  abbrev pub logf : Line → Stream A → Stream A
  logf l s = record s { log = s.log ++ l ∷ [] }

-- The time to live that `delAndPTTLScript` returned, in nanoseconds.
abbrev pub nanos : ℤ → ℤ
nanos (pos n) = pos (n * 1000000)
nanos (negsuc n) = neg ((n + 1) * 1000000)

module _ {D : Type 0} (redis : Redis D) where
  -- `delAndPTTLScript`, or the error of `Do`.
  abbrev pub del_and_pttl_by : Link → Text → D → Decoded ℤ × D
  del_and_pttl_by reply_came k d = (decoded (redis.pttl k d), redis.del k d)
  del_and_pttl_by (not_reached t) k d = (decode_error t, d)
  del_and_pttl_by (reply_lost t) k d = (decode_error t, redis.del k d)

  abbrev pub del_and_pttl : Text → D → Decoded ℤ × D
  del_and_pttl k d = del_and_pttl_by (redis.link d) k d

  module _ {A : Type 0} (json : Json A) (key : A → Text) (uuid : A → Text)
      (stamped : A → ℤ → A) where
    -- What a round does with the time to live of a payload.
    abbrev pub check_ttl : A → Decoded ℤ → Stream A → Stream A
    check_ttl a (decode_error t) s = logf (ttl_failed t) s
    check_ttl a (decoded pttl) s =
        if lt_int (pos 0) pttl
        then send_on (stamped a (nanos pttl)) s
        else logf (expired (uuid a)) s

    abbrev pub read_payload : Decoded A → Stream A → D → Stream A × D
    read_payload (decode_error t) s d = (logf (bad_payload t) s, d)
    read_payload (decoded a) s d = let (ttl, d') = del_and_pttl (key a) d in (check_ttl a ttl s, d')

    abbrev pub after_pop : Popped → Stream A → D → Stream A × D
    after_pop nil_reply s d = (s, d)
    after_pop (pop_failed t) s d = (record s { err = some t }, d)
    after_pop (popped p) s d = read_payload (json.unmarshal p) s d

    -- A round of the loop, unless the goroutine has ended.
    abbrev pub poll_unless : Option Text → List Text → ℤ → Stream A → D → Stream A × D
    poll_unless (some t) keys to s d = (s, d)
    poll_unless none keys to s d = let (r, d') = redis.brpop keys to d in after_pop r s d'

    abbrev pub poll : List Text → ℤ → Stream A → D → Stream A × D
    poll keys to s d = poll_unless s.err keys to s d

  -- A round of `Calls`, for the URIs and the timeout of a `callsConn`.
  abbrev pub with_ttl : CallPayload → ℤ → CallPayload
  with_ttl cp ttl = record cp { ttl_after_read = ttl }

  unfoldable pub poll_calls :
      Json CallPayload → List Text → ℤ → Stream CallPayload → D → Stream CallPayload × D
  poll_calls json uris timeout s d =
      poll json (λ cp. call_timeout_key cp.uri cp.msg_uuid) (λ cp. cp.msg_uuid) with_ttl
        (map call_key uris) (quotient timeout 1000000000) s d

  -- A round of `Results`, for the connection of a `resultsConn`.
  unfoldable pub poll_results :
      Json ResPayload → Text → ℤ → Stream ResPayload → D → Stream ResPayload × D
  poll_results json conn_uuid timeout s d =
      poll json (λ rp. res_timeout_key rp.conn_uuid rp.msg_uuid) (λ rp. rp.msg_uuid) (λ rp ttl. rp)
        (res_key conn_uuid ∷ []) (quotient timeout 1000000000) s d

-- What `Receive` returns: a message with its channel, one of a pattern, another reply, or an error.
pub data Received : Type 0 where
  message : Text → Text → Received
  pmessage : Text → Text → Text → Received
  other_reply : Received
  receive_error : Text → Received

module _ (json : Json PubPayload) where
  abbrev pub evnt_payload : Text → Text → PubPayload → EvntPayload
  evnt_payload channel pattern_ pp = record {
    msg_uuid = pp.msg_uuid;
    channel = channel;
    pattern = pattern_;
    args = pp.args;
  }

  abbrev pub new_evnt_payload : Text → Text → Text → Decoded EvntPayload
  new_evnt_payload channel pattern_ pld = elim (json.unmarshal pld) [
    | decode_error t ↦ decode_error t
    | decoded pp ↦ decoded (evnt_payload channel pattern_ pp)
  ]

  abbrev pub send_event : Decoded EvntPayload → Stream EvntPayload → Stream EvntPayload
  send_event (decode_error t) s = logf (bad_payload t) s
  send_event (decoded ev) s = send_on ev s

  abbrev pub receive_event : Received → Stream EvntPayload → Stream EvntPayload
  receive_event (message channel data_) s = send_event (new_evnt_payload channel [] data_) s
  receive_event (pmessage channel pattern_ data_) s =
      send_event (new_evnt_payload channel pattern_ data_) s
  receive_event other_reply s = s
  receive_event (receive_error t) s = record s { err = some t }

  -- The loop of `Events` over what is received.
  unfoldable pub events : List Received → Stream EvntPayload → Stream EvntPayload
  events [] s = s
  events (r ∷ rs) s =
      let rest = events rs (receive_event r s) in elim s.err [ some t ↦ s | none ↦ rest ]

-- The requests of `redis.PubSubConn`, and the choice of `subUnsub`.
pub data Request : Type 0 where
  psubscribe punsubscribe subscribe_to unsubscribe_from : Request

abbrev pub request_of : Bool → Bool → Request
request_of true true = psubscribe
request_of true false = punsubscribe
request_of false true = subscribe_to
request_of false false = unsubscribe_from

-- `Subscribe` and `Unsubscribe`, with what the connection does with a request.
abbrev pub sub_unsub : (Request → Text → Option Text) → Text → Bool → Bool → Option Text
sub_unsub request ch pat sub = request (request_of pat sub) ch

abbrev pub subscribe : (Request → Text → Option Text) → Text → Bool → Option Text
subscribe request channel is_pattern = sub_unsub request channel is_pattern true

abbrev pub unsubscribe : (Request → Text → Option Text) → Text → Bool → Option Text
unsubscribe request channel is_pattern = sub_unsub request channel is_pattern false
