-- ===== src/Juggler/Broker.antt =====
-- juggler/broker/redisbroker/broker.go: the calls, results and events that a broker gives to Redis.
pub mod Streams
pub mod Laws
pub mod Queue
mod Samples
use exp.Base.{
  ℕ, ◌+◌, ◌-◌, Bool, Option, none, some, List, ◌++◌, Text, codes, ltb, ◌&&◌, if◌then◌else◌, ℤ, pos,
  int_eq, quotient,
}
use exp.Juggler.Msg.{CallPayload, ResPayload, PubPayload}

-- The reply to BRPOP: `redis.ErrNil`, another error, or the payload.
pub data Popped : Type 0 where
  nil_reply : Popped
  pop_failed : Text → Popped
  popped : Text → Popped

-- What becomes of a request of `Do`: its reply comes back, or `Do` returns an error, because the
-- request did not reach the server or because its reply did not come back.
pub data Link : Type 0 where
  reply_came : Link
  not_reached : Text → Link
  reply_lost : Text → Link

-- A Redis server and the connections to it, whose state is `D`. `link` is what becomes of the next
-- request but BRPOP; SET and LPUSH return their error and the length of the list.
pub record Redis (D : Type 0) : Type 0 where
  pub link : D → Link
  pub set_px : Text → ℤ → D → Option Text × D
  pub lpush : Text → Text → D → ℕ × D
  pub ltrim : Text → ℕ → ℕ → D → D
  pub publish : Text → Text → D → D
  pub brpop : List Text → ℤ → D → Popped × D
  pub pttl : Text → D → ℤ
  pub del : Text → D → D

-- `json.Marshal` and `json.Unmarshal` of payloads.
pub data Marshaled : Type 0 where
  bytes : Text → Marshaled
  marshal_error : Text → Marshaled

pub data Decoded (A : Type 0) : Type 0 where
  decoded : A → Decoded A
  decode_error : Text → Decoded A

pub record Json (A : Type 0) : Type 0 where
  pub marshal : A → Marshaled
  pub unmarshal : Text → Decoded A

-- The capacities; 0 is none, as a negative one is.
pub record Broker : Type 0 where
  pub call_cap : ℕ
  pub result_cap : ℕ

-- `callKey`, `callTimeoutKey`, `resKey` and `resTimeoutKey`.
abbrev pub call_key : Text → Text
call_key uri = codes "juggler:calls:{" ++ uri ++ codes "}"

abbrev pub call_timeout_key : Text → Text → Text
call_timeout_key uri msg_uuid = codes "juggler:calls:timeout:{" ++ uri ++ codes "}:" ++ msg_uuid

abbrev pub res_key : Text → Text
res_key conn_uuid = codes "juggler:results:{" ++ conn_uuid ++ codes "}"

abbrev pub res_timeout_key : Text → Text → Text
res_timeout_key conn_uuid msg_uuid =
    codes "juggler:results:timeout:{" ++ conn_uuid ++ codes "}:" ++ msg_uuid

-- The milliseconds of a timeout in nanoseconds, by default those of `DefaultCallTimeout`.
abbrev pub millis : ℤ → ℤ
millis timeout = let to = quotient timeout 1000000 in if int_eq to (pos 0) then pos 60000 else to

module _ {D : Type 0} (redis : Redis D) where
  -- Behind LPUSH, which returned the length of the list.
  abbrev pub trim_over : Text → ℕ → ℕ → D → Option Text × D
  trim_over k2 cap res d =
      if ltb cap res && ltb 0 cap
      then (let diff = res - cap in
          (some (codes "list capacity exceeded"), redis.ltrim k2 diff (cap + diff) d))
      else (none, d)

  -- `callOrResScript`, which ends at the first command that fails.
  unfoldable pub call_or_res_script : Text → Text → ℤ → Text → ℕ → D → Option Text × D
  call_or_res_script k1 k2 to p cap d =
      let (e, d₁) = redis.set_px k1 to d in
      elim e [
        | some t ↦ (some t, d₁)
        | none ↦ let (res, d₂) = redis.lpush k2 p d₁ in trim_over k2 cap res d₂
      ]

  -- `Do` in the state `d`, of what replies and leaves this at the server.
  abbrev pub done_by : Link → Option Text × D → D → Option Text × D
  done_by reply_came r d = r
  done_by (not_reached t) r d = (some t, d)
  done_by (reply_lost t) r d = (some t, r.1)

  abbrev pub eval_script : Text → Text → ℤ → Text → ℕ → D → Option Text × D
  eval_script k1 k2 to p cap d = done_by (redis.link d) (call_or_res_script k1 k2 to p cap d) d

  unfoldable pub register_call_or_res : Marshaled → ℤ → ℕ → Text → Text → D → Option Text × D
  unfolding call_or_res_script
  register_call_or_res (marshal_error t) timeout cap k1 k2 d = (some t, d)
  register_call_or_res (bytes p) timeout cap k1 k2 d = eval_script k1 k2 (millis timeout) p cap d

  -- `Call`, `Result` and `Publish`.
  unfoldable pub call : Json CallPayload → Broker → CallPayload → ℤ → D → Option Text × D
  unfolding register_call_or_res
  call json b cp timeout d =
      register_call_or_res (json.marshal cp) timeout b.call_cap
        (call_timeout_key cp.uri cp.msg_uuid) (call_key cp.uri) d

  unfoldable pub result : Json ResPayload → Broker → ResPayload → ℤ → D → Option Text × D
  unfolding register_call_or_res
  result json b rp timeout d =
      register_call_or_res (json.marshal rp) timeout b.result_cap
        (res_timeout_key rp.conn_uuid rp.msg_uuid) (res_key rp.conn_uuid) d

  abbrev pub publish_bytes : Text → Marshaled → D → Option Text × D
  publish_bytes channel (marshal_error t) d = (some t, d)
  publish_bytes channel (bytes p) d = done_by (redis.link d) (none, redis.publish channel p d) d

  unfoldable pub publish : Json PubPayload → Text → PubPayload → D → Option Text × D
  publish json channel pp d = publish_bytes channel (json.marshal pp) d
