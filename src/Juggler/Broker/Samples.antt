-- ===== src/Juggler/Broker/Samples.antt =====
-- juggler/broker/redisbroker: the queue at concrete calls, on a server in memory.
use exp.Base.{
  suc, ◌-◌, ◌≡◌, ◌≢◌, refl, ap, Bool, true, false, none, List, [], ◌∷◌, ◌++◌, Text, codes, text_eq,
  text_eq→≡, text_eq_refl, ◌&&◌, if◌then◌else◌, ℤ, pos, length, take, drop, Bool-cases, inl, inr,
}
use exp.Juggler.Msg.{CallPayload}
use exp.Juggler.Broker.{
  Redis, Broker, Json, Marshaled, marshal_error, bytes, decoded, Popped, nil_reply, popped,
  reply_came, call,
}
use exp.Juggler.Broker.Laws.{RedisLaws, ReadsBack, Pops, empty_list, tail_taken}
use exp.Juggler.Broker.Streams.{Stream, expired, poll_calls}
use exp.Juggler.Broker.Queue.{in_json}
use exp.Juggler.Broker.Queue.Fifo.{Event, call_event, poll_event, elapse, QueuedIn, run, run-Queued}

-- Lists and times to live, by their keys.
record Memory : Type 0 where
  lists : Text → List Text
  ttls : Text → ℤ

abbrev put {ℓ} : {A : Type ℓ} → Text → A → (Text → A) → Text → A
put k a f j = if text_eq k j then a else f j

-- The last text, and those before it.
abbrev last_of : Text → List Text → Text
last_of t [] = t
last_of t (u ∷ ts) = last_of u ts

abbrev before_last : Text → List Text → List Text
before_last t [] = []
before_last t (u ∷ ts) = t ∷ before_last u ts

abbrev split_tail : List Text → Popped × List Text
split_tail [] = (nil_reply, [])
split_tail (t ∷ ts) = (popped (last_of t ts), before_last t ts)

abbrev pop_first : List Text → Memory → Popped × Memory
pop_first [] m = (nil_reply, m)
pop_first (k ∷ ks) m =
    ((split_tail (m.lists k)).0, record m { lists = put k (split_tail (m.lists k)).1 m.lists })

abbrev memory : Redis Memory
memory = record {
  link = λ m. reply_came;
  set_px = λ k to m. (none, record m { ttls = put k to m.ttls });
  lpush = λ k t m. (suc (length (m.lists k)), record m { lists = put k (t ∷ m.lists k) m.lists });
  ltrim = λ k start stop m. record m {
    lists = put k (take (suc stop - start) (drop start (m.lists k))) m.lists;
  };
  publish = λ channel p m. m;
  brpop = λ ks to m. pop_first ks m;
  pttl = λ k m. m.ttls k;
  del = λ k m. record m { lists = put k [] m.lists; ttls = put k (pos 0) m.ttls };
}

put-same {ℓ} : {A : Type ℓ} (k : Text) (a : A) (f : Text → A) → put k a f k ≡ a
put-same k a f = rw (text_eq_refl k) refl

put-other {ℓ} : {A : Type ℓ} (j k : Text) (a : A) (f : Text → A) → j ≢ k → put j a f k ≡ f k
put-other j k a f h = elim (Bool-cases (text_eq j k)) [
  | inl same ↦ absurd (h (text_eq→≡ j k same))
  | inr other ↦ rw other refl
]

last-append : (t : Text) (ts : List Text) → t ∷ ts ≡ before_last t ts ++ last_of t ts ∷ []
last-append t [] = refl
last-append t (u ∷ ts) = ap (λ us. t ∷ us) (last-append u ts)

split_tail-Pops : (ts : List Text) → Pops (split_tail ts).0 ts (split_tail ts).1
split_tail-Pops [] = empty_list
split_tail-Pops (t ∷ ts) = rw (last-append t ts) (tail_taken (last_of t ts) (before_last t ts))

abbrev items : Text → Memory → List Text
items k m = m.lists k

memory-Laws : RedisLaws memory items
memory-Laws = record {
  set_items = λ j k to m h. refl;
  del_items = λ j k m h. put-other j k [] m.lists h;
  lpush_items = λ k t m. put-same k (t ∷ m.lists k) m.lists;
  lpush_length = λ k t m. refl;
  ltrim_items =
      λ k start stop m. put-same k (take (suc stop - start) (drop start (m.lists k))) m.lists;
  brpop_items =
      λ k to m. rw (put-same k (split_tail (m.lists k)).1 m.lists) (split_tail-Pops (m.lists k));
}

-- Calls are their message, in one of two calls for `add`.
abbrev call_of : Text → CallPayload
call_of u = record {
  conn_uuid = codes "c";
  msg_uuid = u;
  uri = codes "add";
  args = codes "1";
  ttl_after_read = pos 0;
}

abbrev marshal_if : Bool → Text → Marshaled
marshal_if true t = bytes t
marshal_if false t = marshal_error (codes "no JSON")

abbrev is_sample : CallPayload → Bool
is_sample cp =
    text_eq cp.conn_uuid (codes "c")
    && (text_eq cp.uri (codes "add") && text_eq cp.args (codes "1"))

abbrev json : Json CallPayload
json = record {
  marshal = λ cp. marshal_if (is_sample cp) cp.msg_uuid;
  unmarshal = λ t. decoded (call_of t);
}

both : (a b : Bool) → (a && b) ≡ true → (a ≡ true) × (b ≡ true)
both true b h = (refl, h)
both false b h = cc

-- JSON leaves the arguments as they are.
abbrev as_is : Text → Text
as_is t = t

json-ReadsBack : (cp : CallPayload) → ReadsBack json (in_json as_is) cp
json-ReadsBack cp t h = go (is_sample cp) refl h
  where
    go :
        (b : Bool)
        → is_sample cp ≡ b
        → marshal_if b cp.msg_uuid ≡ bytes t
        → decoded (call_of t) ≡ decoded (in_json as_is cp)
    go false e h = cc
    go true e h =
        let (c, r) =
          both (text_eq cp.conn_uuid (codes "c"))
            (text_eq cp.uri (codes "add") && text_eq cp.args (codes "1")) e in
        let (u, a) = both (text_eq cp.uri (codes "add")) (text_eq cp.args (codes "1")) r in
        let m : cp.msg_uuid ≡ t = cc in
        rw
          (
            text_eq→≡ cp.conn_uuid (codes "c") c,
            text_eq→≡ cp.uri (codes "add") u,
            text_eq→≡ cp.args (codes "1") a,
            m,
          )
          refl

-- Two calls fill the list, the third is refused; the first is sent, and the second has expired.
abbrev events : List (Event Memory)
events =
    call_event (call_of (codes "a")) (pos 5000000)
    ∷ call_event (call_of (codes "b")) (pos 3000000)
    ∷ call_event (call_of (codes "d")) (pos 5000000)
    ∷ poll_event
    ∷ elapse (λ m. record m { ttls = λ k. pos 0 })
    ∷ poll_event
    ∷ []

abbrev broker : Broker
broker = record { call_cap = 2; result_cap = 0 }

abbrev sent_a : Stream CallPayload
sent_a = record {
  sent = record (call_of (codes "a")) { ttl_after_read = pos 5000000 } ∷ [];
  log = expired (codes "b") ∷ [];
  err = none;
}

run-Queued_example : QueuedIn memory json broker (codes "add") (pos 0) items as_is (record {
  server = (record { lists = λ k. []; ttls = λ k. pos 0 });
  stream = sent_a;
  accepted = call_of (codes "a") ∷ call_of (codes "b") ∷ [];
  failed = (call_of (codes "d"), codes "list capacity exceeded") ∷ [];
})
unfolding run call poll_calls
run-Queued_example =
    run-Queued memory items as_is json broker (codes "add") (pos 0) events
      (record { lists = λ k. []; ttls = λ k. pos 0 }) memory-Laws
      (
        refl,
        json-ReadsBack (call_of (codes "a")),
        (
          refl,
          json-ReadsBack (call_of (codes "b")),
          (refl, json-ReadsBack (call_of (codes "d")), ((λ m. refl), tt)),
        ),
      )
      refl
