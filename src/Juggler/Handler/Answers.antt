-- ===== src/Juggler/Handler/Answers.antt =====
-- juggler/handler.go: a request is answered by OK, or by ERR if the broker failed.
use exp.Base.{ℕ, true, Option, none, some, ◌≡◌, refl, sym, ◌∙◌, ap, [], ◌∷◌, ◌++◌, Text, codes, pos}
use exp.Juggler.Msg.{Msg, ok_msg, err_msg, uuid_of, type_of, CallPayload, PubPayload}
use exp.Juggler.Msg.Create.{new_ok, new_err, IsRequest, is_call, is_pub, is_sub, is_unsb}
use exp.Juggler.Conn.{Conn, wrote, act, add_fn}
use exp.Juggler.Conn.Write.{Transport, exclusive_write, write_msg, do_write}
use exp.Juggler.Handler.{
  Services, count_msg, process_write, send, answer, broker_error, request_counter, process_msg,
}
use exp.Juggler.Conn.Sent.{Silent, Silent-trans, add_fn-Silent, sent-append, sent_by}
use exp.Juggler.Handler.Limits.{Within, count_msg-Silent}

-- The transport takes the message: it is within the limit, and nothing on the way fails.
pub record Delivers (t : Transport) (limit : ℕ) (m : Msg) : Type 0 where
  pub within : Within t limit m
  pub locks : t.gets_lock m ≡ true
  pub opens : t.next_writer m ≡ none
  pub writes : t.write m ≡ none

module _ (brokers : Services) (t : Transport) (limit : ℕ) where
  -- One message more was sent, and the connection has its UUID and is as open as before.
  abbrev pub SentTo : Msg → Conn → Conn → Type 0
  SentTo m c c' =
      (sent_by c' ≡ sent_by c ++ m ∷ []) × (c'.uuid ≡ c.uuid) × (c'.close_err ≡ c.close_err)

  pub SentTo-Silent : (m : Msg) (c d e : Conn) → Silent c d → SentTo m d e → SentTo m c e
  SentTo-Silent m c d e (same, id, close) (grown, id', close') =
      (grown ∙ ap (λ ms. ms ++ m ∷ []) same, id' ∙ id, close' ∙ close)

  exclusive_write-Delivers :
      (m : Msg) (c : Conn) → Delivers t limit m → exclusive_write t m c ≡ (none, act (wrote m) c)
  unfolding exclusive_write
  exclusive_write-Delivers m c d = rw (d.locks, d.opens, d.writes)

  write_msg-Delivers :
      (m : Msg) (c : Conn) → Delivers t limit m → write_msg t limit m c ≡ (none, act (wrote m) c)
  unfolding write_msg
  write_msg-Delivers m c d =
      let (b, e, h) = d.within in rw (e, write_msg) (rw h (exclusive_write-Delivers m c d))

  pub do_write-SentTo :
      (m : Msg) (c : Conn) → Delivers t limit m → SentTo m c (do_write t limit m c)
  unfolding do_write act
  do_write-SentTo m c d =
      rw (write_msg-Delivers m c d, do_write) (sent-append c.actions (wrote m ∷ []), refl, refl)

  answer-SentTo :
      (m : Msg) (e : Option Text) (c : Conn)
      → Delivers t limit (answer brokers t limit m e)
      → SentTo
          (answer brokers t limit m e)
          c
          (process_write brokers t limit (answer brokers t limit m e) c)
  unfolding answer process_write new_ok new_err
  answer-SentTo m none c d =
      let c' = add_fn (codes "OKMsgs") c in
      SentTo-Silent (answer brokers t limit m none) c c'
        (do_write t limit (answer brokers t limit m none) c') (add_fn-Silent (codes "OKMsgs") c)
        (do_write-SentTo (answer brokers t limit m none) c' d)
  answer-SentTo m (some e) c d =
      let c' = add_fn (codes "ErrMsgs") c in
      SentTo-Silent (answer brokers t limit m (some e)) c c'
        (do_write t limit (answer brokers t limit m (some e)) c')
        (add_fn-Silent (codes "ErrMsgs") c)
        (do_write-SentTo (answer brokers t limit m (some e)) c' d)

  -- One message for what the broker said.
  process_msg-answer :
      brokers.handler ≡ none
      → (m : Msg) (c : Conn) (e : Option Text) → broker_error brokers t limit c.uuid m ≡ some e
      → Delivers t limit (answer brokers t limit m e)
      → SentTo (answer brokers t limit m e) c (process_msg brokers t limit m c)
  unfolding process_msg send
  process_msg-answer default m c e h d =
      let a = answer brokers t limit m e in
      let name = request_counter brokers t limit m in
      let c₁ = count_msg m c in
      let c₂ = add_fn name c₁ in
      let c₃ = count_msg a c₂ in
      rw (h, process_msg)
        (rw default (
          SentTo-Silent a c c₃ (process_write brokers t limit a c₃)
            (Silent-trans c c₁ c₃ (count_msg-Silent t limit m c)
              (Silent-trans c₁ c₂ c₃ (add_fn-Silent name c₁) (count_msg-Silent t limit a c₂)))
            (answer-SentTo m e c₃ d)))

  -- What a request asks of the brokers, and what they say: an error or none.
  abbrev pub said : Text → Msg → Option Text
  said conn (Msg.call m b) =
      let cp : CallPayload = record {
        conn_uuid = conn;
        msg_uuid = m.u;
        uri = b.uri;
        args = b.args;
        ttl_after_read = pos 0;
      } in
      brokers.call_error cp b.timeout
  said conn (Msg.publish m b) =
      let pp : PubPayload = record { msg_uuid = m.u; args = b.args } in
      brokers.publish_error b.channel pp
  said conn (Msg.sub m b) = brokers.subscribe_error b.channel b.pattern
  said conn (Msg.unsb m b) = brokers.unsubscribe_error b.channel b.pattern
  said conn _ = none

  abbrev pub asked_uri : Msg → Text
  asked_uri (Msg.call m b) = b.uri
  asked_uri _ = []

  abbrev pub asked_channel : Msg → Text
  asked_channel (Msg.publish m b) = b.channel
  asked_channel (Msg.sub m b) = b.channel
  asked_channel (Msg.unsb m b) = b.channel
  asked_channel _ = []

  -- The reply to a request of which the brokers said this.
  abbrev pub reply_to : Msg → Option Text → Msg
  reply_to m none =
      Msg.ok (record { t = ok_msg; u = brokers.answer_uuid m })
        (record {
          for = uuid_of m;
          for_type = type_of m;
          uri = asked_uri m;
          channel = asked_channel m;
        })
  reply_to m (some e) =
      Msg.err (record { t = err_msg; u = brokers.answer_uuid m })
        (record {
          for = uuid_of m;
          for_type = type_of m;
          uri = asked_uri m;
          channel = asked_channel m;
          code = pos 500;
          message = e;
          err = e;
        })

  pub answer-reply_to :
      {m : Msg} → IsRequest m → (o : Option Text) → answer brokers t limit m o ≡ reply_to m o
  unfolding answer new_ok new_err
  answer-reply_to is_call none = refl
  answer-reply_to is_call (some e) = refl
  answer-reply_to is_pub none = refl
  answer-reply_to is_pub (some e) = refl
  answer-reply_to is_sub none = refl
  answer-reply_to is_sub (some e) = refl
  answer-reply_to is_unsb none = refl
  answer-reply_to is_unsb (some e) = refl

  pub broker_error-said :
      {m : Msg}
      → IsRequest m
      → (conn : Text) → broker_error brokers t limit conn m ≡ some (said conn m)
  unfolding broker_error
  broker_error-said is_call conn = refl
  broker_error-said is_pub conn = refl
  broker_error-said is_sub conn = refl
  broker_error-said is_unsb conn = refl

  -- A request is answered by exactly one message, if the server has no handler of its own: the broker
  -- that the request is for is asked, with the fields of the request, and the answer is ERR with code 500
  -- and the broker's error if it failed, and OK otherwise, for the UUID, the type and the URI or channel
  -- of the request; provided that the transport takes the answer. The connection is closed after
  -- that only if it was before, and keeps its UUID.
  pub process_msg-answers :
      brokers.handler ≡ none
      → (m : Msg) (c : Conn) → IsRequest m
      → Delivers t limit (reply_to m (said c.uuid m))
      → SentTo (reply_to m (said c.uuid m)) c (process_msg brokers t limit m c)
  process_msg-answers default m c request d =
      let o = said c.uuid m in
      let is = answer-reply_to request o in
      rw is at
        (process_msg-answer default m c o (broker_error-said request c.uuid) (rw (sym is) at d))
