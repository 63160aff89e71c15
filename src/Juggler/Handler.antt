-- ===== src/Juggler/Handler.antt =====
-- juggler/handler.go: `ProcessMsg`, the default handler, and `Chain` and `PanicRecover`.
pub mod Limits
pub mod Answers
pub mod Recover
mod Samples
use exp.Base.{
  ℕ, Bool, true, false, Option, none, some, List, [], ◌∷◌, Text, codes, ℤ, pos, if◌then◌else◌,
}
use exp.Juggler.Msg
use exp.Juggler.Msg.{Msg, type_of, uuid_of, is_read, is_write, CallPayload, PubPayload}
use exp.Juggler.Msg.Create.{new_err, new_ok}
use exp.Juggler.Conn.{Conn, logged, act, add_fn, close}
use exp.Juggler.Conn.Write.{Transport, do_write}

-- What a connection has of its server: the handler of the server, if it has one of its own, and the
-- error, if any, of each operation of the brokers. `answer_uuid` is the UUID that is drawn for the
-- answer to a message.
pub record Services : Type 0 where
  pub handler : Option (Msg → Conn → Conn)
  pub call_error : CallPayload → ℤ → Option Text
  pub publish_error : Text → PubPayload → Option Text
  pub subscribe_error : Text → Bool → Option Text
  pub unsubscribe_error : Text → Bool → Option Text
  pub answer_uuid : Msg → Text

-- `c.srv.Vars != nil` is tested by `add_fn`.
abbrev pub count_msg : Msg → Conn → Conn
count_msg m c =
    let c₁ = add_fn (codes "Msgs") c in
    let c₂ = if is_read (type_of m) then add_fn (codes "ReadMsgs") c₁ else c₁ in
    if is_write (type_of m) then add_fn (codes "WriteMsgs") c₂ else c₂

module _ (brokers : Services) (t : Transport) (limit : ℕ) where
  -- `ProcessMsg` of the server's own messages, and of messages of other types.
  unfoldable pub process_write : Msg → Conn → Conn
  process_write (Msg.ok m b) c = do_write t limit (Msg.ok m b) (add_fn (codes "OKMsgs") c)
  process_write (Msg.err m b) c = do_write t limit (Msg.err m b) (add_fn (codes "ErrMsgs") c)
  process_write (Msg.evnt m b) c = do_write t limit (Msg.evnt m b) (add_fn (codes "EvntMsgs") c)
  process_write (Msg.res m b) c = do_write t limit (Msg.res m b) (add_fn (codes "ResMsgs") c)
  process_write _ c = act logged (add_fn (codes "UnknownMsgs") c)

  -- `c.Send` of an answer: by the handler of the server, or by `ProcessMsg`, which writes it.
  abbrev pub send_by : Option (Msg → Conn → Conn) → Msg → Conn → Conn
  send_by (some h) m c = h m c
  send_by none m c = process_write m (count_msg m c)

  unfoldable pub send : Msg → Conn → Conn
  unfolding process_write
  send m c = send_by brokers.handler m c

  -- The answer to a request: ERR with code 500 if the broker failed, else OK.
  unfoldable pub answer : Msg → Option Text → Msg
  answer m (some e) = new_err (brokers.answer_uuid m) m (pos 500) e
  answer m none = new_ok (brokers.answer_uuid m) m

  abbrev pub call_payload : Text → Msg.Meta → Msg.CallBody → CallPayload
  call_payload conn m b = record {
    conn_uuid = conn;
    msg_uuid = m.u;
    uri = b.uri;
    args = b.args;
    ttl_after_read = pos 0;
  }

  -- What the broker says to a request; `none` for a message that is no request.
  unfoldable pub broker_error : Text → Msg → Option (Option Text)
  broker_error conn (Msg.call m b) = some (brokers.call_error (call_payload conn m b) b.timeout)
  broker_error conn (Msg.publish m b) =
      some (brokers.publish_error b.channel (record { msg_uuid = m.u; args = b.args }))
  broker_error conn (Msg.sub m b) = some (brokers.subscribe_error b.channel b.pattern)
  broker_error conn (Msg.unsb m b) = some (brokers.unsubscribe_error b.channel b.pattern)
  broker_error conn _ = none

  -- The counter of a request.
  abbrev pub request_counter : Msg → Text
  request_counter (Msg.call m b) = codes "CallMsgs"
  request_counter (Msg.publish m b) = codes "PubMsgs"
  request_counter (Msg.sub m b) = codes "SubMsgs"
  request_counter _ = codes "UnsbMsgs"

  unfoldable pub process_msg : Msg → Conn → Conn
  unfolding process_write send answer broker_error
  process_msg m c =
      let c₁ = count_msg m c in
      elim (broker_error c.uuid m) [
        | some e ↦ send (answer m e) (add_fn (request_counter m) c₁)
        | none ↦ process_write m c₁
      ]
