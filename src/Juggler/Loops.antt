-- ===== src/Juggler/Loops.antt =====
-- juggler/conn.go: the loops that a connection runs in goroutines of their own, with `newConn`.
pub mod Served
use exp.Base.{ℕ, Bool, Option, none, some, List, [], ◌∷◌, ◌++◌, Text, codes, map}
use exp.Juggler.Msg.{Msg, ResPayload, EvntPayload}
use exp.Juggler.Msg.Create.{new_res, new_evnt}
use exp.Juggler.Msg.Unmarshal.{Json, Result, done, failed, unmarshal_request}
use exp.Juggler.Conn.{Conn, add_fn, close}
use exp.Juggler.Conn.Write.{Transport}
use exp.Juggler.Handler.{Services, process_msg}

-- What a server has for its connections: its handler and brokers, the transport and the write limit
-- of the default handler, JSON, the UUIDs of new messages, and `%d`.
pub record Server : Type 0 where
  pub brokers : Services
  pub transport : Transport
  pub write_limit : ℕ
  pub json : Json
  pub res_uuid : ResPayload → Text
  pub evnt_uuid : EvntPayload → Text
  pub decimal : ℕ → Text

-- `newConn`, with the UUID that is drawn.
abbrev pub new_conn : Text → Bool → Conn
new_conn uuid has_vars = record { uuid = uuid; has_vars = has_vars; close_err = none; actions = [] }

-- The counters of a goroutine; the last one is counted down.
abbrev pub goro_starts : Conn → Conn
goro_starts c = add_fn (codes "ActiveConnGoros") (add_fn (codes "TotalConnGoros") c)

abbrev pub goro_ends : Conn → Conn
goro_ends c = add_fn (codes "ActiveConnGoros -1") c

-- What `NextReader` returns: an error, a message of a type that is not text, or the text of one.
pub data Frame : Type 0 where
  reader_error : Text → Frame
  other_type : ℕ → Frame
  text_message : Text → Frame

module _ (srv : Server) where
  -- The handler of the server, or `ProcessMsg`: the end of `Send` and of a round of `receive`.
  abbrev pub handle_by : Option (Msg → Conn → Conn) → Msg → Conn → Conn
  handle_by (some h) m c = h m c
  handle_by none m c = process_msg srv.brokers srv.transport srv.write_limit m c

  abbrev pub conn_send : Msg → Conn → Conn
  conn_send m c = handle_by srv.brokers.handler m c

  abbrev pub send_all : List Msg → Conn → Conn
  send_all [] c = c
  send_all (m ∷ ms) c = send_all ms (conn_send m c)

  -- `results`, on the results of its channel and the error that closed it.
  unfoldable pub results : List ResPayload → Text → Conn → Conn
  results plds err c =
      goro_ends
        (close err (send_all (map (λ pld. new_res (srv.res_uuid pld) pld) plds) (goro_starts c)))

  -- `pubSub`, on the events of its channel and the error that closed it.
  unfoldable pub pub_sub : List EvntPayload → Text → Conn → Conn
  pub_sub evs err c =
      goro_ends
        (close err (send_all (map (λ ev. new_evnt (srv.evnt_uuid ev) ev) evs) (goro_starts c)))

  -- A round of `receive` closes the connection, and ends the loop, or goes on.
  abbrev pub Turn : Type 0
  Turn = Bool × Conn

  abbrev pub on_request : Result Msg → Conn → Turn
  on_request (failed e) c = (Bool.false, close e c)
  on_request (done m) c = (Bool.true, conn_send m c)

  abbrev pub receive_round : Frame → Conn → Turn
  receive_round (reader_error e) c = (Bool.false, close e c)
  receive_round (other_type mt) c =
      (Bool.false, close (codes "invalid websocket message type: " ++ srv.decimal mt) c)
  receive_round (text_message r) c = on_request (unmarshal_request srv.json r) c

  -- The loop of `receive` over the frames that come; it waits for more where there are none.
  abbrev pub after_round : Turn → (Conn → Conn) → Conn
  after_round (Bool.false, c) rest = goro_ends c
  after_round (Bool.true, c) rest = rest c

  unfoldable pub receive_loop : List Frame → Conn → Conn
  receive_loop [] c = c
  receive_loop (f ∷ fs) c = after_round (receive_round f c) (receive_loop fs)

  unfoldable pub receive : List Frame → Conn → Conn
  unfolding receive_loop
  receive fs c = receive_loop fs (goro_starts c)
