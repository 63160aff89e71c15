-- ===== src/Juggler/Loops/Served.antt =====
-- juggler/conn.go: what the loops of a connection send, where the server has the default handler.
use mathlib.Core.Path.{subst}
use exp.Base.{
  ◌≡◌, refl, sym, ◌∙◌, ap, true, false, none, some, List, [], ◌∷◌, ◌++◌, append_assoc, append-nil,
  Text, codes, map, int_eq, int_eq→≡,
}
use exp.Juggler.Msg.{
  MessageType, err_msg, ok_msg, res_msg, evnt_msg, Msg, ResPayload, EvntPayload, is_write,
}
use exp.Juggler.Msg.Create.{new_res, new_evnt, IsRequest, is_call, is_pub, is_sub, is_unsb}
use exp.Juggler.Msg.Unmarshal.{done, unmarshal_request}
use exp.Juggler.Msg.Unmarshal.Allowed.{FromClient, unmarshal_request-FromClient}
use exp.Juggler.Conn.{Conn, add_fn, close}
use exp.Juggler.Conn.Sent.{Silent, Silent-trans, add_fn-Silent, sent-close, sent_by}
use exp.Juggler.Handler.{process_msg}
use exp.Juggler.Handler.Answers.{Delivers, SentTo, said, reply_to, process_msg-answers}
use exp.Juggler.Loops.{
  Server, goro_starts, goro_ends, Frame, reader_error, text_message, handle_by, conn_send,
  receive_loop, receive,
}

-- A type that a server writes is not one that a client writes.
not_written : (t k : MessageType) → is_write k ≡ true → int_eq t k ≡ true → is_write t ≡ false → ⊥
not_written t k w e h =
    let same : t ≡ k = int_eq→≡ t k e in let both : true ≡ false = sym w ∙ rw (sym same) h in cc

module _ (srv : Server) (default : srv.brokers.handler ≡ none) where
  abbrev pub Taken : Msg → Type 0
  Taken m = Delivers srv.transport srv.write_limit m

  abbrev pub AllTaken : List Msg → Type 0
  AllTaken [] = Unit
  AllTaken (m ∷ ms) = Taken m × AllTaken ms

  -- These messages more were sent, and the connection has its UUID and is as open as before.
  abbrev pub SentAll : List Msg → Conn → Conn → Type 0
  SentAll ms c c' =
      (sent_by c' ≡ sent_by c ++ ms) × (c'.uuid ≡ c.uuid) × (c'.close_err ≡ c.close_err)

  abbrev One : Msg → Conn → Conn → Type 0
  One m c c' = SentTo srv.brokers srv.transport srv.write_limit m c c'

  SentAll-next :
      (m : Msg) (ms : List Msg) (c d e : Conn) → One m c d → SentAll ms d e → SentAll (m ∷ ms) c e
  SentAll-next m ms c d e (s, id, k) (s', id', k') =
      (s' ∙ ap (λ l. l ++ ms) s ∙ append_assoc (sent_by c) (m ∷ []) ms, id' ∙ id, k' ∙ k)

  conn_send-process_msg :
      (m : Msg) (c : Conn)
      → conn_send srv m c ≡ process_msg srv.brokers srv.transport srv.write_limit m c
  conn_send-process_msg m c = ap (λ h. handle_by srv h m c) default

  abbrev pub res_of : ResPayload → Msg
  res_of pld = new_res (srv.res_uuid pld) pld

  abbrev pub evnt_of : EvntPayload → Msg
  evnt_of ev = new_evnt (srv.evnt_uuid ev) ev

  none-SentAll : (c : Conn) → SentAll [] c c
  none-SentAll c = (sym (append-nil (sent_by c)), refl, refl)

  starts-Silent : (c : Conn) → Silent c (goro_starts c)
  starts-Silent c =
      let c₁ = add_fn (codes "TotalConnGoros") c in
      Silent-trans c c₁ (goro_starts c) (add_fn-Silent (codes "TotalConnGoros") c)
        (add_fn-Silent (codes "ActiveConnGoros") c₁)

  -- The end of a loop: nothing more is sent, and an open connection is closed by the error.
  abbrev pub EndsWith : List Msg → Text → Conn → Conn → Type 0
  EndsWith ms e c c' = (sent_by c' ≡ sent_by c ++ ms) × (c'.close_err ≡ some e)

  close-opened : (e : Text) (c : Conn) → c.close_err ≡ none → (close e c).close_err ≡ some e
  unfolding close
  close-opened e c open_ = rw open_ refl

  ends-EndsWith :
      (ms : List Msg) (e : Text) (c d : Conn)
      → c.close_err ≡ none
      → SentAll ms (goro_starts c) d
      → EndsWith ms e c (goro_ends (close e d))
  ends-EndsWith ms e c d open_ (s, id, k) =
      let (s₀, id₀, k₀) = starts-Silent c in
      let (s₂, id₂, k₂) = add_fn-Silent (codes "ActiveConnGoros -1") (close e d) in
      (s₂ ∙ sent-close e d ∙ s ∙ ap (λ l. l ++ ms) s₀, k₂ ∙ close-opened e d (k ∙ k₀ ∙ open_))

  -- The reply to a request of a connection, for what the brokers say to it.
  abbrev pub reply : Text → Msg → Msg
  reply uuid m =
      reply_to srv.brokers srv.transport srv.write_limit m
        (said srv.brokers srv.transport srv.write_limit uuid m)

  -- Frames whose texts are these requests.
  pub data Requests : List Frame → List Msg → Type 0 where
    no_requests : Requests [] []
    request :
        {fs : List Frame} {ms : List Msg} (r : Text) (m : Msg)
        → unmarshal_request srv.json r ≡ done m
        → Requests fs ms
        → Requests (text_message r ∷ fs) (m ∷ ms)

  client-IsRequest : (m : Msg) → FromClient m → IsRequest m
  unfolding is_write
  client-IsRequest (Msg.call m b) f = is_call
  client-IsRequest (Msg.sub m b) f = is_sub
  client-IsRequest (Msg.unsb m b) f = is_unsb
  client-IsRequest (Msg.publish m b) f = is_pub
  client-IsRequest (Msg.err m b) f = absurd (not_written m.t err_msg refl f.0 f.2)
  client-IsRequest (Msg.ok m b) f = absurd (not_written m.t ok_msg refl f.0 f.2)
  client-IsRequest (Msg.res m b) f = absurd (not_written m.t res_msg refl f.0 f.2)
  client-IsRequest (Msg.evnt m b) f = absurd (not_written m.t evnt_msg refl f.0 f.2)
  client-IsRequest (Msg.other m) f = elim f.0 [ ]

  -- The loop on requests, and then on a reader that fails.
  loop-SentAll :
      (uuid : Text) (fs rest : List Frame) (ms : List Msg) (e : Text) (c : Conn)
      → c.uuid ≡ uuid
      → Requests fs ms
      → AllTaken (map (reply uuid) ms)
      → (d : Conn) × SentAll (map (reply uuid) ms) c d
        × (receive_loop srv (fs ++ reader_error e ∷ rest) c ≡ goro_ends (close e d))
  unfolding receive_loop
  loop-SentAll uuid _ rest _ e c same no_requests taken = (c, none-SentAll c, refl)
  loop-SentAll uuid _ rest _ e c same (request {fs} {ms} r m read more) (t, ts) =
      let asked = client-IsRequest m (unmarshal_request-FromClient srv.json r m read) in
      let next = conn_send srv m c in
      let is : reply c.uuid m ≡ reply uuid m = ap (λ u. reply u m) same in
      let one : One (reply c.uuid m) c next = rw (conn_send-process_msg m c) (
        process_msg-answers srv.brokers srv.transport srv.write_limit default m c asked
          (subst (λ a. Taken a) (sym is) t)) in
      let (d, all, run) = loop-SentAll uuid fs rest ms e next (one.1 ∙ same) more ts in
      (
        d,
        SentAll-next (reply uuid m) (map (reply uuid) ms) c next d
            (subst (λ a. One a c next) is one) all,
        rw (read, receive_loop) run,
      )

  -- The loop `receive` of a connection that is open: if the server has no handler of its own, then
  -- each request of the client, one frame each, is answered by one message, OK or the broker's error, in
  -- the order of the requests and nothing else is sent, provided that the transport takes the
  -- answers; and where the reader then fails, the connection is closed by its error, whatever frames
  -- are behind.
  pub receive-answers :
      (fs rest : List Frame) (ms : List Msg) (e : Text) (c : Conn)
      → c.close_err ≡ none
      → Requests fs ms
      → AllTaken (map (reply c.uuid) ms)
      → EndsWith (map (reply c.uuid) ms) e c (receive srv (fs ++ reader_error e ∷ rest) c)
  unfolding receive
  receive-answers fs rest ms e c open_ asked taken =
      let (s, id, k) = starts-Silent c in
      let (d, all, run) = loop-SentAll c.uuid fs rest ms e (goro_starts c) id asked taken in
      rw run (ends-EndsWith (map (reply c.uuid) ms) e c d open_ all)
