-- ===== src/Juggler/Client/Requests/Early.antt =====
-- juggler/client/client.go: a result that is received before its call is in the table.
use exp.Base.{
  ◌≡◌, refl, ◌∙◌, ap, true, false, Option, none, List, [], ◌∷◌, ◌++◌, Text, text_eq, text_eq_refl,
  ℤ, Bool-cases, inl, inr,
}
use exp.Juggler.Msg
use exp.Juggler.Msg.{Msg, MessageType, call_msg}
use exp.Juggler.Msg.Create.{new_meta, new_call}
use exp.Juggler.Msg.Unmarshal.{done}
use exp.Juggler.Client.{
  Client, Event, added, received, timed_out, is_pending, remove, add_pending, delete_pending,
  handle, handle_message, handle_expired_call, expired, new_exp, call_timeout, step, run,
}
use exp.Juggler.Client.Requests.{Effect, wrote, entered, waits, call, call_body, written_unless}

-- The events of a request whose message is answered as soon as it is written, and whose timeout is
-- over at the end; `x` is the UUID of the expiration.
abbrev pub answered_at_once : Msg → Text → List Effect → List Event
answered_at_once reply x [] = []
answered_at_once reply x (wrote m ∷ es) = received reply ∷ answered_at_once reply x es
answered_at_once reply x (entered key ∷ es) = added key ∷ answered_at_once reply x es
answered_at_once reply x (waits m b timeout ∷ es) = timed_out x m b ∷ answered_at_once reply x es

remove-absent : (key : Text) (ks : List Text) → is_pending key ks ≡ false → remove key ks ≡ ks
unfolding is_pending remove
remove-absent key [] h = refl
remove-absent key (k ∷ ks) h = elim (Bool-cases (text_eq k key)) [
  | inl same ↦ let bad : true ≡ false = rw same at h in cc
  | inr other ↦
      let rest : is_pending key ks ≡ false = rw other at h in
      rw other (ap (λ l. k ∷ l) (remove-absent key ks rest))
]

early-dropped :
    (m : Msg.Meta) (b : Msg.ResBody) (c : Client)
    → is_pending b.for c.results ≡ false
    → handle_message (Msg.res m b) c ≡ c
unfolding handle_message delete_pending
early-dropped m b c absent =
    rw absent (ap (λ ks. record c { results = ks }) (remove-absent b.for c.results absent))

added-absent :
    (u : Text) (c : Client)
    → is_pending u c.results ≡ false
    → add_pending u c ≡ record c { results = u ∷ c.results }
unfolding add_pending
added-absent u c absent = rw absent refl

expired-head :
    (exp_msg : MessageType) (x : Text) (m : Msg.Meta) (b : Msg.CallBody) (c : Client)
    → (handle_expired_call exp_msg x m b (record c { results = m.u ∷ c.results })).handled
      ≡ c.handled ++ expired (new_exp exp_msg x m b) ∷ []
unfolding handle_expired_call delete_pending handle is_pending
expired-head exp_msg x m b c = rw (text_eq_refl m.u) refl

-- A result that comes too early is lost: if the result of a call is received when `Call` has written the
-- call and has not yet entered it into the table, in which no call of its UUID is pending, then the
-- result is dropped, and the handler is given the expiration of the call once its timeout is over,
-- and nothing else.
pub early_result-dropped :
    (write_json : Msg → Option Text) (exp_msg : MessageType) (configured timeout : ℤ)
    (u uri args x : Text) (m : Msg.Meta) (b : Msg.ResBody) (c : Client)
    → write_json (new_call u uri args (call_timeout configured timeout)) ≡ none
    → is_pending u c.results ≡ false
    → b.for ≡ u
    → (run exp_msg c (
        answered_at_once
          (Msg.res m b)
          x
          (call write_json configured u uri (done args) timeout).1)).handled
      ≡ c.handled
        ++ expired (
            new_exp exp_msg x
              (new_meta call_msg u)
              (call_body write_json uri args (call_timeout configured timeout)))
          ∷ []
unfolding run step call
early_result-dropped write_json exp_msg configured timeout u uri args x m b c ok absent same =
    let to = call_timeout configured timeout in
    let meta : Msg.Meta = new_meta call_msg u in
    let cb : Msg.CallBody = call_body write_json uri args to in
    let gone : is_pending b.for c.results ≡ false = rw same absent in
    ap
      (λ r.
        (run exp_msg c (
          answered_at_once (Msg.res m b) x
            (written_unless write_json r (new_call u uri args to) u
              (entered u ∷ waits meta cb to ∷ [])).1)).handled)
      ok
    ∙ ap (λ d. (handle_expired_call exp_msg x meta cb (add_pending u d)).handled)
        (early-dropped m b c gone)
    ∙ ap (λ d. (handle_expired_call exp_msg x meta cb d).handled) (added-absent u c absent)
    ∙ expired-head exp_msg x meta cb c
