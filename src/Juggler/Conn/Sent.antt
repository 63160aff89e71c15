-- ===== src/Juggler/Conn/Sent.antt =====
-- juggler/conn.go: what was sent on a connection, out of the log of what was done.
use exp.Base.{
  Bool, true, false, Option, none, some, ◌≡◌, refl, ◌∙◌, ap, List, [], ◌∷◌, ◌++◌, append-nil, Text,
}
use exp.Juggler.Msg.{Msg}
use exp.Juggler.Conn.{
  Conn, Action, counted, wrote, logged, closed_psc, closed_resc, closed_kill, close, close_once,
  act, add_fn,
}

-- The messages that were sent to the client.
abbrev pub sent : List Action → List Msg
sent [] = []
sent (wrote m ∷ as_) = m ∷ sent as_
sent (_ ∷ as_) = sent as_

pub sent-append : (as_ bs : List Action) → sent (as_ ++ bs) ≡ sent as_ ++ sent bs
sent-append [] bs = refl
sent-append (counted n ∷ as_) bs = sent-append as_ bs
sent-append (wrote m ∷ as_) bs = ap (λ t. m ∷ t) (sent-append as_ bs)
sent-append (logged ∷ as_) bs = sent-append as_ bs
sent-append (closed_psc ∷ as_) bs = sent-append as_ bs
sent-append (closed_resc ∷ as_) bs = sent-append as_ bs
sent-append (closed_kill ∷ as_) bs = sent-append as_ bs

abbrev pub sent_by : Conn → List Msg
sent_by c = sent c.actions

-- Nothing is sent, and the connection is as open as before.
abbrev pub Silent : Conn → Conn → Type 0
Silent c c' = (sent_by c' ≡ sent_by c) × (c'.uuid ≡ c.uuid) × (c'.close_err ≡ c.close_err)

pub add_fn-Silent : (name : Text) (c : Conn) → Silent c (add_fn name c)
unfolding add_fn
add_fn-Silent name c = counted_or c.has_vars
  where
    counted_or : (b : Bool) → Silent c (elim b [ true ↦ act (counted name) c | false ↦ c ])
    counted_or true = (sent-append c.actions (counted name ∷ []) ∙ append-nil _, refl, refl)
    counted_or false = (refl, refl, refl)

pub act_logged-Silent : (c : Conn) → Silent c (act logged c)
unfolding act
act_logged-Silent c = (sent-append c.actions (logged ∷ []) ∙ append-nil _, refl, refl)

pub Silent-trans : (c d e : Conn) → Silent c d → Silent d e → Silent c e
Silent-trans c d e (a, b, k) (a', b', k') = (a' ∙ a, b' ∙ b, k' ∙ k)

pub sent-close : (e : Text) (c : Conn) → sent_by (close e c) ≡ sent_by c
unfolding close
sent-close e c = once c.close_err
  where
    once : (o : Option Text) → sent_by (close_once o e c) ≡ sent_by c
    once none = sent-append c.actions (closed_psc ∷ closed_resc ∷ closed_kill ∷ []) ∙ append-nil _
    once (some e') = refl
