-- ===== src/Juggler/Handler/Limits.antt =====
-- juggler/handler.go: what is sent for a message is one message at most, and none that is too large.
use exp.Base.{
  ℕ, Bool, true, false, Option, none, some, ◌≡◌, refl, ◌≤◌, List, [], ◌∷◌, ◌++◌, Text, codes,
  length, if◌then◌else◌,
}
use exp.Juggler.Msg.{Msg, type_of, is_read, is_write}
use exp.Juggler.Conn.{Conn, add_fn}
use exp.Juggler.Conn.Sent.{Silent, Silent-trans, add_fn-Silent, sent_by}
use exp.Juggler.Conn.Write.{Transport, WriteError, limit_exceeded}
use exp.Juggler.Handler.{Services, count_msg}

module _ (t : Transport) (limit : ℕ) where
  -- A message that the encoder takes, and that is within the limit.
  abbrev pub Within : Msg → Type 0
  Within m = (b : Text) × (t.encode m ≡ some b) × (limit_exceeded limit b ≡ false)

  abbrev pub AllWithin : List Msg → Type 0
  AllWithin [] = Unit
  AllWithin (m ∷ ms) = Within m × AllWithin ms

  -- At most one message more is sent, and it is within the limit.
  abbrev pub SendsOne : Conn → Conn → Type 0
  SendsOne c c' =
      (new : List Msg) × (sent_by c' ≡ sent_by c ++ new) × (length new ≤ 1) × AllWithin new

  -- A write sends the message whole and within the limit, or nothing.
  abbrev Written : Msg → Conn → Option WriteError × Conn → Type 0
  Written m c (none, c') = SendsOne c c'
  Written m c (some e, c') = c' ≡ c

  counted_if : (b : Bool) (name : Text) (c : Conn) → Silent c (if b then add_fn name c else c)
  counted_if true name c = add_fn-Silent name c
  counted_if false name c = (refl, refl, refl)

  pub count_msg-Silent : (m : Msg) (c : Conn) → Silent c (count_msg m c)
  count_msg-Silent m c =
      let c₁ = add_fn (codes "Msgs") c in
      let c₂ = if is_read (type_of m) then add_fn (codes "ReadMsgs") c₁ else c₁ in
      Silent-trans c c₁ (count_msg m c) (add_fn-Silent (codes "Msgs") c) (
        Silent-trans c₁ c₂ (count_msg m c) (counted_if (is_read (type_of m)) (codes "ReadMsgs") c₁)
          (counted_if (is_write (type_of m)) (codes "WriteMsgs") c₂))

  module _ (brokers : Services) where
    -- A handler of the server's own sends at most one message for a message, within the limit.
    abbrev pub OwnSendsOne : Option (Msg → Conn → Conn) → Type 0
    OwnSendsOne none = Unit {0}
    OwnSendsOne (some h) = (m : Msg) (c : Conn) → SendsOne c (h m c)
