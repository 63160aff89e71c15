-- ===== src/Juggler/Conn/Closing.antt =====
-- juggler/conn.go: a connection is closed once.
use exp.Base.{◌≡◌, refl, none, some, [], ◌∷◌, ◌++◌, Text}
use exp.Juggler.Conn.{Conn, closed_psc, closed_resc, closed_kill, close}

-- On a connection that is open, a first `Close` sets the error and closes the two connections to
-- the broker and the kill channel, in this order, and a second one changes nothing.
pub close-close :
    (e e' : Text) (c : Conn)
    → c.close_err ≡ none
    → (close e' (close e c) ≡ close e c)
      × ((close e c).close_err ≡ some e)
      × ((close e c).actions ≡ c.actions ++ closed_psc ∷ closed_resc ∷ closed_kill ∷ [])
unfolding close
close-close e e' c open_ = (rw open_ refl, rw open_ refl, rw open_ refl)
