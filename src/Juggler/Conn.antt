-- ===== src/Juggler/Conn.antt =====
-- juggler/conn.go and handler.go: a connection, its exclusive writer and the size limit.
-- The state is the connection as the handlers see it, with a log of what they did.
pub mod Write
pub mod Sent
pub mod Closing
use exp.Base.{ℕ, Bool, true, false, Option, none, some, List, [], ◌∷◌, ◌++◌, Text}
use exp.Juggler.Msg.{Msg}

-- What a handler does to the world behind the connection, in order.
pub data Action : Type 0 where
  counted : Text → Action
  wrote : Msg → Action
  logged closed_psc closed_resc closed_kill : Action

-- `CloseErr` once the kill channel is closed, and `none` before; `has_vars` tells whether the
-- server keeps metrics.
pub record Conn : Type 0 where
  pub uuid : Text
  pub has_vars : Bool
  pub close_err : Option Text
  pub actions : List Action

-- The body of `closeOnce.Do`, which only the first call runs.
abbrev pub close_once : Option Text → Text → Conn → Conn
close_once none e c = record c {
  close_err = some e;
  actions = c.actions ++ closed_psc ∷ closed_resc ∷ closed_kill ∷ [];
}
close_once (some e') e c = c

unfoldable pub close : Text → Conn → Conn
close e c = close_once c.close_err e c

unfoldable pub act : Action → Conn → Conn
act a c = record c { actions = c.actions ++ a ∷ [] }

-- `addFn`
unfoldable pub add_fn : Text → Conn → Conn
unfolding act
add_fn name c = elim c.has_vars [ true ↦ act (counted name) c | false ↦ c ]
