-- ===== src/Juggler/Handler/Samples.antt =====
-- juggler/handler.go and conn.go: handlers and closing, at a concrete connection.
use exp.Base.{◌≡◌, refl, true, none, [], codes, pos}
use exp.Juggler.Msg.{Msg}
use exp.Juggler.Conn.{Conn}
use exp.Juggler.Handler.Recover.{
  HandlerFunc, returned, panicked, panic_recover, ClosedBy, panic_recover-ClosedBy,
}

abbrev conn : Conn
conn = record { uuid = codes "c"; has_vars = true; close_err = none; actions = [] }

abbrev custom : Msg
custom = Msg.other (record { t = pos 256; u = codes "u" })

abbrev failing : HandlerFunc
failing c m = panicked (codes "nil") c

panic_recover-ClosedBy_example :
    (d : Conn) × (panic_recover failing conn custom ≡ returned d) × ClosedBy (codes "nil") conn d
panic_recover-ClosedBy_example = panic_recover-ClosedBy failing conn conn custom (codes "nil") refl
