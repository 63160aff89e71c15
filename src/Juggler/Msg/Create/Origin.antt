-- ===== src/Juggler/Msg/Create/Origin.antt =====
-- juggler/msg/msg.go: which message an OK or an ERR message speaks of.
use exp.Base.{◌≡◌, refl, Text, ℤ}
use exp.Juggler.Msg.{Msg}
use exp.Juggler.Msg.Create.{IsRequest, is_call, is_pub, is_sub, is_unsb, err_body, new_err, new_ok}

-- An error about the answer to a request, an OK or an ERR, has the payload of an error about the
-- request itself.
pub err_body-answer :
    (m : Msg) (u : Text) (code code' : ℤ) (e e' : Text)
    → IsRequest m
    → (err_body (new_ok u m) code e ≡ err_body m code e)
      × (err_body (new_err u m code' e') code e ≡ err_body m code e)
unfolding new_ok new_err
err_body-answer _ u code code' e e' is_call = (refl, refl)
err_body-answer _ u code code' e e' is_pub = (refl, refl)
err_body-answer _ u code code' e e' is_sub = (refl, refl)
err_body-answer _ u code code' e e' is_unsb = (refl, refl)
