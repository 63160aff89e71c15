-- ===== src/Juggler/Msg/Create.antt =====
-- juggler/msg/msg.go: the functions that make messages. The UUID that `NewMeta` draws is an argument.
pub mod Origin
use exp.Base.{Bool, [], Text, ℤ}
use exp.Juggler.Msg
use exp.Juggler.Msg.{
  MessageType, call_msg, pub_msg, sub_msg, unsb_msg, err_msg, ok_msg, res_msg, evnt_msg, Meta,
  ErrBody, OkBody, Msg, type_of, uuid_of, ResPayload, EvntPayload,
}

abbrev pub new_meta : MessageType → Text → Meta
new_meta t u = record { t = t; u = u }

-- `json.Marshal` has made `args` of the value: where it fails there is no message.
unfoldable pub new_call : Text → Text → Text → ℤ → Msg
new_call u uri args timeout =
    Msg.call (new_meta call_msg u) (record { uri = uri; timeout = timeout; args = args })

unfoldable pub new_sub : Text → Text → Bool → Msg
new_sub u channel pattern =
    Msg.sub (new_meta sub_msg u) (record { channel = channel; pattern = pattern })

unfoldable pub new_unsb : Text → Text → Bool → Msg
new_unsb u channel pattern =
    Msg.unsb (new_meta unsb_msg u) (record { channel = channel; pattern = pattern })

unfoldable pub new_pub : Text → Text → Text → Msg
new_pub u channel args =
    Msg.publish (new_meta pub_msg u) (record { channel = channel; args = args })

-- The type switch of `NewErr`, on the body that is filled in so far.
abbrev pub err_origin : Msg → ErrBody → ErrBody
err_origin (Msg.call m b) e = record e { uri = b.uri }
err_origin (Msg.publish m b) e = record e { channel = b.channel }
err_origin (Msg.sub m b) e = record e { channel = b.channel }
err_origin (Msg.unsb m b) e = record e { channel = b.channel }
err_origin (Msg.ok m b) e = record e {
  for = b.for;
  for_type = b.for_type;
  uri = b.uri;
  channel = b.channel;
}
err_origin (Msg.err m b) e = record e {
  for = b.for;
  for_type = b.for_type;
  uri = b.uri;
  channel = b.channel;
}
err_origin (Msg.evnt m b) e = record e { for = b.for; for_type = pub_msg; channel = b.channel }
err_origin (Msg.res m b) e = record e { for = b.for; for_type = call_msg; uri = b.uri }
err_origin (Msg.other m) e = e

unfoldable pub err_body : Msg → ℤ → Text → ErrBody
err_body from code e = err_origin from (record {
  for = uuid_of from;
  for_type = type_of from;
  uri = [];
  channel = [];
  code = code;
  message = e;
  err = e;
})

unfoldable pub new_err : Text → Msg → ℤ → Text → Msg
unfolding err_body
new_err u from code e = Msg.err (new_meta err_msg u) (err_body from code e)

-- The type switch of `NewOK`.
abbrev pub ok_origin : Msg → OkBody → OkBody
ok_origin (Msg.call m b) o = record o { uri = b.uri }
ok_origin (Msg.publish m b) o = record o { channel = b.channel }
ok_origin (Msg.sub m b) o = record o { channel = b.channel }
ok_origin (Msg.unsb m b) o = record o { channel = b.channel }
ok_origin _ o = o

unfoldable pub ok_body : Msg → OkBody
ok_body from =
    ok_origin from (record { for = uuid_of from; for_type = type_of from; uri = []; channel = [] })

unfoldable pub new_ok : Text → Msg → Msg
unfolding ok_body
new_ok u from = Msg.ok (new_meta ok_msg u) (ok_body from)

unfoldable pub new_res : Text → ResPayload → Msg
new_res u pld =
    Msg.res (new_meta res_msg u) (record { for = pld.msg_uuid; uri = pld.uri; args = pld.args })

unfoldable pub new_evnt : Text → EvntPayload → Msg
new_evnt u pld =
    Msg.evnt (new_meta evnt_msg u)
      (record { for = pld.msg_uuid; channel = pld.channel; pattern = pld.pattern; args = pld.args })

-- The four messages that a client sends.
pub data IsRequest : Msg → Type 0 where
  is_call : {m : Meta} {b : Msg.CallBody} → IsRequest (Msg.call m b)
  is_pub : {m : Meta} {b : Msg.PubBody} → IsRequest (Msg.publish m b)
  is_sub : {m : Meta} {b : Msg.SubBody} → IsRequest (Msg.sub m b)
  is_unsb : {m : Meta} {b : Msg.SubBody} → IsRequest (Msg.unsb m b)
