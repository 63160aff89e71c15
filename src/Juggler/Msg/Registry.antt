-- ===== src/Juggler/Msg/Registry.antt =====
-- juggler/msg/msg.go: the table of message names, and `RegisterCustomMsg`.
pub mod Register
use exp.Base.{
  ℕ, suc, ◌+◌, ◌≤◌, ◌<◌, ◌≡◌, ◌≢◌, refl, sym, ap, ◌∙◌, Bool, true, false, ◌||◌, Option, none, some,
  List, [], ◌∷◌, ◌++◌, map, Text, codes, text_eq, text_eq_iff, text_eq_refl, ℤ, pos, int_eq,
  if◌then◌else◌, arith,
}
use exp.Juggler.Msg.{
  MessageType, call_msg, pub_msg, sub_msg, unsb_msg, err_msg, ok_msg, res_msg, evnt_msg, custom_msg,
}

-- `nextCustomMsg` and `lookupMessageType`.
pub record Registry : Type 0 where
  pub next_custom_msg : ℕ
  pub lookup_message_type : List (MessageType × Text)

unfoldable pub initial_registry : Registry
initial_registry = record {
  next_custom_msg = custom_msg;
  lookup_message_type =
      (call_msg, codes "CALL")
      ∷ (pub_msg, codes "PUB")
      ∷ (sub_msg, codes "SUB")
      ∷ (unsb_msg, codes "UNSB")
      ∷ (err_msg, codes "ERR")
      ∷ (ok_msg, codes "OK")
      ∷ (res_msg, codes "RES")
      ∷ (evnt_msg, codes "EVNT")
      ∷ [];
}

-- The loop over the names, and the read and the write of the table.
unfoldable pub name_taken : Text → List (MessageType × Text) → Bool
name_taken name [] = false
name_taken name ((mt, v) ∷ table) = text_eq v name || name_taken name table

unfoldable pub lookup_name : MessageType → List (MessageType × Text) → Text
lookup_name mt [] = []
lookup_name mt ((k, v) ∷ table) = if int_eq k mt then v else lookup_name mt table

unfoldable pub set_name : MessageType → Text → List (MessageType × Text) → List (MessageType × Text)
set_name mt name [] = (mt, name) ∷ []
set_name mt name ((k, v) ∷ table) =
    if int_eq k mt then (mt, name) ∷ table else (k, v) ∷ set_name mt name table

-- `none` is the panic on a name that is taken.
unfoldable pub register_custom_msg : Text → Registry → Option (MessageType × Registry)
unfolding name_taken set_name
register_custom_msg name r =
    let mt = pos r.next_custom_msg in
    let r' : Registry = record {
      next_custom_msg = r.next_custom_msg + 1;
      lookup_message_type = set_name mt name r.lookup_message_type;
    } in
    if name_taken name r.lookup_message_type then none else some (mt, r')

-- `MessageType.String`; `unknown` prints a type without a name.
unfoldable pub type_string : (MessageType → Text) → Registry → MessageType → Text
unfolding lookup_name
type_string unknown r mt =
    let s = lookup_name mt r.lookup_message_type in if text_eq s [] then unknown mt else s
