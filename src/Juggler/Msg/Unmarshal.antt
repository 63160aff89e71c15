-- ===== src/Juggler/Msg/Unmarshal.antt =====
-- juggler/msg/msg.go: `UnmarshalRequest`, `UnmarshalResponse` and `Unmarshal`.
pub mod Allowed
use exp.Base.{
  Bool, true, false, not, ◌&&◌, ◌≡◌, List, [], ◌∷◌, ◌++◌, Text, codes, int_eq, if◌then◌else◌,
}
use exp.Juggler.Msg
use exp.Juggler.Msg.{
  MessageType, call_msg, pub_msg, sub_msg, unsb_msg, err_msg, ok_msg, res_msg, evnt_msg, Meta, Msg,
}

pub data Result {ℓ} (A : Type ℓ) : Type ℓ where
  done : A → Result A
  failed : Text → Result A

-- What `encoding/json` makes of the bytes: the metadata with the raw payload, and the payload of
-- each kind of message out of the object that wraps it. `type_name` is `MessageType.String`.
pub record Json : Type 0 where
  pub decode_partial : Text → Result (Meta × Text)
  pub unmarshal_call : Text → Result Msg.CallBody
  pub unmarshal_sub : Text → Result Msg.SubBody
  pub unmarshal_pub : Text → Result Msg.PubBody
  pub unmarshal_err : Text → Result Msg.ErrBody
  pub unmarshal_ok : Text → Result Msg.OkBody
  pub unmarshal_res : Text → Result Msg.ResBody
  pub unmarshal_evnt : Text → Result Msg.EvntBody
  pub type_name : MessageType → Text

unfoldable pub is_in : List MessageType → MessageType → Bool
is_in [] v = false
is_in (vv ∷ list) v = if int_eq v vv then true else is_in list v

module _ (json : Json) where
  -- `genericUnmarshal`, and the message of the case that calls it.
  unfoldable pub generic_unmarshal {ℓ} :
      {B : Type ℓ} → (Text → Result B) → (Meta → B → Msg) → Meta → Text → Result Msg
  generic_unmarshal unmarshal make meta payload =
      elim (unmarshal (codes "{\"payload\":" ++ payload ++ codes "}")) [
        | done b ↦ done (make meta b)
        | failed e ↦ failed (codes "invalid " ++ json.type_name meta.t ++ codes " message: " ++ e)
      ]

  -- The switch on the type.
  unfoldable pub unmarshal_typed : Meta → Text → Result Msg
  unfolding generic_unmarshal
  unmarshal_typed meta payload =
      if int_eq meta.t call_msg
      then generic_unmarshal json.unmarshal_call Msg.call meta payload
      else if int_eq meta.t sub_msg
      then generic_unmarshal json.unmarshal_sub Msg.sub meta payload
      else if int_eq meta.t unsb_msg
      then generic_unmarshal json.unmarshal_sub Msg.unsb meta payload
      else if int_eq meta.t pub_msg
      then generic_unmarshal json.unmarshal_pub Msg.publish meta payload
      else if int_eq meta.t err_msg
      then generic_unmarshal json.unmarshal_err Msg.err meta payload
      else if int_eq meta.t ok_msg
      then generic_unmarshal json.unmarshal_ok Msg.ok meta payload
      else if int_eq meta.t res_msg
      then generic_unmarshal json.unmarshal_res Msg.res meta payload
      else if int_eq meta.t evnt_msg
      then generic_unmarshal json.unmarshal_evnt Msg.evnt meta payload
      else failed (codes "unknown message " ++ json.type_name meta.t)

  -- `len(allowed) > 0 && !isIn(allowed, pm.Meta.T)`
  abbrev pub refuses : List MessageType → MessageType → Bool
  refuses [] t = false
  refuses (a ∷ allowed) t = not (is_in (a ∷ allowed) t)

  unfoldable pub unmarshal_if : List MessageType → Text → Result Msg
  unfolding unmarshal_typed is_in
  unmarshal_if allowed r = elim (json.decode_partial r) [
    | failed e ↦ failed (codes "invalid JSON message: " ++ e)
    | done (meta, payload) ↦
        if refuses allowed meta.t
        then failed (codes "invalid message " ++ json.type_name meta.t ++ codes " for this peer")
        else unmarshal_typed meta payload
  ]

  unfoldable pub unmarshal_request : Text → Result Msg
  unfolding unmarshal_if
  unmarshal_request r = unmarshal_if (call_msg ∷ sub_msg ∷ unsb_msg ∷ pub_msg ∷ []) r

  unfoldable pub unmarshal_response : Text → Result Msg
  unfolding unmarshal_if
  unmarshal_response r = unmarshal_if (err_msg ∷ ok_msg ∷ evnt_msg ∷ res_msg ∷ []) r

  unfoldable pub unmarshal : Text → Result Msg
  unfolding unmarshal_if
  unmarshal r = unmarshal_if [] r
