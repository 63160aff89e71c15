-- ===== src/Juggler/Msg/Unmarshal/Allowed.antt =====
-- juggler/msg/msg.go: a server takes only the messages of clients, and a client only those of
-- servers.
use exp.Base.{
  codes, ◌++◌, ◌≡◌, refl, true, false, Bool, List, [], ◌∷◌, Text, pos, negsuc, int_eq, Bool-cases,
  inl, inr, arith, if◌then◌else◌,
}
use exp.Juggler.Msg.{
  MessageType, call_msg, pub_msg, sub_msg, unsb_msg, err_msg, ok_msg, res_msg, evnt_msg, Meta, Msg,
  type_of, is_read, is_write,
}
use exp.Juggler.Msg.Unmarshal.{
  Json, Result, done, failed, is_in, generic_unmarshal, unmarshal_typed, refuses, unmarshal_if,
  unmarshal_request, unmarshal_response,
}

-- The Go type of the message is that of its message type.
abbrev pub TypeAgrees : Msg → Type 0
TypeAgrees (Msg.call m b) = int_eq m.t call_msg ≡ true
TypeAgrees (Msg.sub m b) = int_eq m.t sub_msg ≡ true
TypeAgrees (Msg.unsb m b) = int_eq m.t unsb_msg ≡ true
TypeAgrees (Msg.publish m b) = int_eq m.t pub_msg ≡ true
TypeAgrees (Msg.err m b) = int_eq m.t err_msg ≡ true
TypeAgrees (Msg.ok m b) = int_eq m.t ok_msg ≡ true
TypeAgrees (Msg.res m b) = int_eq m.t res_msg ≡ true
TypeAgrees (Msg.evnt m b) = int_eq m.t evnt_msg ≡ true
TypeAgrees (Msg.other m) = ⊥

abbrev pub FromClient : Msg → Type 0
FromClient m = TypeAgrees m × (is_read (type_of m) ≡ true) × (is_write (type_of m) ≡ false)

abbrev pub FromServer : Msg → Type 0
FromServer m = TypeAgrees m × (is_write (type_of m) ≡ true) × (is_read (type_of m) ≡ false)

-- What a result says of its message, if it has one.
abbrev Ensures : (Msg → Type 0) → Result Msg → Type 0
Ensures P (done m) = P m
Ensures P (failed e) = Unit

module _ (json : Json) where
  generic-Ensures {ℓ} :
      {B : Type ℓ} (unmarshal : Text → Result B) (make : Meta → B → Msg) (meta : Meta)
      (payload : Text) (P : Msg → Type 0)
      → ((b : B) → P (make meta b))
      → Ensures P (generic_unmarshal json unmarshal make meta payload)
  unfolding generic_unmarshal
  generic-Ensures {B} unmarshal make meta payload P h = on (unmarshal _)
    where
      on :
          (r : Result B)
          → Ensures P (elim r [
            | done b ↦ done (make meta b)
            | failed e ↦
                failed (codes "invalid " ++ json.type_name meta.t ++ codes " message: " ++ e)
          ])
      on (done b) = h b
      on (failed e) = tt

  -- What the switch on the type ensures.
  abbrev Typed : Meta → Msg → Type 0
  Typed meta m = TypeAgrees m × (type_of m ≡ meta.t)

  unmarshal_typed-Ensures :
      (meta : Meta) (payload : Text) → Ensures (Typed meta) (unmarshal_typed json meta payload)
  unfolding unmarshal_typed
  unmarshal_typed-Ensures meta payload = elim (Bool-cases (int_eq meta.t call_msg)) [
    | inl e ↦
        rw e (generic-Ensures json.unmarshal_call Msg.call meta payload (Typed meta) λ b. (e, refl))
    | inr e ↦ rw e (elim (Bool-cases (int_eq meta.t sub_msg)) [
      | inl e ↦
          rw e (generic-Ensures json.unmarshal_sub Msg.sub meta payload (Typed meta) λ b. (e, refl))
      | inr e ↦ rw e (elim (Bool-cases (int_eq meta.t unsb_msg)) [
        | inl e ↦
            rw e
              (generic-Ensures json.unmarshal_sub Msg.unsb meta payload (Typed meta) λ b. (e, refl))
        | inr e ↦ rw e (elim (Bool-cases (int_eq meta.t pub_msg)) [
          | inl e ↦ rw e (
              generic-Ensures json.unmarshal_pub Msg.publish meta payload (Typed meta)
                λ b. (e, refl))
          | inr e ↦ rw e (elim (Bool-cases (int_eq meta.t err_msg)) [
            | inl e ↦ rw e (
                generic-Ensures json.unmarshal_err Msg.err meta payload (Typed meta) λ b. (e, refl))
            | inr e ↦ rw e (elim (Bool-cases (int_eq meta.t ok_msg)) [
              | inl e ↦ rw e (
                  generic-Ensures json.unmarshal_ok Msg.ok meta payload (Typed meta) λ b. (e, refl))
              | inr e ↦ rw e (elim (Bool-cases (int_eq meta.t res_msg)) [
                | inl e ↦ rw e (
                    generic-Ensures json.unmarshal_res Msg.res meta payload (Typed meta)
                      λ b. (e, refl))
                | inr e ↦ rw e (elim (Bool-cases (int_eq meta.t evnt_msg)) [
                  | inl e ↦ rw e (
                      generic-Ensures json.unmarshal_evnt Msg.evnt meta payload (Typed meta)
                        λ b. (e, refl))
                  | inr e ↦ rw e (tt)
                ])
              ])
            ])
          ])
        ])
      ])
    ])
  ]

  -- A message that passes the list of allowed types was not refused by it.
  if-Ensures :
      (Q : Msg → Type 0) (allowed : List MessageType) (r : Text)
      → ((meta : Meta) (m : Msg) → refuses json allowed meta.t ≡ false → Typed meta m → Q m)
      → Ensures Q (unmarshal_if json allowed r)
  unfolding unmarshal_if
  if-Ensures Q allowed r step = decoded (json.decode_partial r)
    where
      stepped :
          (meta : Meta) (o : Result Msg)
          → refuses json allowed meta.t ≡ false
          → Ensures (Typed meta) o
          → Ensures Q o
      stepped meta (done m) fine h = step meta m fine h
      stepped meta (failed e) fine h = tt

      checked :
          (meta : Meta) (refused : Bool) (e : Text) (o : Result Msg)
          → refuses json allowed meta.t ≡ refused
          → Ensures (Typed meta) o
          → Ensures Q (if refused then failed e else o)
      checked meta true e o h t = tt
      checked meta false e o h t = stepped meta o h t

      decoded :
          (o : Result (Meta × Text))
          → Ensures Q (elim o [
            | failed e ↦ failed (codes "invalid JSON message: " ++ e)
            | done (meta, payload) ↦
                if refuses json allowed meta.t
                then failed
                    (codes "invalid message " ++ json.type_name meta.t ++ codes " for this peer")
                else unmarshal_typed json meta payload
          ])
      decoded (failed e) = tt
      decoded (done (meta, payload)) =
          checked meta (refuses json allowed meta.t) _ (unmarshal_typed json meta payload) refl
            (unmarshal_typed-Ensures meta payload)

  read_types :
      (t : MessageType)
      → refuses json (call_msg ∷ sub_msg ∷ unsb_msg ∷ pub_msg ∷ []) t ≡ false
      → is_read t ≡ true
  unfolding is_in is_read
  read_types (pos t) h = ground arith
  read_types (negsuc t) h = ground arith

  write_types :
      (t : MessageType)
      → refuses json (err_msg ∷ ok_msg ∷ evnt_msg ∷ res_msg ∷ []) t ≡ false
      → is_write t ≡ true
  unfolding is_in is_write
  write_types (pos t) h = ground arith
  write_types (negsuc t) h = ground arith

  read_not_write : (t : MessageType) → is_read t ≡ true → is_write t ≡ false
  unfolding is_read is_write
  read_not_write (pos t) h = ground arith
  read_not_write (negsuc t) h = ground arith

  write_not_read : (t : MessageType) → is_write t ≡ true → is_read t ≡ false
  unfolding is_read is_write
  write_not_read (pos t) h = ground arith
  write_not_read (negsuc t) h = ground arith

  -- A message that `UnmarshalRequest` returns has a message type that agrees with its Go type, that
  -- `IsRead` accepts and that `IsWrite` does not.
  pub unmarshal_request-FromClient :
      (r : Text) (m : Msg) → unmarshal_request json r ≡ done m → FromClient m
  unfolding unmarshal_request
  unmarshal_request-FromClient r m h = rw h at (
      if-Ensures FromClient (call_msg ∷ sub_msg ∷ unsb_msg ∷ pub_msg ∷ []) r λ meta n fine typed.
        let read : is_read (type_of n) ≡ true = rw typed.1 (read_types meta.t fine) in
        (typed.0, read, read_not_write (type_of n) read))

  -- A message that `UnmarshalResponse` returns has a message type that agrees with its Go type,
  -- that `IsWrite` accepts and that `IsRead` does not.
  pub unmarshal_response-FromServer :
      (r : Text) (m : Msg) → unmarshal_response json r ≡ done m → FromServer m
  unfolding unmarshal_response
  unmarshal_response-FromServer r m h = rw h at (
      if-Ensures FromServer (err_msg ∷ ok_msg ∷ evnt_msg ∷ res_msg ∷ []) r λ meta n fine typed.
        let write : is_write (type_of n) ≡ true = rw typed.1 (write_types meta.t fine) in
        (typed.0, write, write_not_read (type_of n) write))
