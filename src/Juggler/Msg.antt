-- ===== src/Juggler/Msg.antt =====
-- juggler/msg/msg.go and payload.go: the messages of the protocol. A UUID, a raw JSON value and the
-- text of an error are texts; a timeout counts nanoseconds.
pub mod Registry
pub mod Create
pub mod Unmarshal
use exp.Base.{ℕ, Bool, true, false, ◌&&◌, Text, ℤ, pos, lt_int}

-- `MessageType` and its constants, by their value under `iota`.
abbrev pub MessageType : Type 0
MessageType = ℤ

abbrev pub start_read : MessageType
start_read = pos 0

abbrev pub call_msg : MessageType
call_msg = pos 1

abbrev pub pub_msg : MessageType
pub_msg = pos 2

abbrev pub sub_msg : MessageType
sub_msg = pos 3

abbrev pub unsb_msg : MessageType
unsb_msg = pos 4

abbrev pub end_read : MessageType
end_read = pos 5

abbrev pub start_write : MessageType
start_write = pos 6

abbrev pub err_msg : MessageType
err_msg = pos 7

abbrev pub ok_msg : MessageType
ok_msg = pos 8

abbrev pub res_msg : MessageType
res_msg = pos 9

abbrev pub evnt_msg : MessageType
evnt_msg = pos 10

abbrev pub end_write : MessageType
end_write = pos 11

abbrev pub custom_msg : ℕ
custom_msg = 256

unfoldable pub is_read : MessageType → Bool
is_read mt = lt_int start_read mt && lt_int mt end_read

unfoldable pub is_write : MessageType → Bool
is_write mt = lt_int start_write mt && lt_int mt end_write

pub record Meta : Type 0 where
  pub t : MessageType
  pub u : Text

-- The payloads of the messages. `Unsb` has that of `Sub`.
pub record CallBody : Type 0 where
  pub uri : Text
  pub timeout : ℤ
  pub args : Text

pub record SubBody : Type 0 where
  pub channel : Text
  pub pattern : Bool

pub record PubBody : Type 0 where
  pub channel : Text
  pub args : Text

pub record ErrBody : Type 0 where
  pub for : Text
  pub for_type : MessageType
  pub uri : Text
  pub channel : Text
  pub code : ℤ
  pub message : Text
  pub err : Text

pub record OkBody : Type 0 where
  pub for : Text
  pub for_type : MessageType
  pub uri : Text
  pub channel : Text

pub record ResBody : Type 0 where
  pub for : Text
  pub uri : Text
  pub args : Text

pub record EvntBody : Type 0 where
  pub for : Text
  pub channel : Text
  pub pattern : Text
  pub args : Text

-- The interface `Msg`; `other` is a message of a type that another package defines.
pub data Msg : Type 0 where
  call : Meta → CallBody → Msg
  sub : Meta → SubBody → Msg
  unsb : Meta → SubBody → Msg
  publish : Meta → PubBody → Msg
  err : Meta → ErrBody → Msg
  ok : Meta → OkBody → Msg
  res : Meta → ResBody → Msg
  evnt : Meta → EvntBody → Msg
  other : Meta → Msg

abbrev pub meta_of : Msg → Meta
meta_of (call m b) = m
meta_of (sub m b) = m
meta_of (unsb m b) = m
meta_of (publish m b) = m
meta_of (err m b) = m
meta_of (ok m b) = m
meta_of (res m b) = m
meta_of (evnt m b) = m
meta_of (other m) = m

-- `Type` and `UUID`
abbrev pub type_of : Msg → MessageType
type_of m = (meta_of m).t

abbrev pub uuid_of : Msg → Text
uuid_of m = (meta_of m).u

-- The payloads that the broker keeps, without the time stamp of a read.
pub record CallPayload : Type 0 where
  pub conn_uuid : Text
  pub msg_uuid : Text
  pub uri : Text
  pub args : Text
  pub ttl_after_read : ℤ

pub record ResPayload : Type 0 where
  pub conn_uuid : Text
  pub msg_uuid : Text
  pub uri : Text
  pub args : Text

pub record PubPayload : Type 0 where
  pub msg_uuid : Text
  pub args : Text

pub record EvntPayload : Type 0 where
  pub msg_uuid : Text
  pub channel : Text
  pub pattern : Text
  pub args : Text
