-- ===== src/Juggler/Callee/Samples.antt =====
-- juggler/callee/callee.go: the theorem at concrete calls.
use exp.Base.{none, some, List, [], ◌∷◌, Text, codes, if◌then◌else◌, text_eq, pos}
use exp.Juggler.Msg.{CallPayload}
use exp.Juggler.Callee.{Callee, Reply, bytes, connected}

-- A call in time, and one that has expired.
abbrev in_time : CallPayload
in_time = record {
  conn_uuid = codes "c";
  msg_uuid = codes "1";
  uri = codes "add";
  args = codes "x";
  ttl_after_read = pos 50;
}

abbrev late : CallPayload
late = record {
  conn_uuid = codes "c";
  msg_uuid = codes "2";
  uri = codes "add";
  args = codes "y";
  ttl_after_read = pos 10;
}

-- A connection with these two calls, if one of its URIs is theirs, until the end of its input.
abbrev delivers : List Text → List CallPayload
delivers [] = []
delivers (u ∷ us) = if text_eq u (codes "add") then in_time ∷ late ∷ [] else delivers us

-- Values are their own JSON, and each thunk takes 20 nanoseconds.
abbrev callee : Callee Text
callee = record {
  marshal = λ v. bytes v;
  err_result = λ e. e;
  calls = λ us. connected (delivers us) (some (codes "EOF"));
  result_error = λ rp timeout. none;
  elapsed = λ cp. pos 20;
}

-- A thunk that fails, with its arguments as the message.
abbrev refusing : CallPayload → Reply Text
refusing cp = record { v = []; err = some (record { marshaler = none; message = cp.args }) }

abbrev thunks : List (Text × (CallPayload → Reply Text))
thunks = (codes "add", refusing) ∷ []
