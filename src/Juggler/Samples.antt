-- ===== src/Juggler/Samples.antt =====
-- juggler: the theorems at concrete messages.
use exp.Base.{◌+◌, ◌≤◌, ◌≡◌, refl, true, none, some, List, [], ◌∷◌, ◌++◌, codes, pos}
use exp.Juggler.Msg
use exp.Juggler.Msg.{
  ResPayload, EvntPayload, Msg, MessageType, Meta, call_msg, sub_msg, ok_msg, err_msg, type_of,
  uuid_of,
}
use exp.Juggler.Msg.Create.{is_call}
use exp.Juggler.Msg.Registry.{Registry, initial_registry, register_custom_msg, set_name}
use exp.Juggler.Msg.Registry.Register.{
  initial_registry-IsValid, Registered, register_custom_msg-Registered,
}
use exp.Juggler.Msg.Unmarshal.{Json, done, failed, unmarshal_request, unmarshal_response}
use exp.Juggler.Msg.Unmarshal.Allowed.{
  FromClient, FromServer, unmarshal_request-FromClient, unmarshal_response-FromServer,
}
use exp.Juggler.Conn.{Conn}
use exp.Juggler.Conn.Write.{Transport, limit_exceeded}
use exp.Juggler.Handler.{Services, process_msg}
use exp.Juggler.Handler.Answers.{Delivers, SentTo, asked_uri, process_msg-answers}
use exp.Juggler.Loops.{Server, reader_error, text_message, results, receive}
use exp.Juggler.Loops.Served.{EndsWith, reply, no_requests, request, receive-answers}
use exp.Juggler.Client.{Client, Event, is_pending, added, received, timed_out, run}
use exp.Juggler.Client.{expired, new_exp, call_timeout}
use exp.Juggler.Client.Requests.{call, call_body}
use exp.Juggler.Client.Requests.Early.{answered_at_once, early_result-dropped}
use exp.Juggler.Client.Pending.{ends_count, added_count, run-at_most_once, run-ends}

abbrev body : Msg.CallBody
body = record { uri = codes "add"; timeout = pos 0; args = codes "1" }

abbrev a_call : Msg
a_call = Msg.call (record { t = call_msg; u = codes "u" }) body

abbrev a_result : Msg
a_result =
    Msg.res (record { t = pos 9; u = codes "v" })
      (record { for = codes "u"; uri = codes "add"; args = codes "2" })

abbrev extended : Registry
extended = record {
  next_custom_msg = 257;
  lookup_message_type = set_name (pos 256) (codes "EXP") initial_registry.lookup_message_type;
}

register_custom_msg-Registered_example : Registered (codes "EXP") (pos 256, extended)
unfolding register_custom_msg initial_registry
register_custom_msg-Registered_example =
    register_custom_msg-Registered (codes "EXP") initial_registry extended (pos 256)
      initial_registry-IsValid refl

-- A peer that sends the call, or the result, whatever the bytes are.
abbrev json : MessageType → Json
json t = record {
  decode_partial = λ r. done (record { t = t; u = codes "u" }, r);
  unmarshal_call = λ r. done body;
  unmarshal_sub = λ r. failed (codes "no sub");
  unmarshal_pub = λ r. failed (codes "no pub");
  unmarshal_err = λ r. failed (codes "no err");
  unmarshal_ok = λ r. failed (codes "no ok");
  unmarshal_res = λ r. done (record { for = codes "u"; uri = codes "add"; args = codes "2" });
  unmarshal_evnt = λ r. failed (codes "no evnt");
  type_name = λ t. codes "T";
}

unmarshal_request-FromClient_example : FromClient a_call
unfolding unmarshal_request
unmarshal_request-FromClient_example =
    unmarshal_request-FromClient (json (pos 1)) (codes "{}") a_call refl

unmarshal_response-FromServer_example : FromServer (
    Msg.res
      (record { t = pos 9; u = codes "u" })
      (record { for = codes "u"; uri = codes "add"; args = codes "2" }))
unfolding unmarshal_response
unmarshal_response-FromServer_example =
    unmarshal_response-FromServer (json (pos 9)) (codes "{}")
      (Msg.res (record { t = pos 9; u = codes "u" })
        (record { for = codes "u"; uri = codes "add"; args = codes "2" }))
      refl

-- A broker that refuses nothing but calls, and a transport that sends every message as two bytes.
abbrev brokers : Services
brokers = record {
  handler = none;
  call_error = λ pld timeout. some (codes "full");
  publish_error = λ channel pld. none;
  subscribe_error = λ channel pattern. none;
  unsubscribe_error = λ channel pattern. none;
  answer_uuid = λ m. codes "w";
}

abbrev transport : Transport
transport = record {
  encode = λ m. some (codes "{}");
  encode_error = λ m. [];
  gets_lock = λ m. true;
  next_writer = λ m. none;
  write = λ m. none;
  fresh_uuid = λ m. codes "x";
}

abbrev conn : Conn
conn = record { uuid = codes "c"; has_vars = true; close_err = none; actions = [] }

-- ERR with code 500, for the call.
abbrev refusal : Msg
refusal =
    Msg.err (record { t = err_msg; u = codes "w" })
      (record {
        for = uuid_of a_call;
        for_type = type_of a_call;
        uri = asked_uri brokers transport 5000 a_call;
        channel = [];
        code = pos 500;
        message = codes "full";
        err = codes "full";
      })

refusal-Delivers : Delivers transport 5000 refusal
unfolding limit_exceeded
refusal-Delivers = record {
  within = (codes "{}", refl, refl);
  locks = refl;
  opens = refl;
  writes = refl;
}

process_msg-answers_example :
    SentTo brokers transport 5000 refusal conn (process_msg brokers transport 5000 a_call conn)
process_msg-answers_example =
    process_msg-answers brokers transport 5000 refl a_call conn is_call refusal-Delivers

abbrev u_meta : Meta
u_meta = record { t = call_msg; u = codes "u" }

-- The result and the timeout of a call race.
abbrev race : List Event
race = added (codes "u") ∷ received a_result ∷ timed_out (codes "x") u_meta body ∷ []

run-at_most_once_example :
    ends_count (codes "u") (run (pos 256) (record { results = []; handled = [] }) race).handled
    ≤ added_count (codes "u") race
run-at_most_once_example = run-at_most_once (pos 256) (codes "u") race

abbrev waiting : Client
waiting = record { results = codes "u" ∷ []; handled = [] }

waiting-is_pending : is_pending (codes "u") waiting.results ≡ true
unfolding is_pending
waiting-is_pending = refl

run-ends_example :
    ends_count (codes "u") [] + 1
    ≤ ends_count
        (codes "u")
        (run
          (pos 256)
          waiting
          ((received a_result ∷ []) ++ timed_out (codes "x") u_meta body ∷ [])).handled
run-ends_example =
    run-ends (pos 256) waiting (received a_result ∷ []) (codes "x") u_meta body waiting-is_pending
      (tt, tt)

abbrev server : Server
server = record {
  brokers = brokers;
  transport = transport;
  write_limit = 5000;
  json = json (pos 1);
  res_uuid = λ pld. codes "r";
  evnt_uuid = λ ev. codes "v";
  decimal = λ n. [];
}

-- Every message is delivered by the transport.
any-Delivers : (m : Msg) → Delivers transport 5000 m
unfolding limit_exceeded
any-Delivers m = record {
  within = (codes "{}", refl, refl);
  locks = refl;
  opens = refl;
  writes = refl;
}

abbrev a_res_payload : ResPayload
a_res_payload = record {
  conn_uuid = codes "c";
  msg_uuid = codes "u";
  uri = codes "add";
  args = codes "2";
}

abbrev an_event : EvntPayload
an_event = record { msg_uuid = codes "p"; channel = codes "news"; pattern = []; args = codes "3" }

-- Two calls, and then the reader fails.
receive-answers_example :
    EndsWith server refl
      (reply server refl (codes "c") a_call ∷ reply server refl (codes "c") a_call ∷ [])
      (codes "EOF")
      conn
      (receive server
        (text_message (codes "{}") ∷ text_message (codes "{}") ∷ reader_error (codes "EOF") ∷ [])
        conn)
unfolding unmarshal_request
receive-answers_example =
    receive-answers server refl (text_message (codes "{}") ∷ text_message (codes "{}") ∷ []) []
      (a_call ∷ a_call ∷ []) (codes "EOF") conn refl
      (request (codes "{}") a_call refl (request (codes "{}") a_call refl no_requests))
      (any-Delivers _, (any-Delivers _, tt))

-- The result of a call comes before the call is in the table, in which another one is.
early_result-dropped_example :
    (run
      (pos 256)
      (record { results = codes "o" ∷ []; handled = [] })
      (answered_at_once a_result
        (codes "x")
        (call (λ m. none) (pos 5) (codes "u") (codes "add") (done (codes "1")) (pos 0)).1)).handled
    ≡ expired (
        new_exp
          (pos 256)
          (codes "x")
          u_meta
          (call_body (λ m. none) (codes "add") (codes "1") (pos 5)))
      ∷ []
unfolding is_pending call_timeout
early_result-dropped_example =
    early_result-dropped (λ m. none) (pos 256) (pos 5) (pos 0) (codes "u") (codes "add") (codes "1")
      (codes "x") (record { t = pos 9; u = codes "v" })
      (record { for = codes "u"; uri = codes "add"; args = codes "2" })
      (record { results = codes "o" ∷ []; handled = [] }) refl refl refl
