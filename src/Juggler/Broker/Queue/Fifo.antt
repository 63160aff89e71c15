-- ===== src/Juggler/Broker/Queue/Fifo.antt =====
-- juggler/broker/redisbroker: any order of calls for a URI and of rounds of the goroutine that reads
-- them.
use mathlib.Core.Path.{subst}
use exp.Base.{
  ◌≡◌, refl, ap, sym, ◌∙◌, Option, none, some, List, [], ◌∷◌, ◌++◌, Text, ℤ, pos, lt_int, quotient,
  Bool-cases, inl, inr, arith,
}
use exp.Juggler.Msg.{CallPayload}
use exp.Juggler.Broker.{
  Redis, Broker, Json, call, call_key, call_timeout_key, Popped, Decoded, decoded, decode_error,
  Link, reply_came, not_reached, reply_lost,
}
use exp.Juggler.Broker.Laws.{
  RedisLaws, ReadsBack, Pops, empty_list, pop_error, tail_lost, tail_taken,
}
use exp.Juggler.Broker.Streams.{
  Stream, with_ttl, poll_calls, after_pop, read_payload, check_ttl, del_and_pttl, del_and_pttl_by,
  poll_unless,
}
use exp.Juggler.Broker.Queue.{
  in_json, Entered, none_entered, entered_accepted, stayed_out, entered_unknown, none_held,
  none_lost, Handled, none_handled, delivered, was_expired, without_ttl,
}
use exp.Juggler.Broker.Queue.Moves.{Queued, Lost-nil, push-Queued, pop-Queued, lose-Queued}
use exp.Juggler.Broker.Queue.Calls.{
  Within, Called, refused, taken, taken_unknown, call-Called, keys-differ,
}

-- A call of `Call`, a round of the goroutine of `Calls`, or what else happens to the server.
pub data Event (D : Type 0) : Type 0 where
  call_event : CallPayload → ℤ → Event D
  poll_event : Event D
  elapse : (D → D) → Event D

-- `accepted` has the calls for which `Call` returned no error, the oldest first, and `failed` the
-- others, with the error.
pub record World (D : Type 0) : Type 0 where
  pub server : D
  pub stream : Stream CallPayload
  pub accepted : List CallPayload
  pub failed : List (CallPayload × Text)

abbrev pub new_stream : Stream CallPayload
new_stream = record { sent = []; log = []; err = none }

module _ {D : Type 0} (redis : Redis D) (json : Json CallPayload) (b : Broker) (uri : Text)
    (timeout : ℤ) where
  abbrev pub accept : CallPayload → Option Text × D → World D → World D
  accept cp (none, d) w = record w { server = d; accepted = w.accepted ++ cp ∷ [] }
  accept cp (some t, d) w = record w { server = d; failed = w.failed ++ (cp, t) ∷ [] }

  abbrev pub step : Event D → World D → World D
  step (call_event cp to) w = accept cp (call redis json b cp to w.server) w
  step poll_event w =
      let (s, d) = poll_calls redis json (uri ∷ []) timeout w.stream w.server in
      record w { stream = s; server = d }
  step (elapse f) w = record w { server = f w.server }

  unfoldable pub run : List (Event D) → World D → World D
  unfolding call poll_calls
  run [] w = w
  run (e ∷ es) w = run es (step e w)

  module _ (items : Text → D → List Text) (rewritten : Text → Text) where
    -- Calls are for the URI, and `Unmarshal` reads back what `Marshal` writes of them; what else happens
    -- leaves the list of the URI.
    abbrev pub Allowed : List (Event D) → Type 0
    Allowed [] = Unit
    Allowed (call_event cp to ∷ es) =
        (cp.uri ≡ uri) × ReadsBack json (in_json rewritten) cp × Allowed es
    Allowed (poll_event ∷ es) = Allowed es
    Allowed (elapse f ∷ es) =
        ((d : D) → items (call_key uri) (f d) ≡ items (call_key uri) d) × Allowed es

    -- The error of a request whose reply was lost.
    abbrev pub LostReply : Text → Type 0
    LostReply t = (d : D) × (redis.link d ≡ reply_lost t)

    abbrev pub QueuedIn : World D → Type 0
    QueuedIn w =
        (entered : List CallPayload) × Entered LostReply w.accepted w.failed entered
        × Queued json rewritten b.call_cap entered w.stream (items (call_key uri) w.server)

    module _ (laws : RedisLaws redis items) where
      check-Handled :
          (cps : List CallPayload) (cp : CallPayload) (s : Stream CallPayload) (r : Decoded ℤ)
          → Handled rewritten cps s.sent s.log
          → (let s' =
                check_ttl redis json
                  (λ cp. call_timeout_key cp.uri cp.msg_uuid)
                  (λ cp. cp.msg_uuid)
                  (with_ttl redis)
                  (in_json rewritten cp)
                  r
                  s in
              Handled rewritten (cps ++ cp ∷ []) s'.sent s'.log)
      check-Handled cps cp s (decode_error t) h = without_ttl cp t h
      check-Handled cps cp s (decoded ttl) h = elim (Bool-cases (lt_int (pos 0) ttl)) [
        | inl alive ↦ rw alive (delivered cp ttl alive h)
        | inr dead ↦ rw dead (was_expired cp h)
      ]

      -- The time to live is asked for, and its key deleted; the list stays.
      read-Queued :
          (accepted : List CallPayload) (s : Stream CallPayload) (ts : List Text) (t : Text) (d : D)
          → s.err ≡ none
          → items (call_key uri) d ≡ ts
          → Queued json rewritten b.call_cap accepted s (ts ++ t ∷ [])
          → (let r =
                read_payload redis json
                  (λ cp. call_timeout_key cp.uri cp.msg_uuid)
                  (λ cp. cp.msg_uuid)
                  (with_ttl redis)
                  (json.unmarshal t)
                  s
                  d in
              Queued json rewritten b.call_cap accepted r.0 (items (call_key uri) r.1))
      read-Queued accepted s ts t d going same q =
          let (cp, m, q') =
            pop-Queued json rewritten b.call_cap accepted s ts t q
              (λ cp.
                check_ttl redis json (λ cp. call_timeout_key cp.uri cp.msg_uuid) (λ cp. cp.msg_uuid)
                  (with_ttl redis) (in_json rewritten cp)
                  (del_and_pttl redis (call_timeout_key cp.uri cp.msg_uuid) d).0 s)
              going
              (λ cp.
                check-Handled q.handled cp s
                  (del_and_pttl redis (call_timeout_key cp.uri cp.msg_uuid) d).0 q.done) in
          let kept : items (call_key uri)
                (del_and_pttl redis (call_timeout_key cp.uri cp.msg_uuid) d).1
              ≡ ts =
            del-same cp d ∙ same in
          rw (m, kept) q'
        where
          del-same :
              (cp : CallPayload) (d : D)
              → items (call_key uri) (del_and_pttl redis (call_timeout_key cp.uri cp.msg_uuid) d).1
                ≡ items (call_key uri) d
          del-same cp d = go (redis.link d)
            where
              go :
                  (l : Link)
                  → items
                      (call_key uri)
                      (del_and_pttl_by redis l (call_timeout_key cp.uri cp.msg_uuid) d).1
                    ≡ items (call_key uri) d
              go (not_reached t) = refl
              go (reply_lost t) =
                  laws.del_items (call_timeout_key cp.uri cp.msg_uuid) (call_key uri) d
                    (keys-differ cp.uri uri cp.msg_uuid)
              go reply_came =
                  laws.del_items (call_timeout_key cp.uri cp.msg_uuid) (call_key uri) d
                    (keys-differ cp.uri uri cp.msg_uuid)

      after-Queued :
          (accepted : List CallPayload) (s : Stream CallPayload) (r : Popped) (us vs : List Text)
          (d : D)
          → Pops r us vs
          → s.err ≡ none
          → items (call_key uri) d ≡ vs
          → Queued json rewritten b.call_cap accepted s us
          → (let o =
                after_pop redis json
                  (λ cp. call_timeout_key cp.uri cp.msg_uuid)
                  (λ cp. cp.msg_uuid)
                  (with_ttl redis)
                  r
                  s
                  d in
              Queued json rewritten b.call_cap accepted o.0 (items (call_key uri) o.1))
      after-Queued accepted s _ us vs d empty_list going same q = rw same q
      after-Queued accepted s _ us vs d (tail_lost e t ts) going same q =
          rw same (lose-Queued json rewritten b.call_cap accepted s e ts t q going)
      after-Queued accepted s _ us vs d (pop_error t ts) going same q = rw same (record {
        handled = q.handled;
        lost = [];
        queue = q.queue;
        in_order = q.in_order ∙ ap (λ cps. q.handled ++ (cps ++ q.queue)) (Lost-nil q.ended going);
        held = q.held;
        done = q.done;
        ended = none_lost;
        within = q.within;
      })
      after-Queued accepted s _ us vs d (tail_taken t ts) going same q =
          read-Queued accepted s ts t d going same q

      poll-Queued : (w : World D) → QueuedIn w → QueuedIn (step poll_event w)
      unfolding poll_calls
      poll-Queued w (entered, came, q) = (entered, came, go w.stream.err refl)
        where
          go :
              (e : Option Text)
              → w.stream.err ≡ e
              → (let o =
                    poll_unless redis json
                      (λ cp. call_timeout_key cp.uri cp.msg_uuid)
                      (λ cp. cp.msg_uuid)
                      (with_ttl redis)
                      e
                      (call_key uri ∷ [])
                      (quotient timeout 1000000000)
                      w.stream
                      w.server in
                  Queued json rewritten b.call_cap entered o.0 (items (call_key uri) o.1))
          go (some t) going = q
          go none going =
              after-Queued entered w.stream _ _ _ _
                (laws.brpop_items (call_key uri) (quotient timeout 1000000000) w.server) going refl
                q

      -- The list has the call as its new head.
      entering-Queued :
          (cp : CallPayload) (w : World D) (entered : List CallPayload) (t : Text) (d : D)
          → cp.uri ≡ uri
          → json.unmarshal t ≡ decoded (in_json rewritten cp)
          → items (call_key cp.uri) d ≡ t ∷ items (call_key cp.uri) w.server
          → Within b.call_cap (items (call_key cp.uri) d)
          → Queued json rewritten b.call_cap entered w.stream (items (call_key uri) w.server)
          → Queued json rewritten b.call_cap (entered ++ cp ∷ []) w.stream (items (call_key uri) d)
      entering-Queued cp w entered t d same reads new within q =
          let e : items (call_key uri) d ≡ t ∷ items (call_key uri) w.server = rw (sym same) new in
          let u : Within b.call_cap (items (call_key uri) d) = rw (sym same) within in
          rw e (
            push-Queued json rewritten b.call_cap entered w.stream (items (call_key uri) w.server)
              cp t q reads (subst (λ us. Within b.call_cap us) e u))

      call-Queued :
          (cp : CallPayload) (to : ℤ) (w : World D)
          → cp.uri ≡ uri
          → ReadsBack json (in_json rewritten) cp
          → QueuedIn w
          → QueuedIn (step (call_event cp to) w)
      call-Queued cp to w same reads (entered, came, q) =
          go (call redis json b cp to w.server)
            (call-Called redis items laws json cp b.call_cap b to w.server refl (rw same q.within))
        where
          go :
              (r : Option Text × D)
              → Called redis items laws json b.call_cap cp w.server r
              → QueuedIn (accept cp r w)
          go _ (refused t d kept) =
              let e : items (call_key uri) d ≡ items (call_key uri) w.server = rw (sym same) kept in
              (entered, stayed_out cp t came, rw e q)
          go _ (taken t d m new within) = (
            entered ++ cp ∷ [],
            entered_accepted cp came,
            entering-Queued cp w entered t d same (reads t m) new within q,
          )
          go _ (taken_unknown t e d link m new within) = (
            entered ++ cp ∷ [],
            entered_unknown cp e (w.server, link) came,
            entering-Queued cp w entered t d same (reads t m) new within q,
          )

      events-Queued :
          (es : List (Event D)) (w : World D) → Allowed es → QueuedIn w → QueuedIn (run es w)
      unfolding run
      events-Queued [] w a q = q
      events-Queued (call_event cp to ∷ es) w (same, reads, a) q =
          events-Queued es (step (call_event cp to) w) a (call-Queued cp to w same reads q)
      events-Queued (poll_event ∷ es) w a q =
          events-Queued es (step poll_event w) a (poll-Queued w q)
      events-Queued (elapse f ∷ es) w (leaves, a) (entered, came, q) =
          events-Queued es (step (elapse f) w) a (entered, came, rw (leaves w.server) q)

-- The calls for a URI are a bounded queue, whatever the order of calls for this URI and of rounds of the
-- goroutine that reads them: if Redis keeps its laws, `Unmarshal` reads back what `Marshal` wrote of
-- these calls, the list of the URI is empty, and what else happens on the server leaves this list,
-- then the calls that came into the list are those that `Call` accepted, with some for which it returned
-- the error of a lost reply, and they are, in their order, those that were taken off the list and those
-- that it holds. The first were each sent once, with the time that they have to live, which is positive,
-- or a line of the log says that the call is expired or that the request for its time failed; but the
-- last of them may be lost with the reply, and then the goroutine has ended with the error. The list is
-- within the capacity, if there is one.
pub run-Queued :
    {D : Type 0} (redis : Redis D) (items : Text → D → List Text) (rewritten : Text → Text)
    (json : Json CallPayload) (b : Broker) (uri : Text) (timeout : ℤ) (es : List (Event D)) (d : D)
    → RedisLaws redis items
    → Allowed redis json b uri timeout items rewritten es
    → items (call_key uri) d ≡ []
    → QueuedIn redis json b uri timeout items rewritten (
        run redis json b uri timeout es
          (record { server = d; stream = new_stream; accepted = []; failed = [] }))
run-Queued redis items rewritten json b uri timeout es d laws allowed empty =
    events-Queued redis json b uri timeout items rewritten laws es _ allowed (
      [],
      none_entered,
      rw empty (record {
        handled = [];
        lost = [];
        queue = [];
        in_order = refl;
        held = none_held;
        done = none_handled;
        ended = none_lost;
        within = inr (omega arith);
      }),
    )
