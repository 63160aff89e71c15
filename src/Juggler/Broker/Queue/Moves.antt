-- ===== src/Juggler/Broker/Queue/Moves.antt =====
-- juggler/broker/redisbroker: one call more in the queue, one taken off it, and one lost.
use exp.Base.{
  ℕ, ◌≡◌, refl, ap, sym, ◌∙◌, Option, none, some, List, [], ◌∷◌, ◌++◌, Text, inl, inr, append_assoc,
  length-append, arith,
}
use exp.Juggler.Msg.{CallPayload}
use exp.Juggler.Broker.{Json, decoded}
use exp.Juggler.Broker.Streams.{Stream}
use exp.Juggler.Broker.Queue.{in_json, Held, none_held, pushed, Lost, none_lost, one_lost, Handled}
use exp.Juggler.Broker.Queue.Calls.{Within}

-- The calls that came into the list are those that were taken off it and handled, at most one that
-- was lost, and those in it.
pub record Queued (json : Json CallPayload) (rewritten : Text → Text) (limit : ℕ)
    (entered : List CallPayload) (s : Stream CallPayload) (ts : List Text) : Type 0 where
  pub handled : List CallPayload
  pub lost : List CallPayload
  pub queue : List CallPayload
  pub in_order : entered ≡ handled ++ (lost ++ queue)
  pub held : Held json rewritten queue ts
  pub done : Handled rewritten handled s.sent s.log
  pub ended : Lost lost s.err
  pub within : Within limit ts

pub Lost-nil : {cps : List CallPayload} {err : Option Text} → Lost cps err → err ≡ none → cps ≡ []
Lost-nil none_lost e = refl
Lost-nil (one_lost cp t) e = cc

module _ (json : Json CallPayload) (rewritten : Text → Text) where
  Held-nil :
      {cps : List CallPayload} {us : List Text} → Held json rewritten cps us → us ≡ [] → cps ≡ []
  Held-nil none_held e = refl
  Held-nil (pushed cp u m held) e = cc

  -- The oldest call is the tail of the list.
  Held-tail :
      {cps : List CallPayload} {us : List Text} (ts : List Text) (t : Text)
      → Held json rewritten cps us
      → us ≡ ts ++ t ∷ []
      → (cp : CallPayload) × (rest : List CallPayload) × (cps ≡ cp ∷ rest)
        × (json.unmarshal t ≡ decoded (in_json rewritten cp))
        × Held json rewritten rest ts
  Held-tail [] t none_held e = cc
  Held-tail (v ∷ ts) t none_held e = cc
  Held-tail [] t (pushed cp u m held) e =
      let same : u ≡ t = cc in
      (cp, [], ap (λ cs. cs ++ cp ∷ []) (Held-nil held cc), rw (sym same) m, none_held)
  Held-tail (v ∷ ts) t (pushed cp u m held) e =
      let same : u ≡ v = cc in
      let (old, rest, split, m', held') = Held-tail ts t held cc in
      (
        old,
        rest ++ cp ∷ [],
        ap (λ cs. cs ++ cp ∷ []) split,
        m',
        pushed cp v (rw (sym same) m) held',
      )

  -- One call more, and one call taken off.
  pub push-Queued :
      (limit : ℕ) (accepted : List CallPayload) (s : Stream CallPayload) (ts : List Text)
      (cp : CallPayload) (t : Text)
      → Queued json rewritten limit accepted s ts
      → json.unmarshal t ≡ decoded (in_json rewritten cp)
      → Within limit (t ∷ ts)
      → Queued json rewritten limit (accepted ++ cp ∷ []) s (t ∷ ts)
  push-Queued limit accepted s ts cp t q m within = record {
    handled = q.handled;
    lost = q.lost;
    queue = q.queue ++ cp ∷ [];
    in_order = rw q.in_order (
        append_assoc q.handled (q.lost ++ q.queue) (cp ∷ [])
        ∙ ap (λ cps. q.handled ++ cps) (append_assoc q.lost q.queue (cp ∷ [])));
    held = pushed cp t m q.held;
    done = q.done;
    ended = q.ended;
    within = within;
  }

  shorter-Within :
      (limit : ℕ) (ts : List Text) (t : Text) → Within limit (ts ++ t ∷ []) → Within limit ts
  shorter-Within limit ts t (inl h) = inl h
  shorter-Within limit ts t (inr h) = inr (omega (arith, h, length-append ts (t ∷ [])))

  -- What a round does with the call that it took.
  pub pop-Queued :
      (limit : ℕ) (accepted : List CallPayload) (s : Stream CallPayload) (ts : List Text) (t : Text)
      (q : Queued json rewritten limit accepted s (ts ++ t ∷ []))
      (s' : CallPayload → Stream CallPayload)
      → s.err ≡ none
      → ((cp : CallPayload) → Handled rewritten (q.handled ++ cp ∷ []) (s' cp).sent (s' cp).log)
      → (cp : CallPayload) × (json.unmarshal t ≡ decoded (in_json rewritten cp))
        × Queued json rewritten limit accepted (s' cp) ts
  pop-Queued limit accepted s ts t q s' going handles =
      let (cp, rest, split, m, held) = Held-tail ts t q.held refl in
      (
        cp,
        m,
        record {
          handled = q.handled ++ cp ∷ [];
          lost = [];
          queue = rest;
          in_order =
              q.in_order
              ∙ ap (λ cps. q.handled ++ (cps ++ q.queue)) (Lost-nil q.ended going)
              ∙ ap (λ cps. q.handled ++ cps) split
              ∙ sym (append_assoc q.handled (cp ∷ []) rest);
          held = held;
          done = handles cp;
          ended = none_lost;
          within = shorter-Within limit ts t q.within;
        },
      )

  -- The call is lost with the reply.
  pub lose-Queued :
      (limit : ℕ) (accepted : List CallPayload) (s : Stream CallPayload) (e : Text) (ts : List Text)
      (t : Text)
      → Queued json rewritten limit accepted s (ts ++ t ∷ [])
      → s.err ≡ none
      → Queued json rewritten limit accepted (record s { err = some e }) ts
  lose-Queued limit accepted s e ts t q going =
      let (cp, rest, split, m, held) = Held-tail ts t q.held refl in
      record {
        handled = q.handled;
        lost = cp ∷ [];
        queue = rest;
        in_order =
            q.in_order
            ∙ ap (λ cps. q.handled ++ (cps ++ q.queue)) (Lost-nil q.ended going)
            ∙ ap (λ cps. q.handled ++ cps) split;
        held = held;
        done = q.done;
        ended = one_lost cp e;
        within = shorter-Within limit ts t q.within;
      }
