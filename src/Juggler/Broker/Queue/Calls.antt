-- ===== src/Juggler/Broker/Queue/Calls.antt =====
-- juggler/broker/redisbroker/broker.go: what `Call` does to the list of a URI.
use exp.Base.{
  ℕ, zero, suc, ◌+◌, ◌-◌, ◌≤◌, ◌<◌, ◌≡◌, ◌≢◌, ◌⊎◌, if-All, refl, ap, sym, ◌∙◌, true, false, Option,
  none, some, List, [], ◌∷◌, Text, ltb, ◌&&◌, ℤ, length, take, drop, arith, inl, inr,
}
use exp.Juggler.Msg.{CallPayload}
use exp.Juggler.Broker.{
  Redis, Broker, Json, Marshaled, bytes, marshal_error, call, call_key, call_timeout_key, trim_over,
  call_or_res_script, millis, register_call_or_res, Link, reply_came, not_reached, reply_lost,
  done_by,
}
use exp.Juggler.Broker.Laws.{RedisLaws}

abbrev first : Text → ℕ
first [] = 0
first (c ∷ cs) = c

pub keys-differ : (u uri msg_uuid : Text) → call_timeout_key u msg_uuid ≢ call_key uri
keys-differ u uri msg_uuid e =
    let letter : 116 ≡ 123 = ap (λ t. first (drop 14 t)) e in absurd (omega (arith, letter))

take-all : (n : ℕ) (ts : List Text) → length ts ≤ n → take n ts ≡ ts
take-all zero [] h = refl
take-all zero (t ∷ ts) h = absurd (omega arith)
take-all (suc n) [] h = refl
take-all (suc n) (t ∷ ts) h = ap (λ us. t ∷ us) (take-all n ts (omega arith))

-- A list is within its capacity; 0 is none.
abbrev pub Within : ℕ → List Text → Type 0
Within limit ts = (limit ≡ 0) ⊎ (length ts ≤ limit)

-- What LTRIM leaves of a full list and a new head is the list.
trim-full :
    (limit : ℕ) (t : Text) (ts : List Text)
    → length ts ≤ limit
    → limit < suc (length ts)
    → take
        (suc (limit + (suc (length ts) - limit)) - (suc (length ts) - limit))
        (drop (suc (length ts) - limit) (t ∷ ts))
      ≡ ts
trim-full limit t ts le lt =
    let one : suc (length ts) - limit ≡ 1 = omega arith in
    let n : suc (limit + 1) - 1 ≡ suc limit = omega arith in
    rw (one, n) (take-all (suc limit) ts (omega arith))

over-lt : (limit n : ℕ) → (ltb limit n && ltb 0 limit) ≡ true → limit < n
over-lt limit n h = ground arith

over-le :
    (limit : ℕ) (ts : List Text)
    → Within limit ts
    → (ltb limit (suc (length ts)) && ltb 0 limit) ≡ true
    → length ts ≤ limit
over-le limit ts (inl zero_cap) h = ground arith
over-le limit ts (inr le) h = le

fits-Within :
    (limit : ℕ) (t : Text) (ts : List Text)
    → Within limit ts
    → (ltb limit (suc (length ts)) && ltb 0 limit) ≡ false
    → Within limit (t ∷ ts)
fits-Within limit t ts (inl zero_cap) h = inl zero_cap
fits-Within zero t ts (inr le) h = inl refl
fits-Within (suc limit) t ts (inr le) h = inr (ground arith)

module _ {D : Type 0} (redis : Redis D) (items : Text → D → List Text)
    (laws : RedisLaws redis items) where
  -- A call is refused and the list is as it was, or it is the new head of the list, without an error
  -- or with that of a lost reply.
  pub data Called (json : Json CallPayload) (limit : ℕ) (cp : CallPayload) (d : D)
      : Option Text × D → Type 0 where
    refused :
        (t : Text) (d' : D)
        → items (call_key cp.uri) d' ≡ items (call_key cp.uri) d
        → Called json limit cp d (some t, d')
    taken :
        (t : Text) (d' : D)
        → json.marshal cp ≡ bytes t
        → items (call_key cp.uri) d' ≡ t ∷ items (call_key cp.uri) d
        → Within limit (items (call_key cp.uri) d')
        → Called json limit cp d (none, d')
    taken_unknown :
        (t : Text) (e : Text) (d' : D)
        → redis.link d ≡ reply_lost e
        → json.marshal cp ≡ bytes t
        → items (call_key cp.uri) d' ≡ t ∷ items (call_key cp.uri) d
        → Within limit (items (call_key cp.uri) d')
        → Called json limit cp d (some e, d')

  module _ (json : Json CallPayload) (cp : CallPayload) (limit : ℕ) where
    -- Over the capacity, the new head is trimmed away.
    over-same :
        (d d₂ : D) (p : Text)
        → Within limit (items (call_key cp.uri) d)
        → items (call_key cp.uri) d₂ ≡ p ∷ items (call_key cp.uri) d
        → (ltb limit (suc (length (items (call_key cp.uri) d))) && ltb 0 limit) ≡ true
        → items (call_key cp.uri) (
            redis.ltrim
              (call_key cp.uri)
              (suc (length (items (call_key cp.uri) d)) - limit)
              (limit + (suc (length (items (call_key cp.uri) d)) - limit))
              d₂)
          ≡ items (call_key cp.uri) d
    over-same d d₂ p within new over =
        let ts = items (call_key cp.uri) d in
        let diff = suc (length ts) - limit in
        laws.ltrim_items (call_key cp.uri) diff (limit + diff) d₂
        ∙ ap (λ us. take (suc (limit + diff) - diff) (drop diff us)) new
        ∙ trim-full limit p ts (over-le limit ts within over) (over-lt limit (suc (length ts)) over)

    -- Behind SET and LPUSH.
    trim-Called :
        (d d₁ : D) (p : Text)
        → json.marshal cp ≡ bytes p
        → items (call_key cp.uri) d₁ ≡ items (call_key cp.uri) d
        → Within limit (items (call_key cp.uri) d)
        → Called json limit cp d (
            trim_over redis
              (call_key cp.uri)
              limit
              (redis.lpush (call_key cp.uri) p d₁).0
              (redis.lpush (call_key cp.uri) p d₁).1)
    trim-Called d d₁ p m same within =
        let k = call_key cp.uri in
        let d₂ = (redis.lpush k p d₁).1 in
        let n : (redis.lpush k p d₁).0 ≡ suc (length (items k d)) =
          rw (sym same) (laws.lpush_length k p d₁) in
        let new : items k d₂ ≡ p ∷ items k d = rw (sym same) (laws.lpush_items k p d₁) in
        let len = suc (length (items k d)) in
        rw n (
          if-All (Called json limit cp d) (ltb limit len && ltb 0 limit) _ _
            (λ over. refused _ _ (over-same d d₂ p within new over))
            (λ fits. taken p d₂ m new (rw new (fits-Within limit p (items k d) within fits))))

    -- The reply is lost.
    lost-Called :
        (d : D) (e : Text) (r : Option Text × D)
        → redis.link d ≡ reply_lost e
        → Called json limit cp d r
        → Called json limit cp d (some e, r.1)
    lost-Called d e _ link (refused t d' kept) = refused e d' kept
    lost-Called d e _ link (taken t d' m new within) = taken_unknown t e d' link m new within
    lost-Called d e _ link (taken_unknown t e' d' link' m new within) =
        taken_unknown t e d' link m new within

    pub call-Called :
        (b : Broker) (timeout : ℤ) (d : D)
        → b.call_cap ≡ limit
        → Within limit (items (call_key cp.uri) d)
        → Called json limit cp d (call redis json b cp timeout d)
    unfolding call register_call_or_res call_or_res_script
    call-Called b timeout d same within = marshaled (json.marshal cp) refl
      where
        k : Text
        k = call_key cp.uri

        k1 : Text
        k1 = call_timeout_key cp.uri cp.msg_uuid

        set_same : items k (redis.set_px k1 (millis timeout) d).1 ≡ items k d
        set_same = laws.set_items k1 k (millis timeout) d (keys-differ cp.uri cp.uri cp.msg_uuid)

        set :
            (p : Text) (e : Option Text)
            → json.marshal cp ≡ bytes p
            → Called json limit cp d (elim e [
              | some t ↦ (some t, (redis.set_px k1 (millis timeout) d).1)
              | none ↦
                  trim_over redis k b.call_cap
                    (redis.lpush k p (redis.set_px k1 (millis timeout) d).1).0
                    (redis.lpush k p (redis.set_px k1 (millis timeout) d).1).1
            ])
        set p none m =
            rw same (trim-Called d (redis.set_px k1 (millis timeout) d).1 p m set_same within)
        set p (some t) m = refused t _ set_same

        reached :
            (p : Text) (l : Link)
            → redis.link d ≡ l
            → json.marshal cp ≡ bytes p
            → Called json limit cp d
                (done_by redis l (call_or_res_script redis k1 k (millis timeout) p b.call_cap d) d)
        reached p reply_came link m = set p (redis.set_px k1 (millis timeout) d).0 m
        reached p (not_reached t) link m = refused t d refl
        reached p (reply_lost t) link m =
            lost-Called d t (call_or_res_script redis k1 k (millis timeout) p b.call_cap d) link
              (set p (redis.set_px k1 (millis timeout) d).0 m)

        marshaled :
            (r : Marshaled)
            → json.marshal cp ≡ r
            → Called json limit cp d (register_call_or_res redis r timeout b.call_cap k1 k d)
        marshaled (marshal_error t) m = refused t d refl
        marshaled (bytes p) m = reached p (redis.link d) refl m
