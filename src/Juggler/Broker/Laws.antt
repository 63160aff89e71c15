-- ===== src/Juggler/Broker/Laws.antt =====
-- What the broker relies on of Redis and of encoding/json, as their documentation states it.
use exp.Base.{ℕ, suc, ◌-◌, ◌≡◌, ◌≢◌, List, [], ◌∷◌, ◌++◌, Text, length, take, drop, ℤ}
use exp.Juggler.Broker.{Redis, Popped, nil_reply, pop_failed, popped, Json, bytes, decoded}

-- BRPOP on one list, head first, before and behind: nothing is there, the request fails, the tail is
-- taken, or it is taken and lost, since the reply does not come back.
pub data Pops : Popped → List Text → List Text → Type 0 where
  empty_list : Pops nil_reply [] []
  pop_error : (t : Text) (ts : List Text) → Pops (pop_failed t) ts ts
  tail_lost : (e t : Text) (ts : List Text) → Pops (pop_failed e) (ts ++ t ∷ []) ts
  tail_taken : (t : Text) (ts : List Text) → Pops (popped t) (ts ++ t ∷ []) ts

-- `items` is a list of the server, head first, as `LRANGE key 0 -1` shows it. SET and DEL change no
-- other key.
pub record RedisLaws {D : Type 0} (redis : Redis D) (items : Text → D → List Text) : Type 0 where
  pub set_items :
      (j k : Text) (to : ℤ) (d : D) → j ≢ k → items k (redis.set_px j to d).1 ≡ items k d
  pub del_items : (j k : Text) (d : D) → j ≢ k → items k (redis.del j d) ≡ items k d
  pub lpush_items : (k t : Text) (d : D) → items k (redis.lpush k t d).1 ≡ t ∷ items k d
  pub lpush_length : (k t : Text) (d : D) → (redis.lpush k t d).0 ≡ suc (length (items k d))
  pub ltrim_items :
      (k : Text) (start stop : ℕ) (d : D)
      → items k (redis.ltrim k start stop d) ≡ take (suc stop - start) (drop start (items k d))
  pub brpop_items :
      (k : Text) (to : ℤ) (d : D)
      → Pops (redis.brpop (k ∷ []) to d).0 (items k d) (items k (redis.brpop (k ∷ []) to d).1)

-- `Unmarshal` reads back what `Marshal` wrote of a value, as JSON keeps it.
abbrev pub ReadsBack : {A : Type 0} → Json A → (A → A) → A → Type 0
ReadsBack json kept a = (t : Text) → json.marshal a ≡ bytes t → json.unmarshal t ≡ decoded (kept a)
