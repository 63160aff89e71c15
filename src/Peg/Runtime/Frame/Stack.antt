-- ===== src/Peg/Runtime/Frame/Stack.antt =====
-- peg/builder/static_code.go: a call between `pushV` and `popV` leaves the stack as it was.
use exp.Base.{◌≡◌, refl, ap, Option, none, some, [], ◌∷◌}
use exp.Peg.Runtime.State.{ArgMap, VStack, Parser, Env, push_v, pop_v, fresh_map, cleared, pop_live}
use exp.Peg.Runtime.Matchers.{Outcome}
use exp.Peg.Runtime.Engine.{pushing_v, popping_v}
use exp.Peg.Runtime.Frame.{Follows, Post}
use exp.Peg.Runtime.Frame.Compose.{SameBelow-refl}

-- A new map is empty, whatever its slot held.
fresh_map-empty : (m : Option ArgMap) → fresh_map m ≡ []
fresh_map-empty none = refl
fresh_map-empty (some []) = refl
fresh_map-empty (some (a ∷ m)) = refl

module _ (env : Env) where
  pub push_v-live : (vs : VStack) → (push_v env vs).live ≡ [] ∷ vs.live
  unfolding push_v
  push_v-live vs = ap (λ m. m ∷ vs.live) (fresh_map-empty _)

  popped :
      (p q : Parser)
      → Follows env (pushing_v env p) q
      → (vs : VStack) × (pop_v q.vstack ≡ some vs) × (vs.live ≡ p.vstack.live)
  unfolding pop_v push_v
  popped p q f =
      let (m, e) = f.below_kept in
      (
        record { live = p.vstack.live; spare = cleared m ∷ q.vstack.spare },
        ap (λ live. pop_live live q.vstack.spare) e,
        refl,
      )

  unpushed :
      (p q : Parser) (vs : VStack)
      → Follows env (pushing_v env p) q
      → vs.live ≡ p.vstack.live
      → Follows env p (record q { vstack = vs })
  unpushed p q vs f e = record {
    input_kept = f.input_kept;
    filename_kept = f.filename_kept;
    rules_kept = f.rules_kept;
    rstack_kept = f.rstack_kept;
    below_kept = rw e (SameBelow-refl p.vstack.live);
    located = record { in_input = f.located.in_input; decoded = f.located.decoded };
    onward = f.onward;
    appended = f.appended;
  }

  -- `popV` behind a run that began with one map more on the stack: it does not panic, and takes
  -- off just that map.
  pub Post-popping_v :
      (Permitted : Type 0) (p₀ p q : Parser) (k : Parser → Outcome)
      → Follows env (pushing_v env p) q
      → ((vs : VStack)
          → vs.live ≡ p.vstack.live
          → Follows env p (record q { vstack = vs })
          → Post env Permitted p₀ (k (record q { vstack = vs })))
      → Post env Permitted p₀ (popping_v env q k)
  Post-popping_v Permitted p₀ p q k f step =
      let (vs, e, kept) = popped p q f in rw (e, popping_v) (step vs kept (unpushed p q vs f kept))
