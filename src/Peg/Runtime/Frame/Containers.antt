-- ===== src/Peg/Runtime/Frame/Containers.antt =====
-- peg/builder/static_code.go: what the expressions that contain others keep, if the parser of the
-- contained expressions keeps it.
use exp.Base.{ℕ, zero, suc, ◌≡◌, refl, ◌∙◌, Bool, true, false, []}
use exp.Peg.Runtime.Syntax
use exp.Peg.Runtime.Syntax.{Expr, Exprs, Rule}
use exp.Peg.Runtime.State.{Value, nil, Values, no_vals, append_val, Parser, Env, save, restore}
use exp.Peg.Runtime.Matchers.{Outcome, ended}
use exp.Peg.Runtime.Engine.{
  Rec, pushing_v, parse_and_expr, parse_not_expr, parse_choice_expr, seq_loop, parse_seq_expr,
  rounds, stop_zero, stop_one, parse_zero_or_more_expr, parse_one_or_more_expr,
  parse_zero_or_one_expr,
}
use exp.Peg.Runtime.Frame.{offset_of, Follows, WellBuilt, AllBuilt, Ready, Post}
use exp.Peg.Runtime.Frame.Compose.{
  Follows-refl, Follows-trans, Ready-Follows, Post-on_end, Post-Follows,
}
use exp.Peg.Runtime.Frame.Moves.{restore-Follows, restore-offset}
use exp.Peg.Runtime.Frame.Stack.{push_v-live, Post-popping_v}

append_val-ne : (vs : Values) (v : Value) → ¬ (append_val vs v ≡ no_vals)
unfolding append_val
append_val-ne no_vals v z = cc
append_val-ne (Values.val w vs) v z = cc

abbrev pub Keeps : Env → Type 0 → Rec → Type 0
Keeps env Permitted rec =
    (e : Expr) (p : Parser)
    → WellBuilt env Permitted e
    → Ready env Permitted p
    → Post env Permitted p (rec e p)

module _ (env : Env) (Permitted : Type 0) (rec : Rec) (keeps : Keeps env Permitted rec) where
  pub pushed-Ready : (p : Parser) → Ready env Permitted p → Ready env Permitted (pushing_v env p)
  pushed-Ready p r = record {
    place = record { in_input = r.place.in_input; decoded = r.place.decoded };
    args = ([], p.vstack.live, push_v-live env p.vstack);
    built = r.built;
  }

  branch-Post :
      (p : Parser) (ok : Bool) (o o' : Outcome)
      → (ok ≡ true → Post env Permitted p o)
      → (ok ≡ false → Post env Permitted p o')
      → Post env Permitted p (elim ok [ true ↦ o | false ↦ o' ])
  branch-Post p true o o' h h' = h refl
  branch-Post p false o o' h h' = h' refl

  pub and-Post :
      (e : Expr) (p : Parser)
      → WellBuilt env Permitted e
      → Ready env Permitted p
      → Post env Permitted p (parse_and_expr env rec e p)
  unfolding parse_and_expr save
  and-Post e p b r =
      Post-on_end env Permitted p (rec e p) _ (keeps e p b r)
        λ v ok q f h. (restore-Follows env p q r.place f, λ _. restore-offset p.pt q)

  pub not-Post :
      (e : Expr) (p : Parser)
      → WellBuilt env Permitted e
      → Ready env Permitted p
      → Post env Permitted p (parse_not_expr env rec e p)
  unfolding parse_not_expr save
  not-Post e p b r =
      Post-on_end env Permitted p (rec e p) _ (keeps e p b r)
        λ v ok q f h. (restore-Follows env p q r.place f, λ _. restore-offset p.pt q)

  pub choice-Post :
      (es : Exprs) (p : Parser)
      → AllBuilt env Permitted es
      → Ready env Permitted p
      → Post env Permitted p (parse_choice_expr env rec es p)
  unfolding parse_choice_expr
  choice-Post Syntax.end p b r = (Follows-refl p r.place, λ _. refl)
  choice-Post (Syntax.more e es) p b r =
      Post-on_end env Permitted p (rec e (pushing_v env p)) _ (keeps e _ b.0 (pushed-Ready p r))
        λ v ok q f h.
          Post-popping_v env Permitted p p q
            (λ u. elim ok [ true ↦ ended v true u | false ↦ parse_choice_expr env rec es u ]) f
            λ vs kept g.
              let q' = record q { vstack = vs } in
              branch-Post p ok (ended v true q') (parse_choice_expr env rec es q')
                (λ e. (g, λ e. cc))
                λ e.
                  Post-Follows env Permitted (parse_choice_expr env rec es q') g (h e)
                    (choice-Post es q' b.1 (Ready-Follows env Permitted r g))

  pub seq_loop-Post :
      (es : Exprs) (vs : Values) (p q : Parser)
      → AllBuilt env Permitted es
      → Ready env Permitted p
      → Follows env p q
      → Post env Permitted p (seq_loop env rec p.pt es vs q)
  unfolding seq_loop
  seq_loop-Post Syntax.end vs p q b r f = (f, λ e. cc)
  seq_loop-Post (Syntax.more e es) vs p q b r f =
      Post-on_end env Permitted p (rec e q) _ (keeps e q b.0 (Ready-Follows env Permitted r f))
        λ v ok u g h.
          let fg = Follows-trans f g in
          branch-Post p ok (seq_loop env rec p.pt es (append_val vs v) u)
            (ended nil false (restore p.pt u))
            (λ _. seq_loop-Post es (append_val vs v) p u b.1 r fg)
            (λ _. (restore-Follows env p u r.place fg, λ _. restore-offset p.pt u))

  pub seq-Post :
      (es : Exprs) (p : Parser)
      → AllBuilt env Permitted es
      → Ready env Permitted p
      → Post env Permitted p (parse_seq_expr env rec es p)
  unfolding parse_seq_expr save
  seq-Post es p b r = seq_loop-Post es no_vals p p b r (Follows-refl p r.place)

  rounds-Post :
      (e : Expr) (stop : Values → Parser → Outcome) (n : ℕ) (vs : Values) (p q : Parser)
      → WellBuilt env Permitted e
      → Ready env Permitted p
      → Follows env p q
      → (vs ≡ no_vals → offset_of q ≡ offset_of p)
      → ((ws : Values) (u : Parser)
          → Follows env p u
          → (ws ≡ no_vals → offset_of u ≡ offset_of p)
          → Post env Permitted p (stop ws u))
      → Post env Permitted p (rounds env rec e stop n vs q)
  unfolding rounds
  rounds-Post e stop zero vs p q b r f first h = tt
  rounds-Post e stop (suc n) vs p q b r f first h =
      Post-on_end env Permitted p (rec e q) _ (keeps e q b (Ready-Follows env Permitted r f))
        λ v ok u g still.
          let fg = Follows-trans f g in
          branch-Post p ok (rounds env rec e stop n (append_val vs v) u) (stop vs u)
            (λ _.
              rounds-Post e stop n (append_val vs v) p u b r fg (λ z. absurd (append_val-ne vs v z))
                h)
            (λ no_match. h vs u fg λ z. still no_match ∙ first z)

  pub zero_or_more-Post :
      (e : Expr) (n : ℕ) (p : Parser)
      → WellBuilt env Permitted e
      → Ready env Permitted p
      → Post env Permitted p (parse_zero_or_more_expr env rec e n p)
  unfolding parse_zero_or_more_expr
  zero_or_more-Post e n p b r =
      rounds-Post e (stop_zero env) n no_vals p p b r (Follows-refl p r.place) (λ _. refl)
        λ ws u f h. (f, λ z. cc)

  stop_one-Post :
      (p : Parser) (ws : Values) (u : Parser)
      → Follows env p u
      → (ws ≡ no_vals → offset_of u ≡ offset_of p)
      → Post env Permitted p (stop_one env ws u)
  stop_one-Post p no_vals u f h = (f, λ _. h refl)
  stop_one-Post p (Values.val w ws) u f h = (f, λ z. cc)

  pub one_or_more-Post :
      (e : Expr) (n : ℕ) (p : Parser)
      → WellBuilt env Permitted e
      → Ready env Permitted p
      → Post env Permitted p (parse_one_or_more_expr env rec e n p)
  unfolding parse_one_or_more_expr
  one_or_more-Post e n p b r =
      rounds-Post e (stop_one env) n no_vals p p b r (Follows-refl p r.place) (λ _. refl)
        (stop_one-Post p)

  pub zero_or_one-Post :
      (e : Expr) (p : Parser)
      → WellBuilt env Permitted e
      → Ready env Permitted p
      → Post env Permitted p (parse_zero_or_one_expr env rec e p)
  unfolding parse_zero_or_one_expr
  zero_or_one-Post e p b r =
      Post-on_end env Permitted p (rec e p) _ (keeps e p b r) λ v ok q f h. (f, λ z. cc)
