-- ===== src/Peg/Runtime/Frame/Rules.antt =====
-- peg/builder/static_code.go: what a labeled expression, a rule and a reference to one keep.
use exp.Base.{
  ◌≡◌, refl, ◌∙◌, Bool, true, false, not, Option, none, some, List, [], ◌∷◌, ◌++◌, Text, text_eq,
  if◌then◌else◌, ◌&&◌, Bool-cases, codes, inl, inr,
}
use exp.Peg.Runtime.Syntax.{Position, Expr, Rule}
use exp.Peg.Runtime.State.{Value, nil, ArgMap, set_arg, VStack, Parser, Env, add_err}
use exp.Peg.Runtime.Matchers.{Outcome, ended}
use exp.Peg.Runtime.Engine.{
  Rec, pushing_v, with_top, popping_rule, parse_rule, store_label, put_label, parse_labeled_expr,
  parse_rule_ref_expr,
}
use exp.Peg.Runtime.Frame.{SameBelow, offset_of, Located, Follows, WellBuilt, Ready, Post}
use exp.Peg.Runtime.Frame.Compose.{Post-on_end}
use exp.Peg.Runtime.Frame.Moves.{add_err-Follows, add_err-offset}
use exp.Peg.Runtime.Frame.Runes.{Post-if}
use exp.Peg.Runtime.Frame.Containers.{Keeps, pushed-Ready}
use exp.Peg.Runtime.Frame.Stack.{push_v-live, Post-popping_v}

module _ (env : Env) (Permitted : Type 0) (rec : Rec) (keeps : Keeps env Permitted rec) where
  store-Post :
      (label : Text) (v : Value) (ok : Bool) (p q : Parser)
      → Ready env Permitted p
      → q.vstack.live ≡ p.vstack.live
      → Follows env p q
      → (ok ≡ false → offset_of q ≡ offset_of p)
      → Post env Permitted p
          (with_top env q.vstack.live q λ m. ended v ok (store_label env label v q))
  store-Post label v ok p q r kept f h =
      let (m, ms, e) = r.args in
      on_live (ended v ok (store_label env label v q)) (kept ∙ e) (
        record {
          input_kept = f.input_kept;
          filename_kept = f.filename_kept;
          rules_kept = f.rules_kept;
          rstack_kept = f.rstack_kept;
          below_kept = stored (kept ∙ e) e;
          located = record { in_input = f.located.in_input; decoded = f.located.decoded };
          onward = f.onward;
          appended = f.appended;
        },
        h,
      )
    where
      stored :
          {a b : List ArgMap} {m : ArgMap} {ms : List ArgMap}
          → a ≡ m ∷ ms
          → b ≡ m ∷ ms
          → SameBelow b (put_label a label v)
      stored {m} {ms} ea eb = rw (ea, eb) (set_arg m label v, refl)

      on_live :
          {a : List ArgMap} {m : ArgMap} {ms : List ArgMap} (o : Outcome)
          → a ≡ m ∷ ms
          → Post env Permitted p o
          → Post env Permitted p (with_top env a q λ m. o)
      on_live o ea y = rw (ea, with_top) y

  pub labeled-Post :
      (label : Text) (e : Expr) (p : Parser)
      → WellBuilt env Permitted e
      → Ready env Permitted p
      → Post env Permitted p (parse_labeled_expr env rec label e p)
  unfolding parse_labeled_expr
  labeled-Post label e p b r =
      Post-on_end env Permitted p (rec e (pushing_v env p)) _
        (keeps e _ b (pushed-Ready env Permitted rec keeps p r))
        λ v ok q f h.
          Post-popping_v env Permitted p p q
            (λ u.
              let stored =
                with_top env u.vstack.live u λ m. ended v ok (store_label env label v u) in
              if ok && not (text_eq label []) then stored else ended v ok u)
            f
            λ vs kept g.
              let q' = record q { vstack = vs } in
              Post-if env Permitted p (ok && not (text_eq label []))
                (with_top env vs.live q' λ m. ended v ok (store_label env label v q'))
                (ended v ok q') (store-Post label v ok p q' r kept g h) (g, h)

  -- `rstack` behind a rule: its top is taken off.
  unstacked :
      (p q : Parser) (vs : VStack) (v : Value) (ok : Bool) (stack : List Rule) {rule : Rule}
      → stack ≡ rule ∷ p.rstack
      → Follows env (record p { rstack = rule ∷ p.rstack }) (record q { vstack = vs })
      → (ok ≡ false → offset_of q ≡ offset_of p)
      → Post env Permitted p (popping_rule env stack (record q { vstack = vs }) λ w. ended v ok w)
  unstacked p q vs v ok stack e g h = rw e (
    record {
      input_kept = g.input_kept;
      filename_kept = g.filename_kept;
      rules_kept = g.rules_kept;
      rstack_kept = refl;
      below_kept = g.below_kept;
      located = record { in_input = g.located.in_input; decoded = g.located.decoded };
      onward = g.onward;
      appended = g.appended;
    },
    h,
  )

  -- A rule asks nothing of the stack, and gives both stacks back as they were.
  pub rule-Post :
      (rule : Rule) (p : Parser)
      → WellBuilt env Permitted rule.expr
      → Located env p
      → ((name : Text) (r : Rule) → p.rules name ≡ some r → WellBuilt env Permitted r.expr)
      → Post env Permitted p (parse_rule env rec rule p)
  unfolding parse_rule
  rule-Post rule p b l built =
      let p₁ = record p { rstack = rule ∷ p.rstack } in
      let ready : Ready env Permitted (pushing_v env p₁) = record {
        place = record { in_input = l.in_input; decoded = l.decoded };
        args = ([], p.vstack.live, push_v-live env p.vstack);
        built = built;
      } in
      Post-on_end env Permitted p (rec rule.expr (pushing_v env p₁)) _ (keeps rule.expr _ b ready)
        λ v ok q f h.
          Post-popping_v env Permitted p p₁ q (λ u. popping_rule env u.rstack u λ w. ended v ok w) f
            λ vs kept g. unstacked p q vs v ok (record q { vstack = vs }).rstack g.rstack_kept g h

  -- `p.rules[ref.name]`
  found-Post :
      (name : Text) (p : Parser) (o : Option Rule)
      → p.rules name ≡ o
      → Ready env Permitted p
      → Post env Permitted p (elim o [
        | none ↦ ended nil false (add_err env (codes "undefined rule: " ++ name) p)
        | some rule ↦ parse_rule env rec rule p
      ])
  found-Post name p none e r = (add_err-Follows env _ p r.place, λ _. add_err-offset env _ p)
  found-Post name p (some rule) e r = rule-Post rule p (r.built name rule e) r.place r.built

  pub rule_ref-Post :
      (name : Text) (p : Parser) (pos : Position)
      → (text_eq name [] ≡ true → Permitted)
      → Ready env Permitted p
      → Post env Permitted p (parse_rule_ref_expr env rec pos name p)
  unfolding parse_rule_ref_expr
  rule_ref-Post name p pos named r = elim (Bool-cases (text_eq name [])) [
    | inl unnamed ↦ rw unnamed (named unnamed)
    | inr fine ↦ rw fine (found-Post name p (p.rules name) refl r)
  ]
