-- ===== src/Peg/Runtime/Semantics/Labels.antt =====
-- peg/builder/static_code.go: labels, actions and references against the relation.
use exp.Base.{
  ℕ, ◌≡◌, refl, sym, ◌∙◌, ap, true, false, not, Option, none, some, [], ◌∷◌, ◌++◌, Text, text_eq,
  if◌then◌else◌, if-All, codes,
}
use exp.Peg.Runtime.Syntax
use exp.Peg.Runtime.Syntax.{Position, CharClassMatcher, LitMatcher, Expr, Exprs, Rule}
use exp.Peg.Runtime.State.{
  Value, nil, Current, Parser, Env, DecodesUtf8, save, add_err, add_err_at, slice,
}
use exp.Peg.Runtime.Matchers.{Outcome, ended}
use exp.Peg.Runtime.Engine.{
  Rec, note, sliced, store_label, popping_rule, pushing_v, with_top, parse_rule, parse_labeled_expr,
  parse_action_expr, parse_rule_ref_expr,
}
use exp.Peg.Runtime.Semantics
use exp.Peg.Runtime.Semantics.{Parses}
use exp.Peg.Runtime.Semantics.{
  rune_at, behind, literal_result, class_end, Parses, Repeats, ParsesAll, ParsesAny,
}
use exp.Peg.Runtime.Semantics.At.{
  At, Means, Means-on_end, At-other, Means-popping, Means-top, Means-rule, Means-running, At-note,
  At-add_err_at, At-add_err, Allows, Sounds,
}

module _ (env : Env) (d : DecodesUtf8 env) (input : Text) (rules : Text → Option Rule) where
  module _ (rec : Rec) (sounds : Sounds env d input rules rec) where
    pushed-At :
        (o : ℕ) (p : Parser) → At env d input rules o p → At env d input rules o (pushing_v env p)
    pushed-At o p a =
        At-other env d input rules o p (pushing_v env p).vstack p.rstack p.cur p.errs a

    pub labeled-Means :
        (pos : Position) (label : Text) (e : Expr) (o : ℕ) (p : Parser)
        → At env d input rules o p
        → Means env d input rules o
            (Allows env d input rules (Syntax.labeled_expr pos label e) o)
            (parse_labeled_expr env rec label e p)
    unfolding parse_labeled_expr
    labeled-Means pos label e o p a =
        let R = Allows env d input rules (Syntax.labeled_expr pos label e) o in
        Means-on_end env d input rules o o R (Allows env d input rules e o)
          (rec e (pushing_v env p)) _ (sounds e o _ (pushed-At o p a))
          (λ v q o' b g. Means-popping env d input rules o o' R q _ b (stored v o' g))
          (λ v q b g.
            Means-popping env d input rules o o R q (λ u. ended v false u) b
              λ u c. (c, Semantics.labeled g))
      where
        stored :
            (v : Value) (o' : ℕ)
            → Allows env d input rules e o (some o')
            → (u : Parser) → At env d input rules o' u
            → Means env d input rules o
                (Allows env d input rules (Syntax.labeled_expr pos label e) o)
                (if not (text_eq label [])
                  then (with_top env u.vstack.live u λ m. ended v true (store_label env label v u))
                  else ended v true u)
        stored v o' g u c =
            let R = Allows env d input rules (Syntax.labeled_expr pos label e) o in
            if-All (Means env d input rules o R) (not (text_eq label [])) _ _
              (λ h.
                Means-top env d input rules o R u.vstack.live u
                  (λ m. ended v true (store_label env label v u))
                  λ m. (
                    o',
                    At-other env d input rules o' u (store_label env label v u).vstack u.rstack
                        u.cur u.errs c,
                    Semantics.labeled g,
                  ))
              (λ h. (o', c, Semantics.labeled g))

    Means-sliced :
        (o : ℕ) (R : Option ℕ → Type 0) (p : Parser) (r : Option Text) (k : Text → Outcome)
        → ((text : Text) → Means env d input rules o R (k text))
        → Means env d input rules o R (sliced env r p k)
    Means-sliced o R p none k m = tt
    Means-sliced o R p (some text) k m = m text

    pub action-Means :
        (pos : Position) (e : Expr) (run o : ℕ) (p : Parser)
        → At env d input rules o p
        → Means env d input rules o
            (Allows env d input rules (Syntax.action_expr pos e run) o)
            (parse_action_expr env rec e run p)
    unfolding parse_action_expr save
    action-Means pos e run o p a =
        let R = Allows env d input rules (Syntax.action_expr pos e run) o in
        Means-on_end env d input rules o o R (Allows env d input rules e o) (rec e p) _
          (sounds e o p a)
          (λ v q o' b g. Means-sliced o R q (slice q p.pt.position q.pt.position) _ λ text.
            let cur : Current = record { pos = p.pt.position; text = text } in
            Means-running env d input rules (env.run_action run) o o' R (record q { cur = cur })
              (λ v' e u. ended v' true (note (λ t. add_err_at env t p.pt.position) e u))
              (At-other env d input rules o' q q.vstack q.rstack cur q.errs b)
              λ v' e u c. (
                o',
                At-note env d input rules o' (λ t. add_err_at env t p.pt.position) e u c
                    (λ t. At-add_err_at env d input rules o' t p.pt.position u c),
                Semantics.action g,
              ))
          (λ v q b g. (b, Semantics.action g))

    -- A rule gives what its expression gives.
    pub rule-Means :
        (rule : Rule) (o : ℕ) (p : Parser) (R : Option ℕ → Type 0)
        → At env d input rules o p
        → ((r : Option ℕ) → Parses env input rules rule.expr o r → R r)
        → Means env d input rules o R (parse_rule env rec rule p)
    unfolding parse_rule
    rule-Means rule o p R a h =
        let p' : Parser = record p { rstack = rule ∷ p.rstack } in
        Means-on_end env d input rules o o R (Allows env d input rules rule.expr o)
          (rec rule.expr (pushing_v env p')) _
          (sounds rule.expr o _
            (pushed-At o p' (At-other env d input rules o p p.vstack p'.rstack p.cur p.errs a)))
          (λ v q o' b g.
            Means-popping env d input rules o o' R q
              (λ u. popping_rule env u.rstack u λ t. ended v true t) b
              λ u c.
                Means-rule env d input rules o o' R u.rstack u (λ t. ended v true t) c
                  λ t l. (o', l, h (some o') g))
          (λ v q b g.
            Means-popping env d input rules o o R q
              (λ u. popping_rule env u.rstack u λ t. ended v false t) b
              λ u c.
                Means-rule env d input rules o o R u.rstack u (λ t. ended v false t) c
                  λ t l. (l, h none g))

    pub rule_ref-Means :
        (pos : Position) (name : Text) (o : ℕ) (p : Parser)
        → At env d input rules o p
        → Means env d input rules o
            (Allows env d input rules (Syntax.rule_ref_expr pos name) o)
            (parse_rule_ref_expr env rec pos name p)
    unfolding parse_rule_ref_expr
    rule_ref-Means pos name o p a =
        if-All (Means env d input rules o R) (text_eq name []) _ _ (λ h. tt)
          (λ h. found (p.rules name) refl)
      where
        R : Option ℕ → Type 0
        R = Allows env d input rules (Syntax.rule_ref_expr pos name) o

        found :
            (r : Option Rule)
            → p.rules name ≡ r
            → Means env d input rules o R (elim r [
              | none ↦ ended nil false (add_err env (codes "undefined rule: " ++ name) p)
              | some rule ↦ parse_rule env rec rule p
            ])
        found none h = (
          At-add_err env d input rules o (codes "undefined rule: " ++ name) p a,
          Semantics.undefined_rule (ap (λ (f : Text → Option Rule). f name) (sym a.rules_are) ∙ h),
        )
        found (some rule) h =
            let k = ap (λ (f : Text → Option Rule). f name) (sym a.rules_are) ∙ h in
            rule-Means rule o p R a (λ r g. Semantics.reference k g)
