-- ===== src/Peg/Runtime/Engine.antt =====
-- peg/builder/static_code.go: the expressions that contain others, and the entry points.
-- Each is a function of `rec`, the parser of expressions, and the knot is tied by fuel at the end.
use exp.Base.{
  ℕ, zero, suc, true, false, not, Option, none, some, List, [], ◌∷◌, ◌++◌, Text, codes, text_eq,
  if◌then◌else◌, ◌&&◌,
}
use exp.Peg.Runtime.Syntax
use exp.Peg.Runtime.Syntax.{Position, Expr, Exprs, Rule}
use exp.Peg.Runtime.State.{
  Value, nil, vals, Values, no_vals, append_val, ArgMap, set_arg, Current, Savepoint, Parser, Ran,
  returned, ran_panic, Env, push_v, pop_v, add_err_at, add_err, save, restore, slice,
  position_string,
}
use exp.Peg.Runtime.Matchers.{
  Outcome, ended, panicked, out_of_fuel, on_end, parse_any_matcher, parse_char_class_matcher,
  parse_lit_matcher,
}

abbrev pub Rec : Type 0
Rec = Expr → Parser → Outcome

-- A note of the error that a code block returned, if any.
abbrev pub note : (Text → Parser → Parser) → Option Text → Parser → Parser
note add none p = p
note add (some e) p = add e p

abbrev pub put_label : List ArgMap → Text → Value → List ArgMap
put_label [] label v = []
put_label (m ∷ ms) label v = set_arg m label v ∷ ms

module _ (env : Env) where
  abbrev pub pushing_v : Parser → Parser
  pushing_v p = record p { vstack = push_v env p.vstack }

  -- `popV`, then the rest of the caller.
  abbrev pub popping_v : Parser → (Parser → Outcome) → Outcome
  popping_v p k = elim (pop_v p.vstack) [
    | none ↦ panicked env.index_panic p
    | some vs ↦ k (record p { vstack = vs })
  ]

  -- `p.vstack[len(p.vstack)-1]`, then the rest of the caller.
  abbrev pub with_top : List ArgMap → Parser → (ArgMap → Outcome) → Outcome
  with_top [] p k = panicked env.index_panic p
  with_top (m ∷ ms) p k = k m

  -- `p.rstack = p.rstack[:len(p.rstack)-1]`, then the rest of the caller.
  abbrev pub popping_rule : List Rule → Parser → (Parser → Outcome) → Outcome
  popping_rule [] p k = panicked env.index_panic p
  popping_rule (r ∷ rs) p k = k (record p { rstack = rs })

  unfoldable pub parse_rule : Rec → Rule → Parser → Outcome
  parse_rule rec rule p =
      on_end (rec rule.expr (pushing_v (record p { rstack = rule ∷ p.rstack })))
        λ v ok p₁. popping_v p₁ λ p₂. popping_rule p₂.rstack p₂ λ p₃. ended v ok p₃

  -- The generated `call…` reads the top map and calls the code on `p.cur`.
  abbrev pub running {ℓ} :
      {A : Type ℓ}
      → (Current → ArgMap → Ran A)
      → Parser
      → (A → Option Text → Parser → Outcome)
      → Outcome
  running code p k = with_top p.vstack.live p λ args. elim (code p.cur args) [
    | returned a e cur ↦ k a e (record p { cur = cur })
    | ran_panic e ↦ panicked e p
  ]

  -- A slice of the input, then the rest of the caller.
  abbrev pub sliced : Option Text → Parser → (Text → Outcome) → Outcome
  sliced none p k = panicked env.slice_panic p
  sliced (some text) p k = k text

  unfoldable pub parse_action_expr : Rec → Expr → ℕ → Parser → Outcome
  parse_action_expr rec expr run p =
      let start = save p in
      on_end (rec expr p) λ v ok p₁.
        let acted = sliced (slice p₁ start.position (save p₁).position) p₁ λ text.
          let p₂ = record p₁ { cur = record { pos = start.position; text = text } } in
          running (env.run_action run) p₂
            λ v' e p₃. ended v' ok (note (λ t. add_err_at env t start.position) e p₃) in
        if ok then acted else ended v ok p₁

  unfoldable pub parse_and_code_expr : ℕ → Parser → Outcome
  parse_and_code_expr run p =
      running (env.run_pred run) p λ ok e p₁. ended nil ok (note (add_err env) e p₁)

  unfoldable pub parse_not_code_expr : ℕ → Parser → Outcome
  parse_not_code_expr run p =
      running (env.run_pred run) p λ ok e p₁. ended nil (not ok) (note (add_err env) e p₁)

  unfoldable pub parse_and_expr : Rec → Expr → Parser → Outcome
  parse_and_expr rec expr p =
      let pt = save p in on_end (rec expr p) λ v ok p₁. ended nil ok (restore pt p₁)

  unfoldable pub parse_not_expr : Rec → Expr → Parser → Outcome
  parse_not_expr rec expr p =
      let pt = save p in on_end (rec expr p) λ v ok p₁. ended nil (not ok) (restore pt p₁)

  unfoldable pub parse_choice_expr : Rec → Exprs → Parser → Outcome
  parse_choice_expr rec Syntax.end p = ended nil false p
  parse_choice_expr rec (Syntax.more alt alts) p = on_end (rec alt (pushing_v p)) λ v ok p₁.
      popping_v p₁ λ p₂. elim ok [ true ↦ ended v true p₂ | false ↦ parse_choice_expr rec alts p₂ ]

  -- The write of a label into the top map.
  abbrev pub store_label : Text → Value → Parser → Parser
  store_label label v p = record p {
    vstack = record (p.vstack) { live = put_label p.vstack.live label v };
  }

  unfoldable pub parse_labeled_expr : Rec → Text → Expr → Parser → Outcome
  parse_labeled_expr rec label expr p = on_end (rec expr (pushing_v p)) λ v ok p₁.
      popping_v p₁ λ p₂.
        let stored = with_top p₂.vstack.live p₂ λ m. ended v ok (store_label label v p₂) in
        if ok && not (text_eq label []) then stored else ended v ok p₂

  -- The loop of `parseSeqExpr`; `pt` is the place to go back to.
  unfoldable pub seq_loop : Rec → Savepoint → Exprs → Values → Parser → Outcome
  seq_loop rec pt Syntax.end vs p = ended (vals vs) true p
  seq_loop rec pt (Syntax.more expr exprs) vs p = on_end (rec expr p) λ v ok p₁. elim ok [
    | true ↦ seq_loop rec pt exprs (append_val vs v) p₁
    | false ↦ ended nil false (restore pt p₁)
  ]

  unfoldable pub parse_seq_expr : Rec → Exprs → Parser → Outcome
  unfolding seq_loop
  parse_seq_expr rec exprs p = seq_loop rec (save p) exprs no_vals p

  -- The loop of `parseZeroOrMoreExpr` and of `parseOneOrMoreExpr`, which differ in what they do
  -- once the expression does not match.
  unfoldable pub rounds : Rec → Expr → (Values → Parser → Outcome) → ℕ → Values → Parser → Outcome
  rounds rec expr stop zero vs p = out_of_fuel
  rounds rec expr stop (suc f) vs p =
      on_end (rec expr p) λ v ok p₁. elim ok [
        | true ↦ rounds rec expr stop f (append_val vs v) p₁
        | false ↦ stop vs p₁
      ]

  abbrev pub stop_zero : Values → Parser → Outcome
  stop_zero vs p = ended (vals vs) true p

  abbrev pub stop_one : Values → Parser → Outcome
  stop_one no_vals p = ended nil false p
  stop_one (Values.val v vs) p = ended (vals (Values.val v vs)) true p

  unfoldable pub parse_zero_or_more_expr : Rec → Expr → ℕ → Parser → Outcome
  unfolding rounds
  parse_zero_or_more_expr rec expr f p = rounds rec expr stop_zero f no_vals p

  unfoldable pub parse_one_or_more_expr : Rec → Expr → ℕ → Parser → Outcome
  unfolding rounds
  parse_one_or_more_expr rec expr f p = rounds rec expr stop_one f no_vals p

  unfoldable pub parse_zero_or_one_expr : Rec → Expr → Parser → Outcome
  parse_zero_or_one_expr rec expr p = on_end (rec expr p) λ v ok p₁. ended v true p₁

  -- The panic message of a reference without a name takes the reference's position.
  unfoldable pub parse_rule_ref_expr : Rec → Position → Text → Parser → Outcome
  unfolding parse_rule
  parse_rule_ref_expr rec pos name p =
      let found : Outcome = elim (p.rules name) [
        | none ↦ ended nil false (add_err env (codes "undefined rule: " ++ name) p)
        | some rule ↦ parse_rule rec rule p
      ] in
      if text_eq name []
      then panicked (position_string env pos ++ codes ": invalid rule: missing name") p
      else found

  -- `parseExpr`: the type switch.
  unfoldable pub dispatch : Rec → ℕ → Expr → Parser → Outcome
  unfolding parse_action_expr parse_and_code_expr parse_and_expr parse_choice_expr
      parse_labeled_expr parse_not_code_expr parse_not_expr parse_one_or_more_expr
      parse_rule_ref_expr parse_seq_expr parse_zero_or_more_expr parse_zero_or_one_expr
      parse_any_matcher parse_char_class_matcher parse_lit_matcher
  dispatch rec f (Syntax.action_expr pos expr run) p = parse_action_expr rec expr run p
  dispatch rec f (Syntax.and_code_expr pos run) p = parse_and_code_expr run p
  dispatch rec f (Syntax.and_expr pos expr) p = parse_and_expr rec expr p
  dispatch rec f (Syntax.any_matcher pos) p = parse_any_matcher env p
  dispatch rec f (Syntax.char_class_matcher chr) p = parse_char_class_matcher env chr p
  dispatch rec f (Syntax.choice_expr pos alts) p = parse_choice_expr rec alts p
  dispatch rec f (Syntax.labeled_expr pos label expr) p = parse_labeled_expr rec label expr p
  dispatch rec f (Syntax.lit_matcher lit) p = parse_lit_matcher env lit p
  dispatch rec f (Syntax.not_code_expr pos run) p = parse_not_code_expr run p
  dispatch rec f (Syntax.not_expr pos expr) p = parse_not_expr rec expr p
  dispatch rec f (Syntax.one_or_more_expr pos expr) p = parse_one_or_more_expr rec expr f p
  dispatch rec f (Syntax.rule_ref_expr pos name) p = parse_rule_ref_expr rec pos name p
  dispatch rec f (Syntax.seq_expr pos exprs) p = parse_seq_expr rec exprs p
  dispatch rec f (Syntax.zero_or_more_expr pos expr) p = parse_zero_or_more_expr rec expr f p
  dispatch rec f (Syntax.zero_or_one_expr pos expr) p = parse_zero_or_one_expr rec expr p
  dispatch rec f (Syntax.unknown type_name) p =
      panicked (codes "unknown expression type " ++ type_name) p

  -- Fuel bounds the depth of the calls and the rounds of each loop.
  unfoldable pub parse_expr : ℕ → Expr → Parser → Outcome
  unfolding dispatch
  parse_expr zero expr p = out_of_fuel
  parse_expr (suc f) expr p = dispatch (parse_expr f) f expr p
