-- ===== src/Peg/Runtime/Semantics/Sound.antt =====
-- peg/builder/static_code.go: the parser against the relation of parsing expressions.
use exp.Base.{ℕ, zero, suc, ◌≡◌, refl, Bool, true, false, Option, none, some, [], Text}
use exp.Peg.Runtime.Syntax
use exp.Peg.Runtime.Syntax.{Position, CharClassMatcher, LitMatcher, Expr, Exprs, Rule}
use exp.Peg.Runtime.State.{Value, no_vals, Parser, Env, DecodesUtf8, save}
use exp.Peg.Runtime.Matchers.{ended, parse_lit_matcher}
use exp.Peg.Runtime.Engine.{Rec, dispatch, parse_expr, parse_seq_expr}
use exp.Peg.Runtime.Frame.{offset_of, Located}
use exp.Peg.Runtime.Semantics
use exp.Peg.Runtime.Semantics.{
  rune_at, behind, literal_result, class_end, Parses, Repeats, ParsesAll, ParsesAny,
}
use exp.Peg.Runtime.Semantics.At.{Means, Allows, Sounds}
use exp.Peg.Runtime.Semantics.Leaves.{
  any-Means, class-Means, lit_loop-Means, and_code-Means, not_code-Means,
}
use exp.Peg.Runtime.Semantics.Loops.{
  and-Means, not-Means-expr, choice-Means, seq_loop-Means, zero_or_more-Means, one_or_more-Means,
  zero_or_one-Means,
}
use exp.Peg.Runtime.Semantics.Labels.{labeled-Means, action-Means, rule_ref-Means}

module _ (env : Env) (d : DecodesUtf8 env) (input : Text) (rules : Text → Option Rule) where
  dispatch-Means :
      (rec : Rec)
      → Sounds env d input rules rec
      → (f : ℕ) → Sounds env d input rules (dispatch env rec f)
  unfolding dispatch parse_seq_expr save parse_lit_matcher
  dispatch-Means rec s f (Syntax.action_expr pos e run) o p a =
      action-Means env d input rules rec s pos e run o p a
  dispatch-Means rec s f (Syntax.and_code_expr pos run) o p a =
      and_code-Means env d input rules pos run o p a
  dispatch-Means rec s f (Syntax.and_expr pos e) o p a =
      and-Means env d input rules rec s pos e o p a
  dispatch-Means rec s f (Syntax.any_matcher pos) o p a = any-Means env d input rules pos o p a
  dispatch-Means rec s f (Syntax.char_class_matcher chr) o p a =
      class-Means env d input rules chr o p a
  dispatch-Means rec s f (Syntax.choice_expr pos es) o p a =
      choice-Means env d input rules rec s es o p
        (Allows env d input rules (Syntax.choice_expr pos es) o) a (λ r h. Semantics.choice h)
  dispatch-Means rec s f (Syntax.labeled_expr pos label e) o p a =
      labeled-Means env d input rules rec s pos label e o p a
  dispatch-Means rec s f (Syntax.lit_matcher lit) o p a =
      lit_loop-Means env d input rules lit.ignore_case lit.val [] o o p p
        (Allows env d input rules (Syntax.lit_matcher lit) o) a a Semantics.literal
  dispatch-Means rec s f (Syntax.not_code_expr pos run) o p a =
      not_code-Means env d input rules pos run o p a
  dispatch-Means rec s f (Syntax.not_expr pos e) o p a =
      not-Means-expr env d input rules rec s pos e o p a
  dispatch-Means rec s f (Syntax.one_or_more_expr pos e) o p a =
      one_or_more-Means env d input rules rec s pos e f o p a
  dispatch-Means rec s f (Syntax.rule_ref_expr pos name) o p a =
      rule_ref-Means env d input rules rec s pos name o p a
  dispatch-Means rec s f (Syntax.seq_expr pos es) o p a =
      seq_loop-Means env d input rules rec s es no_vals o o p p
        (Allows env d input rules (Syntax.seq_expr pos es) o) a a (λ r h. Semantics.sequence h)
  dispatch-Means rec s f (Syntax.zero_or_more_expr pos e) o p a =
      zero_or_more-Means env d input rules rec s pos e f o p a
  dispatch-Means rec s f (Syntax.zero_or_one_expr pos e) o p a =
      zero_or_one-Means env d input rules rec s pos e o p a
  dispatch-Means rec s f (Syntax.unknown t) o p a = tt

  pub parse_expr-Sounds : (f : ℕ) → Sounds env d input rules (parse_expr env f)
  unfolding parse_expr
  parse_expr-Sounds zero e o p a = tt
  parse_expr-Sounds (suc f) e o p a =
      dispatch-Means (parse_expr env f) (parse_expr-Sounds f) f e o p a

-- What a run ends with, in the terms of the relation.
abbrev pub result_of : Bool → Parser → Option ℕ
result_of true p = some (offset_of p)
result_of false p = none

-- The parser implements parsing expressions: with runes decoded as `utf8.DecodeRune` documents it,
-- if `parseExpr` returns from a place in the input, then the relation of parsing expressions, on this
-- input and the parser's rules, relates the expression and the offset where it began to the offset
-- behind the match, or to none if it did not match. What the predicates of code blocks say is open
-- in the relation.
pub parse_expr-Parses :
    (env : Env) (f : ℕ) (e : Expr) (p p' : Parser) (v : Value) (ok : Bool)
    → DecodesUtf8 env
    → Located env p
    → parse_expr env f e p ≡ ended v ok p'
    → Parses env p.input p.rules e (offset_of p) (result_of ok p')
parse_expr-Parses env f e p p' v ok d l h = go ok (
    rw h at (
      parse_expr-Sounds env d p.input p.rules f e (offset_of p) p
        (record { input_is = refl; rules_are = refl; offset_is = refl; located = l })))
  where
    go :
        (ok : Bool)
        → Means env d p.input p.rules
            (offset_of p)
            (Parses env p.input p.rules e (offset_of p))
            (ended v ok p')
        → Parses env p.input p.rules e (offset_of p) (result_of ok p')
    go true (o', a, r) = rw a.offset_is r
    go false (a, r) = r
