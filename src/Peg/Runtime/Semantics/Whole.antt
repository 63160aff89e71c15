-- ===== src/Peg/Runtime/Semantics/Whole.antt =====
-- peg/builder/static_code.go: `parse` against the relation of parsing expressions.
use exp.Base.{
  ℕ, ◌≡◌, refl, Option, none, some, List, [], ◌∷◌, Text, arith, if-All, codes, ◌==◌, ◌&&◌, ltb,
}
use exp.Peg.Runtime.Syntax.{Rule, Grammar}
use exp.Peg.Runtime.State.{
  Value, Parser, Env, DecodesUtf8, next_savepoint, read, build_rules_table, add_err, rune_error,
}
use exp.Peg.Runtime.Engine.{parse_expr}
use exp.Peg.Runtime.Parse.{finished, new_parser, parse}
use exp.Peg.Runtime.Parse.Verdict.{started, parse-no_error}
use exp.Peg.Runtime.Semantics.{Parses}
use exp.Peg.Runtime.Semantics.At.{At, At-add_err}
use exp.Peg.Runtime.Semantics.Labels.{rule-Means}
use exp.Peg.Runtime.Semantics.Sound.{parse_expr-Sounds}

-- The rules of a grammar by their names.
abbrev pub table : List Rule → Text → Option Rule
table rules = build_rules_table rules (λ k. none)

module _ (env : Env) (d : DecodesUtf8 env) where
  At-started :
      (filename input : Text) (rules : List Rule)
      → At env d input (table rules) 0 (started env filename input rules)
  unfolding read new_parser next_savepoint
  At-started filename input rules =
      let p : Parser = record (new_parser env filename input) { rules = table rules } in
      let q : Parser = record p { pt = next_savepoint env input p.pt } in
      let a : At env d input (table rules) 0 q = record {
        input_is = refl;
        rules_are = refl;
        offset_is = omega arith;
        located = record { in_input = omega arith; decoded = refl };
      } in
      let t = codes "invalid encoding" in
      if-All (At env d input (table rules) 0) (q.pt.rn == rune_error && ltb 0 q.pt.w)
        (add_err env t q) q (λ h. At-add_err env d input (table rules) 0 t q a) (λ h. a)

-- If `parse` returns without an error, and runes are decoded as `utf8.DecodeRune` documents it, then
-- the grammar has a rule, and the relation of parsing expressions, on the input and the rules of
-- the grammar, lets the first rule match at the beginning of the input.
pub parse-Parses :
    (env : Env) (fuel : ℕ) (filename input : Text) (g : Grammar) (v : Value)
    → DecodesUtf8 env
    → parse env fuel filename input g ≡ finished v []
    → (r : Rule) × (rs : List Rule) × (o : ℕ) × (g.rules ≡ r ∷ rs)
      × Parses env input (table g.rules) r.expr 0 (some o)
parse-Parses env fuel filename input g v d h =
    let (r, rs, p, e, run, clean) = parse-no_error env fuel filename input g v h in
    let means =
      rule-Means env d input (table g.rules) (parse_expr env fuel)
        (parse_expr-Sounds env d input (table g.rules) fuel) r 0
        (started env filename input g.rules) (Parses env input (table g.rules) r.expr 0)
        (At-started env d filename input g.rules) (λ w m. m) in
    let (o, at, m) = rw run at means in (r, rs, o, e, m)
