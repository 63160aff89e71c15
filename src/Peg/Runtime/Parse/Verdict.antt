-- ===== src/Peg/Runtime/Parse/Verdict.antt =====
-- peg/builder/static_code.go: what a parse without an error says.
use exp.Base.{ℕ, ◌≡◌, ◌≢◌, refl, ap, true, false, none, List, [], ◌∷◌, ◌++◌, Text, arith}
use exp.Peg.Runtime.Syntax.{Rule, Grammar}
use exp.Peg.Runtime.Errors.{ParserError, ErrList, add, err, dedupe}
use exp.Peg.Runtime.State.{Value, nil, Parser, Env, add_err, read, build_rules_table}
use exp.Peg.Runtime.Matchers.{Outcome, ended, panicked, out_of_fuel}
use exp.Peg.Runtime.Frame.Moves.{reading-All}
use exp.Peg.Runtime.Engine.{parse_rule, parse_expr}
use exp.Peg.Runtime.Parse.{finished, no_match, concluded, run_rules, new_parser, parse}

err-empty : (es : ErrList) → err es ≡ [] → es ≡ []
unfolding err dedupe
err-empty [] h = refl
err-empty (e ∷ es) h = cc

add-not_empty : (es : ErrList) (e : ParserError) → es ++ e ∷ [] ≢ []
add-not_empty [] e h = cc
add-not_empty (x ∷ es) e h = cc

finished-value :
    (v w : Value) (es fs : ErrList) → finished v es ≡ finished w fs → (v ≡ w) × (es ≡ fs)
finished-value v w es fs h = (cc, cc)

module _ (env : Env) where
  add_err-not_empty : (t : Text) (p : Parser) → (add_err env t p).errs ≢ []
  unfolding add_err add
  add_err-not_empty t p h = add-not_empty p.errs _ h

  no_match-not_empty : (es : ErrList) (p : Parser) → no_match env es p ≢ []
  no_match-not_empty [] p h = add_err-not_empty _ p h
  no_match-not_empty (e ∷ es) p h = cc

  concluded-no_error :
      (o : Outcome) (v : Value)
      → concluded env o ≡ finished v []
      → (p : Parser) × (o ≡ ended v true p) × (p.errs ≡ [])
  unfolding concluded
  concluded-no_error (ended w true p) v h =
      let (same, none_left) = finished-value w v (err p.errs) [] h in
      (p, ap (λ x. ended x true p) same, err-empty p.errs none_left)
  concluded-no_error (ended w false p) v h =
      absurd (no_match-not_empty p.errs p (err-empty _ (finished-value nil v _ [] h).1))
  concluded-no_error (panicked e p) v h =
      absurd (add_err-not_empty e p (err-empty _ (finished-value nil v _ [] h).1))
  concluded-no_error out_of_fuel v h = cc

  -- The parser with the table of the rules, at the first rune.
  abbrev pub started : Text → Text → List Rule → Parser
  started filename input rules =
      read env
        (record (new_parser env filename input) { rules = build_rules_table rules (λ k. none) })

  -- If `parse` returns without an error, then the grammar has a rule, the first one matched at the
  -- beginning of the input without a panic and with that value, and the list of errors was empty
  -- behind it.
  pub parse-no_error :
      (fuel : ℕ) (filename input : Text) (g : Grammar) (v : Value)
      → parse env fuel filename input g ≡ finished v []
      → (r : Rule) × (rs : List Rule) × (p : Parser) × (g.rules ≡ r ∷ rs)
        × (parse_rule env (parse_expr env fuel) r (started filename input g.rules) ≡ ended v true p)
        × (p.errs ≡ [])
  unfolding parse run_rules new_parser
  parse-no_error fuel filename input g v h = by_rules g.rules h
    where
      by_rules :
          (rules : List Rule)
          → run_rules env fuel rules (new_parser env filename input) ≡ finished v []
          → (r : Rule) × (rs : List Rule) × (p : Parser) × (rules ≡ r ∷ rs)
            × (parse_rule env (parse_expr env fuel) r (started filename input rules)
                ≡ ended v true p)
            × (p.errs ≡ [])
      by_rules [] h' = absurd (add_err-not_empty _ _ (err-empty _ (finished-value nil v _ [] h').1))
      by_rules (r ∷ rs) h' =
          let table = build_rules_table (r ∷ rs) (λ k. none) in
          let start : Parser = record (new_parser env filename input) { rules = table } in
          let run = parse_rule env (parse_expr env fuel) r in
          let (p, e, clean) = concluded-no_error (run (read env start)) v (
            reading-All env
              (λ o.
                concluded env o ≡ finished v []
                → concluded env (run (read env start)) ≡ finished v [])
              start run (omega arith) (λ x. x) h') in
          (r, rs, p, refl, e, clean)
