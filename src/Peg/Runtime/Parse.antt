-- ===== src/Peg/Runtime/Parse.antt =====
-- peg/builder/static_code.go: the entry points `Parse`, `parse` and `(*parser).parse`.
pub mod Verdict
use exp.Base.{ℕ, true, false, none, List, [], ◌∷◌, Text, codes}
use exp.Peg.Runtime.Syntax.{Rule, Grammar}
use exp.Peg.Runtime.Errors.{ErrList, err}
use exp.Peg.Runtime.State.{Value, nil, Parser, Env, add_err, build_rules_table}
use exp.Peg.Runtime.Matchers.{Outcome, ended, panicked, out_of_fuel, reading}
use exp.Peg.Runtime.Engine.{parse_rule, parse_expr}

-- The value and the error of a run. `runs_on` is a run that the fuel did not finish.
pub data Result : Type 0 where
  finished : Value → ErrList → Result
  runs_on : Result

abbrev pub no_match : Env → ErrList → Parser → ErrList
no_match env [] p = (add_err env (codes "no match found") p).errs
no_match env (e ∷ es) p = e ∷ es

module _ (env : Env) where
  -- What `(*parser).parse` makes of the outcome of the first rule; a panic is recovered.
  unfoldable pub concluded : Outcome → Result
  concluded (ended v true p) = finished v (err p.errs)
  concluded (ended v false p) = finished nil (err (no_match env p.errs p))
  concluded (panicked e p) = finished nil (err (add_err env e p).errs)
  concluded out_of_fuel = runs_on

  unfoldable pub run_rules : ℕ → List Rule → Parser → Result
  unfolding concluded
  run_rules fuel [] p = finished nil (err (add_err env (codes "grammar has no rule") p).errs)
  run_rules fuel (r ∷ rs) p =
      let table = build_rules_table (r ∷ rs) (λ k. none) in
      concluded (reading env (record p { rules = table }) (parse_rule env (parse_expr env fuel) r))

  -- The parser that `parse` makes of the file's name and its bytes.
  unfoldable pub new_parser : Text → Text → Parser
  new_parser filename input = record {
    filename = filename;
    pt = record { position = record { line = 1; col = 0; offset = 0 }; rn = 0; w = 0 };
    cur = record { pos = record { line = 0; col = 0; offset = 0 }; text = [] };
    input = input;
    errs = [];
    rules = λ k. none;
    vstack = record { live = []; spare = [] };
    rstack = [];
  }

  -- `parse`; the bytes are those that `ioutil.ReadAll` returned.
  unfoldable pub parse : ℕ → Text → Text → Grammar → Result
  unfolding run_rules new_parser
  parse fuel filename input g = run_rules fuel g.rules (new_parser filename input)
