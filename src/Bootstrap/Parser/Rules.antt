-- ===== src/Bootstrap/Parser/Rules.antt =====
-- peg/bootstrap/parser.go: Parse, grammar and rule.
use exp.Base.{
  ℕ, zero, suc, Option, none, some, List, [], ◌∷◌, ◌++◌, codes, if◌then◌else◌, ◌||◌, int_eq,
}
use exp.Peg.Ast.{PosValue, Expression, Rule, Grammar}
use exp.Peg.Ast.CharClass.{has_suffix_i}
use exp.Bootstrap.Token
use exp.Bootstrap.Token.{Token}
use exp.Bootstrap.Parser.{Scanned, Parser, ErrList, zero_token, add_err, read, skip, expect}
use exp.Bootstrap.Parser.Expr.{Unquoted, unquoted, syntax_error, Library, expression}

abbrev pub separators : List Token.Tid
separators = Token.eol ∷ Token.semicolon ∷ []

module _ {S : Type 0} (scan : S → Scanned S) (lib : Library) where
  -- The rule that `rule` returns, and the parser then; `none` is a run that the fuel did not finish.
  abbrev pub ParsedRule : Type 0
  ParsedRule = Option (Option Rule × Parser S)

  abbrev pub finish_rule : Rule → Parser S → Option Rule × Parser S
  finish_rule r p =
      let (ok, q) = expect lib.unknown_tid (Token.eol ∷ Token.eof ∷ Token.semicolon ∷ []) p in
      if ok then (some r, q) else (none, add_err (codes "rule not terminated") q)

  -- Behind the expression of a rule with the name and the display name.
  abbrev pub with_expr :
      PosValue → Option PosValue → Option (Option Expression × Parser S) → ParsedRule
  with_expr name display none = none
  with_expr name display (some (none, p)) = some (none, add_err (codes "missing expression") p)
  with_expr name display (some (some e, p)) =
      some (finish_rule (record { p = name.p; name = name; display_name = display; expr = e }) p)

  abbrev pub after_skip : ℕ → PosValue → Option PosValue → Option (Parser S) → ParsedRule
  after_skip f name display none = none
  after_skip f name display (some p) = with_expr name display (expression scan lib f p)

  -- From the arrow of the definition on.
  abbrev pub rule_body : ℕ → PosValue → Option PosValue → Parser S → ParsedRule
  rule_body f name display p =
      let (ok, q) = expect lib.unknown_tid (Token.ruledef ∷ []) p in
      if ok
      then after_skip f name display (skip scan f (Token.eol ∷ []) (read scan q))
      else some (none, q)

  abbrev pub with_display : ℕ → PosValue → Unquoted → Parser S → ParsedRule
  with_display f name (syntax_error e) p = some (none, add_err e p)
  with_display f name (unquoted s) p =
      rule_body f name (some (record { p = p.tok.pos; val = s })) (read scan p)

  -- Behind the name of a rule.
  abbrev pub after_name : ℕ → PosValue → Parser S → ParsedRule
  after_name f name p =
      let id = p.tok.id in
      if int_eq id Token.str || int_eq id Token.rstr || int_eq id Token.char
      then if has_suffix_i p.tok.lit
        then some (none, add_err (codes "invalid suffix 'i'") p)
        else with_display f name (lib.unquote p.tok.lit) p
      else rule_body f name none p

  unfoldable pub rule : ℕ → Parser S → ParsedRule
  rule f p =
      let (ok, q) = expect lib.unknown_tid (Token.ident ∷ []) p in
      if ok
      then after_name f (record { p = q.tok.pos; val = q.tok.lit }) (read scan q)
      else some (none, q)

  abbrev pub append_rule : Option Rule → Grammar → Grammar
  append_rule none g = g
  append_rule (some r) g = record g { rules = g.rules ++ r ∷ [] }

  abbrev pub Next : Type 0
  Next = Grammar → Parser S → Option (Grammar × Parser S)

  abbrev pub skip_then : ℕ → Next → Grammar → Parser S → Option (Grammar × Parser S)
  skip_then f next g p = go (skip scan f separators p)
    where
      go : Option (Parser S) → Option (Grammar × Parser S)
      go none = none
      go (some q) = next g q

  abbrev pub after_rule : ℕ → Next → Grammar → ParsedRule → Option (Grammar × Parser S)
  after_rule f next g none = none
  after_rule f next g (some (r, p)) = skip_then f next (append_rule r g) (read scan p)

  -- The loop of `grammar`.
  unfoldable pub grammar_loop : ℕ → ℕ → Grammar → Parser S → Option (Grammar × Parser S)
  unfolding rule
  grammar_loop zero f g p = none
  grammar_loop (suc n) f g p =
      let next = after_rule f (grammar_loop n f) g (rule f p) in
      if int_eq p.tok.id Token.eof then some (g, p) else next

  -- The code block at the top.
  abbrev pub with_init : ℕ → Next → Next
  with_init f next g p =
      let init : PosValue = record { p = p.tok.pos; val = p.tok.lit } in
      let with = skip_then f next (record g { init = some init }) (read scan p) in
      if int_eq p.tok.id Token.code then with else next g p

  unfoldable pub grammar : ℕ → Parser S → Option (Grammar × Parser S)
  unfolding grammar_loop
  grammar f p =
      let q = read scan p in
      skip_then f (with_init f (grammar_loop f f))
        (record { p = q.tok.pos; init = none; rules = [] }) q

abbrev pub with_errors : {S : Type 0} → Option (Grammar × Parser S) → Option (Grammar × ErrList)
with_errors none = none
with_errors (some (g, p)) = some (g, p.errs)

-- `Parse` on a parser that `NewParser` made, with the scanner at the start of a file.
unfoldable pub parse : {S : Type 0} → (S → Scanned S) → Library → ℕ → S → Option (Grammar × ErrList)
unfolding grammar
parse scan lib f s =
    with_errors
      (grammar scan lib f (record { s = s; tok = zero_token; pk = zero_token; errs = [] }))
