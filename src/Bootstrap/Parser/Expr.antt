-- ===== src/Bootstrap/Parser/Expr.antt =====
-- peg/bootstrap/parser.go: the methods from `expression` to `ruleRefExpr`. Each is a function of
-- `rec`, the parser of expressions, and the knot is tied by fuel at the end.
use exp.Base.{
  ℕ, zero, suc, Bool, Option, none, some, [], ◌∷◌, Text, codes, if◌then◌else◌, ◌||◌, int_eq,
}
use exp.Peg.Ast
use exp.Peg.Ast.{Pos, PosValue, LitMatcher, CharClassMatcher, Expression, Expressions, pos_of}
use exp.Peg.Ast.CharClass.{Strings, has_suffix_i, without_last, new_char_class_matcher}
use exp.Bootstrap.Token
use exp.Bootstrap.Token.{Tid, Token}
use exp.Bootstrap.Parser.{Scanned, Parser, add_err, read, peek, expect}

-- What `strconv.Unquote` makes of a literal; the text that it returns with an error is empty.
pub data Unquoted : Type 0 where
  unquoted : Text → Unquoted
  syntax_error : Text → Unquoted

-- What the parser takes from Go's library, and the name of a token that has none.
pub record Library : Type 0 where
  pub unquote : Text → Unquoted
  pub unknown_tid : Tid → Text
  pub strings : Strings

-- `append`
unfoldable pub append_expr : Expressions → Expression → Expressions
append_expr Ast.no_more e = Ast.more e Ast.no_more
append_expr (Ast.more x xs) e = Ast.more x (append_expr xs e)

-- What the switch on the number of expressions returns, with the error if there is none.
abbrev pub collected :
    {S : Type 0}
    → (Pos → Expressions → Expression)
    → Pos
    → Text
    → Expressions
    → Parser S
    → Option Expression × Parser S
collected make p e Ast.no_more q = (none, add_err e q)
collected make p e (Ast.more x Ast.no_more) q = (some x, q)
collected make p e (Ast.more x (Ast.more y ys)) q = (some (make p (Ast.more x (Ast.more y ys))), q)

module _ {S : Type 0} (scan : S → Scanned S) (lib : Library) where
  -- The expression that a method returns, and the parser then; `none` is a run that the fuel did
  -- not finish, or that the text of a class stops by a panic.
  abbrev pub Parsed : Type 0
  Parsed = Option (Option Expression × Parser S)

  abbrev pub then_do : Parsed → (Option Expression → Parser S → Parsed) → Parsed
  then_do none k = none
  then_do (some (e, p)) k = k e p

  abbrev pub if_nil : Option Expression → Parsed → (Expression → Parsed) → Parsed
  if_nil none x k = x
  if_nil (some e) x k = k e

  -- The text of a literal, with the error of `Unquote`.
  abbrev pub lit_val : Unquoted → Parser S → Text × Parser S
  lit_val (unquoted s) p = (s, p)
  lit_val (syntax_error e) p = ([], add_err e p)

  abbrev pub literal : Pos → Bool → Text × Parser S → Option Expression × Parser S
  literal p ignore (val, q) =
      (some (Ast.lit_matcher (record { p = p; val = val; ignore_case = ignore })), read scan q)

  abbrev pub lit_matcher_expr : Parser S → Option Expression × Parser S
  lit_matcher_expr p =
      let ignore = has_suffix_i p.tok.lit in
      let lit = if ignore then without_last p.tok.lit else p.tok.lit in
      let q : Parser S = record p { tok = record (p.tok) { lit = lit } } in
      literal p.tok.pos ignore (lit_val (lib.unquote lit) q)

  unfoldable pub rule_ref_expr : Parser S → Option Expression × Parser S
  rule_ref_expr p =
      let (ok, q) = expect lib.unknown_tid (Token.ident ∷ []) p in
      if ok
      then (
        some (Ast.rule_ref_expr q.tok.pos (record { p = q.tok.pos; val = q.tok.lit })),
        read scan q,
      )
      else (none, q)

  -- Behind the expression in parentheses.
  abbrev pub close_paren : Option Expression → Parser S → Parsed
  close_paren e p =
      if_nil e (some (none, add_err (codes "missing expression inside parenthesis") p)) λ x.
        let (ok, q) = expect lib.unknown_tid (Token.rparen ∷ []) p in
        if ok then some (some x, read scan q) else some (none, q)

  abbrev pub char_class : Option CharClassMatcher → Parser S → Parsed
  char_class none p = none
  char_class (some c) p = some (some (Ast.char_class_matcher c), read scan p)

  unfoldable pub primary_expr : (Parser S → Parsed) → Parser S → Parsed
  unfolding rule_ref_expr
  primary_expr rec p =
      let id = p.tok.id in
      if int_eq id Token.str || int_eq id Token.rstr || int_eq id Token.char
      then some (lit_matcher_expr p)
      else if int_eq id Token.class
      then char_class (new_char_class_matcher lib.strings p.tok.pos p.tok.lit) p
      else if int_eq id Token.dot
      then some (some (Ast.any_matcher (record { p = p.tok.pos; val = p.tok.lit })), read scan p)
      else if int_eq id Token.ident
      then some (rule_ref_expr p)
      else if int_eq id Token.lparen
      then then_do (rec (read scan p)) close_paren
      else some (none, p)

  -- Behind the primary expression.
  abbrev pub with_suffix : Option Expression → Parser S → Parsed
  with_suffix none p =
      let id = p.tok.id in
      if int_eq id Token.question || int_eq id Token.star || int_eq id Token.plus
      then some (none, add_err (codes "suffix operator without expression") p)
      else some (none, p)
  with_suffix (some e) p =
      let id = p.tok.id in
      if int_eq id Token.question
      then some (some (Ast.zero_or_one_expr (pos_of e) e), read scan p)
      else if int_eq id Token.star
      then some (some (Ast.zero_or_more_expr (pos_of e) e), read scan p)
      else if int_eq id Token.plus
      then some (some (Ast.one_or_more_expr (pos_of e) e), read scan p)
      else some (some e, p)

  unfoldable pub suffixed_expr : (Parser S → Parsed) → Parser S → Parsed
  unfolding primary_expr
  suffixed_expr rec p = then_do (primary_expr rec p) with_suffix

  -- Behind the expression of a prefix operator at `p`.
  abbrev pub with_prefix : (Expression → Expression) → Option Expression → Parser S → Parsed
  with_prefix make none p = some (none, add_err (codes "prefix operator without expression") p)
  with_prefix make (some e) p = some (some (make e), p)

  unfoldable pub prefixed_expr : (Parser S → Parsed) → Parser S → Parsed
  unfolding suffixed_expr
  prefixed_expr rec p =
      if int_eq p.tok.id Token.ampersand
      then then_do (suffixed_expr rec (read scan p)) (with_prefix (Ast.and_expr p.tok.pos))
      else if int_eq p.tok.id Token.exclamation
      then then_do (suffixed_expr rec (read scan p)) (with_prefix (Ast.not_expr p.tok.pos))
      else suffixed_expr rec p

  -- Behind the expression of a label.
  abbrev pub with_label : Pos → PosValue → Option Expression → Parser S → Parsed
  with_label pos label none p = some (none, add_err (codes "label without expression") p)
  with_label pos label (some e) p = some (some (Ast.labeled_expr pos label e), p)

  -- The label and the colon behind it, with the colon at hand in `pk`.
  abbrev pub labeled : (Parser S → Parsed) → Parser S → Parsed
  labeled rec p =
      let label : PosValue = record { p = p.tok.pos; val = p.tok.lit } in
      let (ok, q) = expect lib.unknown_tid (Token.colon ∷ []) (read scan p) in
      if ok
      then then_do (prefixed_expr rec (read scan q)) (with_label p.tok.pos label)
      else some (none, q)

  unfoldable pub labeled_expr : (Parser S → Parsed) → Parser S → Parsed
  unfolding prefixed_expr
  labeled_expr rec p =
      let q = peek scan p in
      let at_ident = if int_eq q.pk.id Token.colon then labeled rec q else prefixed_expr rec q in
      if int_eq p.tok.id Token.ident then at_ident else prefixed_expr rec p

  -- The loop of `seqExpr`.
  unfoldable pub seq_loop : ℕ → (Parser S → Parsed) → Pos → Expressions → Parser S → Parsed
  unfolding labeled_expr
  seq_loop zero rec pos es p = none
  seq_loop (suc f) rec pos es p = then_do (labeled_expr rec p) λ e q.
      if_nil e (some (collected Ast.seq_expr pos (codes "no expression in sequence") es q))
        λ x. seq_loop f rec pos (append_expr es x) q

  unfoldable pub seq_expr : ℕ → (Parser S → Parsed) → Parser S → Parsed
  unfolding seq_loop
  seq_expr f rec p = seq_loop f rec p.tok.pos Ast.no_more p

  abbrev pub with_code : Pos → Option Expression → Parser S → Parsed
  with_code pos e p = if_nil e (some (none, p)) λ x.
      if int_eq p.tok.id Token.code
      then some
          (some (Ast.action_expr pos x (record { p = p.tok.pos; val = p.tok.lit }) 0), read scan p)
      else some (some x, p)

  unfoldable pub action_expr : ℕ → (Parser S → Parsed) → Parser S → Parsed
  unfolding seq_expr
  action_expr f rec p = then_do (seq_expr f rec p) (with_code p.tok.pos)

  abbrev pub append_if : Expressions → Option Expression → Expressions
  append_if es none = es
  append_if es (some e) = append_expr es e

  -- The loop of `expression`; `f` is the fuel of the sequences.
  unfoldable pub choice_loop : ℕ → ℕ → (Parser S → Parsed) → Pos → Expressions → Parser S → Parsed
  unfolding action_expr
  choice_loop zero f rec pos es p = none
  choice_loop (suc g) f rec pos es p = then_do (action_expr f rec p) λ e q.
      let rest = choice_loop g f rec pos (append_if es e) (read scan q) in
      if int_eq q.tok.id Token.slash
      then rest
      else some (collected Ast.choice_expr pos (codes "no expression in choice") (append_if es e) q)

  -- Fuel bounds the depth of the parentheses and the rounds of each loop.
  unfoldable pub expression : ℕ → Parser S → Parsed
  unfolding choice_loop
  expression zero p = none
  expression (suc f) p = choice_loop f f (expression f) p.tok.pos Ast.no_more p
