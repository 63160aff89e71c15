-- ===== src/Bootstrap/Parser.antt =====
-- peg/bootstrap/parser.go: the parser's state, and the methods that the others share. The scanner
-- is a state with a function for `Scan`, which gives the token, the errors that the handler was
-- called with meanwhile, and the scanner's next state. The debug output is left out.
pub mod Expr
pub mod Source
pub mod Readable
pub mod Written
pub mod RoundTrip
pub mod Concrete
pub mod Rules
use exp.Base.{
  ℕ, Bool, true, false, Option, none, some, List, [], ◌∷◌, ◌++◌, Text, codes, ◌==◌, if◌then◌else◌,
  pos, int_eq, Round, again, stop, repeat,
}
use exp.Peg.Ast.{Pos}
use exp.Bootstrap.Token.{Tid, Token, eof, tid_string}

-- An entry of `errList`: the position and the message, which the code prints into one text.
abbrev pub ErrList : Type 0
ErrList = List (Pos × Text)

-- `token{}`
abbrev pub zero_token : Token
zero_token = record {
  id = eof;
  lit = [];
  pos = record { filename = []; line = 0; col = 0; off = 0 };
}

pub record Scanned (S : Type 0) : Type 0 where
  pub token : Token
  pub errors : ErrList
  pub rest : S

pub record Parser (S : Type 0) : Type 0 where
  pub s : S
  pub tok : Token
  pub pk : Token
  pub errs : ErrList

unfoldable pub is_one_of : List Tid → Tid → Bool
is_one_of [] t = false
is_one_of (id ∷ ids) t = if int_eq t id then true else is_one_of ids t

-- The names of tokens, as %v prints a list of them.
abbrev pub names : (Tid → Text) → List Tid → Text
names unknown [] = []
names unknown (id ∷ []) = tid_string unknown id
names unknown (id ∷ next ∷ ids) = tid_string unknown id ++ (codes " " ++ names unknown (next ∷ ids))

abbrev pub expected : (Tid → Text) → List Tid → Tid → Text
expected unknown (id ∷ []) got =
    codes "expected " ++ (tid_string unknown id ++ (codes ", got " ++ tid_string unknown got))
expected unknown ids got =
    codes "expected any of [" ++ (names unknown ids ++ (codes "], got " ++ tid_string unknown got))

unfoldable pub add_err : {S : Type 0} → Text → Parser S → Parser S
add_err e p = record p { errs = p.errs ++ (p.tok.pos, e) ∷ [] }

module _ {S : Type 0} (scan : S → Scanned S) where
  unfoldable pub read : Parser S → Parser S
  read p =
      let r = scan p.s in
      if p.pk.pos.line == 0
      then record p { s = r.rest; tok = r.token; errs = p.errs ++ r.errors }
      else record p { tok = p.pk; pk = zero_token }

  -- What `peek` returns is then in `pk`.
  unfoldable pub peek : Parser S → Parser S
  peek p =
      let r = scan p.s in
      if p.pk.pos.line == 0
      then record p { s = r.rest; pk = r.token; errs = p.errs ++ r.errors }
      else p

  -- The loop of `skip`.
  unfoldable pub skip : ℕ → List Tid → Parser S → Option (Parser S)
  unfolding read is_one_of
  skip f ids p = repeat f (λ q. if is_one_of ids q.tok.id then again (read q) else stop q) p

-- `expect` on at least one token.
unfoldable pub expect : {S : Type 0} → (Tid → Text) → List Tid → Parser S → Bool × Parser S
unfolding is_one_of add_err
expect unknown ids p =
    if is_one_of ids p.tok.id then (true, p) else (false, add_err (expected unknown ids p.tok.id) p)
