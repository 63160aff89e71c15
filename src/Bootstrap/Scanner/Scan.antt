-- ===== src/Bootstrap/Scanner/Scan.antt =====
-- peg/bootstrap/scan.go: `Scan`. The fuel is for the rounds of each loop.
use exp.Base.{
  ℕ, Bool, Option, none, some, [], ◌++◌, Text, codes, ◌==◌, ◌&&◌, ◌||◌, if◌then◌else◌, not, pos,
}
use exp.Lexer.Scan.{Rune}
use exp.Peg.Ast.{Pos}
use exp.Bootstrap.Token
use exp.Bootstrap.Token.{Tid, Token, blacklisted_idents, is_blacklisted}
use exp.Bootstrap.Scanner.{
  Scanner, Host, errorf, errorpf, read, at_rune, at_end, is_letter, is_rule_def_start,
  skip_whitespace,
}
use exp.Bootstrap.Scanner.Bodies.{
  scan_identifier, scan_comment, scan_code, scan_raw_string, scan_rule_def,
}
use exp.Bootstrap.Scanner.Quoted.{scan_class, scan_string, scan_char}

-- A token of a scan that has left its text in `tok`.
abbrev pub token_of : Tid → Pos → Option Scanner → Option (Token × Scanner)
token_of id p none = none
token_of id p (some s) = some (record { id = id; lit = s.tok; pos = p }, s)

-- The runes that are tokens of their own.
abbrev pub is_operator : ℕ → Bool
is_operator r =
    r == 47
    || r == 58
    || r == 59
    || r == 40
    || r == 41
    || r == 46
    || r == 38
    || r == 33
    || r == 63
    || r == 43
    || r == 42
    || r == 10

module _ (host : Host) where
  abbrev pub check_ident : Pos → Token × Scanner → Token × Scanner
  check_ident p (t, s) =
      if is_blacklisted t.lit blacklisted_idents
      then (t, errorpf p (codes "illegal identifier " ++ host.quote t.lit) s)
      else (t, s)

  abbrev pub checked : Pos → Option (Token × Scanner) → Option (Token × Scanner)
  checked p none = none
  checked p (some r) = some (check_ident p r)

  abbrev pub raw_token : Pos → Option (Text × Scanner) → Option (Token × Scanner)
  raw_token p none = none
  raw_token p (some (lit, s)) = some (record { id = Token.rstr; lit = lit; pos = p }, s)

  abbrev pub comment_token : Pos → Option (Tid × Scanner) → Option (Token × Scanner)
  comment_token p none = none
  comment_token p (some (id, s)) = some (record { id = id; lit = s.tok; pos = p }, s)

  abbrev pub invalid_token : Pos → Rune → Scanner → Token × Scanner
  invalid_token p r s = (
    record { id = Token.invalid; lit = host.encode_rune r; pos = p },
    errorf (codes "invalid character " ++ host.format_rune r) s,
  )

  abbrev pub operator_token : Pos → Rune → Scanner → Token × Scanner
  operator_token p none s = invalid_token p none s
  operator_token p (some c) s =
      if is_operator c
      then (record { id = pos c; lit = host.encode_rune (some c); pos = p }, s)
      else invalid_token p (some c) s

  -- The default case, on the rune that is not read yet.
  abbrev pub scan_operator : ℕ → Pos → Rune → Scanner → Option (Token × Scanner)
  scan_operator f p r s =
      let s₁ = read s in
      if at_rune 47 r && (at_rune 42 s₁.cur || at_rune 47 s₁.cur)
      then comment_token p (scan_comment host f s₁)
      else some (operator_token p r s₁)

  -- The switch of `Scan`, behind the white space.
  unfoldable pub scan_token : ℕ → Scanner → Option (Token × Scanner)
  unfolding read
  scan_token f s =
      let p = s.cpos in
      if s.eof
      then some (record { id = Token.eof; lit = []; pos = p }, s)
      else if is_letter host s.cur
      then checked p (token_of Token.ident p (scan_identifier host f s))
      else if is_rule_def_start s.cur
      then token_of Token.ruledef p (some (scan_rule_def host s))
      else if at_rune 39 s.cur
      then token_of Token.char p (scan_char host f s)
      else if at_rune 34 s.cur
      then token_of Token.str p (scan_string host f s)
      else if at_rune 96 s.cur
      then raw_token p (scan_raw_string host f s)
      else if at_rune 91 s.cur
      then token_of Token.class p (scan_class host f s)
      else if at_rune 123 s.cur
      then token_of Token.code p (scan_code host f s)
      else scan_operator f p s.cur s

  abbrev pub scan_behind : ℕ → Option Scanner → Option (Token × Scanner)
  scan_behind f none = none
  scan_behind f (some s) = scan_token f s

  unfoldable pub scan : ℕ → Scanner → Option (Token × Scanner)
  unfolding scan_token
  scan f s =
      let s₁ = if not s.eof && at_end s.cur then read s else s in
      scan_behind f (skip_whitespace f s₁)
