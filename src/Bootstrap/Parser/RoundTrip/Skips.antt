-- ===== src/Bootstrap/Parser/RoundTrip/Skips.antt =====
-- The parser on the separators between rules and the line breaks behind arrows.
use exp.Base.{
  ℕ, zero, suc, ◌<◌, true, false, some, List, [], ◌∷◌, ◌++◌, codes, ◌≡◌, refl, ◌∙◌, length, arith,
  repeat,
}
use exp.Peg.Ast.{Pos}
use exp.Bootstrap.Token
use exp.Bootstrap.Token.{Tid, Token}
use exp.Bootstrap.Parser.{ErrList, is_one_of, skip}
use exp.Bootstrap.Parser.Rules.{separators}
use exp.Bootstrap.Parser.Concrete.{token}
use exp.Bootstrap.Parser.Source.{scan_list, at, OnLine, read-held}
use exp.Bootstrap.Parser.Written.{
  Separator, line_break, semicolon, separator_token, separator_tokens, break_tokens,
}
use exp.Bootstrap.Parser.RoundTrip.First.{suc_line}

-- The parser is at none of the tokens that are skipped, on a line.
abbrev pub Halts : List Tid → List Token → Type 0
Halts ids ts = OnLine ts × (is_one_of ids (scan_list ts).token.id ≡ false)

pub skip-Halts :
    (ids : List Tid) (f : ℕ) (ts : List Token) (errs : ErrList)
    → Halts ids ts
    → 0 < f
    → skip scan_list f ids (at ts errs) ≡ some (at ts errs)
unfolding skip repeat
skip-Halts ids zero ts errs h lt = absurd (omega arith)
skip-Halts ids (suc f) ts errs (l, h) lt = rw h refl

-- A token that is skipped is read over.
pub skip-read :
    (ids : List Tid) (f : ℕ) (t : Token) (ts : List Token) (errs : ErrList)
    → is_one_of ids t.id ≡ true
    → OnLine ts
    → skip scan_list (suc f) ids (at (t ∷ ts) errs) ≡ skip scan_list f ids (at ts errs)
unfolding skip repeat
skip-read ids f t ts errs h l = rw (h, read-held false t ts errs l) refl

abbrev pub breaks : List Tid
breaks = Token.eol ∷ []

pub OnLine-breaks : (ps : List Pos) (ts : List Token) → OnLine ts → OnLine (break_tokens ps ++ ts)
OnLine-breaks [] ts l = l
OnLine-breaks (p ∷ ps) ts l = suc_line p

pub skip-breaks :
    (ps : List Pos) (f : ℕ) (ts : List Token) (errs : ErrList)
    → Halts breaks ts
    → length ps < f
    → skip scan_list f breaks (at (break_tokens ps ++ ts) errs) ≡ some (at ts errs)
unfolding is_one_of
skip-breaks [] f ts errs h lt = skip-Halts breaks f ts errs h lt
skip-breaks (p ∷ ps) zero ts errs h lt = absurd (omega arith)
skip-breaks (p ∷ ps) (suc f) ts errs h lt =
    skip-read breaks f (token Token.eol (codes "\n") p) (break_tokens ps ++ ts) errs refl
      (OnLine-breaks ps ts h.0)
    ∙ skip-breaks ps f ts errs h (omega arith)

pub OnLine-separators :
    (ss : List Separator) (ts : List Token) → OnLine ts → OnLine (separator_tokens ss ++ ts)
OnLine-separators [] ts l = l
OnLine-separators (line_break p ∷ ss) ts l = suc_line p
OnLine-separators (semicolon p ∷ ss) ts l = suc_line p

pub separator-skipped : (s : Separator) → is_one_of separators (separator_token s).id ≡ true
unfolding is_one_of
separator-skipped (line_break p) = refl
separator-skipped (semicolon p) = refl

pub skip-separators :
    (ss : List Separator) (f : ℕ) (ts : List Token) (errs : ErrList)
    → Halts separators ts
    → length ss < f
    → skip scan_list f separators (at (separator_tokens ss ++ ts) errs) ≡ some (at ts errs)
skip-separators [] f ts errs h lt = skip-Halts separators f ts errs h lt
skip-separators (s ∷ ss) zero ts errs h lt = absurd (omega arith)
skip-separators (s ∷ ss) (suc f) ts errs h lt =
    skip-read separators f (separator_token s) (separator_tokens ss ++ ts) errs
      (separator-skipped s) (OnLine-separators ss ts h.0)
    ∙ skip-separators ss f ts errs h (omega arith)

-- The tokens that end a rule.
abbrev pub terminators : List Tid
terminators = Token.eol ∷ Token.eof ∷ Token.semicolon ∷ []
