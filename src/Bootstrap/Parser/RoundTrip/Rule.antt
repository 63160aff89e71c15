-- ===== src/Bootstrap/Parser/RoundTrip/Rule.antt =====
-- The parser on the tokens of a rule as it is written.
use exp.Base.{
  ℕ, zero, suc, ◌<◌, true, false, Option, none, some, List, ◌∷◌, ◌++◌, Text, ◌≡◌, refl, int_eq,
  ◌||◌, arith,
}
use exp.Peg.Ast.{Pos, PosValue}
use exp.Bootstrap.Token
use exp.Bootstrap.Token.{Tid, Token}
use exp.Bootstrap.Parser.{ErrList, is_one_of, expect}
use exp.Bootstrap.Parser.Expr.{Library}
use exp.Bootstrap.Parser.Rules.{rule_body, rule}
use exp.Bootstrap.Parser.Concrete
use exp.Bootstrap.Parser.Concrete.{on_line, token, lit_tid, Choice, tokens, tree, size}
use exp.Bootstrap.Parser.Readable.{Readable}
use exp.Bootstrap.Parser.Source.{scan_list, at, OnLine, read-held}
use exp.Bootstrap.Parser.Written.{
  break_tokens, Display, Definition, display_tokens, definition_tokens, display_tree,
  definition_tree, DisplayReadable, definition_size,
}
use exp.Bootstrap.Parser.RoundTrip.{expression_reads, read_choice}
use exp.Bootstrap.Parser.RoundTrip.First.{
  Behind, behind_tid, Fresh-tokens, NoBreak-tokens, suc_line,
}
use exp.Bootstrap.Parser.RoundTrip.Skips.{Halts, breaks, OnLine-breaks, skip-breaks, terminators}

module _ (lib : Library) where
  pub rule_body_reads :
      (f : ℕ) (d : Definition) (display : Option PosValue) (k : Behind) (lit : Text) (p : Pos)
      (ts : List Token) (errs : ErrList)
      → Readable lib d.body
      → is_one_of terminators (behind_tid k) ≡ true
      → int_eq (behind_tid k) Token.code ≡ false
      → int_eq (behind_tid k) Token.slash ≡ false
      → definition_size d < f
      → rule_body scan_list lib f (definition_tree d).name display (
          at
            (token Token.ruledef d.arrow d.arrow_p
              ∷ (break_tokens d.breaks ++ tokens d.body (token (behind_tid k) lit p ∷ ts)))
            errs)
        ≡ some (
          some (record (definition_tree d) { display_name = display }),
          at (token (behind_tid k) lit p ∷ ts) errs,
        )
  unfolding expect is_one_of
  rule_body_reads zero d display k lit p ts errs r h hc hs lt = absurd (omega arith)
  rule_body_reads (suc f) d display k lit p ts errs r h hc hs lt =
      let body = tokens d.body (token (behind_tid k) lit p ∷ ts) in
      let l : OnLine body = (Fresh-tokens d.body (token (behind_tid k) lit p ∷ ts)).0 in
      let halts : Halts breaks body =
        (l, rw (NoBreak-tokens d.body (token (behind_tid k) lit p ∷ ts)) refl) in
      rw
        (
          read-held false (token Token.ruledef d.arrow d.arrow_p) (break_tokens d.breaks ++ body)
              errs (OnLine-breaks d.breaks body l),
          skip-breaks d.breaks (suc f) body errs halts (omega arith),
          expression_reads lib f d.body (read_choice lib f d.body r (omega arith)) k lit p ts errs
              hc hs (omega arith),
          h,
        )
        refl

  abbrev pub name_token : Definition → Token
  name_token d = token Token.ident d.name d.p

  abbrev pub from_arrow : Definition → List Token → List Token
  from_arrow d ts =
      token Token.ruledef d.arrow d.arrow_p ∷ (break_tokens d.breaks ++ tokens d.body ts)

  -- A rule whose body is read, with any name to display.
  pub rule_display_reads :
      (f : ℕ) (d : Definition) (display : Option Display) (ts us : List Token) (errs : ErrList)
      → DisplayReadable lib display
      → ((shown : Option PosValue)
          → rule_body scan_list lib f (definition_tree d).name shown (at (from_arrow d ts) errs)
            ≡ some (some (record (definition_tree d) { display_name = shown }), at us errs))
      → rule scan_list lib f (at (name_token d ∷ display_tokens display (from_arrow d ts)) errs)
        ≡ some
            (some (record (definition_tree d) { display_name = display_tree display }), at us errs)
  unfolding rule expect is_one_of
  rule_display_reads f d none ts us errs u h =
      rw (read-held false (name_token d) (from_arrow d ts) errs (suc_line d.arrow_p)) (h none)
  rule_display_reads f d (some x) ts us errs (hi, hu) h =
      rw
        (
          read-held false (name_token d) (token (lit_tid x.kind) x.lit x.p ∷ from_arrow d ts) errs
              (suc_line x.p),
          lit_kind x.kind,
          hi,
          hu,
          read-held false (token (lit_tid x.kind) x.lit x.p) (from_arrow d ts) errs
              (suc_line d.arrow_p),
        )
        (h (display_tree (some x)))
    where
      lit_kind :
          (k : Concrete.LitKind)
          → (int_eq (lit_tid k) Token.str
              || int_eq (lit_tid k) Token.rstr
              || int_eq (lit_tid k) Token.char)
            ≡ true
      lit_kind Concrete.string = refl
      lit_kind Concrete.raw_string = refl
      lit_kind Concrete.character = refl

  pub rule_reads :
      (f : ℕ) (d : Definition) (k : Behind) (lit : Text) (p : Pos) (ts : List Token)
      (errs : ErrList)
      → DisplayReadable lib d.display
      → Readable lib d.body
      → is_one_of terminators (behind_tid k) ≡ true
      → int_eq (behind_tid k) Token.code ≡ false
      → int_eq (behind_tid k) Token.slash ≡ false
      → definition_size d < f
      → rule scan_list lib f (at (definition_tokens d (token (behind_tid k) lit p ∷ ts)) errs)
        ≡ some (some (definition_tree d), at (token (behind_tid k) lit p ∷ ts) errs)
  rule_reads f d k lit p ts errs u r h hc hs lt =
      rule_display_reads f d d.display (token (behind_tid k) lit p ∷ ts)
        (token (behind_tid k) lit p ∷ ts) errs u
        (λ shown. rule_body_reads f d shown k lit p ts errs r h hc hs lt)
