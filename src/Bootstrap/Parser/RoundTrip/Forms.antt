-- ===== src/Bootstrap/Parser/RoundTrip/Forms.antt =====
-- The parser on the tokens of primary, prefixed and labeled expressions.
use exp.Base.{Bool, true, false, Option, some, List, ◌∷◌, Text, ◌≡◌, refl, codes, ap, ◌∙◌}
use exp.Peg.Ast
use exp.Peg.Ast.{Pos, CharClassMatcher, Expression, Expressions}
use exp.Peg.Ast.CharClass.{has_suffix_i, new_char_class_matcher}
use exp.Bootstrap.Token
use exp.Bootstrap.Token.{Tid, Token}
use exp.Bootstrap.Parser.{Parser, ErrList, expect, is_one_of}
use exp.Bootstrap.Parser.Expr.{
  Library, unquoted, lit_matcher_expr, primary_expr, rule_ref_expr, suffixed_expr, prefixed_expr,
  labeled_expr,
}
use exp.Bootstrap.Parser.Concrete
use exp.Bootstrap.Parser.Concrete.{
  on_line, token, lit_tid, Suffix, Primary, Prefixed, Labeled, Seq, Action, Choice, suffix_tokens,
  primary_tokens, prefixed_tokens, labeled_tokens, seq_tokens, action_tokens, tokens, primary_tree,
  prefixed_tree, labeled_tree, item_trees, seq_tree, action_tree, choice_trees, tree, primary_size,
  prefixed_size, labeled_size, seq_size, action_size, size, first_primary, first_labeled, first_seq,
  first_action, first, literal_text, suffixed,
}
use exp.Bootstrap.Parser.Source.{scan_list, hold, at, OnLine, read-held, peek-held}
use exp.Bootstrap.Parser.RoundTrip.First.{
  Fresh, suc_line, Fresh-primary, Fresh-prefixed, Fresh-tokens, not_colon, has_suffix_i-text,
  without_last-text,
}

module _ (lib : Library)
    (rec : Parser (List Token) → Option (Option Expression × Parser (List Token))) where
  -- The parser of expressions gives the tree of `c` for the tokens of it, up to a parenthesis.
  abbrev pub ChoiceReads : Choice → Type 0
  ChoiceReads c =
      (p : Pos) (ts : List Token) (errs : ErrList)
      → rec (at (tokens c (token Token.rparen (codes ")") p ∷ ts)) errs)
        ≡ some (some (tree c), at (token Token.rparen (codes ")") p ∷ ts) errs)

  abbrev pub PrimaryReads : Primary → Type 0
  PrimaryReads c =
      (b : Bool) (ts : List Token) (errs : ErrList)
      → OnLine ts
      → primary_expr scan_list lib rec (hold b (primary_tokens c ts) errs)
        ≡ some (some (primary_tree c), at ts errs)

  pub lit_matcher_reads :
      (id : Tid) (p : Pos) (lit : Text) (ignore : Bool) (val : Text)
      → has_suffix_i lit ≡ false
      → lib.unquote lit ≡ unquoted val
      → (b : Bool) (ts : List Token) (errs : ErrList) → OnLine ts
      → lit_matcher_expr scan_list lib (hold b (token id (literal_text lit ignore) p ∷ ts) errs) ≡ (
        some (Ast.lit_matcher (record { p = on_line p; val = val; ignore_case = ignore })),
        at ts errs,
      )
  lit_matcher_reads id p lit false val h u b ts errs l =
      rw (h, u, read-held b (token id lit p) ts errs l) refl
  lit_matcher_reads id p lit true val h u b ts errs l =
      rw (has_suffix_i-text lit, without_last-text lit, u, read-held b (token id lit p) ts errs l)
        refl

  pub literal_reads :
      (k : Concrete.LitKind) (p : Pos) (lit : Text) (ignore : Bool) (val : Text)
      → has_suffix_i lit ≡ false
      → lib.unquote lit ≡ unquoted val
      → PrimaryReads (Concrete.literal k p lit ignore val)
  unfolding primary_expr
  literal_reads Concrete.string p lit ignore val h u b ts errs l =
      ap some (lit_matcher_reads Token.str p lit ignore val h u b ts errs l)
  literal_reads Concrete.raw_string p lit ignore val h u b ts errs l =
      ap some (lit_matcher_reads Token.rstr p lit ignore val h u b ts errs l)
  literal_reads Concrete.character p lit ignore val h u b ts errs l =
      ap some (lit_matcher_reads Token.char p lit ignore val h u b ts errs l)

  pub class_reads :
      (p : Pos) (lit : Text) (c : CharClassMatcher)
      → new_char_class_matcher lib.strings (on_line p) lit ≡ some c
      → PrimaryReads (Concrete.class p lit c)
  unfolding primary_expr
  class_reads p lit c h b ts errs l = rw (h, read-held b (token Token.class lit p) ts errs l) refl

  pub any_reads : (p : Pos) (lit : Text) → PrimaryReads (Concrete.any p lit)
  unfolding primary_expr
  any_reads p lit b ts errs l = rw (read-held b (token Token.dot lit p) ts errs l) refl

  pub reference_reads : (p : Pos) (name : Text) → PrimaryReads (Concrete.reference p name)
  unfolding primary_expr rule_ref_expr expect is_one_of
  reference_reads p name b ts errs l = rw (read-held b (token Token.ident name p) ts errs l) refl

  pub paren_reads :
      (p : Pos) (c : Choice) (p' : Pos) → ChoiceReads c → PrimaryReads (Concrete.paren p c p')
  unfolding primary_expr expect is_one_of
  paren_reads p c p' h b ts errs l =
      let inner = token Token.rparen (codes ")") p' ∷ ts in
      rw
        (
          primary_expr,
          read-held b (token Token.lparen (codes "(") p) (tokens c inner) errs
              ((Fresh-tokens c inner).0),
          h p' ts errs,
          read-held false (token Token.rparen (codes ")") p') ts errs l,
        )
        refl

  -- Behind a primary expression, a suffix is read, and a fresh token is none.
  pub suffixed_reads :
      (c : Primary) (s : Suffix)
      → PrimaryReads c
      → (b : Bool) (ts : List Token) (errs : ErrList) → Fresh ts
      → suffixed_expr scan_list lib rec (hold b (primary_tokens c (suffix_tokens s ts)) errs)
        ≡ some (some (suffixed s (primary_tree c)), at ts errs)
  unfolding suffixed_expr
  suffixed_reads c Concrete.once h b ts errs (l, hc, hq, hs, hp) =
      rw (h b ts errs l, hq, hs, hp) refl
  suffixed_reads c (Concrete.optional p) h b ts errs (l, _, _, _, _) =
      let t = token Token.question (codes "?") p in
      rw (h b (t ∷ ts) errs (suc_line p), read-held false t ts errs l) refl
  suffixed_reads c (Concrete.repeated p) h b ts errs (l, _, _, _, _) =
      let t = token Token.star (codes "*") p in
      rw (h b (t ∷ ts) errs (suc_line p), read-held false t ts errs l) refl
  suffixed_reads c (Concrete.at_least_once p) h b ts errs (l, _, _, _, _) =
      let t = token Token.plus (codes "+") p in
      rw (h b (t ∷ ts) errs (suc_line p), read-held false t ts errs l) refl

  abbrev pub PrefixedReads : Prefixed → Type 0
  PrefixedReads c =
      (b : Bool) (ts : List Token) (errs : ErrList)
      → Fresh ts
      → prefixed_expr scan_list lib rec (hold b (prefixed_tokens c ts) errs)
        ≡ some (some (prefixed_tree c), at ts errs)

  -- A primary expression starts with no prefix.
  pub no_prefix :
      (c : Primary) (b : Bool) (ts : List Token) (errs : ErrList)
      → prefixed_expr scan_list lib rec (hold b (primary_tokens c ts) errs)
        ≡ suffixed_expr scan_list lib rec (hold b (primary_tokens c ts) errs)
  unfolding prefixed_expr
  no_prefix (Concrete.literal Concrete.string p lit ignore val) b ts errs = refl
  no_prefix (Concrete.literal Concrete.raw_string p lit ignore val) b ts errs = refl
  no_prefix (Concrete.literal Concrete.character p lit ignore val) b ts errs = refl
  no_prefix (Concrete.class p lit c) b ts errs = refl
  no_prefix (Concrete.any p lit) b ts errs = refl
  no_prefix (Concrete.reference p name) b ts errs = refl
  no_prefix (Concrete.paren p c p') b ts errs = refl

  pub plain_reads : (c : Primary) (s : Suffix) → PrimaryReads c → PrefixedReads (Concrete.plain c s)
  plain_reads c s h b ts errs l =
      no_prefix c b (suffix_tokens s ts) errs ∙ suffixed_reads c s h b ts errs l

  pub followed_by_reads :
      (p : Pos) (c : Primary) (s : Suffix)
      → PrimaryReads c
      → PrefixedReads (Concrete.followed_by p c s)
  unfolding prefixed_expr
  followed_by_reads p c s h b ts errs l =
      let behind = primary_tokens c (suffix_tokens s ts) in
      rw
        (
          read-held b (token Token.ampersand (codes "&") p) behind errs
              (Fresh-primary c (suffix_tokens s ts)).0,
          suffixed_reads c s h false ts errs l,
        )
        refl

  pub not_followed_by_reads :
      (p : Pos) (c : Primary) (s : Suffix)
      → PrimaryReads c
      → PrefixedReads (Concrete.not_followed_by p c s)
  unfolding prefixed_expr
  not_followed_by_reads p c s h b ts errs l =
      let behind = primary_tokens c (suffix_tokens s ts) in
      rw
        (
          read-held b (token Token.exclamation (codes "!") p) behind errs
              (Fresh-primary c (suffix_tokens s ts)).0,
          suffixed_reads c s h false ts errs l,
        )
        refl

  abbrev pub LabeledReads : Labeled → Type 0
  LabeledReads c =
      (ts : List Token) (errs : ErrList)
      → Fresh ts
      → labeled_expr scan_list lib rec (at (labeled_tokens c ts) errs)
        ≡ some (some (labeled_tree c), at ts errs)

  -- No label: only a rule's name needs a look at the token behind it.
  pub unlabeled_reads : (c : Prefixed) → PrefixedReads c → LabeledReads (Concrete.unlabeled c)
  unfolding labeled_expr
  unlabeled_reads (Concrete.plain (Concrete.reference p name) s) h ts errs l =
      rw (peek-held (token Token.ident name p) (suffix_tokens s ts) errs, not_colon s ts l)
        (h true ts errs l)
  unlabeled_reads (Concrete.plain (Concrete.literal Concrete.string p lit ignore val) s) h ts errs
        l =
      h false ts errs l
  unlabeled_reads (Concrete.plain (Concrete.literal Concrete.raw_string p lit ignore val) s) h ts
        errs l =
      h false ts errs l
  unlabeled_reads (Concrete.plain (Concrete.literal Concrete.character p lit ignore val) s) h ts
        errs l =
      h false ts errs l
  unlabeled_reads (Concrete.plain (Concrete.class p lit c) s) h ts errs l = h false ts errs l
  unlabeled_reads (Concrete.plain (Concrete.any p lit) s) h ts errs l = h false ts errs l
  unlabeled_reads (Concrete.plain (Concrete.paren p c p') s) h ts errs l = h false ts errs l
  unlabeled_reads (Concrete.followed_by p c s) h ts errs l = h false ts errs l
  unlabeled_reads (Concrete.not_followed_by p c s) h ts errs l = h false ts errs l

  pub label_reads :
      (p : Pos) (name : Text) (p' : Pos) (c : Prefixed)
      → PrefixedReads c
      → LabeledReads (Concrete.labeled p name p' c)
  unfolding labeled_expr expect is_one_of
  label_reads p name p' c h ts errs l =
      let colon = token Token.colon (codes ":") p' in
      let behind = prefixed_tokens c ts in
      rw
        (
          peek-held (token Token.ident name p) (colon ∷ behind) errs,
          read-held true (token Token.ident name p) (colon ∷ behind) errs (suc_line p'),
          read-held false colon behind errs (Fresh-prefixed c ts).0,
          h false ts errs l,
        )
        refl
