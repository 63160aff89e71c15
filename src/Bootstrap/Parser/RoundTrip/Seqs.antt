-- ===== src/Bootstrap/Parser/RoundTrip/Seqs.antt =====
-- The parser on the tokens of sequences, actions and choices.
use exp.Base.{
  ℕ, zero, suc, ◌<◌, false, Option, none, some, List, ◌∷◌, Text, ◌≡◌, refl, int_eq, arith, codes,
  ap,
}
use exp.Peg.Ast
use exp.Peg.Ast.{Pos, CharClassMatcher, Expression, Expressions}
use exp.Bootstrap.Token
use exp.Bootstrap.Token.{Tid, Token}
use exp.Bootstrap.Parser.{Parser, ErrList}
use exp.Bootstrap.Parser.Expr.{
  Library, collected, append_expr, primary_expr, suffixed_expr, prefixed_expr, labeled_expr,
  seq_loop, seq_expr, action_expr, choice_loop,
}
use exp.Bootstrap.Parser.Concrete
use exp.Bootstrap.Parser.Concrete.{
  on_line, token, lit_tid, Suffix, Primary, Prefixed, Labeled, Seq, Action, Choice, suffix_tokens,
  primary_tokens, prefixed_tokens, labeled_tokens, seq_tokens, action_tokens, tokens, primary_tree,
  prefixed_tree, labeled_tree, item_trees, seq_tree, action_tree, choice_trees, tree, primary_size,
  prefixed_size, labeled_size, seq_size, action_size, size, first_primary, first_labeled, first_seq,
  first_action, first, literal_text, suffixed,
}
use exp.Bootstrap.Parser.Source.{scan_list, at, read-held}
use exp.Bootstrap.Parser.RoundTrip.First.{
  Behind, code, slash, rparen, eol, eof, semicolon, behind_tid, Fresh-seq, Fresh-tokens,
  Fresh-behind, first-seq,
}
use exp.Bootstrap.Parser.RoundTrip.Loops.{join, collected-seq}
use exp.Bootstrap.Parser.RoundTrip.Forms.{LabeledReads}

module _ (lib : Library)
    (rec : Parser (List Token) → Option (Option Expression × Parser (List Token))) where
  -- Where a sequence ends, no expression is read.
  pub no_item :
      (k : Behind) (lit : Text) (p : Pos) (ts : List Token) (errs : ErrList)
      → labeled_expr scan_list lib rec (at (token (behind_tid k) lit p ∷ ts) errs)
        ≡ some (none, at (token (behind_tid k) lit p ∷ ts) errs)
  unfolding labeled_expr prefixed_expr suffixed_expr primary_expr
  no_item code lit p ts errs = refl
  no_item slash lit p ts errs = refl
  no_item rparen lit p ts errs = refl
  no_item eol lit p ts errs = refl
  no_item eof lit p ts errs = refl
  no_item semicolon lit p ts errs = refl

  abbrev pub SeqReads : Seq → Type 0
  SeqReads s =
      (f : ℕ) (pos : Pos) (es : Expressions) (k : Behind) (lit : Text) (p : Pos) (ts : List Token)
      (errs : ErrList)
      → seq_size s < f
      → seq_loop scan_list lib f rec pos es
          (at (seq_tokens s (token (behind_tid k) lit p ∷ ts)) errs)
        ≡ some (
            collected Ast.seq_expr pos (codes "no expression in sequence") (join es (item_trees s))
              (at (token (behind_tid k) lit p ∷ ts) errs))

  pub item_reads : (c : Labeled) → LabeledReads lib rec c → SeqReads (Concrete.item c)
  unfolding seq_loop
  item_reads c h zero pos es k lit p ts errs lt = absurd (omega arith)
  item_reads c h (suc zero) pos es k lit p ts errs lt = absurd (omega arith)
  item_reads c h (suc (suc f)) pos es k lit p ts errs lt =
      rw
        (
          h (token (behind_tid k) lit p ∷ ts) errs (Fresh-behind k lit p ts),
          no_item k lit p ts errs,
        )
        refl

  pub items_reads :
      (c : Labeled) (s : Seq) → LabeledReads lib rec c → SeqReads s → SeqReads (Concrete.items c s)
  unfolding seq_loop
  items_reads c s h hs zero pos es k lit p ts errs lt = absurd (omega arith)
  items_reads c s h hs (suc f) pos es k lit p ts errs lt =
      let behind = token (behind_tid k) lit p ∷ ts in
      rw
        (
          h (seq_tokens s behind) errs (Fresh-seq s behind),
          hs f pos (append_expr es (labeled_tree c)) k lit p ts errs (omega arith),
        )
        refl

  -- The sequence loop started with nothing gives the tree of the sequence.
  pub seq_reads :
      (s : Seq)
      → SeqReads s
      → (f : ℕ) (k : Behind) (lit : Text) (p : Pos) (ts : List Token) (errs : ErrList)
      → seq_size s < f
      → seq_expr scan_list lib f rec (at (seq_tokens s (token (behind_tid k) lit p ∷ ts)) errs)
        ≡ some (some (seq_tree s), at (token (behind_tid k) lit p ∷ ts) errs)
  unfolding seq_expr
  seq_reads s h f k lit p ts errs lt =
      let behind = token (behind_tid k) lit p ∷ ts in
      rw (h f (scan_list (seq_tokens s behind)).token.pos Ast.no_more k lit p ts errs lt)
        (ap some (rw (first-seq s behind) (collected-seq s (at behind errs))))

  abbrev pub ActionReads : Action → Type 0
  ActionReads a =
      (f : ℕ) (k : Behind) (lit : Text) (p : Pos) (ts : List Token) (errs : ErrList)
      → int_eq (behind_tid k) Token.code ≡ false
      → action_size a < f
      → action_expr scan_list lib f rec
          (at (action_tokens a (token (behind_tid k) lit p ∷ ts)) errs)
        ≡ some (some (action_tree a), at (token (behind_tid k) lit p ∷ ts) errs)

  pub no_code_reads : (s : Seq) → SeqReads s → ActionReads (Concrete.no_code s)
  unfolding action_expr
  no_code_reads s h f k lit p ts errs e lt = rw (seq_reads s h f k lit p ts errs lt, e) refl

  pub code_reads :
      (s : Seq) (p' : Pos) (text : Text) → SeqReads s → ActionReads (Concrete.code s p' text)
  unfolding action_expr
  code_reads s p' text h f k lit p ts errs e lt =
      let behind = token (behind_tid k) lit p ∷ ts in
      rw
        (
          seq_reads s h f code text p' behind errs lt,
          first-seq s (token Token.code text p' ∷ behind),
          read-held false (token Token.code text p') behind errs (Fresh-behind k lit p ts).0,
        )
        refl

  abbrev pub ChoiceLoops : Choice → Type 0
  ChoiceLoops c =
      (g f : ℕ) (pos : Pos) (es : Expressions) (k : Behind) (lit : Text) (p : Pos) (ts : List Token)
      (errs : ErrList)
      → int_eq (behind_tid k) Token.code ≡ false
      → int_eq (behind_tid k) Token.slash ≡ false
      → size c < suc g
      → size c < f
      → choice_loop scan_list lib g f rec pos es
          (at (tokens c (token (behind_tid k) lit p ∷ ts)) errs)
        ≡ some (
            collected Ast.choice_expr pos (codes "no expression in choice")
              (join es (choice_trees c)) (at (token (behind_tid k) lit p ∷ ts) errs))

  pub alternative_reads : (a : Action) → ActionReads a → ChoiceLoops (Concrete.alternative a)
  unfolding choice_loop
  alternative_reads a h zero f pos es k lit p ts errs hc hs lg lf = absurd (omega arith)
  alternative_reads a h (suc g) f pos es k lit p ts errs hc hs lg lf =
      rw (h f k lit p ts errs hc (omega arith), hs) refl

  pub alternatives_reads :
      (a : Action) (p' : Pos) (c : Choice)
      → ActionReads a
      → ChoiceLoops c
      → ChoiceLoops (Concrete.alternatives a p' c)
  unfolding choice_loop
  alternatives_reads a p' c ha h zero f pos es k lit p ts errs hc hs lg lf = absurd (omega arith)
  alternatives_reads a p' c ha h (suc g) f pos es k lit p ts errs hc hs lg lf =
      let behind = tokens c (token (behind_tid k) lit p ∷ ts) in
      rw
        (
          ha f slash (codes "/") p' behind errs refl (omega arith),
          read-held false (token Token.slash (codes "/") p') behind errs
              (Fresh-tokens c (token (behind_tid k) lit p ∷ ts)).0,
          h g f pos (append_expr es (action_tree a)) k lit p ts errs hc hs (omega arith)
              (omega arith),
        )
        refl
