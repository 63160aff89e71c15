-- ===== src/Bootstrap/Parser/RoundTrip.antt =====
-- The parser on the tokens of an expression as it is written, for each kind of expression at once.
pub mod First
pub mod Loops
pub mod Forms
pub mod Seqs
pub mod Skips
pub mod Rule
pub mod Grammar
use exp.Base.{
  ℕ, zero, suc, ◌+◌, ◌<◌, Bool, true, false, Option, none, some, List, [], ◌∷◌, ◌++◌, Text, ◌≡◌,
  refl, int_eq, arith, codes, ap, ◌∙◌,
}
use exp.Peg.Ast
use exp.Peg.Ast.{Pos, CharClassMatcher, Expression, Expressions}
use exp.Peg.Ast.CharClass.{has_suffix_i, without_last, new_char_class_matcher}
use exp.Bootstrap.Token
use exp.Bootstrap.Token.{Tid, Token}
use exp.Bootstrap.Parser.{Parser, ErrList, read, peek, expect, is_one_of}
use exp.Bootstrap.Parser.Expr.{
  Library, unquoted, lit_matcher_expr, collected, append_expr, primary_expr, rule_ref_expr,
  suffixed_expr, prefixed_expr, labeled_expr, seq_loop, seq_expr, action_expr, choice_loop,
  expression,
}
use exp.Bootstrap.Parser.Concrete
use exp.Bootstrap.Parser.Concrete.{
  on_line, token, lit_tid, Suffix, Primary, Prefixed, Labeled, Seq, Action, Choice, suffix_tokens,
  primary_tokens, prefixed_tokens, labeled_tokens, seq_tokens, action_tokens, tokens, primary_tree,
  prefixed_tree, labeled_tree, item_trees, seq_tree, action_tree, choice_trees, tree, primary_size,
  prefixed_size, labeled_size, seq_size, action_size, size, first_primary, first_labeled, first_seq,
  first_action, first, literal_text, suffixed,
}
use exp.Bootstrap.Parser.Source.{scan_list, held, hold, at, OnLine, read-held, peek-held}
use exp.Bootstrap.Parser.Readable.{
  PrimaryReadable, PrefixedReadable, LabeledReadable, SeqReadable, ActionReadable, Readable,
}
use exp.Bootstrap.Parser.RoundTrip.First.{
  Behind, code, slash, rparen, eol, eof, semicolon, behind_tid, Fresh, suc_line, Fresh-primary,
  Fresh-prefixed, Fresh-labeled, Fresh-seq, Fresh-action, Fresh-tokens, Fresh-behind, first-primary,
  first-labeled, first-seq, first-action, first-tokens, not_colon, has_suffix_i-text,
  without_last-text,
}
use exp.Bootstrap.Parser.RoundTrip.Loops.{
  join, join-more, join-no_more, collected-seq, collected-choice,
}
use exp.Bootstrap.Parser.RoundTrip.Forms.{
  ChoiceReads, PrimaryReads, lit_matcher_reads, literal_reads, class_reads, any_reads,
  reference_reads, paren_reads, suffixed_reads, PrefixedReads, no_prefix, plain_reads,
  followed_by_reads, not_followed_by_reads, LabeledReads, unlabeled_reads, label_reads,
}
use exp.Bootstrap.Parser.RoundTrip.Seqs.{
  no_item, SeqReads, item_reads, items_reads, seq_reads, ActionReads, no_code_reads, code_reads,
  ChoiceLoops, alternative_reads, alternatives_reads,
}

module _ (lib : Library) where
  -- The choice loop started with nothing gives the tree of the choice.
  expression_reads :
      (f : ℕ) (c : Choice)
      → ChoiceLoops lib (expression scan_list lib f) c
      → (k : Behind) (lit : Text) (p : Pos) (ts : List Token) (errs : ErrList)
      → int_eq (behind_tid k) Token.code ≡ false
      → int_eq (behind_tid k) Token.slash ≡ false
      → size c < f
      → expression scan_list lib (suc f) (at (tokens c (token (behind_tid k) lit p ∷ ts)) errs)
        ≡ some (some (tree c), at (token (behind_tid k) lit p ∷ ts) errs)
  unfolding expression
  expression_reads f c h k lit p ts errs hc hs lt =
      let behind = token (behind_tid k) lit p ∷ ts in
      rw
        (h f f (scan_list (tokens c behind)).token.pos Ast.no_more k lit p ts errs hc hs
          (omega arith) lt)
        (ap some (rw (first-tokens c behind) (collected-choice c (at behind errs))))

  mutual
    read_primary :
        (f : ℕ) (c : Primary)
        → PrimaryReadable lib c
        → primary_size c < f
        → PrimaryReads lib (expression scan_list lib f) c
    read_primary f (Concrete.literal k p lit ignore val) (h, u) lt =
        literal_reads lib (expression scan_list lib f) k p lit ignore val h u
    read_primary f (Concrete.class p lit c) h lt =
        class_reads lib (expression scan_list lib f) p lit c h
    read_primary f (Concrete.any p lit) h lt = any_reads lib (expression scan_list lib f) p lit
    read_primary f (Concrete.reference p name) h lt =
        reference_reads lib (expression scan_list lib f) p name
    read_primary zero (Concrete.paren p c p') h lt = absurd (omega arith)
    read_primary (suc f) (Concrete.paren p c p') h lt =
        paren_reads lib (expression scan_list lib (suc f)) p c p' (λ p'' ts errs.
          expression_reads f c (read_choice f c h (omega arith)) rparen (codes ")") p'' ts errs refl
            refl (omega arith))

    read_prefixed :
        (f : ℕ) (c : Prefixed)
        → PrefixedReadable lib c
        → prefixed_size c < f
        → PrefixedReads lib (expression scan_list lib f) c
    read_prefixed f (Concrete.plain c s) h lt =
        plain_reads lib (expression scan_list lib f) c s (read_primary f c h lt)
    read_prefixed f (Concrete.followed_by p c s) h lt =
        followed_by_reads lib (expression scan_list lib f) p c s (read_primary f c h lt)
    read_prefixed f (Concrete.not_followed_by p c s) h lt =
        not_followed_by_reads lib (expression scan_list lib f) p c s (read_primary f c h lt)

    read_labeled :
        (f : ℕ) (c : Labeled)
        → LabeledReadable lib c
        → labeled_size c < f
        → LabeledReads lib (expression scan_list lib f) c
    read_labeled f (Concrete.unlabeled c) h lt =
        unlabeled_reads lib (expression scan_list lib f) c (read_prefixed f c h lt)
    read_labeled f (Concrete.labeled p name p' c) h lt =
        label_reads lib (expression scan_list lib f) p name p' c (read_prefixed f c h lt)

    -- The fuel of the parentheses is that of the first call.
    read_seq :
        (f : ℕ) (s : Seq)
        → SeqReadable lib s
        → seq_size s < f
        → SeqReads lib (expression scan_list lib f) s
    read_seq f (Concrete.item c) h lt =
        item_reads lib (expression scan_list lib f) c (read_labeled f c h (omega arith))
    read_seq f (Concrete.items c s) (h, hs) lt =
        items_reads lib (expression scan_list lib f) c s (read_labeled f c h (omega arith))
          (read_seq f s hs (omega arith))

    read_action :
        (f : ℕ) (a : Action)
        → ActionReadable lib a
        → action_size a < f
        → ActionReads lib (expression scan_list lib f) a
    read_action f (Concrete.no_code s) h lt =
        no_code_reads lib (expression scan_list lib f) s (read_seq f s h lt)
    read_action f (Concrete.code s p text) h lt =
        code_reads lib (expression scan_list lib f) s p text (read_seq f s h lt)

    read_choice :
        (f : ℕ) (c : Choice)
        → Readable lib c
        → size c < f
        → ChoiceLoops lib (expression scan_list lib f) c
    read_choice f (Concrete.alternative a) h lt =
        alternative_reads lib (expression scan_list lib f) a (read_action f a h (omega arith))
    read_choice f (Concrete.alternatives a p c) (h, hc) lt =
        alternatives_reads lib (expression scan_list lib f) a p c (read_action f a h (omega arith))
          (read_choice f c hc (omega arith))
