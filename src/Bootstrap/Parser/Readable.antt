-- ===== src/Bootstrap/Parser/Readable.antt =====
-- What the library must read as it is written, for the parser to give the tree of a form.
use exp.Base.{false, some, ◌≡◌}
use exp.Peg.Ast.CharClass.{has_suffix_i, new_char_class_matcher}
use exp.Bootstrap.Parser.Expr.{Library, unquoted}
use exp.Bootstrap.Parser.Concrete
use exp.Bootstrap.Parser.Concrete.{
  on_line, token, lit_tid, Suffix, Primary, Prefixed, Labeled, Seq, Action, Choice, suffix_tokens,
  primary_tokens, prefixed_tokens, labeled_tokens, seq_tokens, action_tokens, tokens, primary_tree,
  prefixed_tree, labeled_tree, item_trees, seq_tree, action_tree, choice_trees, tree, primary_size,
  prefixed_size, labeled_size, seq_size, action_size, size, first_primary, first_labeled, first_seq,
  first_action, first, literal_text, suffixed,
}

module _ (lib : Library) where
  -- The library reads the texts of the literals and of the classes as the form says.
  abbrev mutual
    pub PrimaryReadable : Primary → Type 0
    PrimaryReadable (Concrete.literal k p lit ignore val) =
        (has_suffix_i lit ≡ false) × (lib.unquote lit ≡ unquoted val)
    PrimaryReadable (Concrete.class p lit c) =
        new_char_class_matcher lib.strings (on_line p) lit ≡ some c
    PrimaryReadable (Concrete.any p lit) = Unit {0}
    PrimaryReadable (Concrete.reference p name) = Unit {0}
    PrimaryReadable (Concrete.paren p c p') = Readable c

    pub PrefixedReadable : Prefixed → Type 0
    PrefixedReadable (Concrete.plain c s) = PrimaryReadable c
    PrefixedReadable (Concrete.followed_by p c s) = PrimaryReadable c
    PrefixedReadable (Concrete.not_followed_by p c s) = PrimaryReadable c

    pub LabeledReadable : Labeled → Type 0
    LabeledReadable (Concrete.unlabeled c) = PrefixedReadable c
    LabeledReadable (Concrete.labeled p name p' c) = PrefixedReadable c

    pub SeqReadable : Seq → Type 0
    SeqReadable (Concrete.item c) = LabeledReadable c
    SeqReadable (Concrete.items c s) = LabeledReadable c × SeqReadable s

    pub ActionReadable : Action → Type 0
    ActionReadable (Concrete.no_code s) = SeqReadable s
    ActionReadable (Concrete.code s p text) = SeqReadable s

    pub Readable : Choice → Type 0
    Readable (Concrete.alternative a) = ActionReadable a
    Readable (Concrete.alternatives a p c) = ActionReadable a × Readable c
