-- ===== src/Bootstrap/Parser/RoundTrip/Loops.antt =====
-- What the loops of sequences and choices collect.
use exp.Base.{some, List, ◌≡◌, refl, codes, ap, ◌∙◌}
use exp.Peg.Ast
use exp.Peg.Ast.{Pos, CharClassMatcher, Expression, Expressions}
use exp.Bootstrap.Token.{Token}
use exp.Bootstrap.Parser.{Parser}
use exp.Bootstrap.Parser.Expr.{collected, append_expr}
use exp.Bootstrap.Parser.Concrete
use exp.Bootstrap.Parser.Concrete.{
  on_line, token, lit_tid, Suffix, Primary, Prefixed, Labeled, Seq, Action, Choice, suffix_tokens,
  primary_tokens, prefixed_tokens, labeled_tokens, seq_tokens, action_tokens, tokens, primary_tree,
  prefixed_tree, labeled_tree, item_trees, seq_tree, action_tree, choice_trees, tree, primary_size,
  prefixed_size, labeled_size, seq_size, action_size, size, first_primary, first_labeled, first_seq,
  first_action, first, literal_text, suffixed,
}

-- What the rounds of a loop append.
abbrev pub join : Expressions → Expressions → Expressions
join es Ast.no_more = es
join es (Ast.more x xs) = join (append_expr es x) xs

pub join-more :
    (x : Expression) (es ys : Expressions) → join (Ast.more x es) ys ≡ Ast.more x (join es ys)
unfolding append_expr
join-more x es Ast.no_more = refl
join-more x es (Ast.more y ys) = join-more x (append_expr es y) ys

pub join-no_more : (es : Expressions) → join Ast.no_more es ≡ es
unfolding append_expr
join-no_more Ast.no_more = refl
join-no_more (Ast.more x xs) = join-more x Ast.no_more xs ∙ ap (Ast.more x) (join-no_more xs)

-- What the loops append to nothing is the tree.
pub collected-seq :
    (s : Seq) (q : Parser (List Token))
    → collected Ast.seq_expr
        (first_seq s)
        (codes "no expression in sequence")
        (join Ast.no_more (item_trees s))
        q
      ≡ (some (seq_tree s), q)
collected-seq (Concrete.item c) q = rw (join-no_more (item_trees (Concrete.item c))) refl
collected-seq (Concrete.items c (Concrete.item d)) q =
    rw (join-no_more (item_trees (Concrete.items c (Concrete.item d)))) refl
collected-seq (Concrete.items c (Concrete.items d s)) q =
    rw (join-no_more (item_trees (Concrete.items c (Concrete.items d s)))) refl

pub collected-choice :
    (c : Choice) (q : Parser (List Token))
    → collected Ast.choice_expr
        (first c)
        (codes "no expression in choice")
        (join Ast.no_more (choice_trees c))
        q
      ≡ (some (tree c), q)
collected-choice (Concrete.alternative a) q =
    rw (join-no_more (choice_trees (Concrete.alternative a))) refl
collected-choice (Concrete.alternatives a p (Concrete.alternative b)) q =
    rw (join-no_more (choice_trees (Concrete.alternatives a p (Concrete.alternative b)))) refl
collected-choice (Concrete.alternatives a p (Concrete.alternatives b p' c)) q =
    rw (join-no_more (choice_trees (Concrete.alternatives a p (Concrete.alternatives b p' c)))) refl
