-- ===== src/Peg/Builder/Lowered.antt =====
-- peg/builder/builder.go: the grammar of a generated parser without the writing of it: its nodes as
-- values, with the names of the functions that they call, and the texts that stand for them.
use exp.Base.{ℕ, suc, ◌+◌, Bool, List, [], ◌∷◌, ◌++◌, Text, codes, if◌then◌else◌, map}
use exp.Peg.Ast
use exp.Peg.Ast.{Pos, PosValue, LitMatcher, CharClassMatcher, Expression, Expressions, Rule}
use exp.Peg.Builder.{Host, position, pos_line, run_line, name_of, bool_text}
use exp.Peg.Builder.Nodes.{lit_text, class_table, display_name}

-- The nodes in an expression, itself included.
abbrev mutual
  pub size : Expression → ℕ
  size (Ast.choice_expr p es) = suc (sizes es)
  size (Ast.action_expr p e c ix) = suc (size e)
  size (Ast.seq_expr p es) = suc (sizes es)
  size (Ast.labeled_expr p l e) = suc (size e)
  size (Ast.and_expr p e) = suc (size e)
  size (Ast.not_expr p e) = suc (size e)
  size (Ast.zero_or_one_expr p e) = suc (size e)
  size (Ast.zero_or_more_expr p e) = suc (size e)
  size (Ast.one_or_more_expr p e) = suc (size e)
  size (Ast.rule_ref_expr p n) = 1
  size (Ast.and_code_expr p c ix) = 1
  size (Ast.not_code_expr p c ix) = 1
  size (Ast.lit_matcher l) = 1
  size (Ast.char_class_matcher c) = 1
  size (Ast.any_matcher a) = 1

  pub sizes : Expressions → ℕ
  sizes Ast.no_more = 0
  sizes (Ast.more e es) = size e + sizes es

-- The expression with its nodes numbered from the left, from `k` + 1.
abbrev mutual
  pub number : ℕ → Expression → Expression
  number k (Ast.choice_expr p es) = Ast.choice_expr p (numbers (suc k) es)
  number k (Ast.action_expr p e c ix) = Ast.action_expr p (number (suc k) e) c (suc k)
  number k (Ast.seq_expr p es) = Ast.seq_expr p (numbers (suc k) es)
  number k (Ast.labeled_expr p l e) = Ast.labeled_expr p l (number (suc k) e)
  number k (Ast.and_expr p e) = Ast.and_expr p (number (suc k) e)
  number k (Ast.not_expr p e) = Ast.not_expr p (number (suc k) e)
  number k (Ast.zero_or_one_expr p e) = Ast.zero_or_one_expr p (number (suc k) e)
  number k (Ast.zero_or_more_expr p e) = Ast.zero_or_more_expr p (number (suc k) e)
  number k (Ast.one_or_more_expr p e) = Ast.one_or_more_expr p (number (suc k) e)
  number k (Ast.rule_ref_expr p n) = Ast.rule_ref_expr p n
  number k (Ast.and_code_expr p c ix) = Ast.and_code_expr p c (suc k)
  number k (Ast.not_code_expr p c ix) = Ast.not_code_expr p c (suc k)
  number k (Ast.lit_matcher l) = Ast.lit_matcher l
  number k (Ast.char_class_matcher c) = Ast.char_class_matcher c
  number k (Ast.any_matcher a) = Ast.any_matcher a

  pub numbers : ℕ → Expressions → Expressions
  numbers k Ast.no_more = Ast.no_more
  numbers k (Ast.more e es) = Ast.more (number k e) (numbers (k + size e) es)

abbrev pub number_rule : Rule → Rule
number_rule r = record r { expr = number 0 r.expr }

-- The nodes of the generated parser; a text of a node with a code block names its function.
mutual
  pub data Node : Type 0 where
    action_expr : Pos → Text → Node → Node
    and_code_expr : Pos → Text → Node
    and_expr : Pos → Node → Node
    any_matcher : Pos → Node
    char_class_matcher : CharClassMatcher → Node
    choice_expr : Pos → Nodes → Node
    labeled_expr : Pos → Text → Node → Node
    lit_matcher : LitMatcher → Node
    not_code_expr : Pos → Text → Node
    not_expr : Pos → Node → Node
    one_or_more_expr : Pos → Node → Node
    rule_ref_expr : Pos → Text → Node
    seq_expr : Pos → Nodes → Node
    zero_or_more_expr : Pos → Node → Node
    zero_or_one_expr : Pos → Node → Node

  pub data Nodes : Type 0 where
    end : Nodes
    more : Node → Nodes → Nodes

module _ (h : Host) where
  abbrev pub lower_literal : LitMatcher → LitMatcher
  lower_literal lit = record lit { val = lit_text h lit }

  abbrev pub lower_rune : Bool → ℕ → ℕ
  lower_rune ignore_case rn = if ignore_case then h.rune_to_lower rn else rn

  abbrev pub lower_class : CharClassMatcher → CharClassMatcher
  lower_class ch = record ch {
    chars = map (lower_rune ch.ignore_case) ch.chars;
    ranges = map (lower_rune ch.ignore_case) ch.ranges;
  }

  module _ (rule : Text) where
    abbrev mutual
      pub lower : Expression → Node
      lower (Ast.choice_expr p es) = choice_expr p (lowers es)
      lower (Ast.action_expr p e c ix) = action_expr p (name_of h rule ix) (lower e)
      lower (Ast.seq_expr p es) = seq_expr p (lowers es)
      lower (Ast.labeled_expr p l e) = labeled_expr p l.val (lower e)
      lower (Ast.and_expr p e) = and_expr p (lower e)
      lower (Ast.not_expr p e) = not_expr p (lower e)
      lower (Ast.zero_or_one_expr p e) = zero_or_one_expr p (lower e)
      lower (Ast.zero_or_more_expr p e) = zero_or_more_expr p (lower e)
      lower (Ast.one_or_more_expr p e) = one_or_more_expr p (lower e)
      lower (Ast.rule_ref_expr p n) = rule_ref_expr p n.val
      lower (Ast.and_code_expr p c ix) = and_code_expr p (name_of h rule ix)
      lower (Ast.not_code_expr p c ix) = not_code_expr p (name_of h rule ix)
      lower (Ast.lit_matcher l) = lit_matcher (lower_literal l)
      lower (Ast.char_class_matcher c) = char_class_matcher (lower_class c)
      lower (Ast.any_matcher a) = any_matcher a.p

      pub lowers : Expressions → Nodes
      lowers Ast.no_more = end
      lowers (Ast.more e es) = more (lower e) (lowers es)

  -- The texts of a node, each as it is given to the writer.
  abbrev pub line : Text → Text
  line t = t ++ codes "\n"

  abbrev pub head : Text → Pos → List Text
  head name p = line (codes "&" ++ name ++ codes "{") ∷ line (pos_line h p) ∷ []

  abbrev pub close : List Text
  close = line (codes "},") ∷ []

  abbrev pub inner : List Text → List Text
  inner ts = codes "\texpr: " ∷ ts ++ close

  abbrev pub field : Text → Text → List Text
  field name [] = []
  field name (c ∷ cs) =
      line (codes "\t" ++ name ++ codes ": " ++ h.quote (c ∷ cs) ++ codes ",") ∷ []

  abbrev pub slice_field {ℓ} : {A : Type ℓ} → Text → (A → Text) → List A → List Text
  slice_field open_ f [] = []
  slice_field open_ f (x ∷ xs) = open_ ∷ map f (x ∷ xs) ++ close

  abbrev pub rune_text : ℕ → Text
  rune_text rn = h.quote_rune rn ++ codes ","

  abbrev pub flag_field : Text → Bool → List Text
  flag_field name b = line (codes "\t" ++ name ++ codes ": " ++ bool_text b ++ codes ",") ∷ []

  abbrev pub class_lines : CharClassMatcher → List Text
  class_lines ch =
      head (codes "charClassMatcher") ch.p
      ++ line (codes "\tval: " ++ h.quote ch.val ++ codes ",") ∷ []
      ++ (slice_field (codes "\tchars: []rune{") rune_text ch.chars
          ++ (slice_field (codes "\tranges: []rune{") rune_text ch.ranges
              ++ (slice_field (codes "\tclasses: []*unicode.RangeTable{") (class_table h)
                    ch.unicode_classes
                  ++ (flag_field (codes "ignoreCase") ch.ignore_case
                      ++ flag_field (codes "inverted") ch.inverted
                      ++ close))))

  abbrev pub literal_lines : LitMatcher → List Text
  literal_lines lit =
      head (codes "litMatcher") lit.p
      ++ line (codes "\tval: " ++ h.quote lit.val ++ codes ",") ∷ []
      ++ flag_field (codes "ignoreCase") lit.ignore_case
      ++ close

  abbrev pub list_field : Text → Nodes → List Text → List Text
  list_field name end ts = []
  list_field name (more n ns) ts =
      line (codes "\t" ++ name ++ codes ": []interface{}{") ∷ ts ++ line (codes "\t},") ∷ []

  abbrev mutual
    pub lines : Node → List Text
    lines (action_expr p name n) =
        head (codes "actionExpr") p ++ line (run_line h name) ∷ inner (lines n)
    lines (and_code_expr p name) = head (codes "andCodeExpr") p ++ line (run_line h name) ∷ close
    lines (and_expr p n) = head (codes "andExpr") p ++ inner (lines n)
    lines (any_matcher p) =
        line (codes "&anyMatcher{") ∷ line (codes "\t" ++ position h p ++ codes ",") ∷ close
    lines (char_class_matcher c) = class_lines c
    lines (choice_expr p ns) =
        head (codes "choiceExpr") p ++ list_field (codes "alternatives") ns (all_lines ns) ++ close
    lines (labeled_expr p label n) =
        head (codes "labeledExpr") p ++ field (codes "label") label ++ inner (lines n)
    lines (lit_matcher l) = literal_lines l
    lines (not_code_expr p name) = head (codes "notCodeExpr") p ++ line (run_line h name) ∷ close
    lines (not_expr p n) = head (codes "notExpr") p ++ inner (lines n)
    lines (one_or_more_expr p n) = head (codes "oneOrMoreExpr") p ++ inner (lines n)
    lines (rule_ref_expr p name) =
        head (codes "ruleRefExpr") p ++ field (codes "name") name ++ close
    lines (seq_expr p ns) =
        head (codes "seqExpr") p ++ list_field (codes "exprs") ns (all_lines ns) ++ close
    lines (zero_or_more_expr p n) = head (codes "zeroOrMoreExpr") p ++ inner (lines n)
    lines (zero_or_one_expr p n) = head (codes "zeroOrOneExpr") p ++ inner (lines n)

    pub all_lines : Nodes → List Text
    all_lines end = []
    all_lines (more n ns) = lines n ++ all_lines ns

  -- The texts of a rule, whose nodes are numbered, and of the grammar.
  -- A rule with this node as its expression.
  abbrev pub rule_text : Rule → Node → List Text
  rule_text r n =
      line (codes "{")
        ∷ line (codes "\tname: " ++ h.quote r.name.val ++ codes ",")
        ∷ field (codes "displayName") (display_name r.display_name)
      ++ line (pos_line h r.p) ∷ inner (lines n)

  abbrev pub rule_lines : Rule → List Text
  rule_lines r = rule_text r (lower r.name.val r.expr)

  abbrev pub rules_lines : List Rule → List Text
  rules_lines [] = []
  rules_lines (r ∷ rs) = rule_lines r ++ rules_lines rs

  abbrev pub grammar_lines : List Rule → List Text
  grammar_lines rs =
      line (codes "var g = &grammar {") ∷ line (codes "\trules: []*rule{") ∷ rules_lines rs
      ++ line (codes "\t},") ∷ line (codes "}") ∷ []
