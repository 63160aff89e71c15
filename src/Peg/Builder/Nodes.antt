-- ===== src/Peg/Builder/Nodes.antt =====
-- peg/builder/builder.go: the functions that write the nodes of the grammar. They number the nodes
-- with a code block, so each returns its node with that number. A pointer to a node is never nil.
pub mod Emits
use exp.Base.{
  ℕ, suc, Bool, Option, none, some, List, [], ◌∷◌, ◌++◌, Text, codes, if◌then◌else◌, map,
}
use exp.Peg.Ast
use exp.Peg.Ast.{Pos, PosValue, LitMatcher, CharClassMatcher, Expression, Expressions, Rule}
use exp.Peg.Builder.{
  Host, Builder, writef, writelnf, position, pos_line, run_line, func_name, bool_text,
}

-- A function that writes a node, or the nodes of a list.
abbrev pub Writer : Type 0 → Type 0
Writer A = Builder → A × Builder

abbrev pub no_nodes : Expressions → Bool
no_nodes Ast.no_more = Bool.true
no_nodes (Ast.more e es) = Bool.false

abbrev pub display_name : Option PosValue → Text
display_name none = []
display_name (some name) = name.val

module _ (h : Host) where
  -- `writef` of each element.
  abbrev pub write_each {ℓ} : {A : Type ℓ} → (A → Text) → List A → Builder → Builder
  write_each f [] b = b
  write_each f (x ∷ xs) b = write_each f xs (writef h (f x) b)

  -- A slice in a matcher, if it is not empty.
  abbrev pub write_slice {ℓ} : {A : Type ℓ} → Text → (A → Text) → List A → Builder → Builder
  write_slice open_ f [] b = b
  write_slice open_ f (x ∷ xs) b =
      writelnf h (codes "},") (write_each f (x ∷ xs) (writef h open_ b))

  abbrev pub write_head : Text → Pos → Builder → Builder
  write_head name p b = writelnf h (pos_line h p) (writelnf h (codes "&" ++ name ++ codes "{") b)

  -- `expr:` and the node in it, up to the brace.
  abbrev pub write_inner : {A : Type 0} → Writer A → Builder → A × Builder
  write_inner rec b =
      let (e, b') = rec (writef h (codes "\texpr: ") b) in (e, writelnf h (codes "},") b')

  abbrev pub class_rune : Bool → ℕ → Text
  class_rune ignore_case rn =
      (if ignore_case then h.quote_rune (h.rune_to_lower rn) else h.quote_rune rn) ++ codes ","

  abbrev pub class_table : Text → Text
  class_table cl = codes "rangeTable(" ++ h.quote cl ++ codes "),"

  abbrev pub write_action_expr : Pos → PosValue → Writer Expression → Writer Expression
  write_action_expr p code rec b =
      let ix = b.expr_index in
      let b₁ = write_head (codes "actionExpr") p b in
      let (e, b₂) = write_inner rec (writelnf h (run_line h (func_name h ix b₁)) b₁) in
      (Ast.action_expr p e code ix, b₂)

  abbrev pub write_code_node : Text → Pos → Builder → Builder
  write_code_node name p b =
      let b₁ = write_head name p b in
      writelnf h (codes "},") (writelnf h (run_line h (func_name h b.expr_index b₁)) b₁)

  abbrev pub write_and_code_expr : Pos → PosValue → Writer Expression
  write_and_code_expr p code b =
      (Ast.and_code_expr p code b.expr_index, write_code_node (codes "andCodeExpr") p b)

  abbrev pub write_not_code_expr : Pos → PosValue → Writer Expression
  write_not_code_expr p code b =
      (Ast.not_code_expr p code b.expr_index, write_code_node (codes "notCodeExpr") p b)

  abbrev pub write_and_expr : Pos → Writer Expression → Writer Expression
  write_and_expr p rec b =
      let (e, b') = write_inner rec (write_head (codes "andExpr") p b) in (Ast.and_expr p e, b')

  abbrev pub write_not_expr : Pos → Writer Expression → Writer Expression
  write_not_expr p rec b =
      let (e, b') = write_inner rec (write_head (codes "notExpr") p b) in (Ast.not_expr p e, b')

  abbrev pub write_one_or_more_expr : Pos → Writer Expression → Writer Expression
  write_one_or_more_expr p rec b =
      let (e, b') = write_inner rec (write_head (codes "oneOrMoreExpr") p b) in
      (Ast.one_or_more_expr p e, b')

  abbrev pub write_zero_or_more_expr : Pos → Writer Expression → Writer Expression
  write_zero_or_more_expr p rec b =
      let (e, b') = write_inner rec (write_head (codes "zeroOrMoreExpr") p b) in
      (Ast.zero_or_more_expr p e, b')

  abbrev pub write_zero_or_one_expr : Pos → Writer Expression → Writer Expression
  write_zero_or_one_expr p rec b =
      let (e, b') = write_inner rec (write_head (codes "zeroOrOneExpr") p b) in
      (Ast.zero_or_one_expr p e, b')

  abbrev pub write_any_matcher : PosValue → Builder → Builder
  write_any_matcher any b = writelnf h (codes "},") (
      writelnf h (codes "\t" ++ position h any.p ++ codes ",")
        (writelnf h (codes "&anyMatcher{") b))

  abbrev pub write_char_class_matcher : CharClassMatcher → Builder → Builder
  write_char_class_matcher ch b =
      let rune = class_rune ch.ignore_case in
      let b₁ =
        writelnf h (codes "\tval: " ++ h.quote ch.val ++ codes ",")
          (write_head (codes "charClassMatcher") ch.p b) in
      let b₂ = write_slice (codes "\tchars: []rune{") rune ch.chars b₁ in
      let b₃ = write_slice (codes "\tranges: []rune{") rune ch.ranges b₂ in
      let b₄ =
        write_slice (codes "\tclasses: []*unicode.RangeTable{") class_table ch.unicode_classes b₃ in
      writelnf h (codes "},") (
        writelnf h (codes "\tinverted: " ++ bool_text ch.inverted ++ codes ",")
          (writelnf h (codes "\tignoreCase: " ++ bool_text ch.ignore_case ++ codes ",") b₄))

  -- The alternatives of a choice or the expressions of a sequence, if there are any.
  abbrev pub write_nodes : Text → Bool → Writer Expressions → Writer Expressions
  write_nodes field is_empty rec b =
      if is_empty
      then (Ast.no_more, b)
      else (let (es, b') = rec (writelnf h (codes "\t" ++ field ++ codes ": []interface{}{") b) in
          (es, writelnf h (codes "\t},") b'))

  abbrev pub write_choice_expr : Pos → Bool → Writer Expressions → Writer Expression
  write_choice_expr p is_empty rec b =
      let (es, b') =
        write_nodes (codes "alternatives") is_empty rec (write_head (codes "choiceExpr") p b) in
      (Ast.choice_expr p es, writelnf h (codes "},") b')

  abbrev pub write_seq_expr : Pos → Bool → Writer Expressions → Writer Expression
  write_seq_expr p is_empty rec b =
      let (es, b') = write_nodes (codes "exprs") is_empty rec (write_head (codes "seqExpr") p b) in
      (Ast.seq_expr p es, writelnf h (codes "},") b')

  -- A field of text, if it is not empty.
  abbrev pub write_field : Text → Text → Builder → Builder
  write_field field [] b = b
  write_field field (c ∷ cs) b =
      writelnf h (codes "\t" ++ field ++ codes ": " ++ h.quote (c ∷ cs) ++ codes ",") b

  abbrev pub write_labeled_expr : Pos → PosValue → Writer Expression → Writer Expression
  write_labeled_expr p label rec b =
      let (e, b') =
        write_inner rec
          (write_field (codes "label") label.val (write_head (codes "labeledExpr") p b)) in
      (Ast.labeled_expr p label e, b')

  abbrev pub lit_text : LitMatcher → Text
  lit_text lit = if lit.ignore_case then h.to_lower lit.val else lit.val

  abbrev pub write_lit_matcher : LitMatcher → Builder → Builder
  write_lit_matcher lit b = writelnf h (codes "},") (
      writelnf h (codes "\tignoreCase: " ++ bool_text lit.ignore_case ++ codes ",") (
        writelnf h (codes "\tval: " ++ h.quote (lit_text lit) ++ codes ",")
          (write_head (codes "litMatcher") lit.p b)))

  abbrev pub write_rule_ref_expr : Pos → PosValue → Builder → Builder
  write_rule_ref_expr p name b =
      writelnf h (codes "},")
        (write_field (codes "name") name.val (write_head (codes "ruleRefExpr") p b))

  abbrev pub next_index : Builder → Builder
  next_index b = record b { expr_index = suc b.expr_index }

  unfoldable mutual
    pub write_expr : Expression → Writer Expression
    write_expr (Ast.action_expr p e c ix) b = write_action_expr p c (write_expr e) (next_index b)
    write_expr (Ast.and_code_expr p c ix) b = write_and_code_expr p c (next_index b)
    write_expr (Ast.and_expr p e) b = write_and_expr p (write_expr e) (next_index b)
    write_expr (Ast.any_matcher a) b = (Ast.any_matcher a, write_any_matcher a (next_index b))
    write_expr (Ast.char_class_matcher c) b =
        (Ast.char_class_matcher c, write_char_class_matcher c (next_index b))
    write_expr (Ast.choice_expr p es) b =
        write_choice_expr p (no_nodes es) (write_exprs es) (next_index b)
    write_expr (Ast.labeled_expr p l e) b = write_labeled_expr p l (write_expr e) (next_index b)
    write_expr (Ast.lit_matcher l) b = (Ast.lit_matcher l, write_lit_matcher l (next_index b))
    write_expr (Ast.not_code_expr p c ix) b = write_not_code_expr p c (next_index b)
    write_expr (Ast.not_expr p e) b = write_not_expr p (write_expr e) (next_index b)
    write_expr (Ast.one_or_more_expr p e) b = write_one_or_more_expr p (write_expr e) (next_index b)
    write_expr (Ast.rule_ref_expr p n) b =
        (Ast.rule_ref_expr p n, write_rule_ref_expr p n (next_index b))
    write_expr (Ast.seq_expr p es) b =
        write_seq_expr p (no_nodes es) (write_exprs es) (next_index b)
    write_expr (Ast.zero_or_more_expr p e) b =
        write_zero_or_more_expr p (write_expr e) (next_index b)
    write_expr (Ast.zero_or_one_expr p e) b = write_zero_or_one_expr p (write_expr e) (next_index b)

    pub write_exprs : Expressions → Writer Expressions
    write_exprs Ast.no_more b = (Ast.no_more, b)
    write_exprs (Ast.more e es) b =
        let (e', b₁) = write_expr e b in let (es', b₂) = write_exprs es b₁ in (Ast.more e' es', b₂)

  unfoldable pub write_rule : Rule → Writer Rule
  unfolding write_expr write_exprs
  write_rule r b =
      let b₁ = writelnf h (codes "{") (record b { expr_index = 0; rule_name = r.name.val }) in
      let b₂ = writelnf h (codes "\tname: " ++ h.quote r.name.val ++ codes ",") b₁ in
      let b₃ = write_field (codes "displayName") (display_name r.display_name) b₂ in
      let (e, b₄) = write_inner (write_expr r.expr) (writelnf h (pos_line h r.p) b₃) in
      (record r { expr = e }, b₄)

  unfoldable pub write_rules : List Rule → Writer (List Rule)
  unfolding write_rule
  write_rules [] b = ([], b)
  write_rules (r ∷ rs) b =
      let (r', b₁) = write_rule r b in let (rs', b₂) = write_rules rs b₁ in (r' ∷ rs', b₂)

  unfoldable pub write_grammar : List Rule → Writer (List Rule)
  unfolding write_rules
  write_grammar rules b =
      let (rs, b') =
        write_rules rules
          (writelnf h (codes "\trules: []*rule{") (writelnf h (codes "var g = &grammar {") b)) in
      (rs, writelnf h (codes "}") (writelnf h (codes "\t},") b'))
