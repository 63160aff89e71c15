-- ===== src/Peg/Ast.antt =====
-- peg/ast/ast.go: the syntax tree of a grammar.
mod Samples
pub mod CharClass
use exp.Base.{ℕ, Bool, false, Option, none, List, [], Text}

pub record Pos : Type 0 where
  pub filename : Text
  pub line : ℕ
  pub col : ℕ
  pub off : ℕ

-- `posValue`, the fields of `CodeBlock`, `Identifier`, `StringLit` and `AnyMatcher`.
pub record PosValue : Type 0 where
  pub p : Pos
  pub val : Text

pub record LitMatcher : Type 0 where
  pub p : Pos
  pub val : Text
  pub ignore_case : Bool

-- `ranges` holds pairs of a low and a high bound.
pub record CharClassMatcher : Type 0 where
  pub p : Pos
  pub val : Text
  pub ignore_case : Bool
  pub inverted : Bool
  pub chars : List ℕ
  pub ranges : List ℕ
  pub unicode_classes : List Text

-- The expressions. Where an expression is `nil` in the code, a function gives `none`. The last
-- number of a node with a code block is its `FuncIx`, which the builder sets.
mutual
  pub data Expression : Type 0 where
    choice_expr : Pos → Expressions → Expression
    action_expr : Pos → Expression → PosValue → ℕ → Expression
    seq_expr : Pos → Expressions → Expression
    labeled_expr : Pos → PosValue → Expression → Expression
    and_expr : Pos → Expression → Expression
    not_expr : Pos → Expression → Expression
    zero_or_one_expr : Pos → Expression → Expression
    zero_or_more_expr : Pos → Expression → Expression
    one_or_more_expr : Pos → Expression → Expression
    rule_ref_expr : Pos → PosValue → Expression
    and_code_expr : Pos → PosValue → ℕ → Expression
    not_code_expr : Pos → PosValue → ℕ → Expression
    lit_matcher : LitMatcher → Expression
    char_class_matcher : CharClassMatcher → Expression
    any_matcher : PosValue → Expression

  pub data Expressions : Type 0 where
    no_more : Expressions
    more : Expression → Expressions → Expressions

-- `Pos()` of an expression.
unfoldable pub pos_of : Expression → Pos
pos_of (choice_expr p es) = p
pos_of (action_expr p e c ix) = p
pos_of (seq_expr p es) = p
pos_of (labeled_expr p l e) = p
pos_of (and_expr p e) = p
pos_of (not_expr p e) = p
pos_of (zero_or_one_expr p e) = p
pos_of (zero_or_more_expr p e) = p
pos_of (one_or_more_expr p e) = p
pos_of (rule_ref_expr p n) = p
pos_of (and_code_expr p c ix) = p
pos_of (not_code_expr p c ix) = p
pos_of (lit_matcher l) = l.p
pos_of (char_class_matcher c) = c.p
pos_of (any_matcher a) = a.p

pub record Rule : Type 0 where
  pub p : Pos
  pub name : PosValue
  pub display_name : Option PosValue
  pub expr : Expression

pub record Grammar : Type 0 where
  pub p : Pos
  pub init : Option PosValue
  pub rules : List Rule
