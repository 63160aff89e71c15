-- ===== src/Peg/Runtime/Syntax.antt =====
-- peg/builder/static_code.go: the grammar as the generated parser holds it. A code block is a
-- function of the generated file, and is named here by a number that the environment interprets.
use exp.Base.{ℕ, Bool, List, Text}

pub record Position : Type 0 where
  pub line : ℕ
  pub col : ℕ
  pub offset : ℕ

-- `val` holds the runes that a range over the string yields.
pub record LitMatcher : Type 0 where
  pub pos : Position
  pub val : List ℕ
  pub ignore_case : Bool

-- `ranges` is flat, a low and a high bound in turn; `classes` names Unicode tables.
pub record CharClassMatcher : Type 0 where
  pub pos : Position
  pub val : Text
  pub chars : List ℕ
  pub ranges : List ℕ
  pub classes : List ℕ
  pub ignore_case : Bool
  pub inverted : Bool

-- The concrete types that `parseExpr` tells apart; `unknown` is a value of any other type, by the
-- name that `%T` prints, such as the `nil` that the builder writes for an absent node.
mutual
  pub data Expr : Type 0 where
    action_expr : Position → Expr → ℕ → Expr
    and_code_expr : Position → ℕ → Expr
    and_expr : Position → Expr → Expr
    any_matcher : Position → Expr
    char_class_matcher : CharClassMatcher → Expr
    choice_expr : Position → Exprs → Expr
    labeled_expr : Position → Text → Expr → Expr
    lit_matcher : LitMatcher → Expr
    not_code_expr : Position → ℕ → Expr
    not_expr : Position → Expr → Expr
    one_or_more_expr : Position → Expr → Expr
    rule_ref_expr : Position → Text → Expr
    seq_expr : Position → Exprs → Expr
    zero_or_more_expr : Position → Expr → Expr
    zero_or_one_expr : Position → Expr → Expr
    unknown : Text → Expr

  pub data Exprs : Type 0 where
    end : Exprs
    more : Expr → Exprs → Exprs

pub record Rule : Type 0 where
  pub pos : Position
  pub name : Text
  pub display_name : Text
  pub expr : Expr

pub record Grammar : Type 0 where
  pub pos : Position
  pub rules : List Rule
