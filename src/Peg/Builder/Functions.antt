-- ===== src/Peg/Builder/Functions.antt =====
-- peg/builder/builder.go: the functions that stand for the code blocks of a grammar, each with the
-- labels in its scope, without the stack of the builder.
pub mod Emits
use exp.Base.{ℕ, Bool, true, false, Option, none, some, List, [], ◌∷◌, ◌++◌, ◌≡◌, Text, drop, codes}
use exp.Peg.Ast
use exp.Peg.Ast.{PosValue, Expression, Expressions, Rule}
use exp.Peg.Ast.CharClass.{without_last}
use exp.Peg.Builder.{Host, name_of}
use exp.Peg.Builder.Lowered.{line}
use exp.Peg.Builder.Code.{
  drop_newline, drop_last_newline, joined, typed, on_func, call_func, stack_arg,
}

-- A function of a rule: a predicate or an action, its number, its arguments and its code.
pub record Func : Type 0 where
  pub is_pred : Bool
  pub ix : ℕ
  pub args : List Text
  pub code : Text

-- The labels that an expression leaves to what stands behind it: those of a sequence and of
-- operators, but not those in an alternative or under a label.
abbrev mutual
  pub labels : Expression → List Text
  labels (Ast.choice_expr p es) = []
  labels (Ast.action_expr p e c ix) = labels e
  labels (Ast.seq_expr p es) = all_labels es
  labels (Ast.labeled_expr p l e) = l.val ∷ []
  labels (Ast.and_expr p e) = labels e
  labels (Ast.not_expr p e) = labels e
  labels (Ast.zero_or_one_expr p e) = labels e
  labels (Ast.zero_or_more_expr p e) = labels e
  labels (Ast.one_or_more_expr p e) = labels e
  labels (Ast.rule_ref_expr p n) = []
  labels (Ast.and_code_expr p c ix) = []
  labels (Ast.not_code_expr p c ix) = []
  labels (Ast.lit_matcher l) = []
  labels (Ast.char_class_matcher c) = []
  labels (Ast.any_matcher a) = []

  pub all_labels : Expressions → List Text
  all_labels Ast.no_more = []
  all_labels (Ast.more e es) = labels e ++ all_labels es

-- The functions of an expression in a scope. An alternative and the expression under a label begin
-- with an empty scope.
abbrev mutual
  pub functions : List Text → Expression → List Func
  functions scope (Ast.choice_expr p es) = alternative_functions es
  functions scope (Ast.action_expr p e c ix) =
      functions scope e
      ++ record { is_pred = false; ix = ix; args = scope ++ labels e; code = c.val } ∷ []
  functions scope (Ast.seq_expr p es) = seq_functions scope es
  functions scope (Ast.labeled_expr p l e) = functions [] e
  functions scope (Ast.and_expr p e) = functions scope e
  functions scope (Ast.not_expr p e) = functions scope e
  functions scope (Ast.zero_or_one_expr p e) = functions scope e
  functions scope (Ast.zero_or_more_expr p e) = functions scope e
  functions scope (Ast.one_or_more_expr p e) = functions scope e
  functions scope (Ast.rule_ref_expr p n) = []
  functions scope (Ast.and_code_expr p c ix) =
      record { is_pred = true; ix = ix; args = scope; code = c.val } ∷ []
  functions scope (Ast.not_code_expr p c ix) =
      record { is_pred = true; ix = ix; args = scope; code = c.val } ∷ []
  functions scope (Ast.lit_matcher l) = []
  functions scope (Ast.char_class_matcher c) = []
  functions scope (Ast.any_matcher a) = []

  pub alternative_functions : Expressions → List Func
  alternative_functions Ast.no_more = []
  alternative_functions (Ast.more e es) = functions [] e ++ alternative_functions es

  pub seq_functions : List Text → Expressions → List Func
  seq_functions scope Ast.no_more = []
  seq_functions scope (Ast.more e es) = functions scope e ++ seq_functions (scope ++ labels e) es

-- A text in braces.
abbrev pub InBraces : Text → Type 0
InBraces val = (body : Text) × (val ≡ 123 ∷ body ++ 125 ∷ [])

-- Each code block is in braces.
abbrev mutual
  pub Braced : Expression → Type 0
  Braced (Ast.choice_expr p es) = AllBraced es
  Braced (Ast.action_expr p e c ix) = Braced e × InBraces c.val
  Braced (Ast.seq_expr p es) = AllBraced es
  Braced (Ast.labeled_expr p l e) = Braced e
  Braced (Ast.and_expr p e) = Braced e
  Braced (Ast.not_expr p e) = Braced e
  Braced (Ast.zero_or_one_expr p e) = Braced e
  Braced (Ast.zero_or_more_expr p e) = Braced e
  Braced (Ast.one_or_more_expr p e) = Braced e
  Braced (Ast.rule_ref_expr p n) = Unit
  Braced (Ast.and_code_expr p c ix) = InBraces c.val
  Braced (Ast.not_code_expr p c ix) = InBraces c.val
  Braced (Ast.lit_matcher l) = Unit
  Braced (Ast.char_class_matcher c) = Unit
  Braced (Ast.any_matcher a) = Unit

  pub AllBraced : Expressions → Type 0
  AllBraced Ast.no_more = Unit
  AllBraced (Ast.more e es) = Braced e × AllBraced es

abbrev pub RulesBraced : List Rule → Type 0
RulesBraced [] = Unit
RulesBraced (r ∷ rs) = Braced r.expr × RulesBraced rs

abbrev pub InitBraced : Option PosValue → Type 0
InitBraced none = Unit
InitBraced (some init) = InBraces init.val

-- What stands between the first and the last byte.
unfoldable pub between : Text → Text
unfolding without_last
between val = without_last (drop 1 val)

module _ (h : Host) where
  -- The text of a function of a rule, and that of the function that calls it.
  abbrev pub func_lines : Text → Text → Func → List Text
  func_lines recv rule f =
      let name = name_of h rule f.ix in
      line h (
        on_func f.is_pred recv name (typed (joined (λ a. a) f.args))
          (drop_last_newline (drop_newline (between f.code))))
      ∷ line h (call_func f.is_pred name (joined (stack_arg h) f.args))
      ∷ []

  abbrev pub all_func_lines : Text → Text → List Func → List Text
  all_func_lines recv rule [] = []
  all_func_lines recv rule (f ∷ fs) = func_lines recv rule f ++ all_func_lines recv rule fs

  abbrev pub rules_func_lines : Text → List Rule → List Text
  rules_func_lines recv [] = []
  rules_func_lines recv (r ∷ rs) =
      all_func_lines recv r.name.val (functions [] r.expr) ++ rules_func_lines recv rs

  abbrev pub init_lines : Option PosValue → List Text
  init_lines none = []
  init_lines (some init) = line h (between init.val) ∷ []
