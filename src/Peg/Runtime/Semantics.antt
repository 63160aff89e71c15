-- ===== src/Peg/Runtime/Semantics.antt =====
-- Parsing expressions as a relation between an expression, an offset of the input and a result: the
-- offset behind the match, or none. It has no parser, no stacks, no values and no errors. What code
-- blocks say is left open: a predicate may hold or not.
pub mod At
pub mod Leaves
pub mod Loops
pub mod Labels
pub mod Sound
pub mod Whole
use exp.Base.{
  ℕ, ◌+◌, ◌≡◌, Bool, true, false, Option, none, some, List, [], ◌∷◌, Text, ◌==◌, drop,
  if◌then◌else◌, not,
}
use exp.Peg.Runtime.Syntax
use exp.Peg.Runtime.Syntax.{Position, CharClassMatcher, Expr, Exprs, Rule}
use exp.Peg.Runtime.State.{Env, rune_error}
use exp.Peg.Runtime.Matchers.{Found, hit, miss, in_class, folded}

module _ (env : Env) (input : Text) (rules : Text → Option Rule) where
  -- The rune at an offset, and the offset behind it.
  abbrev pub rune_at : ℕ → ℕ
  rune_at o = (env.decode_rune (drop o input)).0

  abbrev pub behind : ℕ → ℕ
  behind o = o + (env.decode_rune (drop o input)).1

  -- The runes of a literal, from an offset.
  abbrev pub literal_result : Bool → List ℕ → ℕ → Option ℕ
  literal_result ignore [] o = some o
  literal_result ignore (want ∷ wants) o =
      let rest = literal_result ignore wants (behind o) in
      elim (folded env ignore (rune_at o) == want) [ true ↦ rest | false ↦ none ]

  -- The result of a class whose characters, ranges and tables have the rune or not.
  abbrev pub class_end : Bool → ℕ → Option ℕ
  class_end true o = some (behind o)
  class_end false o = none

  mutual
    pub data Parses : Expr → ℕ → Option ℕ → Type 0 where
      any_rune :
          {pos : Position} {o : ℕ}
          → (rune_at o == rune_error) ≡ false
          → Parses (Syntax.any_matcher pos) o (some (behind o))
      no_rune :
          {pos : Position} {o : ℕ}
          → (rune_at o == rune_error) ≡ true
          → Parses (Syntax.any_matcher pos) o none
      class_has :
          {chr : CharClassMatcher} {o : ℕ}
          → in_class env chr (folded env chr.ignore_case (rune_at o)) ≡ hit
          → Parses (Syntax.char_class_matcher chr) o (class_end (not chr.inverted) o)
      class_has_not :
          {chr : CharClassMatcher} {o : ℕ}
          → in_class env chr (folded env chr.ignore_case (rune_at o)) ≡ miss
          → Parses (Syntax.char_class_matcher chr) o (class_end chr.inverted o)
      literal :
          {lit : Syntax.LitMatcher} {o : ℕ}
          → Parses (Syntax.lit_matcher lit) o (literal_result lit.ignore_case lit.val o)
      sequence :
          {pos : Position} {es : Exprs} {o : ℕ} {r : Option ℕ}
          → ParsesAll es o r
          → Parses (Syntax.seq_expr pos es) o r
      choice :
          {pos : Position} {es : Exprs} {o : ℕ} {r : Option ℕ}
          → ParsesAny es o r
          → Parses (Syntax.choice_expr pos es) o r
      labeled :
          {pos : Position} {label : Text} {e : Expr} {o : ℕ} {r : Option ℕ}
          → Parses e o r
          → Parses (Syntax.labeled_expr pos label e) o r
      action :
          {pos : Position} {run : ℕ} {e : Expr} {o : ℕ} {r : Option ℕ}
          → Parses e o r
          → Parses (Syntax.action_expr pos e run) o r
      follows :
          {pos : Position} {e : Expr} {o o' : ℕ}
          → Parses e o (some o')
          → Parses (Syntax.and_expr pos e) o (some o)
      not_follows :
          {pos : Position} {e : Expr} {o : ℕ}
          → Parses e o none
          → Parses (Syntax.and_expr pos e) o none
      excluded :
          {pos : Position} {e : Expr} {o o' : ℕ}
          → Parses e o (some o')
          → Parses (Syntax.not_expr pos e) o none
      not_excluded :
          {pos : Position} {e : Expr} {o : ℕ}
          → Parses e o none
          → Parses (Syntax.not_expr pos e) o (some o)
      and_holds : {pos : Position} {run o : ℕ} → Parses (Syntax.and_code_expr pos run) o (some o)
      and_fails : {pos : Position} {run o : ℕ} → Parses (Syntax.and_code_expr pos run) o none
      not_holds : {pos : Position} {run o : ℕ} → Parses (Syntax.not_code_expr pos run) o (some o)
      not_fails : {pos : Position} {run o : ℕ} → Parses (Syntax.not_code_expr pos run) o none
      once :
          {pos : Position} {e : Expr} {o o' : ℕ}
          → Parses e o (some o')
          → Parses (Syntax.zero_or_one_expr pos e) o (some o')
      absent :
          {pos : Position} {e : Expr} {o : ℕ}
          → Parses e o none
          → Parses (Syntax.zero_or_one_expr pos e) o (some o)
      many :
          {pos : Position} {e : Expr} {o o' : ℕ}
          → Repeats e o o'
          → Parses (Syntax.zero_or_more_expr pos e) o (some o')
      some_more :
          {pos : Position} {e : Expr} {o o' o'' : ℕ}
          → Parses e o (some o')
          → Repeats e o' o''
          → Parses (Syntax.one_or_more_expr pos e) o (some o'')
      not_one :
          {pos : Position} {e : Expr} {o : ℕ}
          → Parses e o none
          → Parses (Syntax.one_or_more_expr pos e) o none
      reference :
          {pos : Position} {name : Text} {rule : Rule} {o : ℕ} {r : Option ℕ}
          → rules name ≡ some rule
          → Parses (rule.expr) o r
          → Parses (Syntax.rule_ref_expr pos name) o r
      undefined_rule :
          {pos : Position} {name : Text} {o : ℕ}
          → rules name ≡ none
          → Parses (Syntax.rule_ref_expr pos name) o none

    -- As often as it matches: what is behind the last match does not match.
    pub data Repeats : Expr → ℕ → ℕ → Type 0 where
      done : {e : Expr} {o : ℕ} → Parses e o none → Repeats e o o
      next : {e : Expr} {o o' o'' : ℕ} → Parses e o (some o') → Repeats e o' o'' → Repeats e o o''

    pub data ParsesAll : Exprs → ℕ → Option ℕ → Type 0 where
      all_done : {o : ℕ} → ParsesAll Syntax.end o (some o)
      all_next :
          {e : Expr} {es : Exprs} {o o' : ℕ} {r : Option ℕ}
          → Parses e o (some o')
          → ParsesAll es o' r
          → ParsesAll (Syntax.more e es) o r
      all_stop :
          {e : Expr} {es : Exprs} {o : ℕ} → Parses e o none → ParsesAll (Syntax.more e es) o none

    -- The first alternative that matches.
    pub data ParsesAny : Exprs → ℕ → Option ℕ → Type 0 where
      none_left : {o : ℕ} → ParsesAny Syntax.end o none
      any_here :
          {e : Expr} {es : Exprs} {o o' : ℕ}
          → Parses e o (some o')
          → ParsesAny (Syntax.more e es) o (some o')
      any_later :
          {e : Expr} {es : Exprs} {o : ℕ} {r : Option ℕ}
          → Parses e o none
          → ParsesAny es o r
          → ParsesAny (Syntax.more e es) o r
